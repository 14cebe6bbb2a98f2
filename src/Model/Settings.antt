-- ===== src/Model/Settings.antt =====
-- Reading the `meta` table row by row gives each setting its row's value (rust-server/model.rs).
use csqtt_android.Shared.{
  ℕ, ◌≡◌, refl, List, [], ◌∷◌, Option, none, some, arith, if◌then◌else◌, Bool-cases, inl, inr,
  same_bytes, Name, get, IsMap, contains_key-get, eq_of_same_bytes, ascii, parse_u8,
}
use csqtt_android.Model.{Database}
use csqtt_android.Model.Disk.{
  key_main_password, key_main_device_id, key_dns, key_auto_restart, key_admin_id, key_bot_token,
  key_logging_active,
}
use csqtt_android.Model.Load.{read_meta_row, read_meta}

-- A part of the database that only the rows of one key change.
abbrev pub IsSettingOf {ℓ} : {X : Type ℓ} → (Database → X) → Name → (Name → X → X) → Type ℓ
IsSettingOf part key change =
    (db : Database) (k value : Name)
    → part (read_meta_row db k value)
      ≡ (if same_bytes k key then change value (part db) else part db)

pub read_meta_part {ℓ} :
    {X : Type ℓ} (part : Database → X) (key : Name) (change : Name → X → X)
    → IsSettingOf part key change
    → (m : List (Name × Name)) (db : Database) → IsMap m
    → part (read_meta m db)
      ≡ elim (get m key) [ none ↦ part db | some value ↦ change value (part db) ]
unfolding read_meta get
read_meta_part part key change h [] db d = refl
read_meta_part part key change h ((k, value) ∷ m) db (fresh, d) =
    elim (Bool-cases (same_bytes k key)) [
      | inl e ↦ ground (
        arith,
        e,
        fresh,
        eq_of_same_bytes k key e,
        contains_key-get m key,
        h db k value,
        read_meta_part part key change h m (read_meta_row db k value) d,
      )
      | inr e ↦
          ground (
            arith,
            e,
            h db k value,
            read_meta_part part key change h m (read_meta_row db k value) d,
          )
    ]

pub main_password-IsSettingOf :
    IsSettingOf (λ db. db.main_password) key_main_password (λ value old. value)
unfolding read_meta_row
main_password-IsSettingOf db k value = ground arith

pub main_device_id-IsSettingOf :
    IsSettingOf (λ db. db.main_device_id) key_main_device_id (λ value old. value)
unfolding read_meta_row same_bytes
main_device_id-IsSettingOf db k value = ground (arith, eq_of_same_bytes k key_main_password)

pub dns-IsSettingOf : IsSettingOf (λ db. db.dns) key_dns (λ value old. value)
unfolding read_meta_row same_bytes
dns-IsSettingOf db k value =
    ground (arith, eq_of_same_bytes k key_main_password, eq_of_same_bytes k key_main_device_id)

abbrev pub parsed_hours : Name → Option ℕ → Option ℕ
parsed_hours value old = elim (parse_u8 value) [ some hours ↦ some hours | none ↦ old ]

pub auto_restart-IsSettingOf :
    IsSettingOf (λ db. db.auto_restart_interval_hours) key_auto_restart parsed_hours
unfolding read_meta_row same_bytes
auto_restart-IsSettingOf db k value = ground (
  arith,
  eq_of_same_bytes k key_main_password,
  eq_of_same_bytes k key_main_device_id,
  eq_of_same_bytes k key_dns,
)

pub logging_active-IsSettingOf :
    IsSettingOf
      (λ db. db.logging_active)
      key_logging_active
      (λ value old. some (same_bytes value (ascii "1")))
unfolding read_meta_row same_bytes
logging_active-IsSettingOf db k value = ground (
  arith,
  eq_of_same_bytes k key_main_password,
  eq_of_same_bytes k key_main_device_id,
  eq_of_same_bytes k key_dns,
  eq_of_same_bytes k key_auto_restart,
  eq_of_same_bytes k key_admin_id,
  eq_of_same_bytes k key_bot_token,
)
