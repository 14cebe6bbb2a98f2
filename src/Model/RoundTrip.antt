-- ===== src/Model/RoundTrip.antt =====
-- A snapshot is read back as it was written (rust-server/model.rs).
use csqtt_android.Shared.{
  ◌<◌, ◌≡◌, refl, sym, subst, ap, map, ◌∙◌, Bool, true, false, List, [], Option, none, some, arith,
  same_bytes, Name, get, insert_all, IsMap, map_option, get-insert_all, insert_all-IsMap,
  retain-IsMap, ascii, parse_u8-decimal, insert-IsMap,
}
use csqtt_android.Model.{Database, default, restart_hours, normalize}
use csqtt_android.Model.Disk.{
  Disk, key_main_password, key_main_device_id, key_dns, key_auto_restart, key_logging_active,
  flag_text, meta_rows, write_logging, stored_device, device_rows, profile_rows,
  write_database_snapshot,
}
use csqtt_android.Model.Load.{read_meta, read_counters, read_database_snapshot}
use csqtt_android.Model.View.{
  IsDatabase, view, snapshot_view, view-write_database_snapshot, get-write_logging, meta_rows-IsMap,
}
use csqtt_android.Model.Settings.{
  read_meta_part, main_password-IsSettingOf, main_device_id-IsSettingOf, dns-IsSettingOf,
  auto_restart-IsSettingOf, logging_active-IsSettingOf, parsed_hours, IsSettingOf,
}
use csqtt_android.Model.Profiles.{with_port, IsActiveOf, normalize-profiles, normalize-IsActiveOf}
use csqtt_android.Model.Order.{profiles_of-order_rows}

-- A file whose tables have each key once.
pub record IsDisk (disk : Disk) : Type 0 where
  pub meta : IsMap disk.meta
  pub passwords : IsMap disk.passwords
  pub devices : IsMap disk.devices
  pub profiles : IsMap disk.local_proxy_profiles

-- `read` is what a load after the snapshot `db` should find.
pub record IsReadOf (db read : Database) : Type 0 where
  pub main_password : read.main_password ≡ db.main_password
  pub main_device_id : read.main_device_id ≡ db.main_device_id
  pub dns : read.dns ≡ db.dns
  pub hours : read.auto_restart_interval_hours ≡ some (restart_hours db)
  pub up_bytes : read.main_up_bytes ≡ db.main_up_bytes
  pub down_bytes : read.main_down_bytes ≡ db.main_down_bytes
  pub logging : read.logging_active ≡ db.logging_active
  pub no_secrets : (read.admin_id ≡ []) × (read.bot_token ≡ [])
  pub passwords : (k : Name) → get read.passwords k ≡ get db.passwords k
  pub devices : (id : Name) → get read.devices id ≡ map_option stored_device (get db.devices id)
  pub profiles : read.local_proxy.profiles ≡ map with_port db.local_proxy.profiles
  pub active : IsActiveOf db.local_proxy read.local_proxy.active_profile_id

write_logging-IsMap :
    (active : Option Bool) (m : List (Name × Name)) → IsMap m → IsMap (write_logging active m)
unfolding write_logging
write_logging-IsMap none m d = retain-IsMap m _ d
write_logging-IsMap (some active) m d = insert-IsMap m key_logging_active (flag_text active) d

-- A field that a setting of the snapshot alone decides.
read_setting {ℓ} :
    {X : Type ℓ} (part : Database → X) (key : Name) (change : Name → X → X)
    → IsSettingOf part key change
    → same_bytes key_logging_active key ≡ false
    → (disk : Disk) (db : Database) → IsMap disk.meta
    → (value : Name) → get (meta_rows db) key ≡ some value
    → part
        (read_meta (write_logging db.logging_active (insert_all (meta_rows db) disk.meta)) default)
      ≡ change value (part default)
read_setting part key change h other disk db d value e =
    read_meta_part part key change h _ default
      (write_logging-IsMap db.logging_active _ (insert_all-IsMap (meta_rows db) disk.meta d))
    ∙ rw
        (
          get-write_logging db.logging_active (insert_all (meta_rows db) disk.meta) key,
          other,
          get-insert_all (meta_rows db) disk.meta key (meta_rows-IsMap db),
          e,
        )
        refl

read_logging :
    (active : Option Bool) (m : List (Name × Name))
    → IsMap m
    → (read_meta (write_logging active m) default).logging_active ≡ active
unfolding same_bytes
read_logging active m d =
    read_meta_part (λ db. db.logging_active) key_logging_active _ logging_active-IsSettingOf _
      default (write_logging-IsMap active m d)
    ∙ rw (get-write_logging active m key_logging_active) (go active)
  where
    go :
        (active : Option Bool)
        → elim (map_option flag_text active) as (λ _. Option Bool) [
          | none ↦ none
          | some value ↦ some (same_bytes value (ascii "1"))
        ]
          ≡ active
    go none = refl
    go (some true) = refl
    go (some false) = refl

read_table {ℓ} :
    {V : Type ℓ} (table : List (Name × V)) (k : Name)
    → IsMap table
    → get (insert_all table []) k ≡ get table k
unfolding get
read_table table k d = ground (arith, get-insert_all table [] k d)

-- What a snapshot wrote is read back: passwords and devices under every key, the profiles in their
-- order, the main counters and the other settings; but devices without their session, the restart
-- interval with its default filled in, and neither the administrator's id nor the bot's token, which are read from
-- elsewhere. The profiles and the id of the active one are not read back as they were but normalised:
-- a profile of port 0 has port 45,000, every other its own port, and an active id that no profile has
-- is cleared. The maps of the database and the tables have each key once, devices stand under their
-- ids, and the interval is a `u8`.
pub read_database_snapshot-write_database_snapshot :
    (disk : Disk) (db : Database)
    → IsDisk disk
    → IsDatabase db
    → restart_hours db < 256
    → IsReadOf db (read_database_snapshot (write_database_snapshot disk db))
unfolding read_database_snapshot read_counters write_database_snapshot get same_bytes view
    snapshot_view
read_database_snapshot-write_database_snapshot disk db t v h = record {
  main_password =
      read_setting (λ db. db.main_password) key_main_password _ main_password-IsSettingOf refl disk
        db t.meta _ refl;
  main_device_id =
      read_setting (λ db. db.main_device_id) key_main_device_id _ main_device_id-IsSettingOf refl
        disk db t.meta _ refl;
  dns = read_setting (λ db. db.dns) key_dns _ dns-IsSettingOf refl disk db t.meta _ refl;
  hours =
      read_setting (λ db. db.auto_restart_interval_hours) key_auto_restart _
        auto_restart-IsSettingOf refl disk db t.meta _ refl
      ∙ rw (parsed_hours, parse_u8-decimal (restart_hours db) h) refl;
  up_bytes = refl;
  down_bytes = refl;
  logging = read_logging db.logging_active _ (insert_all-IsMap (meta_rows db) disk.meta t.meta);
  no_secrets = (refl, refl);
  passwords = λ k.
      read_table _ k (insert_all-IsMap db.passwords _ (retain-IsMap disk.passwords _ t.passwords))
      ∙ ap (λ w. w.passwords k) file;
  devices = λ k.
      read_table _ k
        (insert_all-IsMap (device_rows db.devices) _ (retain-IsMap disk.devices _ t.devices))
      ∙ ap (λ w. w.devices k) file;
  profiles = ap (λ p. p.profiles) proxy ∙ normalize-profiles db.local_proxy;
  active =
      subst (IsActiveOf db.local_proxy) (sym (ap (λ p. p.active_profile_id) proxy))
        (normalize-IsActiveOf db.local_proxy);
}
  where
    file : view (write_database_snapshot disk db) ≡ snapshot_view db
    file = view-write_database_snapshot disk db v

    proxy :
        (read_database_snapshot (write_database_snapshot disk db)).local_proxy
        ≡ normalize db.local_proxy
    proxy =
        ap (λ profiles. normalize (record db.local_proxy { profiles = profiles }))
          (profiles_of-order_rows db.local_proxy.profiles _
            (insert_all-IsMap (profile_rows 0 db.local_proxy.profiles) _
              (retain-IsMap disk.local_proxy_profiles _ t.profiles))
            v.profiles (λ k. ap (λ w. w.profiles k) file))
