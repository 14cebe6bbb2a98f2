-- ===== src/Model/View.antt =====
-- The SQLite file as what a reader of it can find out: a value for every key, whatever order the rows
-- stand in; and what the two transactions of rust-server/model.rs do to it.
use csqtt_android.Shared.{
  ℕ, ◌+◌, ◌≡◌, refl, ◌∙◌, Bool, true, false, ◌||◌, List, [], ◌∷◌, Option, none, some, arith,
  if◌then◌else◌, Bool-cases, inl, inr, same_bytes, Name, get, contains_key, insert_all, retain,
  IsMap, All, or, map_option, contains_key-get, get-insert, get-retain, get-insert_all,
}
use csqtt_android.Model.{
  ClientDevice, PasswordEntry, LocalProxyProfile, Database, default, any_profile,
}
use csqtt_android.Model.Disk.{
  Disk, TrafficCounters, TrafficSnapshot, ProfileRow, key_logging_active, flag_text, meta_rows,
  write_logging, stored_device, device_rows, profile_rows, write_database_snapshot, count_password,
  count_device, or_else,
}

-- The keys of `meta` that the program uses.
unfoldable pub is_setting : Name → Bool
is_setting key = same_bytes key_logging_active key || contains_key (meta_rows default) key

pub record DiskView : Type 0 where
  pub meta : Name → Option Name
  pub counters : Option TrafficCounters
  pub passwords : Name → Option PasswordEntry
  pub devices : Name → Option ClientDevice
  pub profiles : Name → Option ProfileRow
  pub active : Option Name

unfoldable pub view : Disk → DiskView
view disk = record {
  meta = λ key. if is_setting key then get disk.meta key else none;
  counters = disk.counters;
  passwords = get disk.passwords;
  devices = get disk.devices;
  profiles = get disk.local_proxy_profiles;
  active = disk.local_proxy_state;
}

-- A database whose maps have each key once, its devices under their ids.
pub record IsDatabase (db : Database) : Type 0 where
  pub passwords : IsMap db.passwords
  pub devices : IsMap db.devices
  pub keyed : All (λ (entry : Name × ClientDevice). entry.1.device_id ≡ entry.0) db.devices
  pub profiles : IsMap (profile_rows 0 db.local_proxy.profiles)

pub record IsTraffic (t : TrafficSnapshot) : Type 0 where
  pub passwords : IsMap t.passwords
  pub devices : IsMap t.devices

-- What a snapshot makes a setting.
unfoldable pub setting : Database → Name → Option Name
setting db key =
    if same_bytes key_logging_active key
    then map_option flag_text db.logging_active
    else get (meta_rows db) key

-- What a snapshot leaves in the file, whatever was there.
unfoldable pub snapshot_view : Database → DiskView
snapshot_view db = record {
  meta = setting db;
  counters = some (record { up_bytes = db.main_up_bytes; down_bytes = db.main_down_bytes });
  passwords = get db.passwords;
  devices = λ id. map_option stored_device (get db.devices id);
  profiles = get (profile_rows 0 db.local_proxy.profiles);
  active = some db.local_proxy.active_profile_id;
}

-- A row with its new counters, where there are some.
abbrev pub counted {ℓ} :
    {V : Type ℓ} → (TrafficCounters → V → V) → Option TrafficCounters → Option V → Option V
counted count none row = row
counted count (some c) row = map_option (count c) row

-- Traffic counts rows that are there, and makes none.
unfoldable pub traffic_view : TrafficSnapshot → DiskView → DiskView
traffic_view t v = record v {
  counters = or_else t.main v.counters;
  passwords = λ key. counted count_password (get t.passwords key) (v.passwords key);
  devices = λ id. counted count_device (get t.devices id) (v.devices id);
}

pub get-write_logging :
    (active : Option Bool) (m : List (Name × Name)) (key : Name)
    → get (write_logging active m) key
      ≡ (if same_bytes key_logging_active key then map_option flag_text active else get m key)
unfolding write_logging
get-write_logging none m key =
    get-retain m _ key ∙ elim (Bool-cases (same_bytes key_logging_active key)) [
      | inl e ↦ rw (e) refl
      | inr e ↦ rw (e) refl
    ]
get-write_logging (some active) m key = get-insert m key_logging_active (flag_text active) key

pub meta_rows-IsMap : (db : Database) → IsMap (meta_rows db)
unfolding contains_key same_bytes
meta_rows-IsMap db = (refl, (refl, (refl, (refl, (refl, (refl, tt))))))

same_keys :
    (db : Database) (key : Name)
    → contains_key (meta_rows default) key ≡ contains_key (meta_rows db) key
unfolding contains_key
same_keys db key = refl

setting_kept :
    (db : Database) (m : List (Name × Name)) (key : Name)
    → (if is_setting key
        then get (write_logging db.logging_active (insert_all (meta_rows db) m)) key
        else none)
      ≡ setting db key
unfolding is_setting setting
setting_kept db m key = elim (Bool-cases (same_bytes key_logging_active key)) [
  | inl e ↦
      rw (e) (get-write_logging db.logging_active (insert_all (meta_rows db) m) key ∙ rw (e) refl)
  | inr e ↦ rw (e) (rows key e)
]
  where
    rows :
        (key : Name)
        → same_bytes key_logging_active key ≡ false
        → (if contains_key (meta_rows default) key
            then get (write_logging db.logging_active (insert_all (meta_rows db) m)) key
            else none)
          ≡ get (meta_rows db) key
    rows key e =
        rw
          (
            get-write_logging db.logging_active (insert_all (meta_rows db) m) key,
            e,
            get-insert_all (meta_rows db) m key (meta_rows-IsMap db),
            same_keys db key,
            contains_key-get (meta_rows db) key,
          )
          (go (get (meta_rows db) key))
      where
        go :
            (o : Option Name)
            → (if elim o [ none ↦ false | some v ↦ true ] then or o (get m key) else none) ≡ o
        go none = refl
        go (some v) = refl

pub get-device_rows :
    (m : List (Name × ClientDevice)) (id : Name)
    → All (λ (entry : Name × ClientDevice). entry.1.device_id ≡ entry.0) m
    → get (device_rows m) id ≡ map_option stored_device (get m id)
unfolding get device_rows
get-device_rows [] id keyed = refl
get-device_rows ((j, d) ∷ m) id (e, keyed) = ground (arith, e, get-device_rows m id keyed)

pub device_rows-IsMap :
    (m : List (Name × ClientDevice))
    → All (λ (entry : Name × ClientDevice). entry.1.device_id ≡ entry.0) m
    → IsMap m
    → IsMap (device_rows m)
unfolding device_rows
device_rows-IsMap [] keyed d = tt
device_rows-IsMap ((j, d) ∷ m) (e, keyed) (fresh, distinct) = (
  ground (
    arith,
    e,
    fresh,
    contains_key-get m j,
    contains_key-get (device_rows m) j,
    get-device_rows m j keyed,
  ),
  device_rows-IsMap m keyed distinct,
)

pub kept_row {ℓ} :
    {V : Type ℓ} (rows m : List (Name × V)) (keep : Name → Bool) (k : Name)
    → IsMap rows
    → (get rows k ≡ none → keep k ≡ false)
    → get (insert_all rows (retain keep m)) k ≡ get rows k
kept_row rows m keep k d h =
    ground (arith, get-insert_all rows (retain keep m) k d, get-retain m keep k, h)

pub any_profile-get :
    (i : ℕ) (profiles : List LocalProxyProfile) (id : Name)
    → get (profile_rows i profiles) id ≡ none
    → any_profile profiles id ≡ false
unfolding get profile_rows any_profile
any_profile-get i [] id h = refl
any_profile-get i (p ∷ profiles) id h = ground (arith, h, any_profile-get (i + 1) profiles id)

-- A snapshot leaves the same in the file, whatever was there.
pub view-write_database_snapshot :
    (disk : Disk) (db : Database)
    → IsDatabase db
    → view (write_database_snapshot disk db) ≡ snapshot_view db
unfolding view write_database_snapshot snapshot_view
view-write_database_snapshot disk db v = λ i. record {
  meta = λ key. setting_kept db disk.meta key i;
  counters = some (record { up_bytes = db.main_up_bytes; down_bytes = db.main_down_bytes });
  passwords = λ k.
      kept_row db.passwords disk.passwords (contains_key db.passwords) k v.passwords
        (λ e. contains_key-get db.passwords k ∙ rw (e) refl) i;
  devices = λ k. devices k i;
  profiles = λ k.
      kept_row (profile_rows 0 db.local_proxy.profiles) disk.local_proxy_profiles
        (any_profile db.local_proxy.profiles) k v.profiles
        (any_profile-get 0 db.local_proxy.profiles k) i;
  active = some db.local_proxy.active_profile_id;
}
  where
    devices :
        (k : Name)
        → get
            (insert_all (device_rows db.devices) (retain (contains_key db.devices) disk.devices))
            k
          ≡ map_option stored_device (get db.devices k)
    devices k =
        kept_row (device_rows db.devices) disk.devices (contains_key db.devices) k
          (device_rows-IsMap db.devices v.keyed v.devices)
          (λ e.
            ground (arith, e, get-device_rows db.devices k v.keyed, contains_key-get db.devices k))
        ∙ get-device_rows db.devices k v.keyed
