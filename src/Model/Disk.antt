-- ===== src/Model/Disk.antt =====
-- The SQLite file of rust-server/model.rs: its tables, and the transactions that write and read them.
-- A statement that fails is left out: a transaction is committed whole or not at all.
use csqtt_android.Shared.{
  ℕ, ◌+◌, Bool, true, false, ◌&&◌, List, [], ◌∷◌, Option, none, some, if◌then◌else◌, same_bytes,
  Name, contains_key, insert, insert_all, update, retain, ascii, decimal,
}
use csqtt_android.Model.{
  ClientDevice, PasswordEntry, LocalProxyProfile, Database, restart_hours, any_profile,
}

-- `TrafficCounters`
pub record TrafficCounters : Type 0 where
  pub up_bytes : ℕ
  pub down_bytes : ℕ

pub record TrafficSnapshot : Type 0 where
  pub main : Option TrafficCounters
  pub passwords : List (Name × TrafficCounters)
  pub devices : List (Name × TrafficCounters)

-- A row of `local_proxy_profiles`, with its `sort_order`.
pub record ProfileRow : Type 0 where
  pub sort_order : ℕ
  pub profile : LocalProxyProfile

-- The tables: `counters` and `local_proxy_state` have at most the row with id 1.
pub record Disk : Type 0 where
  pub meta : List (Name × Name)
  pub counters : Option TrafficCounters
  pub passwords : List (Name × PasswordEntry)
  pub devices : List (Name × ClientDevice)
  pub local_proxy_profiles : List (Name × ProfileRow)
  pub local_proxy_state : Option Name

abbrev pub key_main_password : Name
key_main_password = ascii "main_password"

abbrev pub key_main_device_id : Name
key_main_device_id = ascii "main_device_id"

abbrev pub key_dns : Name
key_dns = ascii "dns"

abbrev pub key_auto_restart : Name
key_auto_restart = ascii "auto_restart_interval_hours"

abbrev pub key_admin_id : Name
key_admin_id = ascii "admin_id"

abbrev pub key_bot_token : Name
key_bot_token = ascii "bot_token"

abbrev pub key_logging_active : Name
key_logging_active = ascii "logging_active"

-- The rows that the snapshot's loop writes into `meta`.
abbrev pub meta_rows : Database → List (Name × Name)
meta_rows db =
    (key_main_password, db.main_password)
    ∷ (key_main_device_id, db.main_device_id)
    ∷ (key_dns, db.dns)
    ∷ (key_auto_restart, decimal (restart_hours db))
    ∷ (key_admin_id, db.admin_id)
    ∷ (key_bot_token, db.bot_token)
    ∷ []

abbrev pub flag_text : Bool → Name
flag_text active = if active then ascii "1" else ascii "0"

unfoldable pub write_logging : Option Bool → List (Name × Name) → List (Name × Name)
write_logging (some active) meta = insert key_logging_active (flag_text active) meta
write_logging none meta =
    retain (λ key. if same_bytes key_logging_active key then false else true) meta

-- A device is stored without its session.
abbrev pub stored_device : ClientDevice → ClientDevice
stored_device device = record device { last_session_salt = []; last_generation_id = 0 }

-- The rows of `db.devices.values()`.
unfoldable pub device_rows : List (Name × ClientDevice) → List (Name × ClientDevice)
device_rows [] = []
device_rows ((id, device) ∷ devices) =
    (device.device_id, stored_device device) ∷ device_rows devices

-- The rows of `db.local_proxy.profiles.iter().enumerate()`.
unfoldable pub profile_rows : ℕ → List LocalProxyProfile → List (Name × ProfileRow)
profile_rows sort_order [] = []
profile_rows sort_order (p ∷ profiles) =
    (p.id, record { sort_order = sort_order; profile = p }) ∷ profile_rows (sort_order + 1) profiles

unfoldable pub write_database_snapshot : Disk → Database → Disk
write_database_snapshot disk db = record {
  meta = write_logging db.logging_active (insert_all (meta_rows db) disk.meta);
  counters = some (record { up_bytes = db.main_up_bytes; down_bytes = db.main_down_bytes });
  passwords = insert_all db.passwords (retain (contains_key db.passwords) disk.passwords);
  devices = insert_all (device_rows db.devices) (retain (contains_key db.devices) disk.devices);
  local_proxy_profiles =
      insert_all (profile_rows 0 db.local_proxy.profiles)
        (retain (any_profile db.local_proxy.profiles) disk.local_proxy_profiles);
  local_proxy_state = some db.local_proxy.active_profile_id;
}

abbrev pub count_password : TrafficCounters → PasswordEntry → PasswordEntry
count_password c entry = record entry { up_bytes = c.up_bytes; down_bytes = c.down_bytes }

abbrev pub count_device : TrafficCounters → ClientDevice → ClientDevice
count_device c device = record device { up_bytes = c.up_bytes; down_bytes = c.down_bytes }

-- The loops `UPDATE … SET up_bytes, down_bytes WHERE key`.
unfoldable pub update_all {ℓ} :
    {V : Type ℓ}
    → (TrafficCounters → V → V)
    → List (Name × TrafficCounters)
    → List (Name × V)
    → List (Name × V)
update_all count [] table = table
update_all count ((k, c) ∷ traffic) table = update_all count traffic (update k (count c) table)

abbrev pub is_none : Option TrafficCounters → Bool
is_none none = true
is_none (some c) = false

abbrev pub null : List (Name × TrafficCounters) → Bool
null [] = true
null (x ∷ m) = false

-- `TrafficSnapshot::is_empty`
unfoldable pub no_traffic : TrafficSnapshot → Bool
no_traffic traffic = is_none traffic.main && (null traffic.passwords && null traffic.devices)

abbrev pub or_else : Option TrafficCounters → Option TrafficCounters → Option TrafficCounters
or_else none old = old
or_else (some c) old = some c

unfoldable pub write_traffic : Disk → TrafficSnapshot → Disk
write_traffic disk traffic = if no_traffic traffic then disk else record disk {
  counters = or_else traffic.main disk.counters;
  passwords = update_all count_password traffic.passwords disk.passwords;
  devices = update_all count_device traffic.devices disk.devices;
}

unfoldable pub merge_from : TrafficSnapshot → TrafficSnapshot → TrafficSnapshot
merge_from old newer = record {
  main = or_else newer.main old.main;
  passwords = insert_all newer.passwords old.passwords;
  devices = insert_all newer.devices old.devices;
}
