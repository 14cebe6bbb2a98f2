-- ===== src/Model/Load.antt =====
-- Reading the SQLite file back, and the import of the older JSON files (rust-server/model.rs).
-- `serde_json` is not modelled: a file is the database it parses to, or none when it is not read or
-- does not parse.
use csqtt_android.Shared.{
  Bool, true, false, not, ◌&&◌, List, [], ◌∷◌, Option, none, some, max, leb, ◌==◌, if◌then◌else◌,
  same_bytes, Name, get, insert, insert_all, insert_all_new, insert_new, map_values, map_option,
  get_default, ascii, parse_u8,
}
use csqtt_android.Model.{
  ClientDevice, PasswordEntry, LocalProxyProfile, Database, default, normalize, is_empty,
}
use csqtt_android.Model.Disk.{
  Disk, ProfileRow, TrafficCounters, key_main_password, key_main_device_id, key_dns,
  key_auto_restart, key_admin_id, key_bot_token, key_logging_active, flag_text, stored_device,
  device_rows, profile_rows,
}

-- One row of `SELECT key, value FROM meta`.
unfoldable pub read_meta_row : Database → Name → Name → Database
read_meta_row db key value =
    if same_bytes key key_main_password
    then record db { main_password = value }
    else if same_bytes key key_main_device_id
    then record db { main_device_id = value }
    else if same_bytes key key_dns
    then record db { dns = value }
    else if same_bytes key key_auto_restart
    then elim (parse_u8 value) [
      | some hours ↦ record db { auto_restart_interval_hours = some hours }
      | none ↦ db
    ]
    else if same_bytes key key_admin_id
    then record db { admin_id = value }
    else if same_bytes key key_bot_token
    then record db { bot_token = value }
    else if same_bytes key key_logging_active
    then record db { logging_active = some (same_bytes value (ascii "1")) }
    else db

unfoldable pub read_meta : List (Name × Name) → Database → Database
read_meta [] db = db
read_meta ((key, value) ∷ rows) db = read_meta rows (read_meta_row db key value)

unfoldable pub place : ProfileRow → List ProfileRow → List ProfileRow
place row [] = row ∷ []
place row (r ∷ rows) =
    if leb row.sort_order r.sort_order then row ∷ r ∷ rows else r ∷ place row rows

-- `ORDER BY sort_order`
unfoldable pub order_rows : List (Name × ProfileRow) → List ProfileRow
order_rows [] = []
order_rows ((id, row) ∷ rows) = place row (order_rows rows)

unfoldable pub profiles_of : List ProfileRow → List LocalProxyProfile
profiles_of [] = []
profiles_of (row ∷ rows) = row.profile ∷ profiles_of rows

unfoldable pub read_counters : Option TrafficCounters → Database → Database
read_counters none db = db
read_counters (some c) db = record db { main_up_bytes = c.up_bytes; main_down_bytes = c.down_bytes }

unfoldable pub read_database_snapshot : Disk → Database
read_database_snapshot disk = record (read_counters disk.counters (read_meta disk.meta default)) {
  passwords = insert_all disk.passwords [];
  devices = insert_all disk.devices [];
  local_proxy = normalize (record {
    active_profile_id = get_default [] disk.local_proxy_state;
    profiles = profiles_of (order_rows disk.local_proxy_profiles);
  });
  bot_token = [];
  admin_id = [];
}

unfoldable pub reset_device_runtime_epochs : Disk → Disk
reset_device_runtime_epochs disk = record disk { devices = map_values stored_device disk.devices }

-- `CASE WHEN old = '' THEN new ELSE old END`, or a new row
abbrev pub fill : Option Name → Name → Name
fill none new = new
fill (some old) new = if is_empty old then new else old

unfoldable pub fill_meta : Name → Name → List (Name × Name) → List (Name × Name)
fill_meta key value meta = insert key (fill (get meta key) value) meta

unfoldable pub import_logging : Option Bool → List (Name × Name) → List (Name × Name)
import_logging none meta = meta
import_logging (some active) meta = insert_new key_logging_active (flag_text active) meta

abbrev pub larger : Option TrafficCounters → TrafficCounters → TrafficCounters
larger none c = c
larger (some old) c = record {
  up_bytes = max old.up_bytes c.up_bytes;
  down_bytes = max old.down_bytes c.down_bytes;
}

unfoldable pub import_legacy_database_rows : Disk → Database → Disk
import_legacy_database_rows disk legacy = record {
  meta = import_logging legacy.logging_active (
      fill_meta key_dns legacy.dns (
        fill_meta key_main_device_id legacy.main_device_id
          (fill_meta key_main_password legacy.main_password disk.meta)));
  counters = some (
      larger disk.counters
        (record { up_bytes = legacy.main_up_bytes; down_bytes = legacy.main_down_bytes }));
  passwords = insert_all_new legacy.passwords disk.passwords;
  devices = insert_all_new (device_rows legacy.devices) disk.devices;
  local_proxy_profiles =
      insert_all_new (profile_rows 0 legacy.local_proxy.profiles) disk.local_proxy_profiles;
  local_proxy_state =
      if is_empty legacy.local_proxy.active_profile_id
      then disk.local_proxy_state
      else some (fill disk.local_proxy_state legacy.local_proxy.active_profile_id);
}

abbrev pub same_flag : Bool → Bool → Bool
same_flag true b = b
same_flag false b = not b

unfoldable pub legacy_password_matches : PasswordEntry → PasswordEntry → Bool
legacy_password_matches sqlite legacy =
    same_bytes sqlite.device_id legacy.device_id
    && (sqlite.expires_at == legacy.expires_at
        && (same_bytes sqlite.vk_hash legacy.vk_hash
            && (same_bytes sqlite.ports legacy.ports
                && (same_flag sqlite.is_deactivated legacy.is_deactivated
                    && (same_bytes sqlite.name legacy.name
                        && (same_bytes sqlite.vk_hashes legacy.vk_hashes
                            && (sqlite.dtls_port == legacy.dtls_port
                                && (sqlite.wg_port == legacy.wg_port
                                    && sqlite.local_port == legacy.local_port))))))))

unfoldable pub legacy_device_matches : ClientDevice → ClientDevice → Bool
legacy_device_matches sqlite legacy =
    same_bytes sqlite.device_id legacy.device_id
    && (same_bytes sqlite.ip legacy.ip
        && (same_bytes sqlite.priv_key legacy.priv_key
            && (same_bytes sqlite.pub_key legacy.pub_key
                && same_bytes sqlite.bound_password legacy.bound_password)))

-- The loops that look for each legacy row; a missing one is an error too.
unfoldable pub all_match {ℓ} :
    {V : Type ℓ} → (V → V → Bool) → List (Name × V) → List (Name × V) → Bool
all_match matches sqlite [] = true
all_match matches sqlite ((k, v) ∷ legacy) =
    elim (get sqlite k) [ none ↦ false | some w ↦ matches w v ] && all_match matches sqlite legacy

-- Two names that are both given and differ.
abbrev pub conflicts : Name → Name → Bool
conflicts sqlite legacy =
    not (is_empty legacy) && (not (is_empty sqlite) && not (same_bytes sqlite legacy))

unfoldable pub verify_legacy_database_rows : Database → Database → Bool
verify_legacy_database_rows sqlite legacy =
    not (conflicts sqlite.main_password legacy.main_password)
    && (not (conflicts sqlite.main_device_id legacy.main_device_id)
        && (all_match legacy_password_matches sqlite.passwords legacy.passwords
            && all_match legacy_device_matches sqlite.devices legacy.devices))

abbrev pub empty_disk : Disk
empty_disk = record {
  meta = [];
  counters = none;
  passwords = [];
  devices = [];
  local_proxy_profiles = [];
  local_proxy_state = none;
}

-- What a legacy file's database is kept for.
abbrev pub imported : Database → Database
imported legacy = record legacy {
  bot_token = [];
  admin_id = [];
  web_sessions = [];
  local_proxy = normalize legacy.local_proxy;
}

-- Every file read and parsed: `none` when one of them is not.
unfoldable pub parse_all : List (Option Database) → Option (List Database)
parse_all [] = some []
parse_all (none ∷ files) = none
parse_all (some legacy ∷ files) = map_option (λ rest. imported legacy ∷ rest) (parse_all files)

-- The outcomes of a row of calls; those that the list does not reach succeed.
abbrev pub succeeds : List Bool → Bool
succeeds [] = true
succeeds (outcome ∷ outcomes) = outcome

abbrev pub later : List Bool → List Bool
later [] = []
later (outcome ∷ outcomes) = outcomes

-- One transaction for each legacy database; one that fails is rolled back, and ends the load.
unfoldable pub import_all : List Database → List Bool → Disk → Disk × Bool
import_all [] outcomes disk = (disk, true)
import_all (legacy ∷ rest) outcomes disk =
    if succeeds outcomes
    then import_all rest (later outcomes) (import_legacy_database_rows disk legacy)
    else (disk, false)

-- `fs::remove_file` for each legacy file; one that fails ends the load.
unfoldable pub remove_all : List (Option Database) → List Bool → List (Option Database) × Bool
remove_all [] outcomes = ([], true)
remove_all (file ∷ files) outcomes =
    if succeeds outcomes then remove_all files (later outcomes) else (file ∷ files, false)

unfoldable pub verify_all : Database → List Database → Bool
verify_all db [] = true
verify_all db (legacy ∷ rest) = verify_legacy_database_rows db legacy && verify_all db rest

-- The configuration directory: the SQLite file, when there is one, and the legacy files in it.
pub record ConfigDir : Type 0 where
  pub disk : Option Disk
  pub legacy : List (Option Database)

-- Which transactions of the import commit, and which files can be removed.
pub record Outcomes : Type 0 where
  pub imports : List Bool
  pub removals : List Bool

-- The directory after the load, and the database, or none for an error. The other calls of SQLite
-- succeed.
unfoldable pub load_database : ConfigDir → Outcomes → ConfigDir × Option Database
load_database dir outcomes = elim dir.legacy [
  | [] ↦ elim dir.disk [
    | none ↦ (dir, some default)
    | some disk ↦
        let disk = reset_device_runtime_epochs disk in
        (record dir { disk = some disk }, some (read_database_snapshot disk))
  ]
  | file ∷ files ↦ elim (parse_all (file ∷ files)) [
    | none ↦ (dir, none)
    | some legacy ↦
        let (disk, imported_all) =
          import_all legacy outcomes.imports
            (reset_device_runtime_epochs (get_default empty_disk dir.disk)) in
        let db = read_database_snapshot disk in
        let (left, removed_all) = remove_all (file ∷ files) outcomes.removals in
        if not imported_all
        then (record dir { disk = some disk }, none)
        else if not (verify_all db legacy)
        then (record dir { disk = some disk }, none)
        else (record { disk = some disk; legacy = left }, if removed_all then some db else none)
  ]
]
