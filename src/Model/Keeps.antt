-- ===== src/Model/Keeps.antt =====
-- An import overwrites nothing that the SQLite file has (rust-server/model.rs).
use csqtt_android.Shared.{
  ◌≤◌, ◌≡◌, ◌⊎◌, refl, ap, ◌∙◌, Bool, true, false, not, List, [], ◌∷◌, Option, none, some, arith,
  Bool-cases, Option-cases, inl, inr, same_bytes, eq_of_same_bytes, if◌then◌else◌, Name, get,
  insert_all_new, get-insert, get-insert_new, get-insert_all_new, get-map_values,
}
use csqtt_android.Model.{ClientDevice, PasswordEntry, Database, is_empty}
use csqtt_android.Model.Disk.{
  Disk, TrafficCounters, ProfileRow, key_main_password, key_main_device_id, key_dns,
  key_logging_active, flag_text, device_rows, profile_rows,
}
use csqtt_android.Model.Load.{
  read_database_snapshot, reset_device_runtime_epochs, import_legacy_database_rows, import_logging,
  fill, fill_meta, larger, parse_all, import_all, succeeds, later, remove_all, verify_all,
  ConfigDir, Outcomes, load_database,
}

-- The later of two counters has counted no less.
abbrev pub IsLower : TrafficCounters → TrafficCounters → Type 0
IsLower c d = (c.up_bytes ≤ d.up_bytes) × (c.down_bytes ≤ d.down_bytes)

-- The tables but `devices`, of which `after` has every row of `disk`: an empty text of `meta` or of the
-- active profile may have been filled, and the main counters may have risen.
pub record KeepsTables (disk after : Disk) : Type 0 where
  pub meta :
      (k value : Name)
      → get disk.meta k ≡ some value
      → is_empty value ≡ false
      → get after.meta k ≡ some value
  pub counters :
      (c : TrafficCounters)
      → disk.counters ≡ some c
      → (d : TrafficCounters) × (after.counters ≡ some d) × IsLower c d
  pub passwords :
      (k : Name) (entry : PasswordEntry)
      → get disk.passwords k ≡ some entry
      → get after.passwords k ≡ some entry
  pub profiles :
      (id : Name) (row : ProfileRow)
      → get disk.local_proxy_profiles id ≡ some row
      → get after.local_proxy_profiles id ≡ some row
  pub active :
      (id : Name)
      → disk.local_proxy_state ≡ some id
      → is_empty id ≡ false
      → after.local_proxy_state ≡ some id

record Keeps (disk after : Disk) : Type 0 where
  tables : KeepsTables disk after
  devices :
      (id : Name) (device : ClientDevice)
      → get disk.devices id ≡ some device
      → get after.devices id ≡ some device

get-insert_all_new_old {ℓ} :
    {V : Type ℓ} (rows m : List (Name × V)) (k : Name) (v : V)
    → get m k ≡ some v
    → get (insert_all_new rows m) k ≡ some v
get-insert_all_new_old rows m k v h = get-insert_all_new rows m k ∙ rw (h) refl

get-fill_meta :
    (key new : Name) (m : List (Name × Name)) (k value : Name)
    → get m k ≡ some value
    → is_empty value ≡ false
    → get (fill_meta key new m) k ≡ some value
unfolding fill_meta
get-fill_meta key new m k value h full = elim (Bool-cases (same_bytes key k)) [
  | inr e ↦ get-insert m key (fill (get m key) new) k ∙ rw (e) h
  | inl e ↦
      let found : get m key ≡ some value = ap (get m) (eq_of_same_bytes key k e) ∙ h in
      get-insert m key (fill (get m key) new) k ∙ rw (e) (rw (found, full) refl)
]

get-import_logging :
    (active : Option Bool) (m : List (Name × Name)) (k value : Name)
    → get m k ≡ some value
    → get (import_logging active m) k ≡ some value
unfolding import_logging
get-import_logging none m k value h = h
get-import_logging (some active) m k value h =
    get-insert_new m key_logging_active (flag_text active) k ∙ rw (h) refl

larger_lem :
    (o : Option TrafficCounters) (new c : TrafficCounters) → o ≡ some c → IsLower c (larger o new)
larger_lem none new c h = cc
larger_lem (some old) new c h = ground (arith, h)

fill_lem : (o : Option Name) (new id : Name) → o ≡ some id → is_empty id ≡ false → fill o new ≡ id
fill_lem none new id h full = cc
fill_lem (some old) new id h full = ground (arith, h, full)

import-Keeps :
    (disk : Disk) (legacy : Database) → Keeps disk (import_legacy_database_rows disk legacy)
unfolding import_legacy_database_rows
import-Keeps disk legacy = record {
  tables = record {
    meta = λ k value h full. get-import_logging legacy.logging_active _ k value (
        get-fill_meta key_dns legacy.dns _ k value
          (get-fill_meta key_main_device_id legacy.main_device_id _ k value
            (get-fill_meta key_main_password legacy.main_password disk.meta k value h full) full)
          full);
    counters = λ c h. (_, refl, larger_lem disk.counters _ c h);
    passwords = get-insert_all_new_old legacy.passwords disk.passwords;
    profiles =
        get-insert_all_new_old (profile_rows 0 legacy.local_proxy.profiles)
          disk.local_proxy_profiles;
    active = λ id h full. state (is_empty legacy.local_proxy.active_profile_id) id h full;
  };
  devices = get-insert_all_new_old (device_rows legacy.devices) disk.devices;
}
  where
    state :
        (b : Bool) (id : Name)
        → disk.local_proxy_state ≡ some id
        → is_empty id ≡ false
        → (if b
            then disk.local_proxy_state
            else some (fill disk.local_proxy_state legacy.local_proxy.active_profile_id))
          ≡ some id
    state true id h full = h
    state false id h full = ap some (fill_lem disk.local_proxy_state _ id h full)

Keeps-refl : (disk : Disk) → Keeps disk disk
Keeps-refl disk = record {
  tables = record {
    meta = λ k value h full. h;
    counters = λ c h. (c, h, (omega arith, omega arith));
    passwords = λ k entry h. h;
    profiles = λ id row h. h;
    active = λ id h full. h;
  };
  devices = λ id device h. h;
}

Keeps-trans : (a b c : Disk) → Keeps a b → Keeps b c → Keeps a c
Keeps-trans a b c f g = record {
  tables = record {
    meta = λ k value h full. g.tables.meta k value (f.tables.meta k value h full) full;
    counters = λ x h.
        let (y, found, low) = f.tables.counters x h in
        let (z, last, high) = g.tables.counters y found in
        (z, last, (omega (arith, low, high), omega (arith, low, high)));
    passwords = λ k entry h. g.tables.passwords k entry (f.tables.passwords k entry h);
    profiles = λ id row h. g.tables.profiles id row (f.tables.profiles id row h);
    active = λ id h full. g.tables.active id (f.tables.active id h full) full;
  };
  devices = λ id device h. g.devices id device (f.devices id device h);
}

import_all-Keeps :
    (legacy : List Database) (outcomes : List Bool) (disk : Disk)
    → Keeps disk (import_all legacy outcomes disk).0
unfolding import_all
import_all-Keeps [] outcomes disk = Keeps-refl disk
import_all-Keeps (l ∷ legacy) outcomes disk = elim (Bool-cases (succeeds outcomes)) [
  | inr stops ↦ rw (stops) (Keeps-refl disk)
  | inl goes ↦ rw (goes) (
      Keeps-trans disk (import_legacy_database_rows disk l) _ (import-Keeps disk l)
        (import_all-Keeps legacy (later outcomes) (import_legacy_database_rows disk l)))
]

-- The rows of `disk` in `after`.
pub record KeepsRows (disk after : Disk) : Type 0 where
  pub tables : KeepsTables disk after
  pub devices :
      (id : Name) (device : ClientDevice)
      → get disk.devices id ≡ some device
      → get after.devices id
        ≡ some (record device { last_session_salt = []; last_generation_id = 0 })

import_all-KeepsRows :
    (legacy : List Database) (outcomes : List Bool) (disk : Disk)
    → KeepsRows disk (import_all legacy outcomes (reset_device_runtime_epochs disk)).0
unfolding reset_device_runtime_epochs
import_all-KeepsRows legacy outcomes disk =
    let kept = import_all-Keeps legacy outcomes (reset_device_runtime_epochs disk) in
    record {
      tables = record {
        meta = kept.tables.meta;
        counters = kept.tables.counters;
        passwords = kept.tables.passwords;
        profiles = kept.tables.profiles;
        active = kept.tables.active;
      };
      devices = λ id device h. kept.devices id _ (get-map_values disk.devices _ id ∙ rw (h) refl);
    }

-- The SQLite file of a directory: the same, or one that keeps the rows.
KeepsFile : Disk → ConfigDir → ConfigDir × Option Database → Type 0
KeepsFile disk dir r =
    (r.0 ≡ dir) ⊎ ((after : Disk) × (r.0.disk ≡ some after) × KeepsRows disk after)

reset-KeepsRows : (disk : Disk) → KeepsRows disk (reset_device_runtime_epochs disk)
unfolding import_all
reset-KeepsRows disk = import_all-KeepsRows [] [] disk

-- Whatever the older files hold, whichever transaction of the import or removal of a file fails: the
-- directory is as it was, or the SQLite file still has every row that it had. A row of passwords or of
-- profiles is the same. A device is, but that it has lost its session. A text of `meta` or of the
-- active profile is, unless it was empty. The main counters are no lower. The other calls of SQLite
-- succeed.
pub load_database-KeepsRows :
    (disk : Disk) (files : List (Option Database)) (outcomes : Outcomes)
    → let dir : ConfigDir = record { disk = some disk; legacy = files } in
      ((load_database dir outcomes).0 ≡ dir)
      ⊎ ((after : Disk) × ((load_database dir outcomes).0.disk ≡ some after) × KeepsRows disk after)
unfolding load_database KeepsFile
load_database-KeepsRows disk [] outcomes = inr (_, refl, reset-KeepsRows disk)
load_database-KeepsRows disk (file ∷ files) outcomes =
    elim (Option-cases (parse_all (file ∷ files))) [
      | inl e ↦ rw (e, load_database) (inl refl)
      | inr (legacy, e) ↦
          rw (e, load_database)
            (ended _ legacy _ (import_all-KeepsRows legacy outcomes.imports disk))
    ]
  where
    dir : ConfigDir
    dir = record { disk = some disk; legacy = file ∷ files }

    ended :
        (after : Disk) (legacy : List Database) (imported_all : Bool)
        → KeepsRows disk after
        → KeepsFile disk dir (
            if not imported_all
            then (record dir { disk = some after }, none)
            else if not (verify_all (read_database_snapshot after) legacy)
            then (record dir { disk = some after }, none)
            else (
              record { disk = some after; legacy = (remove_all dir.legacy outcomes.removals).0 },
              if (remove_all dir.legacy outcomes.removals).1
                  then some (read_database_snapshot after)
                  else none,
            ))
    ended after legacy false kept = inr (after, refl, kept)
    ended after legacy true kept =
        elim (Bool-cases (verify_all (read_database_snapshot after) legacy)) [
          | inl v ↦ rw (v) (inr (after, refl, kept))
          | inr v ↦ rw (v) (inr (after, refl, kept))
        ]
