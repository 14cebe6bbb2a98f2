-- ===== src/Model/Tests.antt =====
-- rust-server/model.rs at concrete inputs.
use csqtt_android.Shared.{
  ◌≡◌, ◌≢◌, ◌⊎◌, refl, Bool, true, false, List, [], ◌∷◌, none, some, arith, Name, get, contains_key,
  same_bytes, ascii, decimal, All,
}
use csqtt_android.Model.{
  ClientDevice, PasswordEntry, LocalProxyProfile, LocalProxyState, Database, default, restart_hours,
  prune_dangling_device_bindings, is_used, address, next_ip_from, get_next_ip, normalize,
  remove_profile, active_profile, any_profile, find_profile, is_empty,
}
use csqtt_android.Model.Disk.{
  Disk, TrafficSnapshot, no_traffic, write_database_snapshot, profile_rows,
}
use csqtt_android.Model.Load.{
  ConfigDir, Outcomes, empty_disk, load_database, read_database_snapshot,
}
use csqtt_android.Model.Persistence.{
  Event, snapshot_submitted, traffic_submitted, taken, ended, run, started, wait, step, submit,
  submit_counters, submit_snapshot, submit_traffic, push_traffic, take, take_pending, finish,
  complete, revision_after,
}
use csqtt_android.Model.View.{IsDatabase, IsTraffic, view, traffic_view}
use csqtt_android.Model.Refines.{ideal, run-ideal}
use csqtt_android.Model.Answers.{IsQueue, worker_moves, acts, run-IsQueue, submitted-wait}
use csqtt_android.Model.RoundTrip.{IsDisk, IsReadOf, read_database_snapshot-write_database_snapshot}
use csqtt_android.Model.Import.{Covers, RemovesCovered, load_database-Covers}
use csqtt_android.Model.Keeps.{KeepsRows, load_database-KeepsRows}
use csqtt_android.Model.Bindings.{
  FirstFree, Pruned, prune_dangling_device_bindings-unbinds, get_next_ip-FirstFree,
}
use csqtt_android.Model.Profiles.{remove_profile-active}
use csqtt_android.Model.Lost.{fails, fails_behind, wait-lost_snapshot}

abbrev phone : ClientDevice
phone = record {
  device_id = ascii "phone";
  ip = ascii "10.66.67.2";
  priv_key = ascii "p";
  pub_key = ascii "q";
  up_bytes = 5;
  down_bytes = 7;
  bound_password = ascii "gone";
  last_session_salt = ascii "salt";
  last_generation_id = 3;
}

abbrev guest : PasswordEntry
guest = record {
  device_id = ascii "phone";
  expires_at = 0;
  down_bytes = 7;
  up_bytes = 5;
  vk_hash = [];
  ports = [];
  is_deactivated = false;
  name = ascii "guest";
  vk_hashes = [];
  dtls_port = 1;
  wg_port = 2;
  local_port = 3;
}

abbrev socks : LocalProxyProfile
socks = record {
  host = ascii "127.0.0.1";
  id = ascii "a";
  name = ascii "SOCKS5";
  port = 0;
  username = [];
  password = [];
}

abbrev server : Database
server = record default {
  main_password = ascii "main";
  auto_restart_interval_hours = some 12;
  passwords = (ascii "pw", guest) ∷ [];
  devices = (ascii "phone", phone) ∷ [];
  logging_active = some true;
  local_proxy = record { active_profile_id = ascii "a"; profiles = socks ∷ [] };
}

abbrev flush : TrafficSnapshot
flush = record {
  main = none;
  passwords = (ascii "pw", record { up_bytes = 9; down_bytes = 9 }) ∷ [];
  devices = [];
}

server-IsDatabase : IsDatabase server
unfolding contains_key profile_rows
server-IsDatabase = record {
  passwords = (refl, tt);
  devices = (refl, tt);
  keyed = (refl, tt);
  profiles = (refl, tt);
}

flush-IsTraffic : IsTraffic flush
unfolding contains_key
flush-IsTraffic = record { passwords = (refl, tt); devices = tt }

abbrev empty-IsDisk : IsDisk empty_disk
empty-IsDisk = record { meta = tt; passwords = tt; devices = tt; profiles = tt }

read_database_snapshot-write_database_snapshot_example :
    IsReadOf server (read_database_snapshot (write_database_snapshot empty_disk server))
unfolding restart_hours
read_database_snapshot-write_database_snapshot_example =
    read_database_snapshot-write_database_snapshot empty_disk server empty-IsDisk server-IsDatabase
      (omega arith)

-- A flush waits behind a snapshot that is being written.
abbrev busy : List Event
busy =
    snapshot_submitted server
    ∷ taken
    ∷ traffic_submitted flush
    ∷ ended true
    ∷ taken
    ∷ ended true
    ∷ []

run-ideal_example : view (run (started empty_disk) busy).disk ≡ ideal (view empty_disk) busy
unfolding run step submit submit_counters submit_snapshot submit_traffic push_traffic take
    take_pending finish complete no_traffic
run-ideal_example =
    run-ideal empty_disk busy (server-IsDatabase, (tt, (flush-IsTraffic, (refl, (tt, (refl, tt))))))
      refl refl

run-IsQueue_example : IsQueue (run (started empty_disk) busy)
run-IsQueue_example = run-IsQueue empty_disk busy

-- A flush waits behind a snapshot that is being written.
abbrev before : List Event
before = snapshot_submitted server ∷ taken ∷ traffic_submitted flush ∷ []

-- The next snapshot fails.
abbrev after : List Event
after =
    ended true
    ∷ traffic_submitted flush
    ∷ taken
    ∷ ended true
    ∷ snapshot_submitted server
    ∷ taken
    ∷ ended false
    ∷ []

submitted-wait_example : wait (run (run (started empty_disk) before) after) 2 ≢ none
unfolding run step submit submit_counters submit_snapshot submit_traffic push_traffic take
    take_pending finish complete no_traffic worker_moves acts revision_after
submitted-wait_example = submitted-wait empty_disk before after 2 (omega arith) (omega arith)

abbrev old_files : ConfigDir
old_files = record { disk = some empty_disk; legacy = some server ∷ some default ∷ [] }

-- Every call succeeds.
abbrev lucky : Outcomes
lucky = record { imports = []; removals = [] }

-- The second file cannot be removed.
abbrev stuck : Outcomes
stuck = record { imports = []; removals = true ∷ false ∷ [] }

load_database-Covers_example :
    RemovesCovered old_files.legacy
      (load_database old_files stuck).0.disk
      (load_database old_files stuck).0.legacy
    × ((db : Database)
        → (load_database old_files stuck).1 ≡ some db
        → ((load_database old_files stuck).0.legacy ≡ []) × All (Covers db) old_files.legacy)
load_database-Covers_example = load_database-Covers old_files stuck

abbrev written_disk : Disk
written_disk = record empty_disk { passwords = (ascii "pw", guest) ∷ [] }

abbrev with_file : ConfigDir
with_file = record { disk = some written_disk; legacy = some server ∷ [] }

load_database-KeepsRows_example :
    ((load_database with_file lucky).0 ≡ with_file)
    ⊎ ((after : Disk) × ((load_database with_file lucky).0.disk ≡ some after)
        × KeepsRows written_disk after)
load_database-KeepsRows_example = load_database-KeepsRows written_disk (some server ∷ []) lucky

prune_dangling_device_bindings-unbinds_example :
    ((id : Name)
      → Pruned server
          (get server.devices id)
          (get (prune_dangling_device_bindings server).0.devices id))
    × ((prune_dangling_device_bindings server).1 ≡ false
        → (prune_dangling_device_bindings server).0 ≡ server)
prune_dangling_device_bindings-unbinds_example = prune_dangling_device_bindings-unbinds server

-- The first address is taken.
next_address : get_next_ip (10, 66, 67) server ≡ some (ascii "10.66.67.3")
unfolding get_next_ip next_ip_from is_used address decimal same_bytes
next_address = refl

get_next_ip-FirstFree_example :
    FirstFree (10, 66, 67) server.devices 249 2 (get_next_ip (10, 66, 67) server)
get_next_ip-FirstFree_example = get_next_ip-FirstFree (10, 66, 67) server

remove_profile-active_example :
    let n : LocalProxyState = normalize server.local_proxy in
    let r : LocalProxyState × Bool = remove_profile n (ascii "a") in
    (normalize n ≡ n)
    × (is_empty n.active_profile_id ≡ false → active_profile n ≢ none)
    × (is_empty r.0.active_profile_id ≡ false → active_profile r.0 ≢ none)
    × (any_profile r.0.profiles (ascii "a") ≡ false)
    × ((other : Name)
        → same_bytes (ascii "a") other ≡ false
        → find_profile r.0.profiles other ≡ find_profile n.profiles other)
    × (r.1 ≡ any_profile n.profiles (ascii "a"))
    × (same_bytes n.active_profile_id (ascii "a") ≡ true → active_profile r.0 ≡ none)
remove_profile-active_example = remove_profile-active server.local_proxy (ascii "a")

-- After the flush above the queue is at rest, and a snapshot is lost.
wait-lost_snapshot_example :
    (wait (run (run (started empty_disk) busy) (fails server flush)) 3 ≡ some false)
    × (wait (run (run (started empty_disk) busy) (fails_behind server flush)) 3 ≡ some true)
    × (view (run (run (started empty_disk) busy) (fails_behind server flush)).disk
        ≡ traffic_view flush (view (run (started empty_disk) busy).disk))
unfolding no_traffic run step submit submit_counters submit_snapshot submit_traffic push_traffic
    take take_pending finish complete revision_after
wait-lost_snapshot_example =
    wait-lost_snapshot empty_disk busy server flush refl refl (omega arith) flush-IsTraffic refl
