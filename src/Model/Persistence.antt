-- ===== src/Model/Persistence.antt =====
-- The queue of database writes and its worker (rust-server/model.rs).
use csqtt_android.Shared.{
  ℕ, ◌+◌, Bool, true, false, not, ◌&&◌, List, [], ◌∷◌, Option, none, some, leb, min, if◌then◌else◌,
  word_mod, ◌-◌,
}
use csqtt_android.Model.{Database}
use csqtt_android.Model.Disk.{
  Disk, TrafficSnapshot, write_database_snapshot, write_traffic, merge_from, no_traffic,
}

pub data PersistenceUpdate : Type 0 where
  snapshot : Database → PersistenceUpdate
  traffic : TrafficSnapshot → PersistenceUpdate

pub record PersistenceQueue : Type 0 where
  pub next_revision : ℕ
  pub processed_revision : ℕ
  pub successful_revision : ℕ
  pub pending : List (ℕ × PersistenceUpdate)
  pub worker_running : Bool

abbrev pub empty_queue : PersistenceQueue
empty_queue = record {
  next_revision = 0;
  processed_revision = 0;
  successful_revision = 0;
  pending = [];
  worker_running = false;
}

-- `PersistenceQueue::next_revision`: `saturating_add(1)`
unfoldable pub revision_after : ℕ → ℕ
revision_after revision = min (revision + 1) (word_mod - 1)

unfoldable pub submit_snapshot : PersistenceQueue → Database → PersistenceQueue × ℕ × Bool
submit_snapshot q db =
    let revision = revision_after q.next_revision in
    (
      record q {
        next_revision = revision;
        pending = (revision, snapshot db) ∷ [];
        worker_running = true;
      },
      revision,
      not q.worker_running,
    )

-- `pending.back_mut()` merges with a traffic update, `push_back` otherwise.
unfoldable pub push_traffic :
    List (ℕ × PersistenceUpdate) → ℕ → TrafficSnapshot → List (ℕ × PersistenceUpdate)
push_traffic [] revision t = (revision, traffic t) ∷ []
push_traffic ((r, traffic old) ∷ []) revision t = (revision, traffic (merge_from old t)) ∷ []
push_traffic ((r, snapshot db) ∷ []) revision t = (r, snapshot db) ∷ (revision, traffic t) ∷ []
push_traffic (x ∷ y ∷ pending) revision t = x ∷ push_traffic (y ∷ pending) revision t

unfoldable pub submit_traffic : PersistenceQueue → TrafficSnapshot → PersistenceQueue × ℕ × Bool
submit_traffic q t =
    let revision = revision_after q.next_revision in
    (
      record q {
        next_revision = revision;
        pending = push_traffic q.pending revision t;
        worker_running = true;
      },
      revision,
      not q.worker_running,
    )

unfoldable pub take_pending : PersistenceQueue → PersistenceQueue × Option (ℕ × PersistenceUpdate)
take_pending q = elim q.pending [
  | [] ↦ (q, none)
  | update ∷ pending ↦ (record q { pending = pending }, some update)
]

unfoldable pub complete : PersistenceQueue → ℕ → Bool → PersistenceQueue
complete q revision successful = record q {
  processed_revision = if leb q.processed_revision revision then revision else q.processed_revision;
  successful_revision =
      if successful && leb q.successful_revision revision then revision else q.successful_revision;
}

-- `persist_database_update`, when SQLite does what it is asked.
unfoldable pub persist_database_update : Disk → PersistenceUpdate → Disk
persist_database_update disk (snapshot db) = write_database_snapshot disk db
persist_database_update disk (traffic t) = write_traffic disk t

-- The queue, the file, the update that the worker is writing without the lock, and whether the last
-- write that counts has failed (`last_error`).
pub record DatabasePersistence : Type 0 where
  pub queue : PersistenceQueue
  pub disk : Disk
  pub writing : Option (ℕ × PersistenceUpdate)
  pub failed : Bool

-- `DatabasePersistence::submit`
unfoldable pub submit : DatabasePersistence → Database → DatabasePersistence × ℕ
submit p db =
    let (queue, revision, start) = submit_snapshot p.queue db in
    (record p { queue = queue }, revision)

-- `DatabasePersistence::submit_traffic`
unfoldable pub submit_counters : DatabasePersistence → TrafficSnapshot → DatabasePersistence × ℕ
submit_counters p t =
    if no_traffic t
    then (p, 0)
    else let (queue, revision, start) = submit_traffic p.queue t in
      (record p { queue = queue }, revision)

-- `database_persistence_worker` under the lock: it waits while nothing is pending, and takes the
-- first update otherwise.
unfoldable pub take : DatabasePersistence → DatabasePersistence
take p = elim p.writing [
  | some update ↦ p
  | none ↦ record p { queue = (take_pending p.queue).0; writing = (take_pending p.queue).1 }
]

-- The rest of its turn, after `persist_database_update` has committed or failed.
unfoldable pub finish : DatabasePersistence → Bool → DatabasePersistence
finish p succeeds = elim p.writing [
  | none ↦ p
  | some update ↦
      let queue = complete p.queue update.0 succeeds in
      if succeeds
      then record {
        queue = queue;
        disk = persist_database_update p.disk update.1;
        writing = none;
        failed = if leb update.0 queue.successful_revision then false else p.failed;
      }
      else record { queue = queue; disk = p.disk; writing = none; failed = true }
]

-- What `DatabasePersistence::wait` sees for a revision: nothing yet, success or an error.
unfoldable pub wait : DatabasePersistence → ℕ → Option Bool
wait p revision =
    if leb revision p.queue.successful_revision
    then some true
    else if leb revision p.queue.processed_revision
    then some false
    else none

-- A started persistence over a file.
abbrev pub started : Disk → DatabasePersistence
started disk = record { queue = empty_queue; disk = disk; writing = none; failed = false }

-- What happens to a running server's persistence.
pub data Event : Type 0 where
  -- `submit`
  snapshot_submitted : Database → Event
  -- `submit_traffic`
  traffic_submitted : TrafficSnapshot → Event
  -- the worker takes an update
  taken : Event
  -- its write has committed, or failed
  ended : Bool → Event

unfoldable pub step : DatabasePersistence → Event → DatabasePersistence
step p (snapshot_submitted db) = (submit p db).0
step p (traffic_submitted t) = (submit_counters p t).0
step p taken = take p
step p (ended succeeds) = finish p succeeds

unfoldable pub run : DatabasePersistence → List Event → DatabasePersistence
run p [] = p
run p (e ∷ events) = run (step p e) events
