-- ===== src/Model/Lost.antt =====
-- A failed write behind a later one that succeeds (rust-server/model.rs).
use csqtt_android.Shared.{
  ℕ, ◌+◌, ◌≤◌, ◌<◌, ◌≡◌, refl, sym, subst, Bool, true, false, List, [], ◌∷◌, Option, none, some,
  word_mod, arith,
}
use csqtt_android.Model.{Database}
use csqtt_android.Model.Disk.{Disk, TrafficSnapshot, no_traffic}
use csqtt_android.Model.Persistence.{
  DatabasePersistence, PersistenceQueue, PersistenceUpdate, submit, submit_counters,
  submit_snapshot, submit_traffic, push_traffic, revision_after, take, take_pending, finish,
  complete, wait, Event, snapshot_submitted, traffic_submitted, taken, ended, step, run, started,
  persist_database_update,
}
use csqtt_android.Model.Refines.{holding}
use csqtt_android.Model.Answers.{IsQueue, run-IsQueue}
use csqtt_android.Model.View.{view, IsTraffic, traffic_view}
use csqtt_android.Model.Traffic.{view-write_traffic}

-- The snapshot's write fails while the worker has it, behind which traffic was submitted.
abbrev pub fails : Database → TrafficSnapshot → List Event
fails db t = snapshot_submitted db ∷ taken ∷ traffic_submitted t ∷ ended false ∷ []

-- And then the traffic is written.
abbrev pub fails_behind : Database → TrafficSnapshot → List Event
fails_behind db t =
    snapshot_submitted db ∷ taken ∷ traffic_submitted t ∷ ended false ∷ taken ∷ ended true ∷ []

queued :
    (p : DatabasePersistence) (t : TrafficSnapshot)
    → no_traffic t ≡ false
    → submit_counters p t
      ≡ (record p { queue = (submit_traffic p.queue t).0 }, (submit_traffic p.queue t).1)
unfolding submit_counters
queued p t h = rw (h) refl

-- The persistence with nothing to write.
abbrev idle : PersistenceQueue → Disk → Bool → DatabasePersistence
idle q disk failed = record {
  queue = record q { pending = [] };
  disk = disk;
  writing = none;
  failed = failed;
}

-- The two answers and the file, after a run that ends with the traffic submitted.
abbrev Answers : DatabasePersistence → ℕ → Disk → TrafficSnapshot → Type 0
Answers p revision disk t =
    (wait (run p (ended false ∷ [])) revision ≡ some false)
    × (wait (run p (ended false ∷ taken ∷ ended true ∷ [])) revision ≡ some true)
    × (view (run p (ended false ∷ taken ∷ ended true ∷ [])).disk ≡ traffic_view t (view disk))

idle-Answers :
    (q : PersistenceQueue) (disk : Disk) (failed : Bool) (db : Database) (t : TrafficSnapshot)
    → q.processed_revision ≡ q.next_revision
    → q.successful_revision ≤ q.processed_revision
    → q.next_revision + 2 < word_mod
    → IsTraffic t
    → no_traffic t ≡ false
    → Answers
        (run (idle q disk failed) (snapshot_submitted db ∷ taken ∷ traffic_submitted t ∷ []))
        (submit (idle q disk failed) db).1
        disk
        t
unfolding wait run step submit submit_counters submit_snapshot submit_traffic push_traffic take
    take_pending finish complete revision_after persist_database_update
idle-Answers q disk failed db t same order few d h =
    subst (λ (p : DatabasePersistence × ℕ). Answers p.0 (submit (idle q disk failed) db).1 disk t)
      (sym (queued (run (idle q disk failed) (snapshot_submitted db ∷ taken ∷ [])) t h))
      (
        ground (arith, same, order, few),
        ground (arith, same, order, few),
        view-write_traffic disk t d,
      )

-- A queue that has come to rest, whatever happened before, is given a snapshot, whose write fails while
-- traffic is submitted behind it. Whoever asks for the snapshot's revision at once is told that it
-- failed. Whoever asks only when the traffic has been written is told that it succeeded, while the file
-- has none of it: a reader finds what was there before, with the traffic's counters. The traffic is not
-- empty and has each key once, and at least two revisions are left up to the last one, 2^64 - 1.
pub wait-lost_snapshot :
    (disk : Disk) (before : List Event) (db : Database) (t : TrafficSnapshot)
    → (run (started disk) before).writing ≡ none
    → (run (started disk) before).queue.pending ≡ []
    → (run (started disk) before).queue.next_revision + 2 < word_mod
    → IsTraffic t
    → no_traffic t ≡ false
    → let p = run (started disk) before in
      let revision = (submit p db).1 in
      (wait (run p (fails db t)) revision ≡ some false)
      × (wait (run p (fails_behind db t)) revision ≡ some true)
      × (view (run p (fails_behind db t)).disk ≡ traffic_view t (view p.disk))
unfolding run
wait-lost_snapshot disk before db t none_written none_pending few d h =
    go p.writing p.queue.pending none_written none_pending (run-IsQueue disk before) few
  where
    p : DatabasePersistence
    p = run (started disk) before

    go :
        (w : Option (ℕ × PersistenceUpdate)) (us : List (ℕ × PersistenceUpdate))
        → w ≡ none
        → us ≡ []
        → IsQueue (holding p w us)
        → p.queue.next_revision + 2 < word_mod
        → let revision = (submit (holding p w us) db).1 in
          (wait (run (holding p w us) (fails db t)) revision ≡ some false)
          × (wait (run (holding p w us) (fails_behind db t)) revision ≡ some true)
          × (view (run (holding p w us) (fails_behind db t)).disk ≡ traffic_view t (view p.disk))
    go (some x) us e f v few = cc
    go none (x ∷ us) e f v few = cc
    go none [] e f v few = idle-Answers p.queue p.disk p.failed db t v.rises v.successful few d h
