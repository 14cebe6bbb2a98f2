-- ===== src/Model/Refines.antt =====
-- The queue of writes implements a database that writes at once (rust-server/model.rs).
use csqtt_android.Shared.{
  ℕ, ◌≡◌, refl, sym, ap, ◌∙◌, subst, true, false, List, [], ◌∷◌, Option, none, some, Bool-cases,
  inl, inr, All,
}
use csqtt_android.Model.{Database}
use csqtt_android.Model.Disk.{Disk, TrafficSnapshot, no_traffic}
use csqtt_android.Model.Persistence.{
  PersistenceUpdate, snapshot, traffic, DatabasePersistence, submit_snapshot, submit_traffic,
  push_traffic, take_pending, complete, persist_database_update, submit, submit_counters, take,
  finish, Event, snapshot_submitted, traffic_submitted, taken, ended, step, run, started,
}
use csqtt_android.Model.View.{
  DiskView, view, IsDatabase, IsTraffic, snapshot_view, traffic_view, view-write_database_snapshot,
}
use csqtt_android.Model.Traffic.{
  view-write_traffic, traffic_view-merge_from, merge_from-IsTraffic, idle_traffic,
}

abbrev IsUpdate : PersistenceUpdate → Type 0
IsUpdate (snapshot db) = IsDatabase db
IsUpdate (traffic t) = IsTraffic t

-- The specification: a write is done when it is submitted.
unfoldable update_view : PersistenceUpdate → DiskView → DiskView
update_view (snapshot db) v = snapshot_view db
update_view (traffic t) v = traffic_view t v

unfoldable updates_view : List (ℕ × PersistenceUpdate) → DiskView → DiskView
updates_view [] v = v
updates_view ((r, u) ∷ us) v = updates_view us (update_view u v)

abbrev pub IsEvent : Event → Type 0
IsEvent (snapshot_submitted db) = IsDatabase db
IsEvent (traffic_submitted t) = IsTraffic t
IsEvent taken = Unit
IsEvent (ended succeeds) = succeeds ≡ true

-- The same events for a database that writes at once.
unfoldable pub ideal : DiskView → List Event → DiskView
ideal v [] = v
ideal v (snapshot_submitted db ∷ events) = ideal (snapshot_view db) events
ideal v (traffic_submitted t ∷ events) = ideal (traffic_view t v) events
ideal v (taken ∷ events) = ideal v events
ideal v (ended succeeds ∷ events) = ideal v events

unfoldable writing_view : Option (ℕ × PersistenceUpdate) → DiskView → DiskView
writing_view none v = v
writing_view (some x) v = update_view x.1 v

-- The file as it will be when everything submitted is written.
unfoldable settled : DatabasePersistence → DiskView
settled p = updates_view p.queue.pending (writing_view p.writing (view p.disk))

record IsPersistence (p : DatabasePersistence) : Type 0 where
  pending : All (λ (x : ℕ × PersistenceUpdate). IsUpdate x.1) p.queue.pending
  writing : (x : ℕ × PersistenceUpdate) → p.writing ≡ some x → IsUpdate x.1

updates_view-push_traffic :
    (us : List (ℕ × PersistenceUpdate)) (r : ℕ) (t : TrafficSnapshot) (v : DiskView)
    → IsTraffic t
    → updates_view (push_traffic us r t) v ≡ traffic_view t (updates_view us v)
unfolding updates_view push_traffic update_view
updates_view-push_traffic [] r t v d = refl
updates_view-push_traffic ((q, traffic old) ∷ []) r t v d = traffic_view-merge_from old t v d
updates_view-push_traffic ((q, snapshot db) ∷ []) r t v d = refl
updates_view-push_traffic (x ∷ y ∷ us) r t v d = updates_view-push_traffic (y ∷ us) r t _ d

push_traffic-IsUpdate :
    (us : List (ℕ × PersistenceUpdate)) (r : ℕ) (t : TrafficSnapshot)
    → IsTraffic t
    → All (λ (x : ℕ × PersistenceUpdate). IsUpdate x.1) us
    → All (λ (x : ℕ × PersistenceUpdate). IsUpdate x.1) (push_traffic us r t)
unfolding push_traffic
push_traffic-IsUpdate [] r t d v = (d, tt)
push_traffic-IsUpdate ((q, traffic old) ∷ []) r t d (v, _) = (merge_from-IsTraffic old t v, tt)
push_traffic-IsUpdate ((q, snapshot db) ∷ []) r t d (v, _) = (v, (d, tt))
push_traffic-IsUpdate (x ∷ y ∷ us) r t d (v, vs) = (v, push_traffic-IsUpdate (y ∷ us) r t d vs)

view-persist_database_update :
    (disk : Disk) (u : PersistenceUpdate)
    → IsUpdate u
    → view (persist_database_update disk u) ≡ update_view u (view disk)
unfolding persist_database_update update_view
view-persist_database_update disk (snapshot db) v = view-write_database_snapshot disk db v
view-persist_database_update disk (traffic t) v = view-write_traffic disk t v

-- A move that does what the specification says and keeps the updates valid.
record IsMove (p : DatabasePersistence) (v : DiskView) : Type 0 where
  same : settled p ≡ v
  valid : IsPersistence p

snapshot-IsMove :
    (p : DatabasePersistence) (db : Database)
    → IsPersistence p
    → IsDatabase db
    → IsMove (submit p db).0 (snapshot_view db)
unfolding submit submit_snapshot settled updates_view update_view
snapshot-IsMove p db v d = record {
  same = refl;
  valid = record { pending = (d, tt); writing = v.writing };
}

traffic-IsMove :
    (p : DatabasePersistence) (t : TrafficSnapshot)
    → IsPersistence p
    → IsTraffic t
    → IsMove (submit_counters p t).0 (traffic_view t (settled p))
unfolding submit_counters submit_traffic settled
traffic-IsMove p t v d = elim (Bool-cases (no_traffic t)) [
  | inl e ↦ rw (e) (record { same = sym (idle_traffic t (settled p) e); valid = v })
  | inr e ↦ rw (e) (record {
    same = updates_view-push_traffic p.queue.pending _ t _ d;
    valid = record {
      pending = push_traffic-IsUpdate p.queue.pending _ t d v.pending;
      writing = v.writing;
    };
  })
]

-- A state with another update in the worker's hands and others pending.
abbrev pub holding :
    DatabasePersistence
    → Option (ℕ × PersistenceUpdate)
    → List (ℕ × PersistenceUpdate)
    → DatabasePersistence
holding p w us = record p { writing = w; queue = record p.queue { pending = us } }

take-IsMove : (p : DatabasePersistence) → IsPersistence p → IsMove (take p) (settled p)
unfolding take take_pending settled updates_view writing_view
take-IsMove p v = go p.writing p.queue.pending v
  where
    go :
        (w : Option (ℕ × PersistenceUpdate)) (us : List (ℕ × PersistenceUpdate))
        → IsPersistence (holding p w us)
        → IsMove (take (holding p w us)) (settled (holding p w us))
    go (some x) us v = record { same = refl; valid = v }
    go none [] v = record { same = refl; valid = v }
    go none (x ∷ us) v = record {
      same = refl;
      valid = record { pending = v.pending.1; writing = λ y e. subst IsNext e v.pending.0 };
    }
      where
        IsNext : Option (ℕ × PersistenceUpdate) → Type 0
        IsNext none = Unit
        IsNext (some y) = IsUpdate y.1

finish-IsMove : (p : DatabasePersistence) → IsPersistence p → IsMove (finish p true) (settled p)
unfolding finish settled complete writing_view
finish-IsMove p v = go p.writing v
  where
    go :
        (w : Option (ℕ × PersistenceUpdate))
        → IsPersistence (holding p w p.queue.pending)
        → IsMove (finish (holding p w p.queue.pending) true) (settled (holding p w p.queue.pending))
    go none v = record { same = refl; valid = v }
    go (some x) v = record {
      same =
          ap (updates_view p.queue.pending)
            (view-persist_database_update p.disk x.1 (v.writing x refl));
      valid = record { pending = v.pending; writing = λ y e. cc };
    }

step-IsMove :
    (p : DatabasePersistence) (e : Event)
    → IsPersistence p
    → IsEvent e
    → IsMove (step p e) (ideal (settled p) (e ∷ []))
unfolding step ideal
step-IsMove p (snapshot_submitted db) v d = snapshot-IsMove p db v d
step-IsMove p (traffic_submitted t) v d = traffic-IsMove p t v d
step-IsMove p taken v d = take-IsMove p v
step-IsMove p (ended true) v d = finish-IsMove p v
step-IsMove p (ended false) v d = cc

ideal-append :
    (v : DiskView) (e : Event) (events : List Event)
    → ideal v (e ∷ events) ≡ ideal (ideal v (e ∷ [])) events
unfolding ideal
ideal-append v (snapshot_submitted db) events = refl
ideal-append v (traffic_submitted t) events = refl
ideal-append v taken events = refl
ideal-append v (ended succeeds) events = refl

settled-run :
    (p : DatabasePersistence) (events : List Event)
    → IsPersistence p
    → All IsEvent events
    → settled (run p events) ≡ ideal (settled p) events
unfolding run ideal
settled-run p [] v d = refl
settled-run p (e ∷ events) v (d, ds) =
    let m = step-IsMove p e v d in
    settled-run (step p e) events m.valid ds
    ∙ ap (λ w. ideal w events) m.same
    ∙ sym (ideal-append (settled p) e events)

-- Whatever snapshots and counters are submitted while the worker writes, and however its turns fall
-- between them: once nothing is pending and nothing is being written, a reader of the file finds what
-- it would find had each submission been written at once. SQLite commits every write here, and the
-- maps submitted have each key once, devices under their ids.
pub run-ideal :
    (disk : Disk) (events : List Event)
    → All IsEvent events
    → (run (started disk) events).queue.pending ≡ []
    → (run (started disk) events).writing ≡ none
    → view (run (started disk) events).disk ≡ ideal (view disk) events
unfolding settled updates_view writing_view
run-ideal disk events d idle free =
    sym (at_rest (run (started disk) events) idle free) ∙ settled-run (started disk) events start d
  where
    start : IsPersistence (started disk)
    start = record { pending = tt; writing = λ x e. cc }

    at_rest :
        (p : DatabasePersistence)
        → p.queue.pending ≡ []
        → p.writing ≡ none
        → updates_view p.queue.pending (writing_view p.writing (view p.disk)) ≡ view p.disk
    at_rest p e f =
        ap (λ us. updates_view us (writing_view p.writing (view p.disk))) e
        ∙ ap (λ w. writing_view w (view p.disk)) f
