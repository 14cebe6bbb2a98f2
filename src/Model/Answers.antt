-- ===== src/Model/Answers.antt =====
-- Every submitted revision is answered (rust-server/model.rs).
use csqtt_android.Shared.{
  ℕ, ◌+◌, ◌≤◌, ◌<◌, ◌≡◌, ◌≢◌, ◌⊎◌, refl, sym, subst, Bool, true, false, List, [], ◌∷◌, Option, none,
  some, arith, leb, if◌then◌else◌, Bool-cases, inl, inr, word_mod,
}
use csqtt_android.Model.{Database}
use csqtt_android.Model.Disk.{Disk, TrafficSnapshot, no_traffic}
use csqtt_android.Model.Persistence.{
  PersistenceUpdate, snapshot, DatabasePersistence, revision_after, submit_snapshot, submit_traffic,
  push_traffic, take_pending, complete, submit, submit_counters, take, finish, wait, Event,
  snapshot_submitted, traffic_submitted, taken, ended, step, run, started,
}
use csqtt_android.Model.Pending.{
  Rises, is_short, Rises-le, Rises-push_traffic, is_short-push_traffic, is_short_tail,
  revision_after-IsAfter, moves_for, moves_for-push_traffic, moves_for-single, short_moves,
}
use csqtt_android.Model.Refines.{holding}

-- The revision that the worker has come to.
abbrev reached : Option (ℕ × PersistenceUpdate) → ℕ → ℕ
reached none processed = processed
reached (some x) processed = x.0

pub record IsQueue (p : DatabasePersistence) : Type 0 where
  pub rises :
      Rises (reached p.writing p.queue.processed_revision) p.queue.pending p.queue.next_revision
  pub short : is_short p.queue.pending ≡ true
  pub processed : p.queue.processed_revision ≤ reached p.writing p.queue.processed_revision
  pub bound : p.queue.next_revision < word_mod
  pub successful : p.queue.successful_revision ≤ p.queue.processed_revision

-- The same, with the update that the worker has.
abbrev moves_left : Option (ℕ × PersistenceUpdate) → List (ℕ × PersistenceUpdate) → ℕ → ℕ → ℕ
moves_left none us processed r = if leb r processed then 0 else moves_for us r
moves_left (some x) us processed r =
    if leb r processed then 0 else if leb r x.0 then 1 else 1 + moves_for us r

abbrev outstanding : DatabasePersistence → ℕ → ℕ
outstanding p r = moves_left p.writing p.queue.pending p.queue.processed_revision r

-- 1 for a move of the worker that does something.
unfoldable pub acts : DatabasePersistence → Event → ℕ
acts p (snapshot_submitted db) = 0
acts p (traffic_submitted t) = 0
acts p taken = elim p.writing [ none ↦ elim p.queue.pending [ [] ↦ 0 | x ∷ us ↦ 1 ] | some x ↦ 0 ]
acts p (ended succeeds) = elim p.writing [ none ↦ 0 | some x ↦ 1 ]

-- The moves of the worker that do something.
unfoldable pub worker_moves : DatabasePersistence → List Event → ℕ
worker_moves p [] = 0
worker_moves p (e ∷ events) = acts p e + worker_moves (step p e) events

-- A step keeps the queue in order, answers nothing less, and works off what is outstanding.
record IsProgress (p q : DatabasePersistence) (moves : ℕ) : Type 0 where
  valid : IsQueue q
  further : p.queue.next_revision ≤ q.queue.next_revision
  less :
      (r : ℕ)
      → r ≤ p.queue.next_revision
      → (outstanding q r ≡ 0) ⊎ (outstanding q r + moves ≤ outstanding p r)

take-IsProgress : (p : DatabasePersistence) → IsQueue p → IsProgress p (take p) (acts p taken)
unfolding take take_pending acts
take-IsProgress p v = go p.writing p.queue.pending v
  where
    go :
        (w : Option (ℕ × PersistenceUpdate)) (us : List (ℕ × PersistenceUpdate))
        → IsQueue (holding p w us)
        → IsProgress (holding p w us) (take (holding p w us)) (acts (holding p w us) taken)
    go (some x) us v = record { valid = v; further = omega arith; less = λ r h. inr (omega arith) }
    go none [] v = record { valid = v; further = omega arith; less = λ r h. inr (omega arith) }
    go none (x ∷ us) v = record {
      valid = record {
        rises = v.rises.1;
        short = is_short_tail x us v.short;
        processed = omega (arith, v.rises.0);
        bound = v.bound;
        successful = omega (arith, v.successful);
      };
      further = omega arith;
      less = λ r h. ground (arith, v.rises.0);
    }

completed :
    (p : DatabasePersistence) (x : ℕ × PersistenceUpdate)
    → p.queue.processed_revision ≤ x.0
    → (if leb p.queue.processed_revision x.0 then x.0 else p.queue.processed_revision) ≡ x.0
completed p x h = ground arith

finish-IsProgress :
    (p : DatabasePersistence) (b : Bool) → IsQueue p → IsProgress p (finish p b) (acts p (ended b))
unfolding finish complete acts
finish-IsProgress p b v = go p.writing b v
  where
    go :
        (w : Option (ℕ × PersistenceUpdate)) (b : Bool)
        → IsQueue (holding p w p.queue.pending)
        → IsProgress
            (holding p w p.queue.pending)
            (finish (holding p w p.queue.pending) b)
            (acts (holding p w p.queue.pending) (ended b))
    go none b v = record { valid = v; further = omega arith; less = λ r h. inr (omega arith) }
    go (some x) true v = record {
      valid = record {
        rises =
            subst (λ r. Rises r p.queue.pending p.queue.next_revision)
              (sym (completed p x v.processed)) v.rises;
        short = v.short;
        processed = omega arith;
        bound = v.bound;
        successful = ground (arith, v.successful, v.processed);
      };
      further = omega arith;
      less = λ r h. ground (arith, v.processed, completed p x v.processed);
    }
    go (some x) false v = record {
      valid = record {
        rises =
            subst (λ r. Rises r p.queue.pending p.queue.next_revision)
              (sym (completed p x v.processed)) v.rises;
        short = v.short;
        processed = omega arith;
        bound = v.bound;
        successful = omega (arith, v.successful, v.processed, completed p x v.processed);
      };
      further = omega arith;
      less = λ r h. ground (arith, v.processed, completed p x v.processed);
    }

moves_left_le :
    (w : Option (ℕ × PersistenceUpdate)) (us vs : List (ℕ × PersistenceUpdate)) (processed r : ℕ)
    → (reached w processed < r → moves_for vs r ≤ moves_for us r)
    → moves_left w vs processed r + 0 ≤ moves_left w us processed r
moves_left_le none us vs processed r h = ground arith
moves_left_le (some x) us vs processed r h = ground arith

submit_counters-IsProgress :
    (p : DatabasePersistence) (t : TrafficSnapshot)
    → IsQueue p
    → IsProgress p (submit_counters p t).0 0
unfolding submit_counters submit_traffic
submit_counters-IsProgress p t v = elim (Bool-cases (no_traffic t)) [
  | inl e ↦ rw (e) (record { valid = v; further = omega arith; less = λ r h. inr (omega arith) })
  | inr e ↦ rw (e) (go p.writing v)
]
  where
    next : ℕ
    next = revision_after p.queue.next_revision

    go :
        (w : Option (ℕ × PersistenceUpdate))
        → IsQueue (holding p w p.queue.pending)
        → IsProgress
            (holding p w p.queue.pending)
            (record p {
              writing = w;
              queue = record p.queue {
                next_revision = next;
                pending = push_traffic p.queue.pending next t;
                worker_running = true;
              };
            })
            0
    go w v =
        let later = revision_after-IsAfter p.queue.next_revision v.bound in
        record {
          valid = record {
            rises = Rises-push_traffic _ p.queue.pending _ next t v.rises later.0;
            short = is_short-push_traffic p.queue.pending next t v.short;
            processed = v.processed;
            bound = later.1;
            successful = omega (arith, v.successful);
          };
          further = later.0.0;
          less = λ r h. inr (
              moves_left_le w p.queue.pending _ _ r
                (λ b. moves_for-push_traffic _ p.queue.pending _ next t r v.rises b h later.0.0));
        }

submit-IsProgress :
    (p : DatabasePersistence) (db : Database) → IsQueue p → IsProgress p (submit p db).0 0
unfolding submit submit_snapshot
submit-IsProgress p db v = go p.writing p.queue.pending v
  where
    next : ℕ
    next = revision_after p.queue.next_revision

    go :
        (w : Option (ℕ × PersistenceUpdate)) (us : List (ℕ × PersistenceUpdate))
        → IsQueue (holding p w us)
        → IsProgress (holding p w us) (submit (holding p w us) db).0 0
    go w us v =
        let later = revision_after-IsAfter p.queue.next_revision v.bound in
        record {
          valid = record {
            rises = (omega (arith, later.0, Rises-le _ us _ v.rises), refl);
            short = refl;
            processed = v.processed;
            bound = later.1;
            successful = omega (arith, v.successful);
          };
          further = later.0.0;
          less = λ r h. inr (
              moves_left_le w us _ _ r
                (λ b. moves_for-single _ us _ next (snapshot db) r v.rises b h later.0.0));
        }

both_moves :
    (a b c m k : ℕ) → (b ≡ 0) ⊎ (b + m ≤ a) → (c ≡ 0) ⊎ (c + k ≤ b) → (c ≡ 0) ⊎ (c + (m + k) ≤ a)
both_moves a b c m k h g = ground arith

step-IsProgress :
    (p : DatabasePersistence) (e : Event) → IsQueue p → IsProgress p (step p e) (acts p e)
unfolding step acts
step-IsProgress p (snapshot_submitted db) v = submit-IsProgress p db v
step-IsProgress p (traffic_submitted t) v = submit_counters-IsProgress p t v
step-IsProgress p taken v = take-IsProgress p v
step-IsProgress p (ended b) v = finish-IsProgress p b v

run-IsProgress :
    (p : DatabasePersistence) (events : List Event)
    → IsQueue p
    → IsProgress p (run p events) (worker_moves p events)
unfolding run worker_moves
run-IsProgress p [] v = record { valid = v; further = omega arith; less = λ r h. inr (omega arith) }
run-IsProgress p (e ∷ events) v =
    let one = step-IsProgress p e v in
    let rest = run-IsProgress (step p e) events one.valid in
    record {
      valid = rest.valid;
      further = omega (arith, one.further, rest.further);
      less =
          λ r h. both_moves _ _ _ _ _ (one.less r h) (rest.less r (omega (arith, h, one.further)));
    }

started-IsQueue : (disk : Disk) → IsQueue (started disk)
started-IsQueue disk = record {
  rises = refl;
  short = refl;
  processed = omega arith;
  bound = omega arith;
  successful = omega arith;
}

-- At any time at most two updates are pending, a snapshot and then traffic if there are two. Each has a
-- higher revision than the one before it, the first a higher one than the update that the worker is
-- writing or has written last, and the last pending one has the last revision that was handed out; only
-- at 2^64 - 1 do revisions stop rising. The revision that has succeeded is no higher than the one that
-- is processed, and that one no higher than the worker's. So it is whatever is submitted and whether
-- writes succeed or fail.
pub run-IsQueue : (disk : Disk) (events : List Event) → IsQueue (run (started disk) events)
run-IsQueue disk events = (run-IsProgress (started disk) events (started-IsQueue disk)).valid

moves_left_bound :
    (w : Option (ℕ × PersistenceUpdate)) (us : List (ℕ × PersistenceUpdate)) (processed r : ℕ)
    → is_short us ≡ true
    → moves_left w us processed r ≤ 5
moves_left_bound none us processed r h = ground (arith, short_moves us r h)
moves_left_bound (some x) us processed r h = ground (arith, short_moves us r h)

none_left :
    (w : Option (ℕ × PersistenceUpdate)) (us : List (ℕ × PersistenceUpdate)) (processed n r : ℕ)
    → Rises (reached w processed) us n
    → r ≤ n
    → moves_left w us processed r ≡ 0
    → r ≤ processed
none_left none [] processed n r e k h = omega arith
none_left none (x ∷ us) processed n r e k h = ground arith
none_left (some x) us processed n r e k h = ground arith

processed-wait :
    (p : DatabasePersistence) (r : ℕ) → r ≤ p.queue.processed_revision → wait p r ≢ none
unfolding wait
processed-wait p r h = ground arith

-- A revision that was handed out is answered, with success or with an error, before the worker has
-- made five more moves, whatever is submitted meanwhile and whether its writes succeed.
pub submitted-wait :
    (disk : Disk) (before after : List Event) (revision : ℕ)
    → revision ≤ (run (started disk) before).queue.next_revision
    → 5 ≤ worker_moves (run (started disk) before) after
    → wait (run (run (started disk) before) after) revision ≢ none
submitted-wait disk before after revision h k =
    let start = run-IsQueue disk before in
    let done = run-IsProgress (run (started disk) before) after start in
    let end = run (run (started disk) before) after in
    let nothing : outstanding end revision ≡ 0 =
      spent _ _ _ (done.less revision h) (moves_left_bound _ _ _ revision start.short) k in
    processed-wait end revision
      (none_left _ _ _ _ revision done.valid.rises (omega (arith, h, done.further)) nothing)
  where
    spent : (a c m : ℕ) → (c ≡ 0) ⊎ (c + m ≤ a) → a ≤ 5 → 5 ≤ m → c ≡ 0
    spent a c m h k l = ground arith
