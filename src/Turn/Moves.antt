-- ===== src/Turn/Moves.antt =====
-- Every call of the TURN client keeps its invariant and never takes the client back to an earlier
-- state (rust-client/turn_core.rs).
use csqtt_android.Shared.{
  ℕ, zero, suc, ◌+◌, ◌≤◌, ◌≡◌, refl, sym, ap, subst, ◌∙◌, Bool, true, false, ◌&&◌, ◌||◌, [], arith,
  ltb, leb, if◌then◌else◌, length, get_elem?, Bool-cases, Option-cases, inl, inr,
}
use csqtt_android.Turn.{
  Inner, Operation, allocate, refresh, deallocate, permission, channel, Status, result_timeout,
  State, state_null, state_allocating, state_ready, state_deallocating, state_deallocated,
  state_destroying, same_state, same, set_state, queue_packet, max_transmissions, find_operation,
  has_operation, is_some,
}
use csqtt_android.Turn.Steps.{
  complete, destroy_allocation, destroy_after_channel_rebind_exhausted, schedule_maintenance_retry,
  complete_failure, expire_from, expire_transactions, is_maintenance, is_before, one_more,
  is_stream,
}
use csqtt_android.Turn.Valid.{
  rank, IsInner, IsDistinct, Queued, IsInner-of_Queued, Kept, push_event-Queued, set_state-Queued,
  queue_packet-Queued, complete-Queued, IsInner-of_untouched, taken-Kept, resent-Kept,
}

pub rank-bound : (s : State) → rank s ≤ 3
rank-bound state_null = omega arith
rank-bound state_allocating = omega arith
rank-bound state_ready = omega arith
rank-bound state_deallocating = omega arith
rank-bound state_deallocated = omega arith
rank-bound state_destroying = omega arith

-- `d` is valid and in no earlier state than `c`.
pub record Moved (c d : Inner) : Type 0 where
  pub valid : IsInner d
  pub later : rank c.state ≤ rank d.state

pub Moved-trans : (b c d : Inner) → Moved b c → Moved c d → Moved b d
Moved-trans b c d f g = record { valid = g.valid; later = omega (arith, f.later, g.later) }

pub Moved-refl : (c : Inner) → IsInner c → Moved c c
Moved-refl c v = record { valid = v; later = omega arith }

pub Moved-of_Kept : (c d : Inner) → Kept c d → Moved c d
Moved-of_Kept c d k = record { valid = k.valid; later = omega (arith, ap rank k.state) }

pub Moved-of_Queued : (c d : Inner) → IsInner c → Queued c d → Moved c d
Moved-of_Queued c d v q = record {
  valid = IsInner-of_Queued c d q v;
  later = omega (arith, ap rank q.state);
}

pub untouched :
    (c d : Inner)
    → IsInner c
    → d.pending ≡ c.pending
    → d.state ≡ c.state
    → d.controls ≡ c.controls
    → d.events ≡ c.events
    → Moved c d
untouched c d v p s q e = record {
  valid = IsInner-of_untouched c d v p s q e;
  later = omega (arith, ap rank s);
}

-- The client in another state, with nothing pending.
pub emptied-IsInner :
    (c d : Inner) → d.pending ≡ [] → length d.controls ≤ 16 → length d.events ≤ 64 → IsInner d
unfolding has_operation find_operation
emptied-IsInner c d e h k = record {
  controls = h;
  events = k;
  distinct = subst IsDistinct (sym e) tt;
  allocating = λ g. ground (arith, g, ap (λ ps. is_some (find_operation allocate ps)) e);
  deallocating = λ g. ground (arith, g, ap (λ ps. is_some (find_operation deallocate ps)) e);
}

-- The end of an allocation, from whatever state.
pub ended-Moved :
    (c d : Inner) (s : State)
    → d.pending ≡ []
    → length d.controls ≤ 16
    → length d.events ≤ 64
    → rank s ≡ 3
    → Moved c (set_state d s)
ended-Moved c d s e h k r =
    let q = set_state-Queued d s in
    record {
      valid = emptied-IsInner c (set_state d s) (q.pending ∙ e) (q.controls h) (q.events k);
      later = omega (arith, rank-bound c.state, r, ap rank q.state);
    }

pub destroy_allocation-Moved :
    (c : Inner) (o : Operation) (status : Status) (code : ℕ)
    → IsInner c
    → Moved c (destroy_allocation c o status code)
unfolding destroy_allocation
destroy_allocation-Moved c o status code v =
    ended-Moved c _ _ refl (omega arith) ((complete-Queued c o status code).events v.events)
      (last (same o deallocate))
  where
    last : (b : Bool) → rank (if b then state_deallocated else state_destroying) ≡ 3
    last true = refl
    last false = refl

destroy_after-Moved : (c : Inner) → IsInner c → Moved c (destroy_after_channel_rebind_exhausted c)
unfolding destroy_after_channel_rebind_exhausted
destroy_after-Moved c v =
    let q = push_event-Queued _ _ in
    ended-Moved c _ state_destroying q.pending (q.controls (omega arith)) (q.events v.events) refl

schedule-Moved :
    (c : Inner) (o : Operation) (now : ℕ)
    → IsInner c
    → Moved c (schedule_maintenance_retry c o now).0
unfolding schedule_maintenance_retry
schedule-Moved c allocate now v = Moved-refl c v
schedule-Moved c deallocate now v = Moved-refl c v
schedule-Moved c refresh now v = untouched c _ v refl refl refl refl
schedule-Moved c permission now v = untouched c _ v refl refl refl refl
schedule-Moved c channel now v = elim (Bool-cases (leb 4 (one_more c.channel_failures))) [
  | inl e ↦ rw (e, schedule_maintenance_retry) (untouched c _ v refl refl refl refl)
  | inr e ↦ rw (e, schedule_maintenance_retry) (untouched c _ v refl refl refl refl)
]

pub complete_failure-Moved :
    (c : Inner) (o : Operation) (status : Status) (code now : ℕ)
    → IsInner c
    → Moved c (complete_failure c o status code now)
unfolding complete_failure
complete_failure-Moved c o status code now v =
    elim (Bool-cases (
      is_maintenance o
      && (same_state c.state state_ready && is_before now c.allocation_expires_at))) [
        | inr e ↦ rw (e, complete_failure) (destroy_allocation-Moved c o status code v)
        | inl e ↦
            let done = Moved-of_Queued c _ v (complete-Queued c o status code) in
            let tried =
              Moved-trans c _ _ done (schedule-Moved (complete c o status code) o now done.valid) in
            rw (e, complete_failure)
              (elim (Bool-cases (schedule_maintenance_retry (complete c o status code) o now).1) [
                | inl f ↦ rw (f) tried
                | inr f ↦ rw (f) (Moved-trans c _ _ tried (destroy_after-Moved _ tried.valid))
              ])
      ]

expire_from-Moved :
    (turns now index : ℕ) (c : Inner) → IsInner c → Moved c (expire_from turns now index c)
unfolding expire_from
expire_from-Moved zero now index c v = Moved-refl c v
expire_from-Moved (suc turns) now index c v = elim (Option-cases (get_elem? c.pending index)) [
  | inl e ↦ rw (e, expire_from) (Moved-refl c v)
  | inr (p, e) ↦
      rw (e, expire_from)
        (elim (Bool-cases (ltb now p.next_attempt)) [
          | inl f ↦ rw (f) (expire_from-Moved turns now (index + 1) c v)
          | inr f ↦
              rw (f) (elim (Bool-cases (leb max_transmissions p.transmissions || is_stream c)) [
                | inl g ↦
                    let rest = Moved-of_Kept c _ (taken-Kept c index p.transaction v) in
                    let failed =
                      Moved-trans c _ _ rest
                        (complete_failure-Moved _ p.operation result_timeout 0 now rest.valid) in
                    rw (g)
                      (Moved-trans c _ _ failed (expire_from-Moved turns now index _ failed.valid))
                | inr g ↦
                    let queued = queue_packet-Queued c p.packet in
                    let again =
                      Moved-of_Kept c _
                        (resent-Kept c (queue_packet c p.packet) index now p v queued e) in
                    rw (g) (
                      Moved-trans c _ _ again
                        (expire_from-Moved turns now (index + 1) _ again.valid))
              ])
        ])
]

pub expire_transactions-Moved :
    (now : ℕ) (c : Inner) → IsInner c → Moved c (expire_transactions now c)
unfolding expire_transactions
expire_transactions-Moved now c v = expire_from-Moved (length c.pending) now 0 c v
