-- ===== src/Turn/Expire.antt =====
-- `expire_transactions` comes to its end (rust-client/turn_core.rs).
use csqtt_android.Shared.{
  ℕ, zero, suc, ◌+◌, ◌≤◌, ◌<◌, ◌≡◌, ◌≢◌, ◌⊎◌, refl, sym, ap, subst, ◌∙◌, ◌&&◌, ◌||◌, List, [], ◌∷◌,
  none, some, arith, ltb, leb, ◌==◌, if◌then◌else◌, length, get_elem?, set, Bool-cases,
  Option-cases, inl, inr, length-set, get_elem?_in_range, get_elem?-set_ne, get_elem?-set_self,
  lt_length_of_get, get_default,
}
use csqtt_android.Turn.{
  Inner, Pending, Operation, Status, result_timeout, max_transmissions, queue_packet,
  remove_queued_transaction,
}
use csqtt_android.Turn.Steps.{
  complete, destroy_allocation, destroy_after_channel_rebind_exhausted, schedule_maintenance_retry,
  complete_failure, remove_at, resent, is_stream, expire_from, expire_transactions, is_maintenance,
  is_before, one_more,
}
use csqtt_android.Turn.{
  same_state, state_ready, refresh, permission, channel, allocate, deallocate,
  max_channel_maintenance_failures,
}
use csqtt_android.Turn.Valid.{
  complete-Queued, queue_packet-Queued, set_state-Queued, push_event-Queued,
}

-- Every transaction before an index has its next attempt still ahead, and every one waits for some
-- time between attempts.
pub record IsCurrent (now index : ℕ) (ps : List Pending) : Type 0 where
  pub ahead : (i : ℕ) (p : Pending) → i < index → get_elem? ps i ≡ some p → now < p.next_attempt
  pub waits : (i : ℕ) (p : Pending) → get_elem? ps i ≡ some p → 0 < p.rto

schedule-pending :
    (c : Inner) (o : Operation) (now : ℕ)
    → (schedule_maintenance_retry c o now).0.pending ≡ c.pending
unfolding schedule_maintenance_retry
schedule-pending c allocate now = refl
schedule-pending c deallocate now = refl
schedule-pending c refresh now = refl
schedule-pending c permission now = refl
schedule-pending c channel now =
    elim (Bool-cases (leb max_channel_maintenance_failures (one_more c.channel_failures))) [
      | inl e ↦ rw (e, schedule_maintenance_retry) refl
      | inr e ↦ rw (e, schedule_maintenance_retry) refl
    ]

-- A failure keeps what is pending, or clears it.
complete_failure-pending :
    (c : Inner) (o : Operation) (status : Status) (code now : ℕ)
    → ((complete_failure c o status code now).pending ≡ c.pending)
      ⊎ ((complete_failure c o status code now).pending ≡ [])
unfolding complete_failure destroy_allocation destroy_after_channel_rebind_exhausted
complete_failure-pending c o status code now =
    elim (Bool-cases (
      is_maintenance o
      && (same_state c.state state_ready && is_before now c.allocation_expires_at))) [
        | inr e ↦ rw (e, complete_failure) (inr (set_state-Queued _ _).pending)
        | inl e ↦
            rw (e, complete_failure)
              (elim (Bool-cases (schedule_maintenance_retry (complete c o status code) o now).1) [
                | inl f ↦ rw (f) (
                    inl (
                      schedule-pending (complete c o status code) o now
                      ∙ (complete-Queued c o status code).pending))
                | inr f ↦
                    rw (f) (inr ((set_state-Queued _ _).pending ∙ (push_event-Queued _ _).pending))
              ])
      ]

get_elem?-remove_at :
    (i : ℕ) (ps : List Pending) (j : ℕ)
    → get_elem? (remove_at i ps) j ≡ (if ltb j i then get_elem? ps j else get_elem? ps (suc j))
unfolding remove_at
get_elem?-remove_at i [] j = ground arith
get_elem?-remove_at zero (p ∷ ps) j = ground arith
get_elem?-remove_at (suc i) (p ∷ ps) zero = ground arith
get_elem?-remove_at (suc i) (p ∷ ps) (suc j) = ground (arith, get_elem?-remove_at i ps j)

length-remove_at :
    (i : ℕ) (ps : List Pending) → i < length ps → length (remove_at i ps) + 1 ≡ length ps
unfolding remove_at
length-remove_at i [] h = absurd (omega arith)
length-remove_at zero (p ∷ ps) h = omega arith
length-remove_at (suc i) (p ∷ ps) h = omega (arith, length-remove_at i ps (omega arith))

removed-IsCurrent :
    (now index : ℕ) (ps : List Pending)
    → IsCurrent now index ps
    → IsCurrent now index (remove_at index ps)
removed-IsCurrent now index ps v = record {
  ahead = λ i p h e. v.ahead i p h (ground (arith, e, h, get_elem?-remove_at index ps i));
  waits = λ i p e. elim (Bool-cases (ltb i index)) [
    | inl f ↦ v.waits i p (ground (arith, e, f, get_elem?-remove_at index ps i))
    | inr f ↦ v.waits (suc i) p (ground (arith, e, f, get_elem?-remove_at index ps i))
  ];
}

get_elem?-resent :
    (now index : ℕ) (ps : List Pending) (p : Pending) (i : ℕ) (q : Pending)
    → get_elem? ps index ≡ some p
    → get_elem? (set ps index (resent now p)) i ≡ some q
    → ((i ≡ index) × (resent now p ≡ q)) ⊎ ((i ≢ index) × (get_elem? ps i ≡ some q))
get_elem?-resent now index ps p i q e f = elim (Bool-cases (i == index)) [
  | inl g ↦
      let at : i ≡ index = ground (arith, g) in
      let found = get_elem?-set_self ps index (resent now p) (lt_length_of_get ps index p e) in
      let both : some (resent now p) ≡ some q =
        sym found ∙ ap (get_elem? (set ps index (resent now p))) (sym at) ∙ f in
      inl (at, ap (get_default q) both)
  | inr g ↦
      let apart : i ≢ index = λ h. ground (arith, g, h) in
      inr (apart, sym (get_elem?-set_ne ps index i (resent now p) (λ h. apart (sym h))) ∙ f)
]

resent-IsCurrent :
    (now index : ℕ) (ps : List Pending) (p : Pending)
    → IsCurrent now index ps
    → get_elem? ps index ≡ some p
    → IsCurrent now (index + 1) (set ps index (resent now p))
resent-IsCurrent now index ps p v e = record {
  ahead = λ i q h f. elim (get_elem?-resent now index ps p i q e f) [
    | inl (at, same) ↦
        subst (λ (x : Pending). now < x.next_attempt) same (omega (arith, v.waits index p e))
    | inr (apart, old) ↦ v.ahead i q (ground (arith, h, apart)) old
  ];
  waits = λ i q f. elim (get_elem?-resent now index ps p i q e f) [
    | inl (at, same) ↦ subst (λ (x : Pending). 0 < x.rto) same (omega (arith, v.waits index p e))
    | inr (apart, old) ↦ v.waits i q old
  ];
}

next-IsCurrent :
    (now index : ℕ) (ps : List Pending) (p : Pending)
    → IsCurrent now index ps
    → get_elem? ps index ≡ some p
    → now < p.next_attempt
    → IsCurrent now (index + 1) ps
next-IsCurrent now index ps p v e h = record {
  ahead = λ i q k f. elim (Bool-cases (i == index)) [
    | inl g ↦
        let at : i ≡ index = ground (arith, g) in
        let both : some p ≡ some q = sym e ∙ ap (get_elem? ps) (sym at) ∙ f in
        subst (λ (x : Pending). now < x.next_attempt) (ap (get_default q) both) h
    | inr g ↦ v.ahead i q (ground (arith, g, k)) f
  ];
  waits = v.waits;
}

IsCurrent-of_cleared :
    (now index : ℕ) (ps qs : List Pending)
    → (qs ≡ ps) ⊎ (qs ≡ [])
    → IsCurrent now index ps
    → IsCurrent now index qs
IsCurrent-of_cleared now index ps qs (inl e) v = subst (IsCurrent now index) (sym e) v
IsCurrent-of_cleared now index ps qs (inr e) v =
    subst (IsCurrent now index) (sym e) (record { ahead = λ i p h f. cc; waits = λ i p f. cc })

length_of_cleared : (ps qs : List Pending) → (qs ≡ ps) ⊎ (qs ≡ []) → length qs ≤ length ps
length_of_cleared ps qs (inl e) = omega (arith, ap length e)
length_of_cleared ps qs (inr e) = omega (arith, ap length e)

-- Every transaction that is left has its next attempt still ahead.
abbrev pub AllAhead : ℕ → Inner → Type 0
AllAhead now c = (i : ℕ) (p : Pending) → get_elem? c.pending i ≡ some p → now < p.next_attempt

expire_from-AllAhead :
    (turns now index : ℕ) (c : Inner)
    → length c.pending ≤ index + turns
    → IsCurrent now index c.pending
    → AllAhead now (expire_from turns now index c)
unfolding expire_from remove_queued_transaction
expire_from-AllAhead zero now index c b v =
    λ i p f. v.ahead i p (omega (arith, b, lt_length_of_get c.pending i p f)) f
expire_from-AllAhead (suc turns) now index c b v = elim (Option-cases (get_elem? c.pending index)) [
  | inl e ↦ rw (e, expire_from) (λ i p f. v.ahead i p (past i p e f) f)
  | inr (p, e) ↦
      rw (e, expire_from)
        (elim (Bool-cases (ltb now p.next_attempt)) [
          | inl f ↦ rw (f) (
              expire_from-AllAhead turns now (index + 1) c (omega (arith, b))
                (next-IsCurrent now index c.pending p v e (ground (arith, f))))
          | inr f ↦
              rw (f) (elim (Bool-cases (leb max_transmissions p.transmissions || is_stream c)) [
                | inl g ↦
                    let rest : Inner =
                      remove_queued_transaction (record c { pending = remove_at index c.pending })
                        p.transaction in
                    let cleared = complete_failure-pending rest p.operation result_timeout 0 now in
                    let kept = removed-IsCurrent now index c.pending v in
                    rw (g) (
                      expire_from-AllAhead turns now index _
                        (omega (
                          arith,
                          b,
                          length_of_cleared (remove_at index c.pending) _ cleared,
                          length-remove_at index c.pending (lt_length_of_get c.pending index p e),
                        ))
                        (IsCurrent-of_cleared now index (remove_at index c.pending) _ cleared kept))
                | inr g ↦
                    let same = (queue_packet-Queued c p.packet).pending in
                    let again = resent-IsCurrent now index c.pending p v e in
                    rw (g) (
                      expire_from-AllAhead turns now (index + 1) _
                        (omega (
                          arith,
                          b,
                          length-set (queue_packet c p.packet).pending index (resent now p),
                          ap length same,
                        ))
                        (subst (λ ps. IsCurrent now (index + 1) (set ps index (resent now p)))
                          (sym same) again))
              ])
        ])
]
  where
    past :
        (i : ℕ) (p : Pending)
        → get_elem? c.pending index ≡ none
        → get_elem? c.pending i ≡ some p
        → i < index
    past i p e f = elim (Bool-cases (ltb i index)) [
      | inl g ↦ ground (arith, g)
      | inr g ↦
          let found =
            get_elem?_in_range c.pending index
              (ground (arith, g, lt_length_of_get c.pending i p f)) in
          absurd (ground (arith, e, found.1))
    ]

-- The loop of `expire_transactions` comes to its end within one turn for each transaction that was
-- pending: every transaction that is left then has its next attempt ahead. Every transaction waits
-- for some time between its attempts.
pub expire_transactions-AllAhead :
    (now : ℕ) (c : Inner)
    → ((i : ℕ) (p : Pending) → get_elem? c.pending i ≡ some p → 0 < p.rto)
    → AllAhead now (expire_transactions now c)
unfolding expire_transactions
expire_transactions-AllAhead now c h =
    expire_from-AllAhead (length c.pending) now 0 c (omega arith)
      (record { ahead = λ i p k f. absurd (omega arith); waits = h })
