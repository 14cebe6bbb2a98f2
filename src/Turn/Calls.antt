-- ===== src/Turn/Calls.antt =====
-- The responses and the driver's calls of the TURN client keep its invariant
-- (rust-client/turn_core.rs).
use csqtt_android.Shared.{
  ℕ, ◌≤◌, ◌≡◌, refl, ap, ◌∙◌, Bool, true, false, not, ◌||◌, List, Option, none, arith, ◌==◌,
  if◌then◌else◌, Bool-cases, Option-cases, inl, inr, get_default,
}
use csqtt_android.Stun
use csqtt_android.Turn.{
  Crypto, Inner, SocketAddr, Operation, allocate, refresh, deallocate, permission, channel,
  result_success, State, state_allocating, state_ready, state_deallocating, state_deallocated,
  set_state, find_operation, has_operation, is_some,
}
use csqtt_android.Turn.Builder.{
  decode_xor_address, attribute_u32, attr_xor_relayed_address, attr_lifetime,
}
use csqtt_android.Turn.Steps.{start_operation, complete, complete_success, granted, same_family}
use csqtt_android.Turn.Valid.{
  rank, IsInner, IsInner-of_Queued, push_event-Queued, set_state-Queued, complete-Queued,
  start_operation-Kept,
}
use csqtt_android.Turn.Moves.{
  Moved, Moved-trans, Moved-refl, Moved-of_Kept, Moved-of_Queued, untouched, rank-bound,
}

pub Moved-if {ℓ} :
    {A : Type ℓ} (c : Inner) (b : Bool) (x y : Inner × A)
    → Moved c x.0
    → Moved c y.0
    → Moved c (if b then x else y).0
Moved-if c true x y f g = f
Moved-if c false x y f g = g

-- A later state, with no Allocate pending.
pub set_state-Moved :
    (c : Inner) (s : State)
    → IsInner c
    → find_operation allocate c.pending ≡ none
    → rank c.state ≤ rank s
    → Moved c (set_state c s)
unfolding has_operation
set_state-Moved c s v e h =
    let q = set_state-Queued c s in
    record {
      valid =
          IsInner-of_Queued (record c { state = s }) (set_state c s) q
            (record {
              controls = v.controls;
              events = v.events;
              distinct = v.distinct;
              allocating = λ g. ground (arith, g, e);
              deallocating = λ g. omega (arith, h, rank-bound s, v.deallocating g);
            });
      later = omega (arith, h, ap rank q.state);
    }

closing_rank : (c : Inner) → rank (set_state c state_deallocating).state ≡ 3
closing_rank c = ap rank (set_state-Queued c state_deallocating).state

no_allocate : (c : Inner) → IsInner c → rank c.state ≡ 3 → find_operation allocate c.pending ≡ none
unfolding has_operation
no_allocate c v h = elim (Option-cases (find_operation allocate c.pending)) [
  | inl e ↦ e
  | inr (p, e) ↦ absurd (omega (arith, h, ap rank (v.allocating (ap is_some e))))
]

granted-Moved :
    (c : Inner) (relay : SocketAddr) (returned : Option ℕ) (now : ℕ)
    → IsInner c
    → Moved c (granted c relay returned now)
      × ((granted c relay returned now).pending ≡ c.pending)
      × ((granted c relay returned now).state ≡ c.state)
unfolding granted
granted-Moved c relay returned now v =
    let changed = untouched c _ v refl refl refl refl in
    let q = push_event-Queued _ _ in
    (Moved-trans c _ _ changed (Moved-of_Queued _ _ changed.valid q), q.pending, q.state)

allocated-Moved :
    (crypto : Crypto) (random : Operation → List ℕ) (c : Inner) (message : Stun.Message) (now : ℕ)
    → IsInner c
    → find_operation allocate c.pending ≡ none
    → c.state ≡ state_allocating
    → Moved c (complete_success crypto random c allocate message now).0
unfolding complete_success
allocated-Moved crypto random c message now v e s =
    elim (Option-cases (Stun.attribute message attr_xor_relayed_address)) [
      | inl f ↦ rw (f, complete_success) (Moved-refl c v)
      | inr (a, f) ↦
          rw (f, complete_success)
            (elim (Option-cases (decode_xor_address a.value message.transaction)) [
              | inl g ↦ rw (g) (Moved-refl c v)
              | inr (relay, g) ↦
                  rw (g)
                    (elim (Bool-cases
                      (not (same_family relay.is_ipv4 c.peer.is_ipv4) || relay.port == 0)) [
                        | inl h ↦ rw (h) (Moved-refl c v)
                        | inr h ↦
                            rw (h)
                              (elim (Bool-cases
                                (get_default 600 (attribute_u32 message attr_lifetime) == 0)) [
                                  | inl i ↦ rw (i) (Moved-refl c v)
                                  | inr i ↦ rw (i) (given relay)
                                ])
                      ])
            ])
    ]
  where
    given :
        (relay : SocketAddr)
        → let next : Inner = granted c relay (attribute_u32 message attr_lifetime) now in
          Moved c
            (if c.shutting_down
              then start_operation crypto random now
                  (set_state next state_deallocating)
                  deallocate
                  true
                  0
              else (complete (set_state next state_ready) allocate result_success 0, true)).0
    given relay =
        let next : Inner = granted c relay (attribute_u32 message attr_lifetime) now in
        let (moved, pending, state) =
          granted-Moved c relay (attribute_u32 message attr_lifetime) now v in
        let free : find_operation allocate next.pending ≡ none =
          ap (find_operation allocate) pending ∙ e in
        let at : rank next.state ≡ 1 = ap rank (state ∙ s) in
        let closing =
          Moved-trans c _ _ moved
            (set_state-Moved next state_deallocating moved.valid free (omega (arith, at))) in
        let ready =
          Moved-trans c _ _ moved
            (set_state-Moved next state_ready moved.valid free (omega (arith, at))) in
        Moved-if c c.shutting_down _ _
          (Moved-trans c _ _ closing (
            Moved-of_Kept _ _ (
              start_operation-Kept crypto random now _ deallocate true 0 closing.valid (λ k. cc)
                (λ k. omega (arith, closing_rank next)))))
          (Moved-trans c _ _ ready
            (Moved-of_Queued _ _ ready.valid (complete-Queued _ allocate result_success 0)))

pub complete_success-Moved :
    (crypto : Crypto) (random : Operation → List ℕ) (c : Inner) (o : Operation)
    (message : Stun.Message) (now : ℕ)
    → IsInner c
    → find_operation o c.pending ≡ none
    → (o ≡ allocate → c.state ≡ state_allocating)
    → (o ≡ deallocate → rank c.state ≡ 3)
    → Moved c (complete_success crypto random c o message now).0
unfolding complete_success
complete_success-Moved crypto random c allocate message now v e s k =
    allocated-Moved crypto random c message now v e (s refl)
complete_success-Moved crypto random c refresh message now v e s k =
    let changed = untouched c _ v refl refl refl refl in
    Moved-if c _ _ _ (Moved-refl c v) (
      Moved-trans c _ _ changed
        (Moved-of_Queued _ _ changed.valid (complete-Queued _ refresh result_success 0)))
complete_success-Moved crypto random c deallocate message now v e s k =
    let changed = untouched c _ v refl refl refl refl in
    let told = Moved-of_Queued _ _ changed.valid (complete-Queued _ deallocate result_success 0) in
    let both = Moved-trans c _ _ changed told in
    Moved-if c _ _ _ (Moved-refl c v) (
      Moved-trans c _ _ both (
        set_state-Moved _ state_deallocated told.valid
          (no_allocate _ told.valid (
            omega (
              arith,
              k refl,
              rank-bound (complete _ deallocate result_success 0).state,
              both.later,
            )))
          (rank-bound _)))
complete_success-Moved crypto random c permission message now v e s k =
    let changed = untouched c _ v refl refl refl refl in
    Moved-trans c _ _ changed
      (Moved-of_Queued _ _ changed.valid (complete-Queued _ permission result_success 0))
complete_success-Moved crypto random c channel message now v e s k =
    let changed = untouched c _ v refl refl refl refl in
    let told = Moved-of_Queued _ _ changed.valid (push_event-Queued _ _) in
    Moved-trans c _ _ changed (
      Moved-trans _ _ _ told
        (Moved-of_Queued _ _ told.valid (complete-Queued _ channel result_success 0)))
