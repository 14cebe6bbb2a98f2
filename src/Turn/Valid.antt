-- ===== src/Turn/Valid.antt =====
-- The invariant of the TURN client (rust-client/turn_core.rs).
use csqtt_android.Shared.{
  ℕ, zero, suc, ◌≤◌, ◌<◌, ◌≡◌, refl, sym, ap, subst, ◌∙◌, Bool, true, false, not, ◌&&◌, List, [],
  ◌∷◌, ◌++◌, Option, none, some, arith, ◌==◌, if◌then◌else◌, length, drop, get_elem?, set,
  Bool-cases, Option-cases, inl, inr, length-append, length-drop,
}
use csqtt_android.Turn.{
  Crypto, Inner, Pending, Control, NativeEvent, Operation, allocate, refresh, deallocate,
  permission, channel, Status, State, state_null, state_allocating, state_ready, state_deallocating,
  state_deallocated, state_destroying, same_state, same, push_event, set_state, queue_packet,
  find_operation, has_operation, is_some, without_transaction, remove_queued_transaction,
  event_capacity, control_capacity,
}
use csqtt_android.Turn.Builder.{build_request}
use csqtt_android.Turn.Steps.{start_operation, complete, remove_at, resent}

-- No operation is pending twice.
abbrev pub IsDistinct : List Pending → Type 0
IsDistinct [] = Unit
IsDistinct (p ∷ pending) = (find_operation p.operation pending ≡ none) × IsDistinct pending

-- The order of the states; the last three are the end.
abbrev pub rank : State → ℕ
rank state_null = 0
rank state_allocating = 1
rank state_ready = 2
rank state_deallocating = 3
rank state_deallocated = 3
rank state_destroying = 3

-- The queues are within their capacities, an operation is pending at most once, an Allocate only while
-- the client is allocating, and a deallocation only at the end.
pub record IsInner (c : Inner) : Type 0 where
  pub controls : length c.controls ≤ 16
  pub events : length c.events ≤ 64
  pub distinct : IsDistinct c.pending
  pub allocating : has_operation c allocate ≡ true → c.state ≡ state_allocating
  pub deallocating : has_operation c deallocate ≡ true → rank c.state ≡ 3

-- Only the queues differ, and they stay within their capacities.
pub record Queued (c d : Inner) : Type 0 where
  pub pending : d.pending ≡ c.pending
  pub state : d.state ≡ c.state
  pub relay : d.relay ≡ c.relay
  pub controls : length c.controls ≤ 16 → length d.controls ≤ 16
  pub events : length c.events ≤ 64 → length d.events ≤ 64

pub Queued-trans : (b c d : Inner) → Queued b c → Queued c d → Queued b d
Queued-trans b c d f g = record {
  pending = g.pending ∙ f.pending;
  state = g.state ∙ f.state;
  relay = g.relay ∙ f.relay;
  controls = λ h. g.controls (f.controls h);
  events = λ h. g.events (f.events h);
}

pub IsInner-of_Queued : (c d : Inner) → Queued c d → IsInner c → IsInner d
unfolding has_operation
IsInner-of_Queued c d q v = record {
  controls = q.controls v.controls;
  events = q.events v.events;
  distinct = subst IsDistinct (sym q.pending) v.distinct;
  allocating = λ h.
      q.state ∙ v.allocating (ap (λ ps. is_some (find_operation allocate ps)) (sym q.pending) ∙ h);
  deallocating = λ h.
      ap rank q.state
      ∙ v.deallocating (ap (λ ps. is_some (find_operation deallocate ps)) (sym q.pending) ∙ h);
}

-- A full queue loses its oldest entry.
bounded_push {ℓ} :
    {A : Type ℓ} (n : ℕ) (xs : List A) (x y : A)
    → 0 < n
    → length xs ≤ n
    → (length (drop 1 xs ++ (y ∷ [])) ≤ n)
      × ((length xs == n) ≡ false → length (xs ++ (x ∷ [])) ≤ n)
bounded_push n xs x y z h = (
  omega (arith, length-append (drop 1 xs) (y ∷ []), length-drop 1 xs),
  λ e. ground (arith, e, length-append xs (x ∷ [])),
)

pub push_event-Queued : (c : Inner) (event : NativeEvent) → Queued c (push_event c event)
unfolding push_event
push_event-Queued c event = elim (Bool-cases (length c.events == event_capacity)) [
  | inl e ↦
      rw (e, push_event)
        (record {
          pending = refl;
          state = refl;
          relay = refl;
          controls = λ h. h;
          events = λ h. (bounded_push 64 c.events event _ (omega arith) h).0;
        })
  | inr e ↦
      rw (e, push_event)
        (record {
          pending = refl;
          state = refl;
          relay = refl;
          controls = λ h. h;
          events = λ h. (bounded_push 64 c.events event event (omega arith) h).1 e;
        })
]

pub same_state_eq : (a b : State) → same_state a b ≡ true → a ≡ b
same_state_eq state_null state_null h = refl
same_state_eq state_allocating state_allocating h = refl
same_state_eq state_ready state_ready h = refl
same_state_eq state_deallocating state_deallocating h = refl
same_state_eq state_deallocated state_deallocated h = refl
same_state_eq state_destroying state_destroying h = refl
same_state_eq _ _ h = cc

pub set_state-Queued : (c : Inner) (s : State) → Queued (record c { state = s }) (set_state c s)
unfolding set_state
set_state-Queued c s = elim (Bool-cases (same_state c.state s)) [
  | inl e ↦
      rw (e, set_state)
        (record {
          pending = refl;
          state = same_state_eq c.state s e;
          relay = refl;
          controls = λ h. h;
          events = λ h. h;
        })
  | inr e ↦ rw (e, set_state) (push_event-Queued _ _)
]

push_event-controls : (c : Inner) (event : NativeEvent) → (push_event c event).controls ≡ c.controls
unfolding push_event
push_event-controls c event = elim (Bool-cases (length c.events == event_capacity)) [
  | inl e ↦ rw (e, push_event) refl
  | inr e ↦ rw (e, push_event) refl
]

pub queue_packet-Queued : (c : Inner) (packet : List ℕ) → Queued c (queue_packet c packet)
unfolding queue_packet
queue_packet-Queued c packet = elim (Bool-cases (length c.controls == control_capacity)) [
  | inl e ↦
      let shorter : Inner = record c { controls = drop 1 c.controls } in
      let full = push_event-Queued shorter _ in
      let last : Control = record { packet = packet; destination = c.server } in
      rw (e, queue_packet)
        (record {
          pending = full.pending;
          state = full.state;
          relay = full.relay;
          controls = λ h.
              subst (λ controls. length (controls ++ (last ∷ [])) ≤ 16)
                (sym (push_event-controls shorter _))
                (bounded_push 16 c.controls last last (omega arith) h).0;
          events = full.events;
        })
  | inr e ↦
      rw (e, queue_packet)
        (record {
          pending = refl;
          state = refl;
          relay = refl;
          controls = λ h.
              (bounded_push 16 c.controls _ (record { packet = packet; destination = c.server })
                  (omega arith) h).1
                e;
          events = λ h. h;
        })
]

pub complete-Queued :
    (c : Inner) (o : Operation) (status : Status) (code : ℕ) → Queued c (complete c o status code)
unfolding complete
complete-Queued c o status code = push_event-Queued c _

same_refl : (o : Operation) → same o o ≡ true
same_refl allocate = refl
same_refl refresh = refl
same_refl deallocate = refl
same_refl permission = refl
same_refl channel = refl

same_eq : (o p : Operation) → same o p ≡ true → o ≡ p
same_eq allocate allocate h = refl
same_eq refresh refresh h = refl
same_eq deallocate deallocate h = refl
same_eq permission permission h = refl
same_eq channel channel h = refl
same_eq _ _ h = cc

find_operation-append :
    (o : Operation) (ps : List Pending) (p : Pending)
    → find_operation o (ps ++ (p ∷ [])) ≡ (
        if is_some (find_operation o ps)
        then find_operation o ps
        else (if same p.operation o then some p else none))
unfolding find_operation
find_operation-append o [] p = refl
find_operation-append o (q ∷ ps) p = ground (arith, find_operation-append o ps p)

IsDistinct-append :
    (ps : List Pending) (p : Pending)
    → IsDistinct ps
    → find_operation p.operation ps ≡ none
    → IsDistinct (ps ++ (p ∷ []))
unfolding find_operation
IsDistinct-append [] p d h = (refl, tt)
IsDistinct-append (q ∷ ps) p (fresh, d) h = (
  ground (
    arith,
    fresh,
    h,
    find_operation-append q.operation ps p,
    same_eq p.operation q.operation,
    same_refl p.operation,
  ),
  IsDistinct-append ps p d (ground (arith, h)),
)

-- `d` is valid, in the state of `c` and with its relay.
pub record Kept (c d : Inner) : Type 0 where
  pub valid : IsInner d
  pub state : d.state ≡ c.state
  pub relay : d.relay ≡ c.relay

Kept-of_Queued : (c d : Inner) → IsInner c → Queued c d → Kept c d
Kept-of_Queued c d v q = record {
  valid = IsInner-of_Queued c d q v;
  state = q.state;
  relay = q.relay;
}

more_pending-Kept :
    (c : Inner) (p : Pending)
    → IsInner c
    → has_operation c p.operation ≡ false
    → (p.operation ≡ allocate → c.state ≡ state_allocating)
    → (p.operation ≡ deallocate → rank c.state ≡ 3)
    → Kept c (record c { pending = c.pending ++ (p ∷ []) })
unfolding has_operation
more_pending-Kept c p v e h k = record {
  valid = record {
    controls = v.controls;
    events = v.events;
    distinct = IsDistinct-append c.pending p v.distinct (ground (arith, e));
    allocating = λ g. ground (
      arith,
      g,
      v.allocating,
      h,
      find_operation-append allocate c.pending p,
      same_eq p.operation allocate,
    );
    deallocating = λ g. ground (
      arith,
      g,
      v.deallocating,
      k,
      find_operation-append deallocate c.pending p,
      same_eq p.operation deallocate,
    );
  };
  state = refl;
  relay = refl;
}

Kept-trans : (b c d : Inner) → Kept b c → Kept c d → Kept b d
Kept-trans b c d f g = record {
  valid = g.valid;
  state = g.state ∙ f.state;
  relay = g.relay ∙ f.relay;
}

-- A request is started once, an Allocate only in its state; the state is kept.
pub start_operation-Kept :
    (crypto : Crypto) (random : Operation → List ℕ) (now : ℕ) (c : Inner) (o : Operation)
    (auth : Bool) (retries : ℕ)
    → IsInner c
    → (o ≡ allocate → c.state ≡ state_allocating)
    → (o ≡ deallocate → rank c.state ≡ 3)
    → Kept c (start_operation crypto random now c o auth retries).0
unfolding start_operation has_operation
start_operation-Kept crypto random now c o auth retries v h k =
    elim (Option-cases (find_operation o c.pending)) [
      | inr (p, e) ↦
          rw (e, start_operation)
            (elim (Bool-cases (same o channel)) [
              | inl f ↦ rw (f) (Kept-of_Queued c _ v (queue_packet-Queued c p.packet))
              | inr f ↦ rw (f) unchanged
            ])
      | inl e ↦
          rw (e, start_operation)
            (elim (Bool-cases
              (auth && not (is_some c.realm && (is_some c.nonce && is_some c.key)))) [
                | inl f ↦ rw (f) unchanged
                | inr f ↦ rw (f) (elim (Option-cases (build_request crypto c o (random o) auth)) [
                  | inl g ↦ rw (g) unchanged
                  | inr (packet, g) ↦ rw (g) (
                      let queued = Kept-of_Queued c _ v (queue_packet-Queued c packet) in
                      Kept-trans c (queue_packet c packet) _ queued (
                        more_pending-Kept (queue_packet c packet) _ queued.valid
                          (ap (λ ps. is_some (find_operation o ps))
                              (queue_packet-Queued c packet).pending
                            ∙ ap is_some e)
                          (λ i. queued.state ∙ h i) (λ i. ap rank queued.state ∙ k i)))
                ])
              ])
    ]
  where
    unchanged : Kept c c
    unchanged = record { valid = v; state = refl; relay = refl }

pub IsInner-of_untouched :
    (c d : Inner)
    → IsInner c
    → d.pending ≡ c.pending
    → d.state ≡ c.state
    → d.controls ≡ c.controls
    → d.events ≡ c.events
    → IsInner d
unfolding has_operation
IsInner-of_untouched c d v p s q e = record {
  controls = omega (arith, v.controls, ap length q);
  events = omega (arith, v.events, ap length e);
  distinct = subst IsDistinct (sym p) v.distinct;
  allocating = λ h. s ∙ v.allocating (ap (λ ps. is_some (find_operation allocate ps)) (sym p) ∙ h);
  deallocating = λ h.
      ap rank s ∙ v.deallocating (ap (λ ps. is_some (find_operation deallocate ps)) (sym p) ∙ h);
}

length-without_transaction :
    (transaction : List ℕ) (controls : List Control)
    → length (without_transaction transaction controls) ≤ length controls
unfolding without_transaction
length-without_transaction transaction [] = omega arith
length-without_transaction transaction (control ∷ controls) =
    ground (arith, length-without_transaction transaction controls)

find_operation-remove_at :
    (o : Operation) (i : ℕ) (ps : List Pending)
    → find_operation o ps ≡ none
    → find_operation o (remove_at i ps) ≡ none
unfolding find_operation remove_at
find_operation-remove_at o i [] h = refl
find_operation-remove_at o zero (p ∷ ps) h = ground (arith, h)
find_operation-remove_at o (suc i) (p ∷ ps) h = ground (arith, h, find_operation-remove_at o i ps)

IsDistinct-remove_at : (i : ℕ) (ps : List Pending) → IsDistinct ps → IsDistinct (remove_at i ps)
unfolding remove_at
IsDistinct-remove_at i [] d = tt
IsDistinct-remove_at zero (p ∷ ps) (fresh, d) = d
IsDistinct-remove_at (suc i) (p ∷ ps) (fresh, d) =
    (find_operation-remove_at p.operation i ps fresh, IsDistinct-remove_at i ps d)

pub found-has :
    (i : ℕ) (ps : List Pending) (p : Pending)
    → get_elem? ps i ≡ some p
    → is_some (find_operation p.operation ps) ≡ true
unfolding find_operation
found-has i [] p h = cc
found-has zero (q ∷ ps) p h = ground (arith, h, same_refl p.operation)
found-has (suc i) (q ∷ ps) p h = ground (arith, h, found-has i ps p)

-- What was taken out is not there any more.
pub find_operation-taken :
    (i : ℕ) (ps : List Pending) (p : Pending)
    → IsDistinct ps
    → get_elem? ps i ≡ some p
    → find_operation p.operation (remove_at i ps) ≡ none
unfolding find_operation remove_at
find_operation-taken i [] p d h = refl
find_operation-taken zero (q ∷ ps) p (fresh, d) h = ground (arith, h, fresh)
find_operation-taken (suc i) (q ∷ ps) p (fresh, d) h =
    elim (Bool-cases (same q.operation p.operation)) [
      | inl e ↦
          absurd (ground (arith, fresh, found-has i ps p h, same_eq q.operation p.operation e))
      | inr e ↦ rw (e) (find_operation-taken i ps p d h)
    ]

pub taken-Kept :
    (c : Inner) (i : ℕ) (transaction : List ℕ)
    → IsInner c
    → Kept c (remove_queued_transaction (record c { pending = remove_at i c.pending }) transaction)
unfolding remove_queued_transaction has_operation
taken-Kept c i transaction v = record {
  valid = record {
    controls = omega (arith, v.controls, length-without_transaction transaction c.controls);
    events = v.events;
    distinct = IsDistinct-remove_at i c.pending v.distinct;
    allocating = λ h. v.allocating (
        still allocate (find_operation allocate c.pending)
          (find_operation-remove_at allocate i c.pending) h);
    deallocating = λ h. v.deallocating (
        still deallocate (find_operation deallocate c.pending)
          (find_operation-remove_at deallocate i c.pending) h);
  };
  state = refl;
  relay = refl;
}
  where
    still :
        (k : Operation) (o : Option Pending)
        → (o ≡ none → find_operation k (remove_at i c.pending) ≡ none)
        → is_some (find_operation k (remove_at i c.pending)) ≡ true
        → is_some o ≡ true
    still k none f h = ground (arith, f refl, h)
    still k (some p) f h = refl

find_operation-set :
    (o : Operation) (ps : List Pending) (i now : ℕ) (p : Pending)
    → get_elem? ps i ≡ some p
    → is_some (find_operation o (set ps i (resent now p))) ≡ is_some (find_operation o ps)
unfolding find_operation
find_operation-set o [] i now p h = refl
find_operation-set o (q ∷ ps) zero now p h = ground (arith, h)
find_operation-set o (q ∷ ps) (suc i) now p h = ground (arith, find_operation-set o ps i now p h)

IsDistinct-set :
    (ps : List Pending) (i now : ℕ) (p : Pending)
    → get_elem? ps i ≡ some p
    → IsDistinct ps
    → IsDistinct (set ps i (resent now p))
IsDistinct-set [] i now p h d = tt
IsDistinct-set (q ∷ ps) zero now p h (fresh, d) = (ground (arith, h, fresh), d)
IsDistinct-set (q ∷ ps) (suc i) now p h (fresh, d) = (
  ground (arith, fresh, find_operation-set q.operation ps i now p h),
  IsDistinct-set ps i now p h d,
)

pub resent-Kept :
    (c d : Inner) (i now : ℕ) (p : Pending)
    → IsInner c
    → Queued c d
    → get_elem? c.pending i ≡ some p
    → Kept c (record d { pending = set d.pending i (resent now p) })
unfolding has_operation
resent-Kept c d i now p v q e =
    let w = IsInner-of_Queued c d q v in
    let found : get_elem? d.pending i ≡ some p = ap (λ ps. get_elem? ps i) q.pending ∙ e in
    record {
      valid = record {
        controls = w.controls;
        events = w.events;
        distinct = IsDistinct-set d.pending i now p found w.distinct;
        allocating =
            λ h. w.allocating (sym (find_operation-set allocate d.pending i now p found) ∙ h);
        deallocating =
            λ h. w.deallocating (sym (find_operation-set deallocate d.pending i now p found) ∙ h);
      };
      state = q.state;
      relay = q.relay;
    }
