-- ===== src/Turn/Trust.antt =====
-- A relay address is taken only from a response whose integrity holds (rust-client/turn_core.rs).
use csqtt_android.Shared.{
  ℕ, ◌+◌, ◌≡◌, ◌⊎◌, refl, sym, ap, ◌∙◌, Bool, true, false, not, ◌&&◌, ◌||◌, List, Option, none,
  some, arith, ltb, leb, ◌==◌, if◌then◌else◌, Bool-cases, Option-cases, inl, inr, map_option, or,
}
use csqtt_android.Stun
use csqtt_android.Turn.{
  Crypto, Inner, Pending, SocketAddr, Operation, allocate, refresh, deallocate, permission, channel,
  Status, result_authentication, result_protocol, result_success, same_state, state_ready, method,
  find_operation, is_some, same, remove_queued_transaction, max_channel_maintenance_failures,
}
use csqtt_android.Turn.Builder.{
  attr_realm, attr_nonce, verify_integrity, error_code, response_requires_integrity,
  is_fingerprinted_allocation_mismatch, requires_allocation_recreate, is_error, build_request,
}
use csqtt_android.Turn.Steps.{
  start_operation, complete, destroy_allocation, destroy_after_channel_rebind_exhausted,
  schedule_maintenance_retry, complete_failure, is_maintenance, is_before, remove_at, one_more,
}
use csqtt_android.Turn.Core.{
  set_auth, position, response_error, input_error, input_response, is_trusted, is_response,
  input_message, input_stun,
}
use csqtt_android.Turn.Valid.{
  push_event-Queued, set_state-Queued, queue_packet-Queued, complete-Queued,
}

-- The relay is the old one, or gone.
abbrev pub KeepsRelay : Inner → Inner → Type 0
KeepsRelay c d = (d.relay ≡ c.relay) ⊎ (d.relay ≡ none)

KeepsRelay-trans : (b c d : Inner) → KeepsRelay b c → KeepsRelay c d → KeepsRelay b d
KeepsRelay-trans b c d (inl f) (inl g) = inl (g ∙ f)
KeepsRelay-trans b c d (inr f) (inl g) = inr (g ∙ f)
KeepsRelay-trans b c d f (inr g) = inr g

KeepsRelay-either :
    (c : Inner) (b : Bool) (x y : Inner)
    → KeepsRelay c x
    → KeepsRelay c y
    → KeepsRelay c (if b then x else y)
KeepsRelay-either c true x y f g = f
KeepsRelay-either c false x y f g = g

KeepsRelay-option {ℓ} :
    {A : Type ℓ} (c : Inner) (o : Option A) (x : Inner) (f : A → Inner)
    → KeepsRelay c x
    → ((a : A) → KeepsRelay c (f a))
    → KeepsRelay c (elim o [ none ↦ x | some a ↦ f a ])
KeepsRelay-option c none x f g h = g
KeepsRelay-option c (some a) x f g h = h a

schedule-relay :
    (c : Inner) (o : Operation) (now : ℕ) → (schedule_maintenance_retry c o now).0.relay ≡ c.relay
unfolding schedule_maintenance_retry
schedule-relay c allocate now = refl
schedule-relay c deallocate now = refl
schedule-relay c refresh now = refl
schedule-relay c permission now = refl
schedule-relay c channel now =
    elim (Bool-cases (leb max_channel_maintenance_failures (one_more c.channel_failures))) [
      | inl e ↦ rw (e, schedule_maintenance_retry) refl
      | inr e ↦ rw (e, schedule_maintenance_retry) refl
    ]

destroy_allocation-KeepsRelay :
    (c : Inner) (o : Operation) (status : Status) (code : ℕ)
    → KeepsRelay c (destroy_allocation c o status code)
unfolding destroy_allocation
destroy_allocation-KeepsRelay c o status code = inr (set_state-Queued _ _).relay

complete_failure-KeepsRelay :
    (c : Inner) (o : Operation) (status : Status) (code now : ℕ)
    → KeepsRelay c (complete_failure c o status code now)
unfolding complete_failure destroy_after_channel_rebind_exhausted
complete_failure-KeepsRelay c o status code now =
    let tried =
      schedule-relay (complete c o status code) o now ∙ (complete-Queued c o status code).relay in
    KeepsRelay-either c
      (is_maintenance o
        && (same_state c.state state_ready && is_before now c.allocation_expires_at))
      _ _
      (KeepsRelay-either c (schedule_maintenance_retry (complete c o status code) o now).1 _ _
        (inl tried) (inl ((set_state-Queued _ _).relay ∙ (push_event-Queued _ _).relay ∙ tried)))
      (destroy_allocation-KeepsRelay c o status code)

start_operation-relay :
    (crypto : Crypto) (random : Operation → List ℕ) (now : ℕ) (c : Inner) (o : Operation)
    (auth : Bool) (retries : ℕ)
    → (start_operation crypto random now c o auth retries).0.relay ≡ c.relay
unfolding start_operation
start_operation-relay crypto random now c o auth retries =
    elim (Option-cases (find_operation o c.pending)) [
      | inr (p, e) ↦
          rw (e, start_operation)
            (elim (Bool-cases (same o channel)) [
              | inl f ↦ rw (f) (queue_packet-Queued c p.packet).relay
              | inr f ↦ rw (f) refl
            ])
      | inl e ↦
          rw (e, start_operation)
            (elim (Bool-cases
              (auth && not (is_some c.realm && (is_some c.nonce && is_some c.key)))) [
                | inl f ↦ rw (f) refl
                | inr f ↦ rw (f) (elim (Option-cases (build_request crypto c o (random o) auth)) [
                  | inl g ↦ rw (g) refl
                  | inr (packet, g) ↦ rw (g) (queue_packet-Queued c packet).relay
                ])
              ])
    ]

response_error-relay :
    (c : Inner) (number : ℕ) (told : Status) (code : ℕ)
    → (response_error c number told code).relay ≡ c.relay
response_error-relay c number told code = (push_event-Queued c _).relay

failed-KeepsRelay :
    (c : Inner) (number : ℕ) (told : Status) (code : ℕ) (o : Operation) (status : Status) (now : ℕ)
    → KeepsRelay c (complete_failure (response_error c number told code) o status code now)
failed-KeepsRelay c number told code o status now =
    KeepsRelay-trans c (response_error c number told code)
      (complete_failure (response_error c number told code) o status code now)
      (inl (response_error-relay c number told code))
      (complete_failure-KeepsRelay (response_error c number told code) o status code now)

input_error-KeepsRelay :
    (crypto : Crypto) (random : Operation → List ℕ) (now : ℕ) (c : Inner) (p : Pending)
    (message : Stun.Message) (code : ℕ)
    → KeepsRelay c (input_error crypto random now c p message code)
unfolding input_error set_auth
input_error-KeepsRelay crypto random now c p message code =
    let failed =
      failed-KeepsRelay c (method p.operation) result_success code p.operation result_protocol
        now in
    KeepsRelay-either c (code == 0) _ _
      (failed-KeepsRelay c (method p.operation) result_protocol 0 p.operation result_protocol now)
      (KeepsRelay-either c (requires_allocation_recreate p.operation code) _ _
        (KeepsRelay-trans c (response_error c (method p.operation) result_success code)
          (destroy_allocation (response_error c (method p.operation) result_success code)
            p.operation result_protocol code)
          (inl (response_error-relay c (method p.operation) result_success code))
          (destroy_allocation-KeepsRelay (response_error c (method p.operation) result_success code)
            p.operation result_protocol code))
        (KeepsRelay-either c
          ((code == 401 || code == 438) && ltb p.nonce_retries c.profile.max_nonce_retries) _ _
          (KeepsRelay-option c
            (or (map_option (λ (a : Stun.Attribute). a.value) (Stun.attribute message attr_realm))
              (if code == 438 then c.realm else none))
            _ _ failed
            (λ r.
              KeepsRelay-option c
                (map_option (λ (a : Stun.Attribute). a.value) (Stun.attribute message attr_nonce)) _
                _ failed
                (λ n.
                  KeepsRelay-either c
                    (start_operation crypto random now (set_auth crypto c r n) p.operation true
                      (p.nonce_retries + 1)).1
                    _ _
                    (inl (
                      start_operation-relay crypto random now (set_auth crypto c r n) p.operation
                        true (p.nonce_retries + 1)))
                    (failed-KeepsRelay (set_auth crypto c r n) (method p.operation) result_success
                      code p.operation result_protocol now))))
          failed))

-- `d` keeps the relay of `c`, or the integrity of the response holds under the key of `c`.
abbrev pub Authentic : Crypto → Option (List ℕ) → Stun.Message → Inner → Inner → Type 0
Authentic crypto key message c d = KeepsRelay c d ⊎ (verify_integrity crypto message key ≡ true)

verified :
    (crypto : Crypto) (c : Inner) (message : Stun.Message)
    → is_trusted crypto c message ≡ true
    → is_response message ≡ true
    → is_error message ≡ false
    → verify_integrity crypto message c.key ≡ true
unfolding is_trusted response_requires_integrity is_fingerprinted_allocation_mismatch
verified crypto c message t r e = go (Stun.class message) refl
  where
    go : (k : Stun.Class) → Stun.class message ≡ k → verify_integrity crypto message c.key ≡ true
    go Stun.success f = ground (arith, t, r, e, f)
    go Stun.error f = ground (arith, t, r, e, f)
    go Stun.request f = ground (arith, t, r, e, f)
    go Stun.indication f = ground (arith, t, r, e, f)

picked :
    (c : Inner) (b : Bool) (x y : Inner × Status)
    → b ≡ true
    → KeepsRelay c x.0
    → KeepsRelay c (if b then x else y).0
picked c true x y h f = f
picked c false x y h f = cc

input_response-Authentic :
    (crypto : Crypto) (random : Operation → List ℕ) (now : ℕ) (c : Inner) (p : Pending)
    (message : Stun.Message) (key : Option (List ℕ))
    → (p.authenticated ≡ true
        → is_error message ≡ false
        → verify_integrity crypto message key ≡ true)
    → Authentic crypto key message c (input_response crypto random now c p message).0
unfolding input_response
input_response-Authentic crypto random now c p message key h =
    elim (Bool-cases (is_error message)) [
      | inl e ↦
          rw (e, input_response) (inl (input_error-KeepsRelay crypto random now c p message _))
      | inr e ↦ elim (Bool-cases p.authenticated) [
        | inl f ↦ inr (h f e)
        | inr f ↦
            rw (e, input_response)
              (inl (
                picked c (not p.authenticated) _ _ (ap not f)
                  (complete_failure-KeepsRelay c p.operation result_authentication 0 now)))
      ]
    ]

input_message-Authentic :
    (crypto : Crypto) (random : Operation → List ℕ) (now : ℕ) (c : Inner) (message : Stun.Message)
    → is_response message ≡ true
    → Authentic crypto c.key message c (input_message crypto random now c message).0
unfolding input_message remove_queued_transaction
input_message-Authentic crypto random now c message r =
    go (position message.transaction (Stun.method message) c.pending) refl
  where
    go :
        (o : Option (ℕ × Pending))
        → position message.transaction (Stun.method message) c.pending ≡ o
        → Authentic crypto c.key message c (input_message crypto random now c message).0
    go none e = rw (e, input_message) (inl (inl refl))
    go (some (i, p)) e = elim (Bool-cases (p.authenticated && not (is_trusted crypto c message))) [
      | inl f ↦
          rw (e, f, input_message)
            (inl (
              KeepsRelay-either c (is_error message) _ _
                (KeepsRelay-option c (error_code message) _ _ (inl refl) (λ code.
                  inl (response_error-relay c (Stun.method message) result_authentication code)))
                (inl refl)))
      | inr f ↦
          rw (e, f, input_message)
            (input_response-Authentic crypto random now
              (remove_queued_transaction (record c { pending = remove_at i c.pending })
                message.transaction)
              p message c.key (λ a b. verified crypto c message (ground (arith, a, f)) r b))
    ]

-- What an answer of the client shows about its relay.
abbrev Shows : Crypto → Inner → List ℕ → Inner → Type 0
Shows crypto c packet d =
    (address : SocketAddr)
    → d.relay ≡ some address
    → (c.relay ≡ some address)
      ⊎ ((message : Stun.Message) × (Stun.decode packet ≡ Stun.ok message)
          × (verify_integrity crypto message c.key ≡ true))

shown :
    (crypto : Crypto) (c d : Inner) (packet : List ℕ) (message : Stun.Message)
    → Stun.decode packet ≡ Stun.ok message
    → Authentic crypto c.key message c d
    → Shows crypto c packet d
shown crypto c d packet message e (inl (inl k)) = λ address h. inl (sym k ∙ h)
shown crypto c d packet message e (inl (inr k)) = λ address h. absurd (ground (arith, k, h))
shown crypto c d packet message e (inr k) = λ address h. inr (message, e, k)

-- A response changes the relay address to another only if its integrity holds under the key of the
-- client; any other packet leaves it as it was, or takes it away.
pub input_stun-Authentic :
    (crypto : Crypto) (random : Operation → List ℕ) (now : ℕ) (c : Inner) (packet : List ℕ)
    (address : SocketAddr)
    → (input_stun crypto random now c packet).0.relay ≡ some address
    → (c.relay ≡ some address)
      ⊎ ((message : Stun.Message) × (Stun.decode packet ≡ Stun.ok message)
          × (verify_integrity crypto message c.key ≡ true))
unfolding input_stun
input_stun-Authentic crypto random now c packet = go (Stun.decode packet) refl
  where
    after_check :
        (message : Stun.Message) (o : Option Bool)
        → Stun.fingerprint_valid crypto.crc message ≡ o
        → Stun.decode packet ≡ Stun.ok message
        → is_response message ≡ true
        → Shows crypto c packet (input_stun crypto random now c packet).0
    after_check message none f e r =
        shown crypto c (input_stun crypto random now c packet).0 packet message e
          (rw (e, r, f, input_stun) (input_message-Authentic crypto random now c message r))
    after_check message (some true) f e r =
        shown crypto c (input_stun crypto random now c packet).0 packet message e
          (rw (e, r, f, input_stun) (input_message-Authentic crypto random now c message r))
    after_check message (some false) f e r =
        shown crypto c (input_stun crypto random now c packet).0 packet message e
          (rw (e, r, f, input_stun) (inl (inl refl)))

    go :
        (r : Stun.Result Stun.Message)
        → Stun.decode packet ≡ r
        → Shows crypto c packet (input_stun crypto random now c packet).0
    go (Stun.err f) e = λ address. rw (e, input_stun) (λ h. inl h)
    go (Stun.ok message) e = elim (Bool-cases (is_response message)) [
      | inl r ↦ after_check message (Stun.fingerprint_valid crypto.crc message) refl e r
      | inr r ↦
          shown crypto c (input_stun crypto random now c packet).0 packet message e
            (rw (e, r, input_stun) (inl (inl refl)))
    ]
