-- ===== src/Turn/Input.antt =====
-- A response keeps the invariant of the TURN client (rust-client/turn_core.rs).
use csqtt_android.Shared.{
  ℕ, suc, ◌+◌, ◌≡◌, refl, sym, ap, ◌∙◌, Bool, true, false, not, ◌&&◌, ◌||◌, List, [], ◌∷◌, Option,
  none, some, arith, ltb, ◌==◌, if◌then◌else◌, get_elem?, Bool-cases, Option-cases, inl, inr,
  same_bytes, get_default, map_option, or,
}
use csqtt_android.Stun
use csqtt_android.Turn.{
  Crypto, Inner, Pending, Operation, allocate, deallocate, Status, result_authentication,
  result_protocol, result_success, state_allocating, method, find_operation, has_operation, is_some,
  remove_queued_transaction,
}
use csqtt_android.Turn.Builder.{
  attr_realm, attr_nonce, error_code, requires_allocation_recreate, is_error,
}
use csqtt_android.Turn.Steps.{start_operation, complete_failure, complete_success, remove_at}
use csqtt_android.Turn.Core.{
  set_auth, position, response_error, input_error, input_response, is_trusted, is_response,
  input_message, input_stun,
}
use csqtt_android.Turn.Valid.{
  rank, IsInner, push_event-Queued, start_operation-Kept, taken-Kept, find_operation-taken,
  found-has,
}
use csqtt_android.Turn.Moves.{
  Moved, Moved-trans, Moved-refl, Moved-of_Kept, Moved-of_Queued, untouched, complete_failure-Moved,
  destroy_allocation-Moved,
}
use csqtt_android.Turn.Calls.{complete_success-Moved, Moved-if}

-- What is known of a client whose transaction `o` has been taken out.
pub record IsTaken (c : Inner) (o : Operation) : Type 0 where
  pub valid : IsInner c
  pub free : find_operation o c.pending ≡ none
  pub allocating : o ≡ allocate → c.state ≡ state_allocating
  pub deallocating : o ≡ deallocate → rank c.state ≡ 3

pub Moved-either :
    (c : Inner) (b : Bool) (x y : Inner) → Moved c x → Moved c y → Moved c (if b then x else y)
Moved-either c true x y f g = f
Moved-either c false x y f g = g

pub Moved-option {ℓ} :
    {A : Type ℓ} (c : Inner) (o : Option A) (x : Inner) (f : A → Inner)
    → Moved c x
    → ((a : A) → Moved c (f a))
    → Moved c (elim o [ none ↦ x | some a ↦ f a ])
Moved-option c none x f g h = g
Moved-option c (some a) x f g h = h a

response_error-Moved :
    (c : Inner) (number : ℕ) (status : Status) (code : ℕ)
    → IsInner c
    → Moved c (response_error c number status code)
response_error-Moved c number status code v = Moved-of_Queued c _ v (push_event-Queued c _)

failed-Moved :
    (c : Inner) (number : ℕ) (told : Status) (code : ℕ) (o : Operation) (status : Status) (now : ℕ)
    → IsInner c
    → Moved c (complete_failure (response_error c number told code) o status code now)
failed-Moved c number told code o status now v =
    let t = response_error-Moved c number told code v in
    Moved-trans c _ _ t (complete_failure-Moved _ o status code now t.valid)

restart-Moved :
    (crypto : Crypto) (random : Operation → List ℕ) (now : ℕ) (c : Inner) (p : Pending)
    (r n : List ℕ) (code : ℕ)
    → IsTaken c p.operation
    → let known : Inner = set_auth crypto c r n in
      let result : Inner × Bool =
        start_operation crypto random now known p.operation true (p.nonce_retries + 1) in
      Moved c (
        if result.1
        then result.0
        else complete_failure
            (response_error known (method p.operation) result_success code)
            p.operation
            result_protocol
            code
            now)
unfolding set_auth
restart-Moved crypto random now c p r n code t =
    let known = untouched c (set_auth crypto c r n) t.valid refl refl refl refl in
    Moved-either c _ _ _
      (Moved-trans c _ _ known (
        Moved-of_Kept _ _ (
          start_operation-Kept crypto random now _ p.operation true (p.nonce_retries + 1)
            known.valid t.allocating t.deallocating)))
      (Moved-trans c _ _ known (
        failed-Moved _ (method p.operation) result_success code p.operation result_protocol now
          known.valid))

input_error-Moved :
    (crypto : Crypto) (random : Operation → List ℕ) (now : ℕ) (c : Inner) (p : Pending)
    (message : Stun.Message) (code : ℕ)
    → IsTaken c p.operation
    → Moved c (input_error crypto random now c p message code)
unfolding input_error
input_error-Moved crypto random now c p message code t =
    let failed =
      failed-Moved c (method p.operation) result_success code p.operation result_protocol now
        t.valid in
    let told = response_error-Moved c (method p.operation) result_success code t.valid in
    Moved-either c (code == 0) _ _
      (failed-Moved c (method p.operation) result_protocol 0 p.operation result_protocol now
        t.valid)
      (Moved-either c (requires_allocation_recreate p.operation code) _ _
        (Moved-trans c _ _ told
          (destroy_allocation-Moved _ p.operation result_protocol code told.valid))
        (Moved-either c
          ((code == 401 || code == 438) && ltb p.nonce_retries c.profile.max_nonce_retries) _ _
          (Moved-option c
            (or (map_option (λ (a : Stun.Attribute). a.value) (Stun.attribute message attr_realm))
              (if code == 438 then c.realm else none))
            _ _ failed
            (λ r.
              Moved-option c
                (map_option (λ (a : Stun.Attribute). a.value) (Stun.attribute message attr_nonce)) _
                _ failed (λ n. restart-Moved crypto random now c p r n code t)))
          failed))

input_response-Moved :
    (crypto : Crypto) (random : Operation → List ℕ) (now : ℕ) (c : Inner) (p : Pending)
    (message : Stun.Message)
    → IsTaken c p.operation
    → Moved c (input_response crypto random now c p message).0
unfolding input_response
input_response-Moved crypto random now c p message t =
    let done =
      complete_success-Moved crypto random c p.operation message now t.valid t.free t.allocating
        t.deallocating in
    Moved-if c (is_error message) _ _
      (input_error-Moved crypto random now c p message (get_default 0 (error_code message)) t)
      (Moved-if c (not p.authenticated) _ _
        (complete_failure-Moved c p.operation result_authentication 0 now t.valid)
        (Moved-if c (complete_success crypto random c p.operation message now).1 _ _ done (
          Moved-trans c _ _ done
            (complete_failure-Moved _ p.operation result_protocol 0 now done.valid))))

position-get :
    (transaction : List ℕ) (number : ℕ) (ps : List Pending) (i : ℕ) (p : Pending)
    → position transaction number ps ≡ some (i, p)
    → get_elem? ps i ≡ some p
unfolding position
position-get transaction number [] i p h = cc
position-get transaction number (q ∷ ps) i p h =
    elim (Bool-cases (same_bytes q.transaction transaction && method q.operation == number)) [
      | inl f ↦ ground (arith, f, h)
      | inr f ↦ elim (Option-cases (position transaction number ps)) [
        | inl g ↦ absurd (ground (arith, f, g, h))
        | inr (found, g) ↦
            let both : (i ≡ found.0 + 1) × (p ≡ found.1) = ground (arith, f, g, h) in
            ap (get_elem? (q ∷ ps)) (let e : i ≡ suc found.0 = omega (arith, both.0) in e)
            ∙ position-get transaction number ps found.0 found.1 g
            ∙ ap some (sym both.1)
      ]
    ]

pub remove_at-IsTaken :
    (c : Inner) (i : ℕ) (p : Pending) (transaction : List ℕ)
    → IsInner c
    → get_elem? c.pending i ≡ some p
    → IsTaken
        (remove_queued_transaction (record c { pending = remove_at i c.pending }) transaction)
        p.operation
unfolding remove_queued_transaction has_operation
remove_at-IsTaken c i p transaction v e =
    let k = taken-Kept c i transaction v in
    record {
      valid = k.valid;
      free = find_operation-taken i c.pending p v.distinct e;
      allocating = λ h.
          v.allocating
            (ap (λ o. is_some (find_operation o c.pending)) (sym h) ∙ found-has i c.pending p e);
      deallocating = λ h.
          v.deallocating
            (ap (λ o. is_some (find_operation o c.pending)) (sym h) ∙ found-has i c.pending p e);
    }

input_message-Moved :
    (crypto : Crypto) (random : Operation → List ℕ) (now : ℕ) (c : Inner) (message : Stun.Message)
    → IsInner c
    → Moved c (input_message crypto random now c message).0
unfolding input_message
input_message-Moved crypto random now c message v =
    go (position message.transaction (Stun.method message) c.pending) refl
  where
    go :
        (o : Option (ℕ × Pending))
        → position message.transaction (Stun.method message) c.pending ≡ o
        → Moved c (input_message crypto random now c message).0
    go none e = rw (e, input_message) (Moved-refl c v)
    go (some (i, p)) e =
        let rest =
          remove_at-IsTaken c i p message.transaction v
            (position-get message.transaction (Stun.method message) c.pending i p e) in
        rw (e, input_message)
          (Moved-if c (p.authenticated && not (is_trusted crypto c message)) _ _
            (Moved-either c (is_error message) _ _
              (Moved-option c (error_code message) _ _ (Moved-refl c v)
                (λ code. response_error-Moved c _ result_authentication code v))
              (Moved-refl c v))
            (Moved-trans c _ _ (Moved-of_Kept c _ (taken-Kept c i message.transaction v))
              (input_response-Moved crypto random now _ p message rest)))

pub input_stun-Moved :
    (crypto : Crypto) (random : Operation → List ℕ) (now : ℕ) (c : Inner) (packet : List ℕ)
    → IsInner c
    → Moved c (input_stun crypto random now c packet).0
unfolding input_stun
input_stun-Moved crypto random now c packet v = go (Stun.decode packet) refl
  where
    after_check :
        (message : Stun.Message) (o : Option Bool)
        → Stun.fingerprint_valid crypto.crc message ≡ o
        → Stun.decode packet ≡ Stun.ok message
        → is_response message ≡ true
        → Moved c (input_stun crypto random now c packet).0
    after_check message none f e r =
        rw (e, r, f, input_stun) (input_message-Moved crypto random now c message v)
    after_check message (some true) f e r =
        rw (e, r, f, input_stun) (input_message-Moved crypto random now c message v)
    after_check message (some false) f e r = rw (e, r, f, input_stun) (Moved-refl c v)

    go :
        (r : Stun.Result Stun.Message)
        → Stun.decode packet ≡ r
        → Moved c (input_stun crypto random now c packet).0
    go (Stun.err f) e = rw (e, input_stun) (Moved-refl c v)
    go (Stun.ok message) e = elim (Bool-cases (is_response message)) [
      | inl r ↦ after_check message (Stun.fingerprint_valid crypto.crc message) refl e r
      | inr r ↦ rw (e, r, input_stun) (Moved-refl c v)
    ]
