-- ===== src/Turn/Core.antt =====
-- The calls of `NativeCore` (rust-client/turn_core.rs).
use csqtt_android.Shared.{
  ℕ, ◌+◌, Bool, true, false, not, ◌&&◌, ◌||◌, List, [], ◌∷◌, ◌++◌, Option, none, some, ltb, ◌==◌,
  if◌then◌else◌, length, same_bytes, or, map_option, get_default,
}
use csqtt_android.Stun
use csqtt_android.Turn.{
  Crypto, Inner, Pending, CsqttTurnProfile, TurnControlTransport, Operation, allocate, permission,
  channel, SocketAddr, Status, result_success, result_invalid_argument, result_not_control,
  result_authentication, result_protocol, state_null, state_allocating, state_ready, same_state,
  event_of, event_stun_response_error, method, push_event, set_state, remove_queued_transaction,
}
use csqtt_android.Turn.Builder.{
  attr_realm, attr_nonce, verify_integrity, error_code, response_requires_integrity,
  is_fingerprinted_allocation_mismatch, requires_allocation_recreate, is_error,
}
use csqtt_android.Turn.Steps.{
  start_operation, destroy_allocation, complete_failure, complete_success, remove_at,
}

-- `create_with_profile_and_transport`
unfoldable pub create :
    SocketAddr
    → List ℕ
    → List ℕ
    → SocketAddr
    → CsqttTurnProfile
    → TurnControlTransport
    → Option Inner
create server username password peer profile transport =
    if server.port == 0 || peer.port == 0
    then none
    else if (length username == 0 || ltb 512 (length username))
        || (length password == 0 || ltb 512 (length password))
    then none
    else some (record {
      server = server;
      peer = peer;
      username = username;
      password = password;
      realm = none;
      nonce = none;
      key = none;
      state = state_null;
      relay = none;
      channel_number = none;
      controls = [];
      events = [];
      pending = [];
      allocation_refresh = none;
      allocation_expires_at = none;
      maintenance_refresh = none;
      permission_retry = none;
      channel_retry = none;
      refresh_failures = 0;
      permission_failures = 0;
      channel_failures = 0;
      keepalive = none;
      shutting_down = false;
      destroyed = false;
      profile = profile;
      transport = transport;
    })

abbrev pub is_open : Inner → Bool
is_open c = not c.destroyed && not c.shutting_down

abbrev pub is_ready : Inner → Bool
is_ready c = is_open c && same_state c.state state_ready

unfoldable pub start_allocation : Crypto → (Operation → List ℕ) → ℕ → Inner → Inner × Bool
start_allocation crypto random now c =
    if not (is_open c) || not (same_state c.state state_null)
    then (c, false)
    else start_operation crypto random now (set_state c state_allocating) allocate false 0

unfoldable pub start_channel : Crypto → (Operation → List ℕ) → ℕ → Inner → Inner × Bool
start_channel crypto random now c =
    if not (is_ready c) then (c, false) else start_operation crypto random now c channel true 0

unfoldable pub start_permission : Crypto → (Operation → List ℕ) → ℕ → Inner → Inner × Bool
start_permission crypto random now c =
    if not (is_ready c) then (c, false) else start_operation crypto random now c permission true 0

-- `set_auth`
unfoldable pub set_auth : Crypto → Inner → List ℕ → List ℕ → Inner
set_auth crypto c realm nonce = record c {
  key = some (crypto.digest (c.username ++ (58 ∷ realm) ++ (58 ∷ c.password)));
  realm = some realm;
  nonce = some nonce;
}

-- The index of the transaction that a response belongs to, and the transaction.
unfoldable pub position : List ℕ → ℕ → List Pending → Option (ℕ × Pending)
position transaction number [] = none
position transaction number (p ∷ pending) =
    if same_bytes p.transaction transaction && method p.operation == number
    then some (0, p)
    else map_option (λ (found : ℕ × Pending). (found.0 + 1, found.1))
        (position transaction number pending)

abbrev pub response_error : Inner → ℕ → Status → ℕ → Inner
response_error c number status code = push_event c (record (event_of event_stun_response_error) {
  method = number;
  status = status;
  stun_code = code;
  state = c.state;
})

-- An error response with its code, to a transaction that has been taken out.
unfoldable pub input_error :
    Crypto → (Operation → List ℕ) → ℕ → Inner → Pending → Stun.Message → ℕ → Inner
input_error crypto random now c p message code =
    let number = method p.operation in
    if code == 0
    then complete_failure (response_error c number result_protocol 0) p.operation result_protocol 0
        now
    else if requires_allocation_recreate p.operation code
    then destroy_allocation (response_error c number result_success code) p.operation
        result_protocol code
    else (let failed =
          complete_failure (response_error c number result_success code) p.operation result_protocol
            code now in
        let realm =
          or (map_option (λ (a : Stun.Attribute). a.value) (Stun.attribute message attr_realm))
            (if code == 438 then c.realm else none) in
        let nonce =
          map_option (λ (a : Stun.Attribute). a.value) (Stun.attribute message attr_nonce) in
        if (code == 401 || code == 438) && ltb p.nonce_retries c.profile.max_nonce_retries
        then elim realm [
          | none ↦ failed
          | some r ↦ elim nonce [
            | none ↦ failed
            | some n ↦
                let known = set_auth crypto c r n in
                let (restarted, started) =
                  start_operation crypto random now known p.operation true (p.nonce_retries + 1) in
                if started
                then restarted
                else complete_failure (response_error known number result_success code) p.operation
                    result_protocol code now
          ]
        ]
        else failed)

-- A response whose transaction has been found and taken out of `c`.
unfoldable pub input_response :
    Crypto → (Operation → List ℕ) → ℕ → Inner → Pending → Stun.Message → Inner × Status
input_response crypto random now c p message =
    if is_error message
    then (
      input_error crypto random now c p message (get_default 0 (error_code message)),
      result_success,
    )
    else if not p.authenticated
    then (complete_failure c p.operation result_authentication 0 now, result_authentication)
    else (let (done, succeeded) = complete_success crypto random c p.operation message now in
        if succeeded
        then (done, result_success)
        else (complete_failure done p.operation result_protocol 0 now, result_protocol))

-- Whether an authenticated transaction trusts a response.
unfoldable pub is_trusted : Crypto → Inner → Stun.Message → Bool
is_trusted crypto c message =
    not (response_requires_integrity message)
    || (verify_integrity crypto message c.key
        || is_fingerprinted_allocation_mismatch crypto message)

abbrev pub is_response : Stun.Message → Bool
is_response message = elim (Stun.class message) [
  | Stun.success ↦ true
  | Stun.error ↦ true
  | _ ↦ false
]

unfoldable pub input_message :
    Crypto → (Operation → List ℕ) → ℕ → Inner → Stun.Message → Inner × Status
input_message crypto random now c message =
    elim (position message.transaction (Stun.method message) c.pending) [
      | none ↦ (c, result_not_control)
      | some (index, p) ↦
          if p.authenticated && not (is_trusted crypto c message)
          then (
            (if is_error message
                then elim (error_code message) [
                  | none ↦ c
                  | some code ↦ response_error c (Stun.method message) result_authentication code
                ]
                else c),
            result_authentication,
          )
          else input_response crypto random now
              (remove_queued_transaction (record c { pending = remove_at index c.pending })
                message.transaction)
              p message
    ]

unfoldable pub input_stun : Crypto → (Operation → List ℕ) → ℕ → Inner → List ℕ → Inner × Status
input_stun crypto random now c packet = elim (Stun.decode packet) [
  | Stun.err e ↦ (c, result_invalid_argument)
  | Stun.ok message ↦
      if not (is_response message)
      then (c, result_not_control)
      else elim (Stun.fingerprint_valid crypto.crc message) [
        | some false ↦ (c, result_invalid_argument)
        | _ ↦ input_message crypto random now c message
      ]
]
