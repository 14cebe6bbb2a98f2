-- ===== src/Turn/Tests.antt =====
-- rust-client/turn_core.rs at concrete inputs.
use csqtt_android.Shared.{
  ℕ, zero, suc, ◌≤◌, ◌<◌, ◌≡◌, ◌⊎◌, refl, true, false, List, [], ◌∷◌, ◌++◌, none, some, arith,
  replicate, length, get_elem?, same_bytes, from_be, to_be,
}
use csqtt_android.Stun
use csqtt_android.Turn.{
  Crypto, Inner, Pending, SocketAddr, Operation, allocate, pjnath_compat, datagram, state_null,
  state_allocating, push_event, set_state, remove_queued_transaction, without_transaction,
}
use csqtt_android.Turn.Builder.{
  decode_xor_address, verify_integrity, response_requires_integrity, attribute_u32, error_code,
}
use csqtt_android.Turn.Steps.{complete_success, complete, granted, remove_at, expire_transactions}
use csqtt_android.Turn.Core.{
  create, input_stun, input_message, input_response, is_trusted, position,
}
use csqtt_android.Turn.Valid.{rank, IsInner}
use csqtt_android.Turn.Run.{Call, allocation, polled, input, shutdown, calls, calls-IsInner}
use csqtt_android.Turn.Expire.{AllAhead, expire_transactions-AllAhead}
use csqtt_android.Turn.Trust.{input_stun-Authentic}

abbrev crypto : Crypto
crypto = record {
  hmac = λ key bytes. replicate 20 1;
  digest = λ bytes. replicate 16 7;
  crc = λ bytes. length bytes;
}

abbrev random : Operation → List ℕ
random operation = replicate 12 5

abbrev server : SocketAddr
server = record { is_ipv4 = true; octets = 10 ∷ 0 ∷ 0 ∷ 1 ∷ []; port = 3478 }

abbrev peer : SocketAddr
peer = record { is_ipv4 = true; octets = 10 ∷ 0 ∷ 0 ∷ 2 ∷ []; port = 56_000 }

abbrev client : Inner
client = record {
  server = server;
  peer = peer;
  username = 117 ∷ [];
  password = 112 ∷ [];
  realm = none;
  nonce = none;
  key = none;
  state = state_null;
  relay = none;
  channel_number = none;
  controls = [];
  events = [];
  pending = [];
  allocation_refresh = none;
  allocation_expires_at = none;
  maintenance_refresh = none;
  permission_retry = none;
  channel_retry = none;
  refresh_failures = 0;
  permission_failures = 0;
  channel_failures = 0;
  keepalive = none;
  shutting_down = false;
  destroyed = false;
  profile = pjnath_compat;
  transport = datagram;
}

abbrev before : List Call
before = allocation random 0 ∷ polled random 250 ∷ []

abbrev after : List Call
after = input random 300 [] ∷ shutdown random 400 ∷ []

calls-IsInner_example :
    IsInner (calls crypto client before)
    × (rank (calls crypto client before).state
        ≤ rank (calls crypto (calls crypto client before) after).state)
unfolding create
calls-IsInner_example =
    calls-IsInner crypto server (117 ∷ []) (112 ∷ []) peer pjnath_compat datagram client before
      after refl

abbrev asked : Pending
asked = record {
  operation = allocate;
  transaction = replicate 12 5;
  packet = [];
  next_attempt = 200;
  rto = 200;
  transmissions = 1;
  nonce_retries = 1;
  authenticated = true;
}

abbrev waiting : Inner
waiting = record client {
  state = state_allocating;
  key = some (replicate 16 7);
  pending = asked ∷ [];
}

asked-waits : (i : ℕ) (p : Pending) → get_elem? (asked ∷ []) i ≡ some p → 0 < p.rto
asked-waits zero p h = ground (arith, h)
asked-waits (suc i) p h = cc

expire_transactions-AllAhead_example : AllAhead 500 (expire_transactions 500 waiting)
expire_transactions-AllAhead_example = expire_transactions-AllAhead 500 waiting asked-waits

-- An Allocate success with a relayed address and its integrity.
abbrev granted_packet : List ℕ
granted_packet =
    (1 ∷ 3 ∷ 0 ∷ 36 ∷ 0x21 ∷ 0x12 ∷ 0xa4 ∷ 0x42 ∷ [])
    ++ (replicate 12 5
        ++ ((0 ∷ 0x16 ∷ 0 ∷ 8 ∷ 0 ∷ 1 ∷ 0 ∷ 0 ∷ 0 ∷ 0 ∷ 0 ∷ 0 ∷ [])
            ++ ((0 ∷ 8 ∷ 0 ∷ 20 ∷ []) ++ replicate 20 1)))

abbrev relay_address : SocketAddr
relay_address = record { is_ipv4 = true; octets = 0x21 ∷ 0x12 ∷ 0xa4 ∷ 0x42 ∷ []; port = 8466 }

is_granted : (input_stun crypto random 300 waiting granted_packet).0.relay ≡ some relay_address
unfolding input_stun input_message input_response is_trusted position complete_success complete
    granted push_event set_state remove_queued_transaction without_transaction remove_at
    decode_xor_address verify_integrity response_requires_integrity attribute_u32 error_code
    Stun.decode Stun.check_attributes Stun.step Stun.class Stun.method Stun.attribute_at
    Stun.attributes_from Stun.attributes Stun.attribute Stun.fingerprint_valid same_bytes from_be
    to_be
is_granted = refl

input_stun-Authentic_example :
    (waiting.relay ≡ some relay_address)
    ⊎ ((message : Stun.Message) × (Stun.decode granted_packet ≡ Stun.ok message)
        × (verify_integrity crypto message waiting.key ≡ true))
input_stun-Authentic_example =
    input_stun-Authentic crypto random 300 waiting granted_packet relay_address is_granted
