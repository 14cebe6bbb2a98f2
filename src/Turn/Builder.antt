-- ===== src/Turn/Builder.antt =====
-- The STUN requests of the TURN client, and the checks of a response (rust-client/turn_core.rs).
use Prim.Native.Nat.{bit_xor}
use csqtt_android.Shared.{
  ℕ, ◌+◌, ◌-◌, ◌*◌, ◌%◌, ◌^◌, Bool, true, false, not, ◌&&◌, ◌||◌, List, [], ◌∷◌, ◌++◌, Option, none,
  some, ltb, leb, ◌==◌, if◌then◌else◌, length, take, drop, replicate, same_bytes, to_be, from_be,
  byte_at, u16_at, get_default,
}
use csqtt_android.Stun
use csqtt_android.Turn.{
  Crypto, Inner, Operation, allocate, refresh, deallocate, permission, channel, SocketAddr, method,
  same, requested_allocation_lifetime_secs,
}

abbrev pub attr_username : ℕ
attr_username = 0x0006

abbrev pub attr_message_integrity : ℕ
attr_message_integrity = 0x0008

abbrev pub attr_error_code : ℕ
attr_error_code = 0x0009

abbrev pub attr_channel_number : ℕ
attr_channel_number = 0x000c

abbrev pub attr_lifetime : ℕ
attr_lifetime = 0x000d

abbrev pub attr_xor_peer_address : ℕ
attr_xor_peer_address = 0x0012

abbrev pub attr_realm : ℕ
attr_realm = 0x0014

abbrev pub attr_nonce : ℕ
attr_nonce = 0x0015

abbrev pub attr_xor_relayed_address : ℕ
attr_xor_relayed_address = 0x0016

abbrev pub attr_requested_address_family : ℕ
attr_requested_address_family = 0x0017

abbrev pub attr_requested_transport : ℕ
attr_requested_transport = 0x0019

-- The zeros of the `while !is_multiple_of(4)` loop behind a message of `n` bytes.
unfoldable pub padding : ℕ → List ℕ
padding n = replicate ((4 - n % 4) % 4) 0

-- `MessageBuilder::with_transaction`
unfoldable pub with_transaction : ℕ → List ℕ → List ℕ
with_transaction kind transaction = to_be 2 kind ++ (0 ∷ 0 ∷ (Stun.magic_cookie ++ transaction))

-- `MessageBuilder::attribute`
unfoldable pub attribute : List ℕ → ℕ → List ℕ → List ℕ
attribute bytes kind value =
    let longer = bytes ++ (to_be 2 kind ++ (to_be 2 (length value % 2 ^ 16) ++ value)) in
    longer ++ padding (length longer)

-- `octet ^ mask` of two byte strings
unfoldable pub xor_bytes : List ℕ → List ℕ → List ℕ
xor_bytes [] mask = []
xor_bytes (b ∷ bs) [] = []
xor_bytes (b ∷ bs) (m ∷ mask) = bit_xor b m ∷ xor_bytes bs mask

unfoldable pub encode_xor_address : SocketAddr → List ℕ → List ℕ
encode_xor_address address transaction =
    0
    ∷ (if address.is_ipv4 then 1 else 2)
    ∷ (to_be 2 (bit_xor address.port 0x2112)
        ++ (if address.is_ipv4
            then to_be 4 (bit_xor (from_be address.octets) 0x2112a442)
            else xor_bytes address.octets (Stun.magic_cookie ++ transaction)))

unfoldable pub decode_xor_address : List ℕ → List ℕ → Option SocketAddr
decode_xor_address value transaction =
    let port = bit_xor (u16_at value 2) 0x2112 in
    if ltb (length value) 4 || not (byte_at value 0 == 0)
    then none
    else if byte_at value 1 == 1 && length value == 8
    then some (record {
      is_ipv4 = true;
      octets = to_be 4 (bit_xor (from_be (drop 4 value)) 0x2112a442);
      port = port;
    })
    else if byte_at value 1 == 2 && length value == 20
    then some (record {
      is_ipv4 = false;
      octets = xor_bytes (drop 4 value) (Stun.magic_cookie ++ transaction);
      port = port;
    })
    else none

-- `set_message_length`
unfoldable pub set_message_length : List ℕ → ℕ → Option (List ℕ)
set_message_length bytes trailing =
    let len = length bytes - 20 + trailing in
    if ltb len (2 ^ 16) then some (take 2 bytes ++ (to_be 2 len ++ drop 4 bytes)) else none

-- `MessageBuilder::finish`
unfoldable pub finish : Crypto → List ℕ → Option (List ℕ)
finish crypto bytes = elim (set_message_length bytes 8) [
  | none ↦ none
  | some sized ↦ some (
      attribute sized Stun.attr_fingerprint
        (to_be 4 (bit_xor (crypto.crc sized) Stun.fingerprint_xor)))
]

-- `MessageBuilder::finish_authenticated`
unfoldable pub finish_authenticated : Crypto → List ℕ → List ℕ → Option (List ℕ)
finish_authenticated crypto key bytes = elim (set_message_length bytes 24) [
  | none ↦ none
  | some sized ↦ finish crypto (attribute sized attr_message_integrity (crypto.hmac key sized))
]

-- The part of `build_request` that depends on the operation.
unfoldable pub request_body : Inner → Operation → List ℕ → List ℕ
request_body c operation transaction =
    let start = with_transaction (method operation) transaction in
    let lifetime = to_be 4 requested_allocation_lifetime_secs in
    elim operation [
      | allocate ↦
          attribute
            (attribute (attribute start attr_requested_transport (17 ∷ 0 ∷ 0 ∷ 0 ∷ []))
              attr_requested_address_family ((if c.peer.is_ipv4 then 1 else 2) ∷ 0 ∷ 0 ∷ 0 ∷ []))
            attr_lifetime lifetime
      | refresh ↦ attribute start attr_lifetime lifetime
      | deallocate ↦ attribute start attr_lifetime (to_be 4 0)
      | permission ↦ attribute start attr_xor_peer_address (encode_xor_address c.peer transaction)
      | channel ↦
          attribute (attribute start attr_channel_number (0x40 ∷ 0 ∷ 0 ∷ 0 ∷ []))
            attr_xor_peer_address (encode_xor_address c.peer transaction)
    ]

unfoldable pub build_request : Crypto → Inner → Operation → List ℕ → Bool → Option (List ℕ)
build_request crypto c operation transaction authenticated =
    let body = request_body c operation transaction in
    if not authenticated then finish crypto body else elim c.key [
      | none ↦ none
      | some key ↦ finish_authenticated crypto key (
          attribute
            (attribute (attribute body attr_username c.username) attr_realm
              (get_default [] c.realm))
            attr_nonce (get_default [] c.nonce))
    ]

unfoldable pub verify_integrity : Crypto → Stun.Message → Option (List ℕ) → Bool
verify_integrity crypto message none = false
verify_integrity crypto message (some key) = elim (Stun.attribute message attr_message_integrity) [
  | none ↦ false
  | some integrity ↦
      let signed = take integrity.header_start message.raw in
      let len = integrity.header_start + 24 - 20 in
      length integrity.value == 20
      && (leb 20 integrity.header_start
          && (ltb len (2 ^ 16)
              && same_bytes (crypto.hmac key (take 2 signed ++ (to_be 2 len ++ drop 4 signed)))
                  integrity.value))
]

unfoldable pub error_code : Stun.Message → Option ℕ
error_code message = elim (Stun.attribute message attr_error_code) [
  | none ↦ none
  | some a ↦
      if ltb (length a.value) 4 || (ltb 6 (byte_at a.value 2) || ltb 99 (byte_at a.value 3))
      then none
      else some (byte_at a.value 2 * 100 + byte_at a.value 3)
]

-- The codes 400, 401, 420 and 438.
abbrev pub before_auth : Option ℕ → Bool
before_auth none = false
before_auth (some code) = code == 400 || (code == 401 || (code == 420 || code == 438))

unfoldable pub response_requires_integrity : Stun.Message → Bool
response_requires_integrity message = elim (Stun.class message) [
  | Stun.success ↦ true
  | Stun.error ↦ not (before_auth (error_code message))
  | _ ↦ false
]

abbrev pub is_code : Option ℕ → ℕ → Bool
is_code none code = false
is_code (some c) code = c == code

abbrev pub is_error : Stun.Message → Bool
is_error message = elim (Stun.class message) [ Stun.error ↦ true | _ ↦ false ]

unfoldable pub is_fingerprinted_allocation_mismatch : Crypto → Stun.Message → Bool
is_fingerprinted_allocation_mismatch crypto message =
    is_error message
    && (is_code (error_code message) 437
        && elim (Stun.fingerprint_valid crypto.crc message) [ none ↦ false | some valid ↦ valid ])

abbrev pub requires_allocation_recreate : Operation → ℕ → Bool
requires_allocation_recreate operation code = code == 437 || (same operation channel && code == 400)

unfoldable pub attribute_u32 : Stun.Message → ℕ → Option ℕ
attribute_u32 message kind = elim (Stun.attribute message kind) [
  | none ↦ none
  | some a ↦ if length a.value == 4 then some (from_be a.value) else none
]
