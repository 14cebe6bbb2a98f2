-- ===== src/Turn.antt =====
-- rust-client/turn_core.rs: the TURN client without sockets. Times are milliseconds of one clock, read
-- once for each call; a transaction id is what the random generator gives for an operation.
pub mod Builder
pub mod Steps
pub mod Core
pub mod Drive
pub mod Valid
pub mod Moves
pub mod Calls
pub mod Input
pub mod Run
pub mod Expire
pub mod Trust
mod Tests
use csqtt_android.Shared.{
  ℕ, zero, suc, ◌+◌, ◌-◌, ◌*◌, ◌^◌, Bool, true, false, not, ◌&&◌, ◌||◌, List, [], ◌∷◌, ◌++◌, Option,
  none, some, ltb, leb, ◌==◌, if◌then◌else◌, length, take, drop, min, max, same_bytes, to_be,
}

-- The `RESULT_` constants, and 0.
pub data Status : Type 0 where
  result_success result_empty result_buffer_too_small result_invalid_argument : Status
  result_closed result_not_control result_timeout result_authentication result_protocol : Status

-- The `EVENT_` constants.
pub data EventKind : Type 0 where
  event_state event_request_complete event_channel_bound event_relay_address : EventKind
  event_control_overflow event_forced_destroy event_event_overflow : EventKind
  event_stun_response_error event_channel_rebind_exhausted : EventKind

-- The `STATE_` constants.
pub data State : Type 0 where
  state_null state_allocating state_ready state_deallocating state_deallocated : State
  state_destroying : State

pub data TurnControlTransport : Type 0 where
  datagram stream : TurnControlTransport

pub data Operation : Type 0 where
  allocate refresh deallocate permission channel : Operation

-- `Operation::method`
abbrev pub method : Operation → ℕ
method allocate = 3
method refresh = 4
method deallocate = 4
method permission = 8
method channel = 9

-- `operation == other`
abbrev pub same : Operation → Operation → Bool
same allocate allocate = true
same refresh refresh = true
same deallocate deallocate = true
same permission permission = true
same channel channel = true
same _ _ = false

abbrev pub same_state : State → State → Bool
same_state state_null state_null = true
same_state state_allocating state_allocating = true
same_state state_ready state_ready = true
same_state state_deallocating state_deallocating = true
same_state state_deallocated state_deallocated = true
same_state state_destroying state_destroying = true
same_state _ _ = false

pub record SocketAddr : Type 0 where
  pub is_ipv4 : Bool
  pub octets : List ℕ
  pub port : ℕ

pub record CsqttTurnProfile : Type 0 where
  pub allocation_refresh : ℕ
  pub maintenance_refresh : ℕ
  pub keepalive_interval : ℕ
  pub max_nonce_retries : ℕ

abbrev pub pjnath_compat : CsqttTurnProfile
pjnath_compat = record {
  allocation_refresh = 300_000;
  maintenance_refresh = 175_000;
  keepalive_interval = 10_000;
  max_nonce_retries = 3;
}

pub record NativeEvent : Type 0 where
  pub kind : EventKind
  pub method : ℕ
  pub status : Status
  pub stun_code : ℕ
  pub state : State
  pub previous_state : State
  pub dropped : ℕ
  pub channel_number : ℕ
  pub address : Option SocketAddr

-- `NativeEvent { kind, ..default() }`
abbrev pub event_of : EventKind → NativeEvent
event_of kind = record {
  kind = kind;
  method = 0;
  status = result_success;
  stun_code = 0;
  state = state_null;
  previous_state = state_null;
  dropped = 0;
  channel_number = 0;
  address = none;
}

pub record Pending : Type 0 where
  pub operation : Operation
  pub transaction : List ℕ
  pub packet : List ℕ
  pub next_attempt : ℕ
  pub rto : ℕ
  pub transmissions : ℕ
  pub nonce_retries : ℕ
  pub authenticated : Bool

pub record Control : Type 0 where
  pub packet : List ℕ
  pub destination : SocketAddr

-- `Inner`, without its mutex.
pub record Inner : Type 0 where
  pub server : SocketAddr
  pub peer : SocketAddr
  pub username : List ℕ
  pub password : List ℕ
  pub realm : Option (List ℕ)
  pub nonce : Option (List ℕ)
  pub key : Option (List ℕ)
  pub state : State
  pub relay : Option SocketAddr
  pub channel_number : Option ℕ
  pub controls : List Control
  pub events : List NativeEvent
  pub pending : List Pending
  pub allocation_refresh : Option ℕ
  pub allocation_expires_at : Option ℕ
  pub maintenance_refresh : Option ℕ
  pub permission_retry : Option ℕ
  pub channel_retry : Option ℕ
  pub refresh_failures : ℕ
  pub permission_failures : ℕ
  pub channel_failures : ℕ
  pub keepalive : Option ℕ
  pub shutting_down : Bool
  pub destroyed : Bool
  pub profile : CsqttTurnProfile
  pub transport : TurnControlTransport

abbrev pub control_capacity : ℕ
control_capacity = 16

abbrev pub event_capacity : ℕ
event_capacity = 64

abbrev pub initial_rto : ℕ
initial_rto = 200

abbrev pub max_rto : ℕ
max_rto = 1600

abbrev pub max_transmissions : ℕ
max_transmissions = 7

abbrev pub stream_transaction_timeout : ℕ
stream_transaction_timeout = 12_000

abbrev pub requested_allocation_lifetime_secs : ℕ
requested_allocation_lifetime_secs = 600

abbrev pub maintenance_retry_base : ℕ
maintenance_retry_base = 1000

abbrev pub maintenance_retry_max : ℕ
maintenance_retry_max = 30_000

abbrev pub max_channel_maintenance_failures : ℕ
max_channel_maintenance_failures = 4

abbrev pub turn_channel : ℕ
turn_channel = 0x4000

-- HMAC-SHA1, the MD5 of the long-term credential, and CRC-32.
pub record Crypto : Type 0 where
  pub hmac : List ℕ → List ℕ → List ℕ
  pub digest : List ℕ → List ℕ
  pub crc : List ℕ → ℕ

unfoldable pub push_event : Inner → NativeEvent → Inner
push_event c event =
    if length c.events == event_capacity
    then record c {
      events =
          drop 1 c.events
          ++ (record (event_of event_event_overflow) {
            status = result_buffer_too_small;
            dropped = 1;
          }
              ∷ []);
    }
    else record c { events = c.events ++ (event ∷ []) }

unfoldable pub set_state : Inner → State → Inner
set_state c state =
    if same_state c.state state
    then c
    else push_event (record c { state = state })
        (record (event_of event_state) { state = state; previous_state = c.state })

unfoldable pub queue_packet : Inner → List ℕ → Inner
queue_packet c packet =
    let control : Control = record { packet = packet; destination = c.server } in
    if length c.controls == control_capacity
    then (let full =
          push_event (record c { controls = drop 1 c.controls })
            (record (event_of event_control_overflow) {
              status = result_buffer_too_small;
              dropped = 1;
            }) in
        record full { controls = full.controls ++ (control ∷ []) })
    else record c { controls = c.controls ++ (control ∷ []) }

unfoldable pub queue_keepalive : Inner → Inner
queue_keepalive c = elim c.channel_number [
  | none ↦ c
  | some number ↦ queue_packet c (to_be 2 number ++ (0 ∷ 1 ∷ 0xff ∷ 0 ∷ 0 ∷ 0 ∷ []))
]

unfoldable pub find_operation : Operation → List Pending → Option Pending
find_operation operation [] = none
find_operation operation (p ∷ pending) =
    if same p.operation operation then some p else find_operation operation pending

abbrev pub is_some {ℓ} : {A : Type ℓ} → Option A → Bool
is_some none = false
is_some (some a) = true

unfoldable pub has_operation : Inner → Operation → Bool
has_operation c operation = is_some (find_operation operation c.pending)

-- `controls.retain(|control| control.packet.get(8..20) != Some(transaction))`
unfoldable pub without_transaction : List ℕ → List Control → List Control
without_transaction transaction [] = []
without_transaction transaction (control ∷ controls) =
    let rest = without_transaction transaction controls in
    if leb 20 (length control.packet) && same_bytes (take 12 (drop 8 control.packet)) transaction
    then rest
    else control ∷ rest

unfoldable pub remove_queued_transaction : Inner → List ℕ → Inner
remove_queued_transaction c transaction = record c {
  controls = without_transaction transaction c.controls;
}

abbrev pub transaction_timeout : Inner → ℕ
transaction_timeout c = elim c.transport [
  | datagram ↦ initial_rto
  | stream ↦ stream_transaction_timeout
]
