-- ===== src/Turn/Steps.antt =====
-- The private operations of `Inner` (rust-client/turn_core.rs).
use csqtt_android.Shared.{
  ℕ, zero, suc, ◌+◌, ◌-◌, ◌*◌, ◌/◌, ◌^◌, Bool, true, false, not, ◌&&◌, ◌||◌, List, [], ◌∷◌, ◌++◌,
  Option, none, some, ltb, leb, ◌==◌, if◌then◌else◌, length, get_elem?, set, min, max, get_default,
}
use csqtt_android.Stun
use csqtt_android.Turn.{
  Crypto, Inner, Pending, Operation, allocate, refresh, deallocate, permission, channel, SocketAddr,
  Status, result_success, result_timeout, state_ready, state_deallocating, state_deallocated,
  state_destroying, same_state, event_of, event_request_complete, event_channel_bound,
  event_relay_address, event_channel_rebind_exhausted, method, same, stream, datagram, initial_rto,
  max_rto, max_transmissions, requested_allocation_lifetime_secs, maintenance_retry_base,
  maintenance_retry_max, max_channel_maintenance_failures, turn_channel, push_event, set_state,
  queue_packet, find_operation, is_some, remove_queued_transaction, transaction_timeout,
}
use csqtt_android.Turn.Builder.{
  build_request, decode_xor_address, attribute_u32, attr_xor_relayed_address, attr_lifetime,
}

-- `start_operation`: whether it succeeds, and the state. `random` gives an operation's transaction id.
unfoldable pub start_operation :
    Crypto → (Operation → List ℕ) → ℕ → Inner → Operation → Bool → ℕ → Inner × Bool
start_operation crypto random now c operation authenticated nonce_retries =
    elim (find_operation operation c.pending) [
      | some p ↦ (if same operation channel then queue_packet c p.packet else c, true)
      | none ↦
          if authenticated && not (is_some c.realm && (is_some c.nonce && is_some c.key))
          then (c, false)
          else elim (build_request crypto c operation (random operation) authenticated) [
            | none ↦ (c, false)
            | some packet ↦
                let queued = queue_packet c packet in
                (
                  record queued {
                    pending =
                        queued.pending
                        ++ (record {
                          operation = operation;
                          transaction = random operation;
                          packet = packet;
                          next_attempt = now + transaction_timeout c;
                          rto = initial_rto;
                          transmissions = 1;
                          nonce_retries = nonce_retries;
                          authenticated = authenticated;
                        }
                            ∷ []);
                  },
                  true,
                )
          ]
    ]

-- `complete`
unfoldable pub complete : Inner → Operation → Status → ℕ → Inner
complete c operation status stun_code = push_event c (record (event_of event_request_complete) {
  method = method operation;
  status = status;
  stun_code = stun_code;
  state = c.state;
  channel_number = get_default 0 c.channel_number;
  address = c.relay;
})

unfoldable pub destroy_allocation : Inner → Operation → Status → ℕ → Inner
destroy_allocation c operation status stun_code =
    let cleared : Inner = record (complete c operation status stun_code) {
      controls = [];
      pending = [];
      channel_number = none;
      allocation_refresh = none;
      allocation_expires_at = none;
      maintenance_refresh = none;
      permission_retry = none;
      channel_retry = none;
      keepalive = none;
      relay = none;
    } in
    set_state cleared (if same operation deallocate then state_deallocated else state_destroying)

unfoldable pub destroy_after_channel_rebind_exhausted : Inner → Inner
destroy_after_channel_rebind_exhausted c =
    let cleared : Inner = record c {
      controls = [];
      pending = [];
      channel_number = none;
      maintenance_refresh = none;
      permission_retry = none;
      channel_retry = none;
      keepalive = none;
    } in
    set_state
      (push_event cleared (record (event_of event_channel_rebind_exhausted) {
        status = result_timeout;
        state = state_destroying;
      }))
      state_destroying

-- `u8::saturating_add(1)`
abbrev pub one_more : ℕ → ℕ
one_more failures = min (failures + 1) 255

abbrev pub retry_delay : ℕ → ℕ
retry_delay failures = min (maintenance_retry_base * 2 ^ min (failures - 1) 5) maintenance_retry_max

-- `schedule_maintenance_retry`, and whether there is one.
unfoldable pub schedule_maintenance_retry : Inner → Operation → ℕ → Inner × Bool
schedule_maintenance_retry c operation now = elim operation [
  | refresh ↦
      let failures = one_more c.refresh_failures in
      (
        record c {
          refresh_failures = failures;
          allocation_refresh = some (now + retry_delay failures);
        },
        true,
      )
  | permission ↦
      let failures = one_more c.permission_failures in
      (
        record c {
          permission_failures = failures;
          permission_retry = some (now + retry_delay failures);
        },
        true,
      )
  | channel ↦
      let failures = one_more c.channel_failures in
      if leb max_channel_maintenance_failures failures
      then (record c { channel_failures = failures }, false)
      else (
        record c { channel_failures = failures; channel_retry = some (now + retry_delay failures) },
        true,
      )
  | _ ↦ (c, true)
]

-- `deadline.is_some_and(|deadline| now < deadline)`
abbrev pub is_before : ℕ → Option ℕ → Bool
is_before now none = false
is_before now (some deadline) = ltb now deadline

-- `deadline.is_some_and(|deadline| now >= deadline)`
abbrev pub is_due : ℕ → Option ℕ → Bool
is_due now none = false
is_due now (some deadline) = leb deadline now

abbrev pub is_maintenance : Operation → Bool
is_maintenance operation =
    same operation refresh || (same operation permission || same operation channel)

unfoldable pub complete_failure : Inner → Operation → Status → ℕ → ℕ → Inner
complete_failure c operation status stun_code now =
    if is_maintenance operation
      && (same_state c.state state_ready && is_before now c.allocation_expires_at)
    then (let (retried, again) =
          schedule_maintenance_retry (complete c operation status stun_code) operation now in
        if again then retried else destroy_after_channel_rebind_exhausted retried)
    else destroy_allocation c operation status stun_code

-- `self.pending.remove(index)`
unfoldable pub remove_at {ℓ} : {A : Type ℓ} → ℕ → List A → List A
remove_at index [] = []
remove_at zero (x ∷ xs) = xs
remove_at (suc index) (x ∷ xs) = x ∷ remove_at index xs

-- A packet is sent once more, and waits twice as long.
abbrev pub resent : ℕ → Pending → Pending
resent now p = record p {
  transmissions = p.transmissions + 1;
  rto = min (p.rto * 2) max_rto;
  next_attempt = now + min (p.rto * 2) max_rto;
}

abbrev pub is_stream : Inner → Bool
is_stream c = elim c.transport [ datagram ↦ false | stream ↦ true ]

-- The loop of `expire_transactions` from an index on; every turn moves the index on or takes a
-- transaction out.
unfoldable pub expire_from : ℕ → ℕ → ℕ → Inner → Inner
expire_from zero now index c = c
expire_from (suc turns) now index c = elim (get_elem? c.pending index) [
  | none ↦ c
  | some p ↦
      if ltb now p.next_attempt
      then expire_from turns now (index + 1) c
      else if leb max_transmissions p.transmissions || is_stream c
      then expire_from turns now index (
          complete_failure
            (remove_queued_transaction (record c { pending = remove_at index c.pending })
              p.transaction)
            p.operation result_timeout 0 now)
      else (let queued = queue_packet c p.packet in
          expire_from turns now (index + 1)
            (record queued { pending = set queued.pending index (resent now p) }))
]

unfoldable pub expire_transactions : ℕ → Inner → Inner
expire_transactions now c = expire_from (length c.pending) now 0 c

-- `allocation_refresh_deadline`, of a lifetime in seconds.
unfoldable pub allocation_refresh_deadline : ℕ → Option ℕ → ℕ → ℕ
allocation_refresh_deadline now lifetime interval =
    now
    + max (min interval (get_default requested_allocation_lifetime_secs lifetime * 1000 / 2)) 500

abbrev pub same_family : Bool → Bool → Bool
same_family true b = b
same_family false b = not b

-- What an allocation that was granted changes.
unfoldable pub granted : Inner → SocketAddr → Option ℕ → ℕ → Inner
granted c relay returned now =
    push_event
      (record c {
        relay = some relay;
        allocation_refresh =
            some (allocation_refresh_deadline now returned c.profile.allocation_refresh);
        allocation_expires_at =
            some (now + get_default requested_allocation_lifetime_secs returned * 1000);
        refresh_failures = 0;
        maintenance_refresh = some (now + c.profile.maintenance_refresh);
        keepalive = some (now + c.profile.keepalive_interval);
      })
      (record (event_of event_relay_address) { address = some relay })

-- `complete_success`, and whether it succeeds.
unfoldable pub complete_success :
    Crypto → (Operation → List ℕ) → Inner → Operation → Stun.Message → ℕ → Inner × Bool
complete_success crypto random c allocate message now =
    elim (Stun.attribute message attr_xor_relayed_address) [
      | none ↦ (c, false)
      | some a ↦ elim (decode_xor_address a.value message.transaction) [
        | none ↦ (c, false)
        | some relay ↦
            let returned = attribute_u32 message attr_lifetime in
            let given = granted c relay returned now in
            if not (same_family relay.is_ipv4 c.peer.is_ipv4) || relay.port == 0
            then (c, false)
            else if get_default requested_allocation_lifetime_secs returned == 0
            then (c, false)
            else if c.shutting_down
            then start_operation crypto random now (set_state given state_deallocating) deallocate
                true 0
            else (complete (set_state given state_ready) allocate result_success 0, true)
      ]
    ]
complete_success crypto random c refresh message now =
    let returned = attribute_u32 message attr_lifetime in
    let lifetime = get_default requested_allocation_lifetime_secs returned in
    if lifetime == 0 then (c, false) else (
      complete
          (record c {
            allocation_refresh =
                some (allocation_refresh_deadline now returned c.profile.allocation_refresh);
            allocation_expires_at = some (now + lifetime * 1000);
            refresh_failures = 0;
          })
          refresh result_success 0,
      true,
    )
complete_success crypto random c deallocate message now =
    if not (get_default 0 (attribute_u32 message attr_lifetime) == 0) then (c, false) else (
      set_state
          (complete
            (record c { relay = none; allocation_refresh = none; allocation_expires_at = none })
            deallocate result_success 0)
          state_deallocated,
      true,
    )
complete_success crypto random c permission message now =
    (complete (record c { permission_failures = 0 }) permission result_success 0, true)
complete_success crypto random c channel message now = (
  complete
      (push_event (record c { channel_number = some turn_channel; channel_failures = 0 })
        (record (event_of event_channel_bound) {
          channel_number = turn_channel;
          address = some c.peer;
        }))
      channel result_success 0,
  true,
)
