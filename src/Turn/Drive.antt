-- ===== src/Turn/Drive.antt =====
-- The calls of `NativeCore` that its driver makes: `poll`, the two queues and the ends of an
-- allocation (rust-client/turn_core.rs).
use csqtt_android.Shared.{
  ℕ, ◌+◌, ◌-◌, Bool, true, false, not, ◌&&◌, ◌||◌, List, [], ◌∷◌, Option, none, some, ltb,
  if◌then◌else◌, length, min, max, map_option,
}
use csqtt_android.Turn.{
  Crypto, Inner, Pending, Control, NativeEvent, Operation, refresh, deallocate, permission, channel,
  Status, result_timeout, state_allocating, state_ready, state_deallocating, state_destroying,
  same_state, event_of, event_forced_destroy, push_event, set_state, queue_keepalive, has_operation,
  is_some,
}
use csqtt_android.Turn.Steps.{start_operation, destroy_allocation, expire_transactions, is_due}

-- `start_operation(…)?` behind what may have failed already; the last flag says whether a request was
-- started.
abbrev pub Started : Type 0
Started = Inner × Bool × Bool

unfoldable pub start_if :
    Crypto → (Operation → List ℕ) → ℕ → (Inner → Inner) → Operation → Bool → Started → Started
start_if crypto random now clear operation due (c, succeeded, started) =
    if succeeded && (due && not (has_operation c operation))
    then (let (next, done) = start_operation crypto random now (clear c) operation true 0 in
        (next, done, true))
    else (c, succeeded, started)

unfoldable pub renew : ℕ → Bool → Started → Started
renew now due (c, succeeded, started) =
    if succeeded && due
    then (
      record c { maintenance_refresh = some (now + c.profile.maintenance_refresh) },
      succeeded,
      started,
    )
    else (c, succeeded, started)

unfoldable pub keep_alive : ℕ → Started → Inner × Bool
keep_alive now (c, succeeded, started) =
    if succeeded && is_due now c.keepalive
    then (let later : Inner = record c { keepalive = some (now + c.profile.keepalive_interval) } in
        (if started then later else queue_keepalive later, true))
    else (c, succeeded)

-- The requests that are due in the state READY.
unfoldable pub maintain : Crypto → (Operation → List ℕ) → ℕ → Inner → Inner × Bool
maintain crypto random now c =
    let maintenance_due = is_due now c.maintenance_refresh in
    let permission_due = maintenance_due || is_due now c.permission_retry in
    let channel_due = maintenance_due || is_due now c.channel_retry in
    keep_alive now (
      start_if crypto random now (λ (d : Inner). record d { channel_retry = none }) channel
        channel_due
        (start_if crypto random now (λ (d : Inner). record d { permission_retry = none }) permission
          permission_due
          (renew now maintenance_due (
            start_if crypto random now (λ (d : Inner). record d { allocation_refresh = none })
              refresh (is_due now c.allocation_refresh) (c, true, false)))))

unfoldable pub expire_allocation : ℕ → Inner → Inner
expire_allocation now c =
    if not c.shutting_down && (same_state c.state state_ready && is_due now c.allocation_expires_at)
    then destroy_allocation c refresh result_timeout 0
    else c

abbrev pub earlier : Option ℕ → Option ℕ → Option ℕ
earlier none b = b
earlier (some a) none = some a
earlier (some a) (some b) = some (min a b)

unfoldable pub next_attempts : List Pending → Option ℕ
next_attempts [] = none
next_attempts (p ∷ pending) = earlier (some p.next_attempt) (next_attempts pending)

unfoldable pub next_deadline : Inner → Option ℕ
next_deadline c = earlier (next_attempts c.pending) (
    earlier c.allocation_refresh (
      earlier c.maintenance_refresh
        (earlier c.permission_retry (earlier c.channel_retry c.keepalive))))

-- What `poll` does before it computes its deadline; false for an error.
unfoldable pub advance : Crypto → (Operation → List ℕ) → ℕ → Inner → Inner × Bool
advance crypto random now c =
    let d = expire_allocation now (expire_transactions now c) in
    if not d.shutting_down && same_state d.state state_ready
    then maintain crypto random now d
    else (d, true)

-- `poll`: the state, and how long to wait; the outer none is an error.
unfoldable pub poll : Crypto → (Operation → List ℕ) → ℕ → Inner → Inner × Option (Option ℕ)
poll crypto random now c =
    if c.destroyed
    then (c, some none)
    else (let (d, succeeded) = advance crypto random now c in
        if not succeeded
        then (d, none)
        else (d, some (map_option (λ deadline. max (deadline - now) 1) (next_deadline d))))

-- `pull_control` with its buffer of 1,024 bytes; the outer none is an error.
unfoldable pub pull_control : Inner → Inner × Option (Option Control)
pull_control c = elim c.controls [
  | [] ↦ (c, some none)
  | control ∷ controls ↦ (
    record c { controls = controls },
    if ltb 1024 (length control.packet) then none else some (some control),
  )
]

unfoldable pub pull_event : Inner → Inner × Option NativeEvent
pull_event c = elim c.events [
  | [] ↦ (c, none)
  | event ∷ events ↦ (record c { events = events }, some event)
]

-- `relay_address` is the field; what follows ends an allocation.
unfoldable pub graceful_shutdown : Crypto → (Operation → List ℕ) → ℕ → Inner → Inner × Bool
graceful_shutdown crypto random now c =
    if c.destroyed || c.shutting_down
    then (c, true)
    else (let closing : Inner = record c {
      shutting_down = true;
      channel_number = none;
      maintenance_refresh = none;
      permission_retry = none;
      channel_retry = none;
      keepalive = none;
      controls = [];
    } in
        if same_state c.state state_ready
          || (same_state c.state state_destroying && is_some c.allocation_expires_at)
        then start_operation crypto random now
            (set_state (record closing { pending = [] }) state_deallocating) deallocate true 0
        else if not (same_state c.state state_allocating)
        then (record closing { pending = [] }, true)
        else (closing, true))

unfoldable pub force_destroy : Inner → Status → Inner
force_destroy c status =
    if c.destroyed
    then c
    else push_event
        (set_state (record c { destroyed = true; controls = []; pending = [] }) state_destroying)
        (record (event_of event_forced_destroy) { status = status; state = state_destroying })
