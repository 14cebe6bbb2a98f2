-- ===== src/Turn/Run.antt =====
-- Every run of calls keeps the invariant of the TURN client (rust-client/turn_core.rs).
use csqtt_android.Shared.{
  ℕ, ◌+◌, ◌≤◌, ◌≡◌, ◌≢◌, refl, ap, Bool, true, false, not, ◌&&◌, ◌||◌, List, [], ◌∷◌, none, some,
  arith, if◌then◌else◌, length, Bool-cases, Option-cases, inl, inr,
}
use csqtt_android.Turn.{
  Crypto, Inner, Control, NativeEvent, SocketAddr, CsqttTurnProfile, TurnControlTransport,
  Operation, allocate, refresh, deallocate, permission, channel, Status, result_timeout, state_null,
  state_allocating, state_ready, state_deallocating, state_destroying, same_state, queue_keepalive,
  find_operation, has_operation, is_some,
}
use csqtt_android.Turn.Steps.{start_operation, expire_transactions, is_due}
use csqtt_android.Turn.Core.{
  create, start_allocation, start_channel, start_permission, input_stun, is_open,
}
use csqtt_android.Turn.Drive.{
  Started, start_if, renew, keep_alive, maintain, expire_allocation, advance, poll, pull_control,
  pull_event, graceful_shutdown, force_destroy,
}
use csqtt_android.Turn.Valid.{
  rank, IsInner, push_event-Queued, set_state-Queued, queue_packet-Queued, start_operation-Kept,
  same_state_eq,
}
use csqtt_android.Turn.Moves.{
  Moved, Moved-trans, Moved-refl, Moved-of_Kept, Moved-of_Queued, untouched, ended-Moved,
  emptied-IsInner, expire_transactions-Moved, destroy_allocation-Moved,
}
use csqtt_android.Turn.Calls.{Moved-if, set_state-Moved}
use csqtt_android.Turn.Input.{input_stun-Moved, Moved-either, Moved-option}

-- A call on the client, with the time and what the random generator gives.
pub data Call : Type 0 where
  allocation channel_bind create_permission shutdown polled : (Operation → List ℕ) → ℕ → Call
  input : (Operation → List ℕ) → ℕ → List ℕ → Call
  control_pulled event_pulled : Call
  destroyed_by : Status → Call

unfoldable pub call : Crypto → Inner → Call → Inner
call crypto c (allocation random now) = (start_allocation crypto random now c).0
call crypto c (channel_bind random now) = (start_channel crypto random now c).0
call crypto c (create_permission random now) = (start_permission crypto random now c).0
call crypto c (shutdown random now) = (graceful_shutdown crypto random now c).0
call crypto c (polled random now) = (poll crypto random now c).0
call crypto c (input random now packet) = (input_stun crypto random now c packet).0
call crypto c control_pulled = (pull_control c).0
call crypto c event_pulled = (pull_event c).0
call crypto c (destroyed_by status) = force_destroy c status

not_allocating :
    (c : Inner) → IsInner c → c.state ≡ state_null → find_operation allocate c.pending ≡ none
unfolding has_operation
not_allocating c v h = elim (Option-cases (find_operation allocate c.pending)) [
  | inl e ↦ e
  | inr (p, e) ↦ absurd (omega (arith, ap rank h, ap rank (v.allocating (ap is_some e))))
]

start_allocation-Moved :
    (crypto : Crypto) (random : Operation → List ℕ) (now : ℕ) (c : Inner)
    → IsInner c
    → Moved c (start_allocation crypto random now c).0
unfolding start_allocation
start_allocation-Moved crypto random now c v =
    elim (Bool-cases (not (is_open c) || not (same_state c.state state_null))) [
      | inl e ↦ rw (e, start_allocation) (Moved-refl c v)
      | inr e ↦
          let at : c.state ≡ state_null = same_state_eq c.state state_null (ground (arith, e)) in
          let begun =
            set_state-Moved c state_allocating v (not_allocating c v at)
              (omega (arith, ap rank at)) in
          rw (e, start_allocation)
            (Moved-trans c _ _ begun (
              Moved-of_Kept _ _ (
                start_operation-Kept crypto random now _ allocate false 0 begun.valid
                  (λ f. (set_state-Queued c state_allocating).state) (λ f. cc))))
    ]

start_ready-Moved :
    (crypto : Crypto) (random : Operation → List ℕ) (now : ℕ) (c : Inner) (o : Operation) (b : Bool)
    → IsInner c
    → o ≢ allocate
    → o ≢ deallocate
    → Moved c (if b then (c, false) else start_operation crypto random now c o true 0).0
start_ready-Moved crypto random now c o b v h k = Moved-if c b _ _ (Moved-refl c v) (
    Moved-of_Kept c _
      (start_operation-Kept crypto random now c o true 0 v (λ e. absurd (h e)) (λ e. absurd (k e))))

Moved-started :
    (c : Inner) (b : Bool) (x y : Started)
    → Moved c x.0
    → Moved c y.0
    → Moved c (if b then x else y).0
Moved-started c true x y f g = f
Moved-started c false x y f g = g

start_if-Moved :
    (crypto : Crypto) (random : Operation → List ℕ) (now : ℕ) (clear : Inner → Inner)
    (o : Operation) (due : Bool) (c : Inner) (s : Started)
    → ((d : Inner) → IsInner d → Moved d (clear d))
    → o ≢ allocate
    → o ≢ deallocate
    → Moved c s.0
    → Moved c (start_if crypto random now clear o due s).0
unfolding start_if
start_if-Moved crypto random now clear o due c (d, ok, started) cleared h k m =
    let e = cleared d m.valid in
    let next = start_operation crypto random now (clear d) o true 0 in
    Moved-started c (ok && (due && not (has_operation d o))) (next.0, next.1, true) (d, ok, started)
      (Moved-trans c _ _ m (
        Moved-trans d _ _ e (
          Moved-of_Kept _ _ (
            start_operation-Kept crypto random now _ o true 0 e.valid (λ f. absurd (h f))
              (λ f. absurd (k f))))))
      m

renew-Moved :
    (now : ℕ) (due : Bool) (c : Inner) (s : Started) → Moved c s.0 → Moved c (renew now due s).0
unfolding renew
renew-Moved now due c (d, ok, started) m =
    Moved-started c (ok && due)
      (record d { maintenance_refresh = some (now + d.profile.maintenance_refresh) }, ok, started)
      (d, ok, started) (Moved-trans c _ _ m (untouched d _ m.valid refl refl refl refl)) m

queue_keepalive-Moved : (c : Inner) → IsInner c → Moved c (queue_keepalive c)
unfolding queue_keepalive
queue_keepalive-Moved c v =
    Moved-option c c.channel_number _ _ (Moved-refl c v)
      (λ number. Moved-of_Queued c _ v (queue_packet-Queued c _))

keep_alive-Moved : (now : ℕ) (c : Inner) (s : Started) → Moved c s.0 → Moved c (keep_alive now s).0
unfolding keep_alive
keep_alive-Moved now c (d, ok, started) m =
    let later =
      untouched d (record d { keepalive = some (now + d.profile.keepalive_interval) }) m.valid refl
        refl refl refl in
    Moved-if c (ok && is_due now d.keepalive) _ _
      (Moved-trans c _ _ m (
        Moved-trans d _ _ later (
          Moved-either _ started _ _ (Moved-refl _ later.valid)
            (queue_keepalive-Moved _ later.valid))))
      m

maintain-Moved :
    (crypto : Crypto) (random : Operation → List ℕ) (now : ℕ) (c : Inner)
    → IsInner c
    → Moved c (maintain crypto random now c).0
unfolding maintain
maintain-Moved crypto random now c v = keep_alive-Moved now c _ (
    start_if-Moved crypto random now _ channel _ c _ (λ d w. untouched d _ w refl refl refl refl)
      (λ e. cc) (λ e. cc)
      (start_if-Moved crypto random now _ permission _ c _
        (λ d w. untouched d _ w refl refl refl refl) (λ e. cc) (λ e. cc)
        (renew-Moved now _ c _ (
          start_if-Moved crypto random now _ refresh _ c _
            (λ d w. untouched d _ w refl refl refl refl) (λ e. cc) (λ e. cc) (Moved-refl c v)))))

expire_allocation-Moved : (now : ℕ) (c : Inner) → IsInner c → Moved c (expire_allocation now c)
unfolding expire_allocation
expire_allocation-Moved now c v =
    Moved-either c
      (not c.shutting_down
        && (same_state c.state state_ready && is_due now c.allocation_expires_at))
      _ _ (destroy_allocation-Moved c refresh result_timeout 0 v) (Moved-refl c v)

advance-Moved :
    (crypto : Crypto) (random : Operation → List ℕ) (now : ℕ) (c : Inner)
    → IsInner c
    → Moved c (advance crypto random now c).0
unfolding advance
advance-Moved crypto random now c v =
    let expired = expire_transactions-Moved now c v in
    let gone = Moved-trans c _ _ expired (expire_allocation-Moved now _ expired.valid) in
    let d = expire_allocation now (expire_transactions now c) in
    Moved-if c (not d.shutting_down && same_state d.state state_ready) _ _
      (Moved-trans c _ _ gone (maintain-Moved crypto random now _ gone.valid)) gone

poll-Moved :
    (crypto : Crypto) (random : Operation → List ℕ) (now : ℕ) (c : Inner)
    → IsInner c
    → Moved c (poll crypto random now c).0
unfolding poll
poll-Moved crypto random now c v =
    let next = advance-Moved crypto random now c v in
    Moved-if c c.destroyed _ _ (Moved-refl c v)
      (Moved-if c (not (advance crypto random now c).1) _ _ next next)

-- Shorter queues.
shorter-Moved :
    (c : Inner) (controls : List Control) (events : List NativeEvent)
    → IsInner c
    → length controls ≤ 16
    → length events ≤ 64
    → Moved c (record c { controls = controls; events = events })
unfolding has_operation
shorter-Moved c controls events v h k = record {
  valid = record {
    controls = h;
    events = k;
    distinct = v.distinct;
    allocating = v.allocating;
    deallocating = v.deallocating;
  };
  later = omega arith;
}

pull_control-Moved : (c : Inner) → IsInner c → Moved c (pull_control c).0
unfolding pull_control
pull_control-Moved c v = go c.controls v
  where
    go :
        (cs : List Control)
        → IsInner (record c { controls = cs })
        → Moved (record c { controls = cs }) (pull_control (record c { controls = cs })).0
    go [] v = Moved-refl _ v
    go (control ∷ cs) v = shorter-Moved _ cs c.events v (omega (arith, v.controls)) v.events

pull_event-Moved : (c : Inner) → IsInner c → Moved c (pull_event c).0
unfolding pull_event
pull_event-Moved c v = go c.events v
  where
    go :
        (es : List NativeEvent)
        → IsInner (record c { events = es })
        → Moved (record c { events = es }) (pull_event (record c { events = es })).0
    go [] v = Moved-refl _ v
    go (event ∷ es) v = shorter-Moved _ c.controls es v v.controls (omega (arith, v.events))

-- What `graceful_shutdown` clears.
abbrev closing : Inner → Inner
closing c = record c {
  shutting_down = true;
  channel_number = none;
  maintenance_refresh = none;
  permission_retry = none;
  channel_retry = none;
  keepalive = none;
  controls = [];
}

graceful_shutdown-Moved :
    (crypto : Crypto) (random : Operation → List ℕ) (now : ℕ) (c : Inner)
    → IsInner c
    → Moved c (graceful_shutdown crypto random now c).0
unfolding graceful_shutdown has_operation
graceful_shutdown-Moved crypto random now c v =
    let emptied : Inner = record (closing c) { pending = [] } in
    let ended = ended-Moved c emptied state_deallocating refl (omega arith) v.events refl in
    let cleared : Moved c (closing c) = record {
      valid = record {
        controls = omega arith;
        events = v.events;
        distinct = v.distinct;
        allocating = v.allocating;
        deallocating = v.deallocating;
      };
      later = omega arith;
    } in
    let empty : Moved c emptied = record {
      valid = emptied-IsInner c emptied refl (omega arith) v.events;
      later = omega arith;
    } in
    Moved-if c (c.destroyed || c.shutting_down) _ _ (Moved-refl c v) (
      Moved-if c
        (same_state c.state state_ready
          || (same_state c.state state_destroying && is_some c.allocation_expires_at))
        _ _
        (Moved-trans c _ _ ended (
          Moved-of_Kept _ _ (
            start_operation-Kept crypto random now _ deallocate true 0 ended.valid (λ e. cc)
              (λ e. ap rank (set_state-Queued emptied state_deallocating).state))))
        (Moved-if c (not (same_state c.state state_allocating)) _ _ empty cleared))

force_destroy-Moved : (c : Inner) (status : Status) → IsInner c → Moved c (force_destroy c status)
unfolding force_destroy
force_destroy-Moved c status v =
    let gone = ended-Moved c _ state_destroying refl (omega arith) v.events refl in
    Moved-either c c.destroyed _ _ (Moved-refl c v)
      (Moved-trans c _ _ gone (Moved-of_Queued _ _ gone.valid (push_event-Queued _ _)))

pub call-Moved : (crypto : Crypto) (c : Inner) (k : Call) → IsInner c → Moved c (call crypto c k)
unfolding call start_channel start_permission
call-Moved crypto c (allocation random now) v = start_allocation-Moved crypto random now c v
call-Moved crypto c (channel_bind random now) v =
    start_ready-Moved crypto random now c channel _ v (λ e. cc) (λ e. cc)
call-Moved crypto c (create_permission random now) v =
    start_ready-Moved crypto random now c permission _ v (λ e. cc) (λ e. cc)
call-Moved crypto c (shutdown random now) v = graceful_shutdown-Moved crypto random now c v
call-Moved crypto c (polled random now) v = poll-Moved crypto random now c v
call-Moved crypto c (input random now packet) v = input_stun-Moved crypto random now c packet v
call-Moved crypto c control_pulled v = pull_control-Moved c v
call-Moved crypto c event_pulled v = pull_event-Moved c v
call-Moved crypto c (destroyed_by status) v = force_destroy-Moved c status v

unfoldable pub calls : Crypto → Inner → List Call → Inner
calls crypto c [] = c
calls crypto c (k ∷ ks) = calls crypto (call crypto c k) ks

calls-Moved :
    (crypto : Crypto) (c : Inner) (ks : List Call) → IsInner c → Moved c (calls crypto c ks)
unfolding calls
calls-Moved crypto c [] v = Moved-refl c v
calls-Moved crypto c (k ∷ ks) v =
    let one = call-Moved crypto c k v in
    Moved-trans c _ _ one (calls-Moved crypto (call crypto c k) ks one.valid)

created-IsInner :
    (server : SocketAddr) (username password : List ℕ) (peer : SocketAddr)
    (profile : CsqttTurnProfile) (transport : TurnControlTransport) (c : Inner)
    → create server username password peer profile transport ≡ some c
    → IsInner c
unfolding create has_operation find_operation
created-IsInner server username password peer profile transport c h =
    let pending : c.pending ≡ [] = ground (arith, h) in
    let controls : c.controls ≡ [] = ground (arith, h) in
    let events : c.events ≡ [] = ground (arith, h) in
    emptied-IsInner c c pending (omega (arith, ap length controls))
      (omega (arith, ap length events))

-- Whatever calls are made on a new client, with whatever packets, clocks and transaction ids: its
-- queues stay within 16 packets and 64 events, no operation is pending twice, an Allocate is pending
-- only while it is allocating and a deallocation only at the end; and further calls never take it back
-- from the end to READY, or from READY to allocating.
pub calls-IsInner :
    (crypto : Crypto) (server : SocketAddr) (username password : List ℕ) (peer : SocketAddr)
    (profile : CsqttTurnProfile) (transport : TurnControlTransport) (c : Inner)
    (before after : List Call)
    → create server username password peer profile transport ≡ some c
    → IsInner (calls crypto c before)
      × (rank (calls crypto c before).state
          ≤ rank (calls crypto (calls crypto c before) after).state)
calls-IsInner crypto server username password peer profile transport c before after h =
    let first =
      calls-Moved crypto c before
        (created-IsInner server username password peer profile transport c h) in
    (first.valid, (calls-Moved crypto (calls crypto c before) after first.valid).later)
