-- ===== src/Downlink/Dequeue.antt =====
-- A packet is taken if there is one (rust-server/downlink_queue.rs).
use csqtt_android.Shared.{
  ℕ, zero, suc, ◌+◌, ◌-◌, ◌≤◌, ◌<◌, ◌≡◌, refl, ap, sym, ◌∙◌, List, [], none, some, arith, ltb, leb,
  ◌==◌, if◌then◌else◌, length, get_elem?, Option-cases, inl, inr, lt_length_of_get,
  get_elem?_in_range,
}
use csqtt_android.Scheduler.{PacketClass, latency, priority, bulk}
use csqtt_android.Downlink.{queue, slots_dequeue}
use csqtt_android.Downlink.Queue.{
  DownlinkQueue, ring, cursor, with_cursor, next_key, from_lane, dequeue_loop, dequeue,
}

-- The packets of a class that wait in the lane of a key.
abbrev pub waiting : DownlinkQueue → ℕ → PacketClass → List (List ℕ)
waiting q key class = elim (get_elem? q.lanes key) [
  | none ↦ []
  | some lane ↦ (queue lane class).pending
]

-- The position `i` turns after the cursor.
abbrev pub turn : ℕ → ℕ → ℕ → ℕ
turn n c i = if ltb (c + i) n then c + i else c + i - n

ring-with_cursor :
    (q : DownlinkQueue) (class : PacketClass) (c : ℕ)
    → ring (with_cursor q class c) class ≡ ring q class
ring-with_cursor q latency c = refl
ring-with_cursor q priority c = refl
ring-with_cursor q bulk c = refl

cursor-with_cursor :
    (q : DownlinkQueue) (class : PacketClass) (c : ℕ) → cursor (with_cursor q class c) class ≡ c
cursor-with_cursor q latency c = refl
cursor-with_cursor q priority c = refl
cursor-with_cursor q bulk c = refl

pub lanes-with_cursor :
    (q : DownlinkQueue) (class : PacketClass) (c : ℕ) → (with_cursor q class c).lanes ≡ q.lanes
lanes-with_cursor q latency c = refl
lanes-with_cursor q priority c = refl
lanes-with_cursor q bulk c = refl

from_lane_empty :
    (q : DownlinkQueue) (key : ℕ) (class : PacketClass)
    → from_lane q key class ≡ none
    → waiting q key class ≡ []
unfolding slots_dequeue
from_lane_empty q key class h = elim (Option-cases (get_elem? q.lanes key)) [
  | inl gone ↦ ground (arith, gone)
  | inr (lane, e) ↦ ground (arith, h, e)
]

-- The queue after a turn that found nothing.
abbrev turned : DownlinkQueue → PacketClass → DownlinkQueue
turned q class =
    with_cursor q class
      (if cursor q class + 1 == length (ring q class) then 0 else cursor q class + 1)

next_key-turned :
    (q : DownlinkQueue) (class : PacketClass) (key : ℕ)
    → get_elem? (ring q class) (cursor q class) ≡ some key
    → next_key q class ≡ (turned q class, some key)
unfolding next_key
next_key-turned q class key at = rw (at, next_key) refl

waiting-turned :
    (q : DownlinkQueue) (class : PacketClass) (key : ℕ)
    → waiting (turned q class) key class ≡ waiting q key class
waiting-turned q latency key = refl
waiting-turned q priority key = refl
waiting-turned q bulk key = refl

loop_turn :
    (attempts : ℕ) (q : DownlinkQueue) (class : PacketClass) (key : ℕ)
    → get_elem? (ring q class) (cursor q class) ≡ some key
    → (dequeue_loop (suc attempts) q class).1 ≡ none
    → (waiting q key class ≡ []) × ((dequeue_loop attempts (turned q class) class).1 ≡ none)
unfolding dequeue_loop
loop_turn attempts q class key at h = elim (Option-cases (from_lane (turned q class) key class)) [
  | inl empty ↦ (
    sym (waiting-turned q class key) ∙ from_lane_empty (turned q class) key class empty,
    ground (arith, h, next_key-turned q class key at, empty),
  )
  | inr (taken, found) ↦ absurd (ground (arith, h, next_key-turned q class key at, found))
]

-- The position after a turn.
next_turn :
    (n c i : ℕ) → c < n → suc i < n → turn n (if c + 1 == n then 0 else c + 1) i ≡ turn n c (suc i)
next_turn n c i h l = ground arith

first_turn : (n c : ℕ) → c < n → turn n c 0 ≡ c
first_turn n c h = ground arith

all_turns :
    (attempts : ℕ) (q : DownlinkQueue) (class : PacketClass) (i key : ℕ)
    → cursor q class < length (ring q class)
    → attempts ≤ length (ring q class)
    → (dequeue_loop attempts q class).1 ≡ none
    → i < attempts
    → get_elem? (ring q class) (turn (length (ring q class)) (cursor q class) i) ≡ some key
    → waiting q key class ≡ []
all_turns zero q class i key c few h l at = absurd (omega arith)
all_turns (suc attempts) q class zero key c few h l at = (loop_turn attempts q class key found h).0
  where
    n : ℕ
    n = length (ring q class)

    found : get_elem? (ring q class) (cursor q class) ≡ some key
    found = ap (get_elem? (ring q class)) (sym (first_turn n (cursor q class) c)) ∙ at
all_turns (suc attempts) q class (suc i) key c few h l at =
    let (here, found) = get_elem?_in_range (ring q class) (cursor q class) c in
    sym (waiting-turned q class key)
    ∙ all_turns attempts (turned q class) class i key in_range (enough few)
        (loop_turn attempts q class here found h).1 (omega arith) moved
  where
    same : ring (turned q class) class ≡ ring q class
    same = ring-with_cursor q class _

    at_next :
        cursor (turned q class) class
        ≡ (if cursor q class + 1 == length (ring q class) then 0 else cursor q class + 1)
    at_next = cursor-with_cursor q class _

    in_range : cursor (turned q class) class < length (ring (turned q class) class)
    in_range = rw (same, at_next) (ground arith)

    enough : suc attempts ≤ length (ring q class) → attempts ≤ length (ring (turned q class) class)
    enough few = rw same (omega arith)

    moved :
        get_elem?
          (ring (turned q class) class)
          (turn (length (ring (turned q class) class)) (cursor (turned q class) class) i)
        ≡ some key
    moved =
        rw (same, at_next, next_turn (length (ring q class)) (cursor q class) i c (omega arith)) at

turn_to : (n c j : ℕ) → c < n → j < n → turn n c (if leb c j then j - c else j + n - c) ≡ j
turn_to n c j h l = ground arith

turn_to_bound : (n c j : ℕ) → c < n → j < n → (if leb c j then j - c else j + n - c) < n
turn_to_bound n c j h l = ground arith

-- When `dequeue` finds nothing, no lane on the ring of the class has a packet of that class waiting:
-- one look at each place of the ring is enough, wherever in the ring the cursor stands.
pub dequeue_finds_nothing :
    (q : DownlinkQueue) (class : PacketClass) (j key : ℕ)
    → cursor q class < length (ring q class)
    → (dequeue q class).1 ≡ none
    → get_elem? (ring q class) j ≡ some key
    → waiting q key class ≡ []
unfolding dequeue
dequeue_finds_nothing q class j key c h at =
    all_turns (length (ring q class)) q class _ key c (omega arith) h
      (turn_to_bound (length (ring q class)) (cursor q class) j c l)
      (ap (get_elem? (ring q class)) (turn_to (length (ring q class)) (cursor q class) j c l) ∙ at)
  where
    l : j < length (ring q class)
    l = lt_length_of_get (ring q class) j key at
