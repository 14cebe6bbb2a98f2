-- ===== src/Downlink/Queue.antt =====
-- `DownlinkQueue` of rust-server/downlink_queue.rs: the lanes, and for each class a ring of the
-- active lanes with its cursor.
use csqtt_android.Shared.{
  ℕ, zero, suc, ◌+◌, ◌%◌, Bool, false, List, [], ◌∷◌, ◌++◌, Option, none, some, ◌==◌, if◌then◌else◌,
  length, get_elem?, set, replicate, max, min,
}
use csqtt_android.Scheduler.{PacketClass, latency, priority, bulk}
use csqtt_android.Downlink.{
  Lane, max_paths, lane_configure, queue, with_queue, lane_clear_pending, slots_enqueue,
  slots_dequeue, slots_requeue_front, slots_recycle,
}

pub record DownlinkQueue : Type 0 where
  pub lanes : List Lane
  pub latency_ring : List ℕ
  pub priority_ring : List ℕ
  pub bulk_ring : List ℕ
  pub latency_cursor : ℕ
  pub priority_cursor : ℕ
  pub bulk_cursor : ℕ

abbrev pub ring : DownlinkQueue → PacketClass → List ℕ
ring q latency = q.latency_ring
ring q priority = q.priority_ring
ring q bulk = q.bulk_ring

abbrev pub cursor : DownlinkQueue → PacketClass → ℕ
cursor q latency = q.latency_cursor
cursor q priority = q.priority_cursor
cursor q bulk = q.bulk_cursor

abbrev pub with_cursor : DownlinkQueue → PacketClass → ℕ → DownlinkQueue
with_cursor q latency c = record q { latency_cursor = c }
with_cursor q priority c = record q { priority_cursor = c }
with_cursor q bulk c = record q { bulk_cursor = c }

-- The keys of the lanes from `key` on, each as often as `weight` says.
unfoldable pub keys_from : (Lane → ℕ) → ℕ → List Lane → List ℕ
keys_from weight key [] = []
keys_from weight key (lane ∷ lanes) =
    (if lane.active_paths == 0 then [] else replicate (weight lane) key)
    ++ keys_from weight (key + 1) lanes

unfoldable pub rebuild_rings : DownlinkQueue → DownlinkQueue
rebuild_rings q =
    let single = keys_from (λ lane. 1) 0 q.lanes in
    let weighted = keys_from (λ lane. lane.active_paths) 0 q.lanes in
    record {
      lanes = q.lanes;
      latency_ring = single;
      priority_ring = single;
      bulk_ring = weighted;
      latency_cursor = q.latency_cursor % max (length single) 1;
      priority_cursor = q.priority_cursor % max (length single) 1;
      bulk_cursor = q.bulk_cursor % max (length weighted) 1;
    }

unfoldable pub configure : DownlinkQueue → ℕ → ℕ → DownlinkQueue
configure q key active_paths = elim (get_elem? q.lanes key) [
  | none ↦ q
  | some lane ↦
      if lane.active_paths == min active_paths max_paths
      then q
      else rebuild_rings (record q { lanes = set q.lanes key (lane_configure lane active_paths) })
]

unfoldable pub enqueue : DownlinkQueue → ℕ → PacketClass → List ℕ → DownlinkQueue × Bool
enqueue q key class packet = elim (get_elem? q.lanes key) [
  | none ↦ (q, false)
  | some lane ↦
      let (s, taken) = slots_enqueue (queue lane class) packet in
      if lane.active_paths == 0
      then (q, false)
      else (record q { lanes = set q.lanes key (with_queue lane class s) }, taken)
]

unfoldable pub next_key : DownlinkQueue → PacketClass → DownlinkQueue × Option ℕ
next_key q class = elim (get_elem? (ring q class) (cursor q class)) [
  | none ↦ (q, none)
  | some key ↦
      let next = cursor q class + 1 in
      (with_cursor q class (if next == length (ring q class) then 0 else next), some key)
]

-- What a turn of the loop finds in the lane of `key`; an index out of range would panic, and the
-- keys of a ring are in range (Downlink.Ring).
abbrev pub from_lane : DownlinkQueue → ℕ → PacketClass → Option (DownlinkQueue × ℕ × List ℕ)
from_lane q key class = elim (get_elem? q.lanes key) [
  | none ↦ none
  | some lane ↦
      let s = slots_dequeue (queue lane class) in
      elim s.1 [
        | none ↦ none
        | some packet ↦
            some (record q { lanes = set q.lanes key (with_queue lane class s.0) }, key, packet)
      ]
]

-- The loop of `dequeue`, with the attempts that are left.
unfoldable pub dequeue_loop : ℕ → DownlinkQueue → PacketClass → DownlinkQueue × Option (ℕ × List ℕ)
dequeue_loop zero q class = (q, none)
dequeue_loop (suc attempts) q class =
    let moved = next_key q class in
    elim moved.1 [
      | none ↦ (moved.0, none)
      | some key ↦ elim (from_lane moved.0 key class) [
        | some taken ↦ (taken.0, some (taken.1, taken.2))
        | none ↦ dequeue_loop attempts moved.0 class
      ]
    ]

unfoldable pub dequeue : DownlinkQueue → PacketClass → DownlinkQueue × Option (ℕ × List ℕ)
unfolding dequeue_loop
dequeue q class = dequeue_loop (length (ring q class)) q class

abbrev on_lane : DownlinkQueue → ℕ → (Lane → Lane) → DownlinkQueue
on_lane q key f = elim (get_elem? q.lanes key) [
  | none ↦ q
  | some lane ↦ record q { lanes = set q.lanes key (f lane) }
]

unfoldable pub requeue_front : DownlinkQueue → ℕ → PacketClass → List ℕ → DownlinkQueue
requeue_front q key class packet =
    on_lane q key (λ lane. with_queue lane class (slots_requeue_front (queue lane class) packet))

unfoldable pub recycle : DownlinkQueue → ℕ → PacketClass → DownlinkQueue
recycle q key class =
    on_lane q key (λ lane. with_queue lane class (slots_recycle (queue lane class)))

unfoldable pub clear : DownlinkQueue → ℕ → DownlinkQueue
clear q key = on_lane q key lane_clear_pending
