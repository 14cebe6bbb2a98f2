-- ===== src/Downlink.antt =====
-- rust-server/downlink_queue.rs: the packets for the clients, in a lane for each client and a queue
-- for each class. A free buffer is counted only, since its bytes are never read before they are
-- written; a pending one is its bytes. The 256 lanes are a list.
pub mod Slots
pub mod Queue
pub mod Ring
pub mod Dequeue
pub mod Oldest
mod Tests
use csqtt_android.Shared.{
  ℕ, zero, suc, ◌+◌, ◌-◌, ◌*◌, ◌/◌, ◌%◌, Bool, true, false, not, ◌||◌, ◌&&◌, List, [], ◌∷◌, ◌++◌,
  Option, none, some, ltb, leb, ◌==◌, if◌then◌else◌, length, max, min,
}
use csqtt_android.Scheduler.{PacketClass, latency, priority, bulk}

-- `PACKET_CAPACITY` of rust-server/packet.rs
abbrev pub packet_capacity : ℕ
packet_capacity = 1_600

pub record ClientQueueProfile : Type 0 where
  pub latency_slots : ℕ
  pub priority_slots : ℕ
  pub bulk_slots : ℕ

-- `PRIORITY_MAX_SLOTS / PRIORITY_SLOTS_PER_PATH`
abbrev pub max_paths : ℕ
max_paths = 126

abbrev pub clamp : ℕ → ℕ → ℕ → ℕ
clamp n low high = min (max n low) high

unfoldable pub profile_for_active_paths : ℕ → ClientQueueProfile
profile_for_active_paths active_paths =
    let paths = min active_paths max_paths in
    if paths == 0
    then record { latency_slots = 0; priority_slots = 0; bulk_slots = 0 }
    else record {
      latency_slots = 16;
      priority_slots = clamp (paths * 2) 32 252;
      bulk_slots = clamp (paths * 8) 72 1_008;
    }

pub record PacketSlots : Type 0 where
  pub free : ℕ
  pub pending : List (List ℕ)

abbrev pub total : PacketSlots → ℕ
total s = s.free + length s.pending

-- `pop_back`
abbrev pub without_last {ℓ} : {A : Type ℓ} → List A → List A
without_last [] = []
without_last (x ∷ []) = []
without_last (x ∷ y ∷ ys) = x ∷ without_last (y ∷ ys)

-- The two loops of `resize`; each turn brings the total nearer to `capacity`.
unfoldable pub grow : ℕ → ℕ → PacketSlots → PacketSlots
grow zero capacity s = s
grow (suc fuel) capacity s =
    if ltb (total s) capacity then grow fuel capacity (record s { free = s.free + 1 }) else s

abbrev pub drop_slot : PacketSlots → PacketSlots
drop_slot s =
    if s.free == 0
    then record s { pending = without_last s.pending }
    else record s { free = s.free - 1 }

unfoldable pub shrink : ℕ → ℕ → PacketSlots → PacketSlots
shrink zero capacity s = s
shrink (suc fuel) capacity s =
    if ltb capacity (total s) then shrink fuel capacity (drop_slot s) else s

unfoldable pub resize : PacketSlots → ℕ → PacketSlots
resize s capacity =
    let grown = grow capacity capacity s in
    let shrunk = shrink (total grown) capacity grown in
    if capacity == 0 then record { free = 0; pending = [] } else shrunk

-- `copy_from` refuses more bytes than a buffer holds, and the buffer goes back.
unfoldable pub slots_enqueue : PacketSlots → List ℕ → PacketSlots × Bool
slots_enqueue s packet =
    if s.free == 0 || ltb packet_capacity (length packet)
    then (s, false)
    else (record { free = s.free - 1; pending = s.pending ++ (packet ∷ []) }, true)

unfoldable pub slots_dequeue : PacketSlots → PacketSlots × Option (List ℕ)
slots_dequeue s = elim s.pending [
  | [] ↦ (s, none)
  | packet ∷ rest ↦ (record s { pending = rest }, some packet)
]

abbrev pub slots_requeue_front : PacketSlots → List ℕ → PacketSlots
slots_requeue_front s packet = record s { pending = packet ∷ s.pending }

abbrev pub slots_recycle : PacketSlots → PacketSlots
slots_recycle s = record s { free = s.free + 1 }

abbrev pub slots_clear_pending : PacketSlots → PacketSlots
slots_clear_pending s = record { free = s.free + length s.pending; pending = [] }

pub record Lane : Type 0 where
  pub active_paths : ℕ
  pub latency_slots : PacketSlots
  pub priority_slots : PacketSlots
  pub bulk_slots : PacketSlots

unfoldable pub lane_configure : Lane → ℕ → Lane
lane_configure lane active_paths =
    let paths = min active_paths max_paths in
    let profile = profile_for_active_paths paths in
    record {
      active_paths = paths;
      latency_slots = resize lane.latency_slots profile.latency_slots;
      priority_slots = resize lane.priority_slots profile.priority_slots;
      bulk_slots = resize lane.bulk_slots profile.bulk_slots;
    }

abbrev pub queue : Lane → PacketClass → PacketSlots
queue lane latency = lane.latency_slots
queue lane priority = lane.priority_slots
queue lane bulk = lane.bulk_slots

abbrev pub with_queue : Lane → PacketClass → PacketSlots → Lane
with_queue lane latency s = record lane { latency_slots = s }
with_queue lane priority s = record lane { priority_slots = s }
with_queue lane bulk s = record lane { bulk_slots = s }

abbrev pub lane_clear_pending : Lane → Lane
lane_clear_pending lane = record lane {
  latency_slots = slots_clear_pending lane.latency_slots;
  priority_slots = slots_clear_pending lane.priority_slots;
  bulk_slots = slots_clear_pending lane.bulk_slots;
}
