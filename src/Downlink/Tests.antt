-- ===== src/Downlink/Tests.antt =====
-- Two clients, with two paths and one, and a packet of each.
use csqtt_android.Shared.{ℕ, ◌≡◌, refl, List, [], ◌∷◌, arith}
use csqtt_android.Scheduler.{latency, bulk}
use csqtt_android.Downlink.{PacketSlots, Lane, slots_dequeue}
use csqtt_android.Downlink.Queue.{DownlinkQueue, next_key, dequeue_loop, dequeue}
use csqtt_android.Downlink.Dequeue.{waiting, dequeue_finds_nothing}
use csqtt_android.Downlink.Oldest.{dequeue_takes_oldest}

abbrev slots : List (List ℕ) → PacketSlots
slots pending = record { free = 2; pending = pending }

abbrev lane : ℕ → List (List ℕ) → Lane
lane paths pending = record {
  active_paths = paths;
  latency_slots = slots [];
  priority_slots = slots [];
  bulk_slots = slots pending;
}

abbrev two_clients : DownlinkQueue
two_clients = record {
  lanes = lane 2 [] ∷ lane 0 [] ∷ lane 1 ((7 ∷ []) ∷ (8 ∷ []) ∷ []) ∷ [];
  latency_ring = 0 ∷ 2 ∷ [];
  priority_ring = 0 ∷ 2 ∷ [];
  bulk_ring = 0 ∷ 0 ∷ 2 ∷ [];
  latency_cursor = 0;
  priority_cursor = 1;
  bulk_cursor = 1;
}

dequeue_finds_nothing_example : waiting two_clients 2 latency ≡ []
unfolding dequeue dequeue_loop next_key slots_dequeue
dequeue_finds_nothing_example =
    dequeue_finds_nothing two_clients latency 1 2 (omega arith) refl refl

dequeue_takes_oldest_example :
    waiting two_clients 2 bulk ≡ (7 ∷ []) ∷ waiting (dequeue two_clients bulk).0 2 bulk
unfolding dequeue dequeue_loop next_key slots_dequeue
dequeue_takes_oldest_example = dequeue_takes_oldest two_clients bulk 2 (7 ∷ []) refl
