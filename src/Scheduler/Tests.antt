-- ===== src/Scheduler/Tests.antt =====
-- shared/striped_scheduler.rs at concrete inputs.
use csqtt_android.Shared.{ℕ, ◌≡◌, refl, List, [], ◌∷◌, ◌++◌, some, arith, replicate}
use csqtt_android.Scheduler.{
  latency, priority, bulk, StripedScheduler, DispatchTicket, begin_class, packet_class,
  internet_transport, select_class,
}
use csqtt_android.Scheduler.Fair.{serve, share, round_is_fair}

abbrev counted : StripedScheduler
counted = record { latency_packet = 4; priority_packet = 7; bulk_packet = 9 }

serve_bulk : serve 6 counted 3 bulk ≡ some 1 ∷ some 2 ∷ some 2 ∷ some 0 ∷ some 0 ∷ some 1 ∷ []
unfolding serve select_class begin_class
serve_bulk = refl

round_is_fair_example : share 2 (serve 6 counted 3 bulk) ≡ 2
round_is_fair_example = round_is_fair counted 3 bulk 2 (omega arith) (omega arith)

abbrev ticket : DispatchTicket
ticket = record { start_slot = 1; worker_count = 3; cohort_len = 3; class = bulk }

abbrev ipv4 : ℕ → ℕ → List ℕ
ipv4 protocol payload = (0x45 ∷ replicate 8 0) ++ (protocol ∷ replicate 10 0) ++ replicate payload 0

classes :
    (packet_class (ipv4 1 100) ≡ latency)
    × (packet_class (ipv4 6 171) ≡ latency)
    × (packet_class (ipv4 6 172) ≡ bulk)
    × (packet_class (ipv4 17 280) ≡ latency)
    × (packet_class (ipv4 17 281) ≡ priority)
    × (packet_class (ipv4 50 40) ≡ bulk)
unfolding packet_class internet_transport
classes = (refl, refl, refl, refl, refl, refl)
