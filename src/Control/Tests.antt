-- ===== src/Control/Tests.antt =====
-- A client with four workers, of which the server sees 1 and 3.
use csqtt_android.Shared.{
  ℕ, ◌≡◌, refl, Bool, true, false, List, [], ◌∷◌, some, arith, ◌+◌, same_bytes, to_be,
}
use csqtt_android.Control.Client.{parse_stream_command}
use csqtt_android.Control.Server.{
  missing_from, fill_missing, StreamRepairRound, observe_missing, send_repair, repair_payload,
  id_bytes, stream_control_payload,
}
use csqtt_android.Control.Inventory.{Sighting}
use csqtt_android.Control.Rounds.{parse-repair_payload}
use csqtt_android.Control.Timing.{repairs, IsSpaced, repairs_rate}

abbrev present : List Bool
present = false ∷ true ∷ false ∷ true ∷ []

abbrev missing : List ℕ
missing = 2 ∷ 4 ∷ []

abbrev prefix : List ℕ
prefix = 83 ∷ 82 ∷ []

abbrev waiting : StreamRepairRound
waiting = record {
  sequence = 7;
  last_missing = missing;
  first_missing_ms = 1_000;
  last_sent_ms = 0;
  alive_ids = [];
  alive_desired_count = 0;
  alive_sent_ms = 0;
  alive_sent = 0;
  last_seen_ms = 0;
}

abbrev back : StreamRepairRound
back = record waiting { last_missing = []; alive_ids = missing; alive_desired_count = 4 }

abbrev request : List ℕ
request = 83 ∷ 82 ∷ 0 ∷ 0 ∷ 0 ∷ 0 ∷ 0 ∷ 0 ∷ 0 ∷ 7 ∷ 0 ∷ 4 ∷ 2 ∷ 0 ∷ 2 ∷ 0 ∷ 4 ∷ []

parse-repair_payload_example :
    parse_stream_command request prefix
    ≡ some (record { sequence = 7; desired_count = 4; worker_ids = missing })
unfolding repair_payload observe_missing send_repair fill_missing missing_from
    stream_control_payload same_bytes to_be id_bytes
parse-repair_payload_example =
    parse-repair_payload prefix waiting 4 present 31_000 request (omega arith) (omega arith, refl)
      (λ e. cc) refl

two_requests :
    repairs prefix waiting missing 4 (2_000 ∷ 31_000 ∷ 40_000 ∷ 91_000 ∷ []) ≡ 31_000 ∷ 91_000 ∷ []
unfolding repairs repair_payload observe_missing send_repair same_bytes
two_requests = refl

repairs_rate_example :
    IsSpaced 31_000 (repairs prefix waiting missing 4 (2_000 ∷ 31_000 ∷ 40_000 ∷ 91_000 ∷ []))
repairs_rate_example =
    repairs_rate prefix waiting missing 4 (2_000 ∷ 31_000 ∷ 40_000 ∷ 91_000 ∷ []) refl refl

abbrev seen : ℕ → ℕ → Sighting
seen slot worker = record {
  slot = slot;
  session_id = 10 + slot;
  desired_stream_count = 4;
  worker_id = worker;
}
