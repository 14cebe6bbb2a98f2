-- ===== src/Control/Server.antt =====
-- The repair rounds of rust-server/protocol.rs: the workers that a client should have and does not,
-- and when they are asked for. A `now_ms` is a number of milliseconds; `-` stops at 0, as
-- `saturating_sub` does.
use csqtt_android.Shared.{
  ℕ, zero, suc, ◌+◌, ◌-◌, ◌%◌, Bool, true, false, not, ◌||◌, ◌&&◌, List, [], ◌∷◌, ◌++◌, Option,
  none, some, ltb, leb, ◌==◌, if◌then◌else◌, length, take, get_or, to_be, word_mod, min, max,
  same_bytes,
}
use csqtt_android.Control.Client.{max_stream_workers}

-- `worker_ids.iter()` as big-endian pairs
unfoldable pub id_bytes : List ℕ → List ℕ
id_bytes [] = []
id_bytes (id ∷ ids) = to_be 2 id ++ id_bytes ids

unfoldable pub stream_control_payload : List ℕ → ℕ → ℕ → List ℕ → List ℕ
stream_control_payload prefix sequence desired_count worker_ids =
    let count = min (length worker_ids) 255 in
    prefix
    ++ (to_be 8 sequence ++ (to_be 2 desired_count ++ (count ∷ id_bytes (take count worker_ids))))

-- `StreamInventory::fill_missing`: the workers `worker`, …, of which `left` are still to be looked at.
unfoldable pub missing_from : List Bool → ℕ → ℕ → List ℕ
missing_from present zero worker = []
missing_from present (suc left) worker =
    let rest = missing_from present left (worker + 1) in
    if get_or present worker false then rest else worker ∷ rest

unfoldable pub fill_missing : ℕ → List Bool → List ℕ
fill_missing desired_count present = missing_from present (min desired_count max_stream_workers) 1

pub record StreamRepairRound : Type 0 where
  pub sequence : ℕ
  pub last_missing : List ℕ
  pub first_missing_ms : ℕ
  pub last_sent_ms : ℕ
  pub alive_ids : List ℕ
  pub alive_desired_count : ℕ
  pub alive_sent_ms : ℕ
  pub alive_sent : ℕ
  pub last_seen_ms : ℕ

abbrev pub repair_grace_ms : ℕ
repair_grace_ms = 30_000

abbrev pub repair_escalate_ms : ℕ
repair_escalate_ms = 60_000

abbrev pub alive_interval_ms : ℕ
alive_interval_ms = 10_000

abbrev pub alive_repeat : ℕ
alive_repeat = 2

-- `wrapping_add(1).max(1)`
abbrev pub next_sequence : ℕ → ℕ
next_sequence sequence = max ((sequence + 1) % word_mod) 1

-- A new set of missing workers starts a new round.
unfoldable pub observe_missing : StreamRepairRound → List ℕ → ℕ → StreamRepairRound
observe_missing r missing now_ms = if same_bytes missing r.last_missing then r else record r {
  sequence = next_sequence r.sequence;
  last_missing = missing;
  first_missing_ms = now_ms;
  last_sent_ms = 0;
  alive_ids = [];
  alive_sent = 0;
}

-- The rest of `repair_payload`, on the round as observed.
unfoldable pub send_repair :
    List ℕ → StreamRepairRound → ℕ → ℕ → StreamRepairRound × Option (List ℕ)
send_repair prefix r desired_count now_ms =
    let sequence = if r.last_sent_ms == 0 then r.sequence else next_sequence r.sequence in
    if ltb (now_ms - r.first_missing_ms) repair_grace_ms
    then (r, none)
    else if not (r.last_sent_ms == 0) && ltb (now_ms - r.last_sent_ms) repair_escalate_ms
    then (r, none)
    else (
      record r { sequence = sequence; last_sent_ms = now_ms },
      some (stream_control_payload prefix sequence desired_count r.last_missing),
    )

unfoldable pub repair_payload :
    List ℕ → StreamRepairRound → List ℕ → ℕ → ℕ → StreamRepairRound × Option (List ℕ)
unfolding observe_missing send_repair
repair_payload prefix r missing desired_count now_ms =
    send_repair prefix (observe_missing r missing now_ms) desired_count now_ms

abbrev pub no_ids : List ℕ → Bool
no_ids [] = true
no_ids (id ∷ ids) = false

unfoldable pub recovered : StreamRepairRound → ℕ → ℕ → StreamRepairRound
recovered r desired_count now_ms = if no_ids r.last_missing then r else record r {
  alive_ids = r.last_missing;
  last_missing = [];
  alive_desired_count = desired_count;
  alive_sent_ms = 0;
  alive_sent = 0;
  first_missing_ms = now_ms;
  last_sent_ms = 0;
}

unfoldable pub alive_payload : List ℕ → StreamRepairRound → ℕ → StreamRepairRound × Option (List ℕ)
alive_payload prefix r now_ms =
    if no_ids r.alive_ids
      || (leb alive_repeat r.alive_sent
          || (not (r.alive_sent_ms == 0) && ltb (now_ms - r.alive_sent_ms) alive_interval_ms))
    then (r, none)
    else (
      record r { alive_sent = min (r.alive_sent + 1) 255; alive_sent_ms = now_ms },
      some (stream_control_payload prefix r.sequence r.alive_desired_count r.alive_ids),
    )

unfoldable pub active : StreamRepairRound → Bool
active r =
    not (no_ids r.last_missing) || (not (no_ids r.alive_ids) && ltb r.alive_sent alive_repeat)
