-- ===== src/Control/Client.antt =====
-- `parse_stream_command` of rust-client/protocol.rs.
use csqtt_android.Shared.{
  ℕ, ◌+◌, ◌*◌, not, ◌||◌, List, [], ◌∷◌, Option, none, some, ltb, ◌==◌, if◌then◌else◌, length, take,
  drop, byte_at, from_be, strip_prefix,
}

abbrev pub max_stream_workers : ℕ
max_stream_workers = 126

pub record StreamRepairCommand : Type 0 where
  pub sequence : ℕ
  pub desired_count : ℕ
  pub worker_ids : List ℕ

abbrev pub prepend : ℕ → Option (List ℕ) → Option (List ℕ)
prepend id none = none
prepend id (some ids) = some (id ∷ ids)

-- The loop over `chunks_exact(2)`, which leaves an odd byte at the end unread.
unfoldable pub parse_ids : ℕ → List ℕ → Option (List ℕ)
parse_ids desired [] = some []
parse_ids desired (a ∷ []) = some []
parse_ids desired (a ∷ b ∷ bytes) =
    if a * 256 + b == 0 || ltb desired (a * 256 + b)
    then none
    else prepend (a * 256 + b) (parse_ids desired bytes)

abbrev pub command : ℕ → ℕ → Option (List ℕ) → Option StreamRepairCommand
command sequence desired none = none
command sequence desired (some []) = none
command sequence desired (some (id ∷ ids)) =
    some (record { sequence = sequence; desired_count = desired; worker_ids = id ∷ ids })

unfoldable pub parse_body : ℕ → ℕ → ℕ → List ℕ → Option StreamRepairCommand
parse_body sequence desired count ids =
    if sequence == 0
      || (desired == 0 || (ltb max_stream_workers desired || not (length ids == count * 2)))
    then none
    else command sequence desired (parse_ids desired ids)

unfoldable pub parse_rest : List ℕ → Option StreamRepairCommand
parse_rest rest =
    if ltb (length rest) 11
    then none
    else parse_body (from_be (take 8 rest)) (from_be (take 2 (drop 8 rest))) (byte_at rest 10)
        (drop 11 rest)

unfoldable pub parse_stream_command : List ℕ → List ℕ → Option StreamRepairCommand
parse_stream_command payload prefix = elim (strip_prefix prefix payload) [
  | none ↦ none
  | some rest ↦ parse_rest rest
]
