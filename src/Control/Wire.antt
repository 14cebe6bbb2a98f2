-- ===== src/Control/Wire.antt =====
-- The client reads what the server wrote (`stream_control_payload`, `parse_stream_command`).
use csqtt_android.Shared.{
  ℕ, ◌+◌, ◌*◌, ◌≤◌, ◌<◌, ◌≡◌, refl, ap, ◌∙◌, List, [], ◌∷◌, ◌++◌, some, arith, length, All, take,
  drop, to_be, from_be-to_be, length-to_be, strip_prefix-append, take_append, drop_append,
  drop-drop, get_or-drop, word_mod, min, length-append, ◌≢◌,
}
use csqtt_android.Control.Client.{
  max_stream_workers, parse_ids, parse_body, parse_rest, parse_stream_command,
}
use csqtt_android.Control.Server.{id_bytes, stream_control_payload}

-- The numbers of the workers that a command may name.
abbrev pub AreWorkers : ℕ → List ℕ → Type 0
AreWorkers desired = All (λ id. (0 < id) × (id ≤ desired))

length-id_bytes : (ids : List ℕ) → length (id_bytes ids) ≡ length ids * 2
unfolding id_bytes
length-id_bytes [] = refl
length-id_bytes (id ∷ ids) =
    omega (arith, length-append (to_be 2 id) (id_bytes ids), length-to_be 2 id, length-id_bytes ids)

parse_ids-id_bytes :
    (desired : ℕ) (ids : List ℕ)
    → desired ≤ max_stream_workers
    → AreWorkers desired ids
    → parse_ids desired (id_bytes ids) ≡ some ids
unfolding parse_ids id_bytes to_be
parse_ids-id_bytes desired [] h w = refl
parse_ids-id_bytes desired (id ∷ ids) h w = ground (arith, parse_ids-id_bytes desired ids h w.1)

take_all : (n : ℕ) (ids : List ℕ) → length ids ≤ n → take (min (length ids) n) ids ≡ ids
take_all n ids h = ap (λ (k : ℕ). take k ids) (omega arith) ∙ whole ids
  where
    whole : (xs : List ℕ) → take (length xs) xs ≡ xs
    whole [] = refl
    whole (x ∷ xs) = ap (◌∷◌ x) (whole xs)

-- The fields of the payload behind its prefix.
abbrev fields : ℕ → ℕ → ℕ → List ℕ → List ℕ
fields sequence desired count ids = to_be 8 sequence ++ (to_be 2 desired ++ (count ∷ ids))

behind_sequence :
    (sequence desired count : ℕ) (ids : List ℕ)
    → drop 8 (fields sequence desired count ids) ≡ to_be 2 desired ++ (count ∷ ids)
behind_sequence sequence desired count ids =
    drop_append 8 (to_be 8 sequence) _ (length-to_be 8 sequence)

behind_desired :
    (sequence desired count : ℕ) (ids : List ℕ)
    → drop 10 (fields sequence desired count ids) ≡ count ∷ ids
behind_desired sequence desired count ids =
    drop-drop 8 2 (fields sequence desired count ids)
    ∙ ap (drop 2) (behind_sequence sequence desired count ids)
    ∙ drop_append 2 (to_be 2 desired) _ (length-to_be 2 desired)

length-fields :
    (sequence desired count : ℕ) (ids : List ℕ)
    → length (fields sequence desired count ids) ≡ 11 + length ids
length-fields sequence desired count ids = omega (
  arith,
  length-append (to_be 8 sequence) (to_be 2 desired ++ (count ∷ ids)),
  length-append (to_be 2 desired) (count ∷ ids),
  length-to_be 8 sequence,
  length-to_be 2 desired,
)

parse_rest-fields :
    (sequence desired count : ℕ) (ids : List ℕ)
    → sequence < word_mod
    → desired ≤ max_stream_workers
    → parse_rest (fields sequence desired count ids) ≡ parse_body sequence desired count ids
unfolding parse_rest
parse_rest-fields sequence desired count ids sl dl = ground (
  arith,
  length-fields sequence desired count ids,
  take_append 8 (to_be 8 sequence) (to_be 2 desired ++ (count ∷ ids)) (length-to_be 8 sequence),
  from_be-to_be 8 sequence (omega arith),
  behind_sequence sequence desired count ids,
  take_append 2 (to_be 2 desired) (count ∷ ids) (length-to_be 2 desired),
  from_be-to_be 2 desired (omega arith),
  get_or-drop 10 (fields sequence desired count ids) 0,
  behind_desired sequence desired count ids,
  drop-drop 10 1 (fields sequence desired count ids),
)

parse_body-id_bytes :
    (sequence desired : ℕ) (ids : List ℕ)
    → 0 < sequence
    → 0 < desired
    → desired ≤ max_stream_workers
    → ids ≢ []
    → AreWorkers desired ids
    → parse_body sequence desired (length ids) (id_bytes ids)
      ≡ some (record { sequence = sequence; desired_count = desired; worker_ids = ids })
unfolding parse_body
parse_body-id_bytes sequence desired [] sp dp dl some_ids w = absurd (some_ids refl)
parse_body-id_bytes sequence desired (id ∷ ids) sp dp dl some_ids w =
    ground (arith, length-id_bytes (id ∷ ids), parse_ids-id_bytes desired (id ∷ ids) dl w)

behind_prefix :
    (prefix rest : List ℕ) → parse_stream_command (prefix ++ rest) prefix ≡ parse_rest rest
unfolding parse_stream_command
behind_prefix prefix rest = rw (strip_prefix-append prefix rest, parse_stream_command) refl

-- A payload that names some workers of a client comes back as its sequence, its worker count and
-- its workers.
pub parse-stream_control_payload :
    (prefix : List ℕ) (sequence desired : ℕ) (ids : List ℕ)
    → 0 < sequence
    → sequence < word_mod
    → 0 < desired
    → desired ≤ max_stream_workers
    → ids ≢ []
    → length ids ≤ 255
    → AreWorkers desired ids
    → parse_stream_command (stream_control_payload prefix sequence desired ids) prefix
      ≡ some (record { sequence = sequence; desired_count = desired; worker_ids = ids })
unfolding parse_stream_command stream_control_payload
parse-stream_control_payload prefix sequence desired ids sp sl dp dl some_ids few w =
    ap
      (λ (x : List ℕ).
        parse_stream_command (prefix ++ fields sequence desired count (id_bytes x)) prefix)
      (take_all 255 ids few)
    ∙ behind_prefix prefix (fields sequence desired count (id_bytes ids))
    ∙ parse_rest-fields sequence desired count (id_bytes ids) sl dl
    ∙ ap (λ (k : ℕ). parse_body sequence desired k (id_bytes ids))
        (let e : count ≡ length ids = omega arith in e)
    ∙ parse_body-id_bytes sequence desired ids sp dp dl some_ids w
  where
    count : ℕ
    count = min (length ids) 255
