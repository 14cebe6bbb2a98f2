-- ===== src/Control/Rounds.antt =====
-- When the server asks for missing workers, and for which (rust-server/protocol.rs).
use csqtt_android.Shared.{
  ℕ, zero, suc, ◌+◌, ◌≤◌, ◌<◌, ◌≡◌, refl, ap, ◌∙◌, Bool, true, false, not, List, [], ◌∷◌, some,
  arith, length, get_or, min, word_mod, ltb, leb, ◌==◌, if◌then◌else◌, ◌↔◌, ◌≢◌, same_bytes,
}
use csqtt_android.Control.Client.{max_stream_workers, parse_stream_command}
use csqtt_android.Control.Server.{
  missing_from, fill_missing, StreamRepairRound, observe_missing, send_repair, repair_payload,
  stream_control_payload, no_ids,
}
use csqtt_android.Control.Wire.{AreWorkers, parse-stream_control_payload}

abbrev pub names : ℕ → List ℕ → Bool
names w [] = false
names w (x ∷ xs) = if x == w then true else names w xs

names-missing_from :
    (present : List Bool) (left worker w : ℕ)
    → names w (missing_from present left worker) ≡ (
        if leb worker w
        then if ltb w (worker + left) then not (get_or present w false) else false
        else false)
unfolding missing_from
names-missing_from present zero worker w = ground arith
names-missing_from present (suc left) worker w =
    ground (arith, names-missing_from present left (worker + 1) w)

-- The workers that a round asks for are those that the inventory lacks, from 1 up to the number
-- of workers that the client should have, or to 126 if it should have more.
pub names-fill_missing :
    (desired : ℕ) (present : List Bool) (w : ℕ)
    → (names w (fill_missing desired present) ≡ true)
      ↔ ((1 ≤ w) × (w ≤ desired) × (w ≤ max_stream_workers) × (get_or present w false ≡ false))
unfolding fill_missing
names-fill_missing desired present w = (
  (λ h. ground (arith, h, names-missing_from present (min desired max_stream_workers) 1 w)),
  λ h. ground (arith, h, names-missing_from present (min desired max_stream_workers) 1 w),
)

missing_from_range :
    (present : List Bool) (left worker n : ℕ)
    → 0 < worker
    → worker + left ≤ suc n
    → AreWorkers n (missing_from present left worker)
unfolding missing_from
missing_from_range present zero worker n p h = tt
missing_from_range present (suc left) worker n p h =
    one (get_or present worker false)
      (missing_from_range present left (worker + 1) n (omega arith) (omega arith))
  where
    one :
        (b : Bool)
        → AreWorkers n (missing_from present left (worker + 1))
        → AreWorkers n (
            if b
            then missing_from present left (worker + 1)
            else worker ∷ missing_from present left (worker + 1))
    one true rest = rest
    one false rest = ((omega arith, omega arith), rest)

length-missing_from :
    (present : List Bool) (left worker : ℕ) → length (missing_from present left worker) ≤ left
unfolding missing_from
length-missing_from present zero worker = omega arith
length-missing_from present (suc left) worker =
    ground (arith, length-missing_from present left (worker + 1))

AreWorkers-fill_missing :
    (desired : ℕ) (present : List Bool) → AreWorkers desired (fill_missing desired present)
unfolding fill_missing
AreWorkers-fill_missing desired present =
    missing_from_range present (min desired max_stream_workers) 1 desired (omega arith)
      (omega arith)

length-fill_missing :
    (desired : ℕ) (present : List Bool) → length (fill_missing desired present) ≤ max_stream_workers
unfolding fill_missing
length-fill_missing desired present =
    omega (arith, length-missing_from present (min desired max_stream_workers) 1)

same_bytes_sound : (xs ys : List ℕ) → same_bytes xs ys ≡ true → xs ≡ ys
unfolding same_bytes
same_bytes_sound [] [] h = refl
same_bytes_sound [] (y ∷ ys) h = cc
same_bytes_sound (x ∷ xs) [] h = cc
same_bytes_sound (x ∷ xs) (y ∷ ys) h = ground (arith, h, same_bytes_sound xs ys)

last_missing-observe :
    (r : StreamRepairRound) (missing : List ℕ) (now_ms : ℕ)
    → (observe_missing r missing now_ms).last_missing ≡ missing
unfolding observe_missing
last_missing-observe r missing now_ms = ground (arith, same_bytes_sound missing r.last_missing)

-- A round that has a worker to ask for has a sequence: the sequences start at 1.
abbrev pub IsRound : StreamRepairRound → Type 0
IsRound r =
    (r.sequence < word_mod) × ((if no_ids r.last_missing then true else ltb 0 r.sequence) ≡ true)

same_bytes-nil : (xs ys : List ℕ) → same_bytes xs ys ≡ true → no_ids xs ≡ no_ids ys
unfolding same_bytes
same_bytes-nil [] [] h = refl
same_bytes-nil [] (y ∷ ys) h = cc
same_bytes-nil (x ∷ xs) [] h = cc
same_bytes-nil (x ∷ xs) (y ∷ ys) h = refl

no_ids_iff : (xs : List ℕ) → xs ≢ [] → no_ids xs ≡ false
no_ids_iff [] h = absurd (h refl)
no_ids_iff (x ∷ xs) h = refl

sequence-observe :
    (r : StreamRepairRound) (missing : List ℕ) (now_ms : ℕ)
    → IsRound r
    → no_ids missing ≡ false
    → (0 < (observe_missing r missing now_ms).sequence)
      × ((observe_missing r missing now_ms).sequence < word_mod)
unfolding observe_missing
sequence-observe r missing now_ms i h = ground (arith, h, i, same_bytes-nil missing r.last_missing)

-- What `send_repair` sends is written with the sequence that it leaves.
sent :
    (prefix : List ℕ) (r : StreamRepairRound) (desired now_ms : ℕ) (payload : List ℕ)
    → 0 < r.sequence
    → r.sequence < word_mod
    → (send_repair prefix r desired now_ms).1 ≡ some payload
    → let s = (send_repair prefix r desired now_ms).0.sequence in
      (payload ≡ stream_control_payload prefix s desired r.last_missing) × (0 < s) × (s < word_mod)
unfolding send_repair
sent prefix r desired now_ms payload p l h = ground (arith, h)

-- The client that reads a request of the server, for the workers that its inventory of the client
-- lacks, gets the sequence of the round, the number of workers and exactly those workers, if there
-- are such workers, the number is at most 126 and the round has a sequence.
pub parse-repair_payload :
    (prefix : List ℕ) (r : StreamRepairRound) (desired : ℕ) (present : List Bool) (now_ms : ℕ)
    (payload : List ℕ)
    → desired ≤ max_stream_workers
    → IsRound r
    → fill_missing desired present ≢ []
    → let next = repair_payload prefix r (fill_missing desired present) desired now_ms in
      next.1 ≡ some payload
      → parse_stream_command payload prefix
        ≡ some (record {
          sequence = next.0.sequence;
          desired_count = desired;
          worker_ids = fill_missing desired present;
        })
unfolding repair_payload
parse-repair_payload prefix r desired present now_ms payload dl i some_ids h =
    ap (λ (p : List ℕ). parse_stream_command p prefix) written
    ∙ parse-stream_control_payload prefix _ desired missing s.1 s.2 positive dl some_ids
        (omega (arith, length-fill_missing desired present))
        (AreWorkers-fill_missing desired present)
  where
    missing : List ℕ
    missing = fill_missing desired present

    seen :
        (0 < (observe_missing r missing now_ms).sequence)
        × ((observe_missing r missing now_ms).sequence < word_mod)
    seen = sequence-observe r missing now_ms i (no_ids_iff missing some_ids)

    s :
        let o = observe_missing r missing now_ms in
        let n = (send_repair prefix o desired now_ms).0.sequence in
        (payload ≡ stream_control_payload prefix n desired o.last_missing)
        × (0 < n)
        × (n < word_mod)
    s = sent prefix (observe_missing r missing now_ms) desired now_ms payload seen.0 seen.1 h

    written :
        payload
        ≡ stream_control_payload prefix
            (send_repair prefix (observe_missing r missing now_ms) desired now_ms).0.sequence
            desired
            missing
    written =
        s.0 ∙ ap (stream_control_payload prefix _ desired) (last_missing-observe r missing now_ms)

    some_worker : (ids : List ℕ) → ids ≢ [] → AreWorkers desired ids → 0 < desired
    some_worker [] n w = absurd (n refl)
    some_worker (id ∷ ids) n w = omega (arith, w.0)

    positive : 0 < desired
    positive = some_worker missing some_ids (AreWorkers-fill_missing desired present)
