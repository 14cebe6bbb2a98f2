-- ===== src/Control/Timing.antt =====
-- How often the server asks for the same workers, and says that they are back
-- (rust-server/protocol.rs).
use csqtt_android.Shared.{
  ℕ, ◌+◌, ◌≤◌, ◌≡◌, refl, ◌∙◌, true, List, [], ◌∷◌, Option, none, some, arith, subst, if◌then◌else◌,
  ◌==◌, ◌↔◌, same_bytes, ==_refl, ◌⊎◌, inl, inr,
}
use csqtt_android.Control.Server.{
  StreamRepairRound, repair_grace_ms, repair_escalate_ms, observe_missing, send_repair,
  repair_payload, alive_payload, alive_repeat,
}

-- 1 for a payload that was sent.
abbrev pub sent_one : Option (List ℕ) → ℕ
sent_one none = 0
sent_one (some payload) = 1

-- A time is one of the list when a payload was sent.
abbrev pub add : ℕ → Option (List ℕ) → List ℕ → List ℕ
add now_ms none times = times
add now_ms (some payload) times = now_ms ∷ times

-- The times of the repair requests of a run of calls at the times of a list.
unfoldable pub repairs : List ℕ → StreamRepairRound → List ℕ → ℕ → List ℕ → List ℕ
repairs prefix r missing desired [] = []
repairs prefix r missing desired (now_ms ∷ times) =
    let (next, payload) = repair_payload prefix r missing desired now_ms in
    add now_ms payload (repairs prefix next missing desired times)

unfoldable pub alives : List ℕ → StreamRepairRound → List ℕ → ℕ
alives prefix r [] = 0
alives prefix r (now_ms ∷ times) =
    sent_one (alive_payload prefix r now_ms).1
    + alives prefix (alive_payload prefix r now_ms).0 times

alive_step :
    (prefix : List ℕ) (r : StreamRepairRound) (now_ms : ℕ)
    → r.alive_sent ≤ alive_repeat
    → (sent_one (alive_payload prefix r now_ms).1 + r.alive_sent
        ≡ (alive_payload prefix r now_ms).0.alive_sent)
      × ((alive_payload prefix r now_ms).0.alive_sent ≤ alive_repeat)
unfolding alive_payload
alive_step prefix r now_ms h = ground arith

-- However often it is called, and at whatever times, a round says at most twice in all that its
-- workers are back.
pub alives_at_most_twice :
    (prefix : List ℕ) (r : StreamRepairRound) (times : List ℕ)
    → r.alive_sent ≤ alive_repeat
    → alives prefix r times + r.alive_sent ≤ alive_repeat
unfolding alives
alives_at_most_twice prefix r [] h = omega arith
alives_at_most_twice prefix r (now_ms ∷ times) h = omega (
  arith,
  alive_step prefix r now_ms h,
  alives_at_most_twice prefix (alive_payload prefix r now_ms).0 times,
)

same_bytes_refl : (xs : List ℕ) → same_bytes xs xs ≡ true
unfolding same_bytes
same_bytes_refl [] = refl
same_bytes_refl (x ∷ xs) = rw (==_refl x) (same_bytes_refl xs)

-- One call for the workers that the round already asks for: nothing, or a request, at least a
-- minute after the one before.
abbrev Silent : StreamRepairRound → StreamRepairRound × Option (List ℕ) → Type 0
Silent r next =
    (sent_one next.1 ≡ 0)
    × (next.0.last_missing ≡ r.last_missing)
    × (next.0.first_missing_ms ≡ r.first_missing_ms)
    × (next.0.last_sent_ms ≡ r.last_sent_ms)

abbrev Asks : StreamRepairRound → ℕ → StreamRepairRound × Option (List ℕ) → Type 0
Asks r now_ms next =
    (sent_one next.1 ≡ 1)
    × (next.0.last_missing ≡ r.last_missing)
    × (next.0.first_missing_ms ≡ r.first_missing_ms)
    × (next.0.last_sent_ms ≡ now_ms)
    × (r.first_missing_ms + repair_grace_ms ≤ now_ms)
    × ((r.last_sent_ms ≡ 0) ⊎ (r.last_sent_ms + repair_escalate_ms ≤ now_ms))

repair_step :
    (prefix : List ℕ) (r : StreamRepairRound) (missing : List ℕ) (desired now_ms : ℕ)
    → r.last_missing ≡ missing
    → let next = repair_payload prefix r missing desired now_ms in
      Silent r next ⊎ Asks r now_ms next
unfolding repair_payload observe_missing send_repair
repair_step prefix r missing desired now_ms e = ground (arith, e, same_bytes_refl missing)

-- The first time is `earliest` at the earliest, and each other a minute after the one before it.
unfoldable pub IsSpaced : ℕ → List ℕ → Type 0
IsSpaced earliest [] = earliest ≤ earliest
IsSpaced earliest (now_ms ∷ times) = (earliest ≤ now_ms) × IsSpaced (now_ms + 60_000) times

-- The earliest time of the next request.
abbrev earliest : StreamRepairRound → ℕ
earliest r =
    if r.last_sent_ms == 0
    then r.first_missing_ms + repair_grace_ms
    else r.last_sent_ms + repair_escalate_ms

add-IsSpaced :
    (now_ms bound next : ℕ) (o : Option (List ℕ)) (times : List ℕ)
    → IsSpaced next times
    → ((sent_one o ≡ 0) × (next ≡ bound))
      ⊎ ((sent_one o ≡ 1) × (bound ≤ now_ms) × (next ≡ now_ms + 60_000))
    → IsSpaced bound (add now_ms o times)
unfolding IsSpaced
add-IsSpaced now_ms bound next none times h (inl (e, same)) = subst (λ x. IsSpaced x times) same h
add-IsSpaced now_ms bound next none times h (inr (e, late, same)) = absurd (omega arith)
add-IsSpaced now_ms bound next (some payload) times h (inl (e, same)) = absurd (omega arith)
add-IsSpaced now_ms bound next (some payload) times h (inr (e, late, same)) =
    (late, subst (λ x. IsSpaced x times) same h)

repairs-IsSpaced :
    (prefix : List ℕ) (r : StreamRepairRound) (missing : List ℕ) (desired : ℕ) (times : List ℕ)
    → r.last_missing ≡ missing
    → IsSpaced (earliest r) (repairs prefix r missing desired times)
unfolding repairs IsSpaced
repairs-IsSpaced prefix r missing desired [] e = omega arith
repairs-IsSpaced prefix r missing desired (now_ms ∷ times) e =
    let step = repair_step prefix r missing desired now_ms e in
    let next = (repair_payload prefix r missing desired now_ms).0 in
    let kept : next.last_missing ≡ r.last_missing = elim step [
      | inl (none_sent, kept, first, last) ↦ kept
      | inr (one, kept, first, last, grace, since) ↦ kept
    ] in
    add-IsSpaced now_ms (earliest r) (earliest next) _ _
      (repairs-IsSpaced prefix next missing desired times (kept ∙ e)) (ground (arith, step))

-- While the same workers are missing, the first request comes no sooner than 30 seconds after they
-- were first missed, and each further one no sooner than a minute after the one before, whatever the
-- times of the calls. The round has not asked for them before.
pub repairs_rate :
    (prefix : List ℕ) (r : StreamRepairRound) (missing : List ℕ) (desired : ℕ) (times : List ℕ)
    → r.last_missing ≡ missing
    → r.last_sent_ms ≡ 0
    → IsSpaced (r.first_missing_ms + 30_000) (repairs prefix r missing desired times)
repairs_rate prefix r missing desired times e z =
    subst (λ x. IsSpaced x (repairs prefix r missing desired times)) (ground (arith, z))
      (repairs-IsSpaced prefix r missing desired times e)

-- A call for the workers that a round already asks for sends exactly when the grace period has
-- passed since they were first missed and a minute since the last request, if there was one.
pub repair_due :
    (prefix : List ℕ) (r : StreamRepairRound) (desired now_ms : ℕ)
    → (sent_one (repair_payload prefix r r.last_missing desired now_ms).1 ≡ 1) ↔ (
        (r.first_missing_ms + repair_grace_ms ≤ now_ms)
        × ((r.last_sent_ms ≡ 0) ⊎ (r.last_sent_ms + repair_escalate_ms ≤ now_ms)))
unfolding repair_payload observe_missing send_repair
repair_due prefix r desired now_ms = (
  (λ h. ground (arith, h, same_bytes_refl r.last_missing)),
  λ h. ground (arith, h, same_bytes_refl r.last_missing),
)
