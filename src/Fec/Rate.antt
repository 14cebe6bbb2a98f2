-- ===== src/Fec/Rate.antt =====
-- How many duplicates the budget of shared/selective_fec.rs lets through.
use csqtt_android.Shared.{
  ℕ, ◌+◌, ◌-◌, ◌*◌, ◌/◌, ◌≤◌, ◌<◌, ◌≡◌, true, false, List, [], ◌∷◌, All, arith, if◌then◌else◌,
}
use csqtt_android.Fec.{Budget, duplicate_burst, refill_interval, new, allow}

-- The calls at the times of a list, and how many of them are allowed.
unfoldable pub allowed : List ℕ → Budget → ℕ
allowed [] b = 0
allowed (now ∷ later) b =
    let (b', granted) = allow now b in (if granted then 1 else 0) + allowed later b'

-- `refills` intervals have been credited since `start`.
pub record Credited (start last : ℕ) (b : Budget) : Type 0 where
  pub capped : b.tokens ≤ duplicate_burst
  pub since : start ≤ b.updated
  pub past : b.updated ≤ last

-- A call credits whole intervals only, never beyond the time of the call, and never more tokens
-- than intervals.
pub allow-credits :
    (now start last : ℕ) (b : Budget)
    → Credited start last b
    → now ≤ last
    → Credited start last (allow now b).0
      × ((if (allow now b).1 then 1 else 0) * refill_interval
            + (allow now b).0.tokens * refill_interval
            + b.updated
          ≤ b.tokens * refill_interval + (allow now b).0.updated)
unfolding allow
allow-credits now start last b c h = ground arith

allowed-bound :
    (times : List ℕ) (start last : ℕ) (b : Budget)
    → Credited start last b
    → All (λ t. t ≤ last) times
    → allowed times b * refill_interval + b.updated ≤ b.tokens * refill_interval + last
unfolding allowed
allowed-bound [] start last b c h = omega (arith, c.past)
allowed-bound (now ∷ later) start last b c h =
    let (c', spent) = allow-credits now start last b c h.0 in
    omega (arith, spent, allowed-bound later start last (allow now b).0 c' h.1)

-- A budget made at `start` allows at most ten duplicates and one more for each whole refill
-- interval until `last`, whatever the times of the calls are (they need not be ordered).
pub allowed_at_rate :
    (times : List ℕ) (start last : ℕ)
    → start ≤ last
    → All (λ t. t ≤ last) times
    → allowed times (new start) ≤ duplicate_burst + (last - start) / refill_interval
allowed_at_rate times start last le h =
    omega (arith, allowed-bound times start last (new start) fresh h)
  where
    fresh : Credited start last (new start)
    fresh = omega arith

-- A call is refused exactly when no token is left and less than an interval has passed since the
-- last credited one, and it then leaves the budget as it is; a granted call leaves fewer than ten.
pub allow_refuses_iff :
    (now : ℕ) (b : Budget)
    → b.tokens ≤ duplicate_burst
    → ((allow now b).1 ≡ false → (b.tokens ≡ 0) × (now < b.updated + refill_interval))
      × (b.tokens ≡ 0 → now < b.updated + refill_interval → allow now b ≡ (b, false))
      × ((allow now b).1 ≡ true → (allow now b).0.tokens < duplicate_burst)
unfolding allow
allow_refuses_iff now b h =
    (λ refused. (ground arith, ground arith), λ empty early. ground arith, λ granted. ground arith)
