-- ===== src/Supervisor/Delays.antt =====
-- The delays double up to their limit and never vanish (rust-server/udp_supervisor.rs).
use csqtt_android.Shared.{
  ℕ, zero, suc, ◌*◌, ◌^◌, ◌≤◌, ◌<◌, ◌≡◌, ap, subst, ◌∙◌, List, [], ◌∷◌, arith, min, max, All, some,
  get_elem?,
}
use native.Mathlib.Nat.{pow-suc, mul_assoc}
use csqtt_android.Supervisor.{RestartPolicy, bounded_delay, next_delay, delay_after, run, supervise}

run-bounds :
    (policy : RestartPolicy) (delay : ℕ) (attempts : List ℕ)
    → (1 ≤ delay) × (delay ≤ max policy.max_delay 1)
    → All (λ d. (1 ≤ d) × (d ≤ max policy.max_delay 1)) (run policy delay attempts)
unfolding run delay_after bounded_delay next_delay
run-bounds policy delay [] b = tt
run-bounds policy delay (elapsed ∷ attempts) b = (
  now,
  run-bounds policy (next_delay policy (delay_after policy delay elapsed)) attempts (ground arith),
)
  where
    now :
        (1 ≤ delay_after policy delay elapsed)
        × (delay_after policy delay elapsed ≤ max policy.max_delay 1)
    now = ground (arith, b)

-- Whatever the policy is and however long the attempts run, each is followed by a delay of at least
-- a millisecond, so that there is no hot loop, and of at most the limit, or a millisecond if the
-- limit is 0.
pub supervise-bounds :
    (policy : RestartPolicy) (attempts : List ℕ)
    → All (λ d. (1 ≤ d) × (d ≤ max policy.max_delay 1)) (supervise policy attempts)
unfolding supervise bounded_delay
supervise-bounds policy attempts = run-bounds policy _ attempts (omega arith)

run-doubles :
    (policy : RestartPolicy) (i delay : ℕ) (attempts : List ℕ) (d : ℕ)
    → 1 ≤ delay
    → All (λ elapsed. elapsed < policy.reset_after) attempts
    → get_elem? (run policy (min delay (max policy.max_delay 1)) attempts) i ≡ some d
    → d ≡ min (delay * 2 ^ i) (max policy.max_delay 1)
unfolding run delay_after next_delay bounded_delay
run-doubles policy i delay [] d p short h = cc
run-doubles policy zero delay (elapsed ∷ attempts) d p short h = ground (arith, h, short.0)
run-doubles policy (suc i) delay (elapsed ∷ attempts) d p short h =
    run-doubles policy i (delay * 2) attempts d (omega arith) short.1
      (subst (λ k. get_elem? (run policy k attempts) i ≡ some d) step h)
    ∙ ap (λ k. min k (max policy.max_delay 1)) doubled
  where
    step :
        next_delay policy (delay_after policy (min delay (max policy.max_delay 1)) elapsed)
        ≡ min (delay * 2) (max policy.max_delay 1)
    step = ground (arith, short.0)

    doubled : delay * 2 * 2 ^ i ≡ delay * 2 ^ suc i
    doubled =
        mul_assoc delay 2 (2 ^ i)
        ∙ ap (λ k. delay * k) (let e : 2 * 2 ^ i ≡ 2 ^ suc i = omega (arith, pow-suc 2 i) in e)

-- While every attempt fails before `reset_after`, the delay after the i-th of them, counted from 0,
-- is the initial delay times 2 ^ i, up to the limit, if the initial delay is not 0.
pub supervise-doubles :
    (policy : RestartPolicy) (i : ℕ) (attempts : List ℕ) (d : ℕ)
    → 1 ≤ policy.initial_delay
    → All (λ elapsed. elapsed < policy.reset_after) attempts
    → get_elem? (supervise policy attempts) i ≡ some d
    → d ≡ min (policy.initial_delay * 2 ^ i) (max policy.max_delay 1)
unfolding supervise bounded_delay
supervise-doubles policy i attempts d p short h =
    run-doubles policy i policy.initial_delay attempts d p short
      (subst (λ k. get_elem? (run policy k attempts) i ≡ some d) (omega arith) h)
