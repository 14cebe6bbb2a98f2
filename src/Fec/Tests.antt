-- ===== src/Fec/Tests.antt =====
-- shared/selective_fec.rs at concrete inputs.
use csqtt_android.Shared.{
  ascii, ℕ, ◌+◌, ◌-◌, ◌/◌, ◌≤◌, ◌≡◌, refl, true, false, List, [], ◌∷◌, ◌++◌, arith, replicate,
  starts_with, same_bytes,
}
use csqtt_android.Fec.{
  Budget, new, allow, should_duplicate, is_control, is_proxy_frame, ipv4_transport,
  classify_transport,
}
use csqtt_android.Fec.Rate.{allowed, allowed_at_rate}

abbrev burst : List ℕ
burst = replicate 12 1000

budget_limits_burst : allowed burst (new 1000) ≡ 10
unfolding allowed allow
budget_limits_burst = refl

allowed_at_rate_example : allowed burst (new 1000) ≤ 10 + (41_000_000 - 1000) / 20_000_000
allowed_at_rate_example = allowed_at_rate burst 1000 41_000_000 (omega arith) (omega arith)

abbrev spent : Budget
spent = record { tokens = 0; updated = 1000 }

-- A UDP datagram of 8 bytes from port 53, and a SYN.
samples :
    (should_duplicate ((0x45 ∷ replicate 8 0) ++ (17 ∷ replicate 10 0) ++ (0 ∷ 53 ∷ replicate 6 0))
      ≡ true)
    × (should_duplicate (ascii "READY") ≡ true)
    × (should_duplicate
          ((0x45 ∷ replicate 8 0) ++ (6 ∷ replicate 10 0) ++ (replicate 13 0 ++ (0x10 ∷ [])))
        ≡ false)
unfolding should_duplicate is_control is_proxy_frame starts_with same_bytes ipv4_transport
    classify_transport
samples = (refl, refl, refl)

abbrev ipv6_rest : List ℕ
ipv6_rest = replicate 5 0 ++ (17 ∷ replicate 41 0)
