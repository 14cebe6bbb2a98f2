-- ===== src/Worker/Gate.antt =====
-- `RecoveryLogGate` of rust-client/worker.rs: repeated failures are counted, and reported as one line
-- every ten seconds at most. No other call comes between, so that `compare_exchange` meets the value
-- just loaded.
use csqtt_android.Shared.{
  ℕ, suc, ◌+◌, ◌-◌, ◌%◌, ◌≤◌, ◌<◌, ◌≡◌, refl, sym, subst, ◌⊎◌, inl, inr, Bool-cases, min, max, not,
  ◌&&◌, Option, none, some, List, [], ◌∷◌, ltb, ◌==◌, if◌then◌else◌, word_mod, arith, length,
}

abbrev pub recovery_log_interval_ms : ℕ
recovery_log_interval_ms = 10_000

pub record RecoveryLogGate : Type 0 where
  pub pending : ℕ
  pub next_report_ms : ℕ

abbrev pub new : RecoveryLogGate
new = record { pending = 0; next_report_ms = 0 }

unfoldable pub observe : RecoveryLogGate → ℕ → RecoveryLogGate × Option ℕ
observe gate now_ms =
    let pending = (gate.pending + 1) % word_mod in
    let next = max (min (now_ms + recovery_log_interval_ms) (word_mod - 1)) 1 in
    if not (gate.next_report_ms == 0) && ltb now_ms gate.next_report_ms
    then (record gate { pending = pending }, none)
    else (record { pending = 0; next_report_ms = next }, some pending)

unfoldable pub observe_all : RecoveryLogGate → List ℕ → RecoveryLogGate
observe_all gate [] = gate
observe_all gate (now ∷ nows) = observe_all (observe gate now).0 nows

abbrev pub add : ℕ → Option ℕ → List (ℕ × ℕ) → List (ℕ × ℕ)
add now none reports = reports
add now (some count) reports = (now, count) ∷ reports

-- The reports of a run, each with its time.
unfoldable pub reports : RecoveryLogGate → List ℕ → List (ℕ × ℕ)
reports gate [] = []
reports gate (now ∷ nows) = add now (observe gate now).1 (reports (observe gate now).0 nows)

unfoldable pub total : List (ℕ × ℕ) → ℕ
total [] = 0
total ((now, count) ∷ rest) = count + total rest

-- The first report is not before `deadline`, and each other is ten seconds after the one before it.
unfoldable pub IsApart : ℕ → List (ℕ × ℕ) → Type 0
IsApart deadline [] = deadline ≤ deadline
IsApart deadline ((now, count) ∷ rest) =
    (deadline ≤ now) × IsApart (now + recovery_log_interval_ms) rest

-- The times of a run, all ten seconds and more before the end of the clock.
unfoldable pub IsEarly : List ℕ → Type 0
IsEarly [] = 0 ≤ 0
IsEarly (now ∷ nows) = (now + recovery_log_interval_ms < word_mod) × IsEarly nows

observe-cases :
    (gate : RecoveryLogGate) (now : ℕ)
    → gate.pending + 1 < word_mod
    → now + recovery_log_interval_ms < word_mod
    → (observe gate now ≡ (record gate { pending = gate.pending + 1 }, none))
      ⊎ ((observe gate now ≡ (
        record { pending = 0; next_report_ms = now + recovery_log_interval_ms },
        some (gate.pending + 1),
      ))
          × (gate.next_report_ms ≤ now))
unfolding observe
observe-cases gate now few early =
    let exact : (gate.pending + 1) % word_mod ≡ gate.pending + 1 = omega (arith, few) in
    let next : max (min (now + recovery_log_interval_ms) (word_mod - 1)) 1
        ≡ now + recovery_log_interval_ms =
      omega (arith, early) in
    elim (Bool-cases (not (gate.next_report_ms == 0) && ltb now gate.next_report_ms)) [
      | inl waits ↦ inl (rw waits (rw exact refl))
      | inr due ↦ inr ((rw due (rw exact (rw next refl))), ground (arith, due))
    ]

-- What a run reports and what it leaves uncounted.
Holds : ℕ → ℕ → ℕ → List (ℕ × ℕ) → RecoveryLogGate → Type 0
Holds observed deadline pending sent gate =
    (total sent + gate.pending ≡ pending + observed) × IsApart deadline sent

Holds-from :
    (gate : RecoveryLogGate) (nows : List ℕ)
    → gate.pending + length nows < word_mod
    → IsEarly nows
    → Holds
        (length nows)
        gate.next_report_ms
        gate.pending
        (reports gate nows)
        (observe_all gate nows)
unfolding Holds IsEarly IsApart total reports observe_all
Holds-from gate [] few early = (omega arith, omega arith)
Holds-from gate (now ∷ nows) few (first, early) =
    elim (observe-cases gate now (omega (arith, few)) first) [
      | inl waits ↦
          subst
            (λ p.
              Holds (suc (length nows)) gate.next_report_ms gate.pending
                (add now p.1 (reports p.0 nows)) (observe_all p.0 nows))
            (sym waits)
            (let (sum, apart) =
                Holds-from (record gate { pending = gate.pending + 1 }) nows (omega (arith, few))
                  early in
              (omega (arith, sum), apart))
      | inr (due, late) ↦
          subst
            (λ p.
              Holds (suc (length nows)) gate.next_report_ms gate.pending
                (add now p.1 (reports p.0 nows)) (observe_all p.0 nows))
            (sym due)
            (let (sum, apart) =
                Holds-from (record { pending = 0; next_report_ms = now + recovery_log_interval_ms })
                  nows (omega (arith, few)) early in
              (omega (arith, sum), (late, apart)))
    ]

-- In a run of fewer than 2^64 observations of a new gate, at any times that are ten seconds and more
-- before the end of the clock, in any order: the counts that are reported and the count that is still
-- pending make up the observations, so that none is lost or reported twice; and each report comes at
-- least ten seconds after the one before it.
pub reports-count :
    (nows : List ℕ)
    → length nows < word_mod
    → IsEarly nows
    → (total (reports new nows) + (observe_all new nows).pending ≡ length nows)
      × IsApart 0 (reports new nows)
unfolding Holds
reports-count nows few early =
    let (sum, apart) = Holds-from new nows (omega (arith, few)) early in (omega (arith, sum), apart)
