-- ===== src/Sequence/Pending.antt =====
-- The map of parked chunks, and when the flush of shared/proxy_sequence.rs ends.
use csqtt_android.Shared.{
  ℕ, zero, suc, ◌+◌, ◌≤◌, ◌≡◌, refl, ◌≢◌, ◌∙◌, List, [], ◌∷◌, ◌++◌, none, some, arith, length, ◌==◌,
  ==_iff, Bool-cases, inl, inr, Option-cases,
}
use csqtt_android.Sequence.{Chunks, lookup, erase, ReorderReceiver, consume, flush}

-- The bytes that are parked.
unfoldable pub parked_bytes : Chunks → ℕ
parked_bytes [] = 0
parked_bytes ((j, chunk) ∷ rest) = length chunk + parked_bytes rest

-- No key stands twice.
abbrev pub Distinct : Chunks → Type 0
Distinct [] = Unit {0}
Distinct ((j, chunk) ∷ rest) = (lookup j rest ≡ none) × Distinct rest

pub lookup-erase_ne : (k j : ℕ) (m : Chunks) → k ≢ j → lookup j (erase k m) ≡ lookup j m
unfolding lookup erase
lookup-erase_ne k j [] h = refl
lookup-erase_ne k j ((i, chunk) ∷ m) h = ground (arith, lookup-erase_ne k j m h)

pub lookup-erase_self : (k : ℕ) (m : Chunks) → Distinct m → lookup k (erase k m) ≡ none
unfolding lookup erase
lookup-erase_self k [] d = refl
lookup-erase_self k ((i, chunk) ∷ m) d = elim (Bool-cases (i == k)) [
  | inl hit ↦ rw hit (rw (← (==_iff i k).0 hit) d.0)
  | inr miss ↦ rw miss (rw miss (lookup-erase_self k m d.1))
]

pub erase-Distinct : (k : ℕ) (m : Chunks) → Distinct m → Distinct (erase k m)
unfolding erase lookup
erase-Distinct k [] d = tt
erase-Distinct k ((i, chunk) ∷ m) d = elim (Bool-cases (i == k)) [
  | inl hit ↦ rw hit d.1
  | inr miss ↦ rw miss (lookup-erase_ne k i m (λ e. ground arith) ∙ d.0, erase-Distinct k m d.1)
]

pub erase-found :
    (k : ℕ) (m : Chunks) (chunk : List ℕ)
    → lookup k m ≡ some chunk
    → (length m ≡ suc (length (erase k m)))
      × (parked_bytes m ≡ length chunk + parked_bytes (erase k m))
unfolding lookup erase parked_bytes
erase-found k [] chunk h = cc
erase-found k ((i, other) ∷ m) chunk h = ground (arith, erase-found k m chunk)

lookup_of_empty : (k : ℕ) (m : Chunks) → length m ≤ 0 → lookup k m ≡ none
unfolding lookup
lookup_of_empty k [] h = refl
lookup_of_empty k ((i, chunk) ∷ m) h = absurd (omega arith)

-- The flush stops only where no parked chunk starts at the cursor.
pub flush-stops :
    (fuel : ℕ) (r : ReorderReceiver) (output : List ℕ)
    → length r.pending ≤ fuel
    → let r' = (flush fuel r output).0 in lookup r'.expected r'.pending ≡ none
unfolding flush
flush-stops zero r output h = lookup_of_empty r.expected r.pending h
flush-stops (suc fuel) r output h = elim (Option-cases (lookup r.expected r.pending)) [
  | inl e ↦ rw (e, flush) e
  | inr (next, e) ↦
      rw (e, flush)
        (flush-stops fuel (consume r next) (output ++ next)
          (omega (arith, erase-found r.expected r.pending next e)))
]
