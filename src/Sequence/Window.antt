-- ===== src/Sequence/Window.antt =====
-- The reorder window: what every push keeps, and when a push fails (shared/proxy_sequence.rs).
use csqtt_android.Shared.{
  ℕ, zero, suc, ◌+◌, ◌%◌, ◌≤◌, ◌<◌, ◌≡◌, refl, List, ◌∷◌, ◌++◌, Option, none, some, arith, length,
  Option-cases, inl, inr, ◌⊎◌, Bool-cases, ltb, ◌==◌, word_mod, drop, false, ◌≢◌, tests,
}
use csqtt_android.Sequence.{
  lookup, ReorderReceiver, Result, ok, err, missing_offset, window_overflow, new, consume, flush,
  park, push_chunk, push, max_buffered,
}
use csqtt_android.Sequence.Pending.{
  parked_bytes, Distinct, erase-Distinct, erase-found, flush-stops,
}

-- Between two pushes: one chunk for each offset, the count of the parked bytes is exact and within
-- the window, and no parked chunk starts at the cursor.
pub record IsWindow (r : ReorderReceiver) : Type 0 where
  pub distinct : Distinct r.pending
  pub counted : r.buffered_bytes ≡ parked_bytes r.pending
  pub bounded : r.buffered_bytes ≤ max_buffered
  pub stalled : lookup r.expected r.pending ≡ none

-- The same without the last part, which the flush restores.
record IsOpen (r : ReorderReceiver) : Type 0 where
  distinct : Distinct r.pending
  counted : r.buffered_bytes ≡ parked_bytes r.pending
  bounded : r.buffered_bytes ≤ max_buffered

pub new-IsWindow : IsWindow new
unfolding parked_bytes lookup
new-IsWindow = record { distinct = tt; counted = refl; bounded = omega arith; stalled = refl }

consume-IsOpen :
    (r : ReorderReceiver) (next : List ℕ)
    → IsOpen r
    → lookup r.expected r.pending ≡ some next
    → IsOpen (consume r next)
consume-IsOpen r next w e =
    let (_, bytes) = erase-found r.expected r.pending next e in
    record {
      distinct = erase-Distinct r.expected r.pending w.distinct;
      counted = omega (arith, w.counted);
      bounded = omega (arith, w.bounded);
    }

flush-IsOpen :
    (fuel : ℕ) (r : ReorderReceiver) (output : List ℕ) → IsOpen r → IsOpen (flush fuel r output).0
unfolding flush
flush-IsOpen zero r output w = w
flush-IsOpen (suc fuel) r output w = elim (Option-cases (lookup r.expected r.pending)) [
  | inl e ↦ rw (e, flush) w
  | inr (next, e) ↦
      rw (e, flush)
        (flush-IsOpen fuel (consume r next) (output ++ next) (consume-IsOpen r next w e))
]

flush-IsWindow :
    (r : ReorderReceiver) (output : List ℕ)
    → IsOpen r
    → IsWindow (flush (length r.pending) r output).0
flush-IsWindow r output w =
    let w' = flush-IsOpen (length r.pending) r output w in
    record {
      distinct = w'.distinct;
      counted = w'.counted;
      bounded = w'.bounded;
      stalled = flush-stops (length r.pending) r output (omega arith);
    }

-- What a push may do to a window: keep it one, or fail because the chunk does not fit in it.
abbrev pub Kept : ReorderReceiver → List ℕ → ReorderReceiver × Result (Option (List ℕ)) → Type 0
Kept r chunk (r', ok output) = IsWindow r'
Kept r chunk (r', err window_overflow) = max_buffered < parked_bytes r.pending + length chunk
Kept r chunk (r', err e) = ⊥

parked-IsWindow :
    (r : ReorderReceiver) (offset : ℕ) (chunk : List ℕ)
    → IsWindow r
    → offset ≢ r.expected
    → lookup offset r.pending ≡ none
    → ltb max_buffered (r.buffered_bytes + length chunk) ≡ false
    → IsWindow (record r {
      pending = (offset, chunk) ∷ r.pending;
      buffered_bytes = r.buffered_bytes + length chunk;
    })
unfolding parked_bytes lookup
parked-IsWindow r offset chunk w ne e fits = record {
  distinct = (e, w.distinct);
  counted = omega (arith, w.counted);
  bounded = ground arith;
  stalled = ground (arith, w.stalled);
}

park-Kept :
    (r : ReorderReceiver) (offset : ℕ) (chunk : List ℕ)
    → IsWindow r
    → offset ≢ r.expected
    → Kept r chunk (park r offset chunk (lookup offset r.pending))
unfolding park
park-Kept r offset chunk w ne = elim (Option-cases (lookup offset r.pending)) [
  | inr (other, e) ↦ rw (e, park) w
  | inl e ↦
      rw (e, park)
        (elim (Bool-cases (ltb max_buffered (r.buffered_bytes + length chunk))) [
          | inl over ↦ rw over (omega (tests, w.counted))
          | inr fits ↦ rw fits (parked-IsWindow r offset chunk w ne e fits)
        ])
]

push_chunk-Kept :
    (r : ReorderReceiver) (offset : ℕ) (chunk : List ℕ)
    → IsWindow r
    → Kept r chunk (push_chunk r offset chunk)
unfolding push_chunk
push_chunk-Kept r offset chunk w = elim (Bool-cases (ltb offset r.expected)) [
  | inl e ↦ rw e w
  | inr ahead ↦ rw ahead (elim (Bool-cases (offset == r.expected)) [
    | inl hit ↦ rw hit (
        flush-IsWindow (record r { expected = (r.expected + length chunk) % word_mod }) chunk
          (record { distinct = w.distinct; counted = w.counted; bounded = w.bounded }))
    | inr miss ↦ rw miss (park-Kept r offset chunk w (λ e. ground arith))
  ])
]

-- Every push of a frame keeps the window, with exactly one way to fail: a chunk that the window
-- has no room for. (A payload with no whole header fails before anything is touched.)
pub push-IsWindow :
    (r : ReorderReceiver) (payload : List ℕ)
    → IsWindow r
    → ((length payload < 8) × (push r payload ≡ (r, err missing_offset)))
      ⊎ ((8 ≤ length payload) × Kept r (drop 8 payload) (push r payload))
unfolding push
push-IsWindow r payload w = elim (Bool-cases (ltb (length payload) 8)) [
  | inl short ↦ inl (omega tests, rw short)
  | inr whole ↦ inr (ground arith, rw whole (push_chunk-Kept r _ _ w))
]
