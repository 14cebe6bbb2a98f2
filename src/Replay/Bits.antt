-- ===== src/Replay/Bits.antt =====
-- Which bits of the map the loop of `accept` clears (rust-server/protocol.rs).
use csqtt_android.Shared.{
  ℕ, zero, suc, ◌+◌, ◌%◌, ◌≤◌, ◌<◌, ◌≡◌, ◌≢◌, refl, false, ◌==◌, arith, inl, inr, Bool-cases,
}
use csqtt_android.Replay.{Bitmap, sub16, add16, clear_srtp_bit, clear_ahead}

pub clear_ahead_keeps :
    (highest left offset : ℕ) (bitmap : Bitmap) (index : ℕ)
    → ((o : ℕ) → offset ≤ o → o < offset + left → add16 highest o % 16_384 ≢ index)
    → clear_ahead highest left offset bitmap index ≡ bitmap index
unfolding clear_ahead clear_srtp_bit
clear_ahead_keeps highest zero offset bitmap index h = refl
clear_ahead_keeps highest (suc left) offset bitmap index h = ground (
  arith,
  clear_ahead_keeps highest left (offset + 1) (clear_srtp_bit (add16 highest offset) bitmap) index
      (λ o p q. h o (omega arith) (omega arith)),
  h offset (omega arith) (omega arith),
)

pub clear_ahead_of_clear :
    (highest left offset : ℕ) (bitmap : Bitmap) (index : ℕ)
    → bitmap index ≡ false
    → clear_ahead highest left offset bitmap index ≡ false
unfolding clear_ahead clear_srtp_bit
clear_ahead_of_clear highest zero offset bitmap index e = e
clear_ahead_of_clear highest (suc left) offset bitmap index e =
    clear_ahead_of_clear highest left (offset + 1) (clear_srtp_bit (add16 highest offset) bitmap)
      index (ground (arith, e))

pub clear_ahead_clears :
    (highest left offset : ℕ) (bitmap : Bitmap) (index o : ℕ)
    → offset ≤ o
    → o < offset + left
    → add16 highest o % 16_384 ≡ index
    → clear_ahead highest left offset bitmap index ≡ false
unfolding clear_ahead clear_srtp_bit
clear_ahead_clears highest zero offset bitmap index o p q e = absurd (omega arith)
clear_ahead_clears highest (suc left) offset bitmap index o p q e =
    elim (Bool-cases (offset == o)) [
      | inl here ↦ clear_ahead_of_clear highest left (offset + 1) _ index (ground (arith, e, here))
      | inr later ↦
          clear_ahead_clears highest left (offset + 1) _ index o (ground (arith, later))
            (omega arith) e
    ]

-- Two numbers of one window share a bit of the map only if they are the same.
pub same_bit :
    (h t s : ℕ)
    → h < 65_536
    → t < 65_536
    → s < 65_536
    → sub16 h t < 16_384
    → sub16 h s < 16_384
    → (t % 16_384 ≡ s % 16_384)
    → t ≡ s
same_bit h t s a b c v w e = omega arith

-- A number in the old and in the new window shares no bit with those in between.
pub between_windows :
    (h t s o : ℕ)
    → h < 65_536
    → t < 65_536
    → s < 65_536
    → 1 ≤ o
    → o < 1 + sub16 t h
    → sub16 t h < 16_384
    → sub16 t s < 16_384
    → sub16 h s < 16_384
    → add16 h o % 16_384 ≢ s % 16_384
between_windows h t s o a b c p q f w v e = omega arith

-- A number in the new window only is one of those in between.
pub new_in_window :
    (h t s : ℕ)
    → h < 65_536
    → t < 65_536
    → s < 65_536
    → sub16 t h < 16_384
    → sub16 t s < 16_384
    → 16_384 ≤ sub16 h s
    → (1 ≤ sub16 s h) × (sub16 s h < 1 + sub16 t h) × (add16 h (sub16 s h) ≡ s)
new_in_window h t s a b c f w v = omega arith
