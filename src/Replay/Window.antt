-- ===== src/Replay/Window.antt =====
-- What one call of `accept` does to the numbers that the window knows (rust-server/protocol.rs).
use csqtt_android.Shared.{
  ℕ, ◌%◌, ◌≤◌, ◌<◌, ◌≡◌, ◌≢◌, Bool, true, false, not, ◌&&◌, ◌||◌, ltb, leb, ◌==◌, arith, ◌⊎◌, inl,
  inr, Bool-cases, ltb→lt, leb→le, ap,
}
use csqtt_android.Replay.{
  Bitmap, ReplayState, empty, sub16, set_srtp_bit, test_srtp_bit, clear_ahead, accept,
}
use csqtt_android.Replay.Bits.{
  clear_ahead_keeps, clear_ahead_clears, same_bit, between_windows, new_in_window,
}

-- Whether a number is one of the 16,384 up to the highest.
abbrev pub in_window : ReplayState → ℕ → Bool
in_window r s = ltb (sub16 r.highest s) 16_384

-- Whether a number is in the window and was seen.
abbrev pub knows : ReplayState → ℕ → Bool
knows r s = r.initialized && (in_window r s && test_srtp_bit s r.bitmap)

pub record IsReplay (r : ReplayState) : Type 0 where
  pub range : r.highest < 65_536
  pub unused : r.initialized ≡ false → (index : ℕ) → r.bitmap index ≡ false

-- The number stands before the highest, round the 16 bits: neither in the window nor ahead of it.
abbrev pub is_old : ReplayState → ℕ → Bool
is_old r s = leb 16_384 (sub16 r.highest s) && not (ltb (sub16 s r.highest) 32_768)

-- The bits behind a packet that moves the window forward.
forward_bit :
    (r : ReplayState) (t s : ℕ)
    → IsReplay r
    → t < 65_536
    → s < 65_536
    → sub16 t r.highest < 16_384
    → sub16 t s < 16_384
    → clear_ahead r.highest (sub16 t r.highest) 1 r.bitmap (s % 16_384)
      ≡ (in_window r s && test_srtp_bit s r.bitmap)
unfolding test_srtp_bit
forward_bit r t s v p q f w = elim (Bool-cases (in_window r s)) [
  | inl inside ↦ ground (
    arith,
    inside,
    clear_ahead_keeps r.highest (sub16 t r.highest) 1 r.bitmap (s % 16_384)
        (λ o a b. between_windows r.highest t s o v.range p q a b f w (ltb→lt _ _ inside)),
  )
  | inr outside ↦
      let new = new_in_window r.highest t s v.range p q f w (not_lt _ _ outside) in
      ground (
        arith,
        outside,
        clear_ahead_clears r.highest (sub16 t r.highest) 1 r.bitmap (s % 16_384) (sub16 s r.highest)
            new.0 new.1 (ap (λ k. k % 16_384) new.2),
      )
]
  where
    not_lt : (a b : ℕ) → ltb a b ≡ false → b ≤ a
    not_lt a b h = ground (arith, h)

far_jump :
    (h t s : ℕ)
    → h < 65_536
    → t < 65_536
    → s < 65_536
    → 16_384 ≤ sub16 t h
    → sub16 t h < 32_768
    → sub16 t s < 16_384
    → 16_384 ≤ sub16 h s
far_jump h t s a b c f l w = omega arith

bit_of :
    (h t s : ℕ) (bitmap : Bitmap)
    → h < 65_536
    → t < 65_536
    → s < 65_536
    → sub16 h t < 16_384
    → sub16 h s < 16_384
    → test_srtp_bit s (set_srtp_bit t bitmap) ≡ (s == t || test_srtp_bit s bitmap)
unfolding test_srtp_bit set_srtp_bit
bit_of h t s bitmap p q o v w = ground (arith, same_bit h t s p q o v w)

-- What a call of `accept` does to the known numbers.
pub accept_first :
    (r : ReplayState) (t s : ℕ)
    → IsReplay r
    → r.initialized ≡ false
    → t < 65_536
    → s < 65_536
    → knows (accept r t).0 s ≡ (s == t)
unfolding accept test_srtp_bit
accept_first r t s v e p q = elim (Bool-cases (ltb (sub16 t s) 16_384)) [
  | inl inside ↦ ground (
    arith,
    e,
    inside,
    bit_of t t s r.bitmap p p q (omega arith) (ltb→lt _ _ inside),
    v.unused e (s % 16_384),
  )
  | inr outside ↦ ground (arith, e, outside)
]

pub accept_forward :
    (r : ReplayState) (t s : ℕ)
    → IsReplay r
    → r.initialized ≡ true
    → t < 65_536
    → s < 65_536
    → sub16 t r.highest ≢ 0
    → sub16 t r.highest < 32_768
    → knows (accept r t).0 s ≡ (s == t || (knows r s && in_window (accept r t).0 s))
unfolding accept test_srtp_bit
accept_forward r t s v e p q nz f = elim (Bool-cases (ltb (sub16 t s) 16_384)) [
  | inr outside ↦ ground (arith, e, outside)
  | inl inside ↦ elim (Bool-cases (leb 16_384 (sub16 t r.highest))) [
    | inl far ↦ ground (
      arith,
      e,
      inside,
      far,
      bit_of t t s empty p p q (omega arith) (ltb→lt _ _ inside),
      far_jump r.highest t s v.range p q (leb→le _ _ far) f (ltb→lt _ _ inside),
    )
    | inr near ↦
        let close : sub16 t r.highest < 16_384 = ground (arith, near) in
        ground (
          arith,
          e,
          inside,
          near,
          bit_of t t s (clear_ahead r.highest (sub16 t r.highest) 1 r.bitmap) p p q (omega arith)
              (ltb→lt _ _ inside),
          forward_bit r t s v p q close (ltb→lt _ _ inside),
        )
  ]
]

pub accept_behind :
    (r : ReplayState) (t s : ℕ)
    → IsReplay r
    → r.initialized ≡ true
    → t < 65_536
    → s < 65_536
    → (sub16 t r.highest ≡ 0) ⊎ (32_768 ≤ sub16 t r.highest)
    → sub16 r.highest t < 16_384
    → test_srtp_bit t r.bitmap ≡ false
    → knows (accept r t).0 s ≡ (s == t || (knows r s && in_window (accept r t).0 s))
unfolding accept test_srtp_bit
accept_behind r t s v e p q nf w fresh = elim (Bool-cases (in_window r s)) [
  | inr outside ↦ ground (arith, e, outside, w, fresh)
  | inl inside ↦
      ground (
        arith,
        e,
        inside,
        w,
        fresh,
        bit_of r.highest t s r.bitmap v.range p q w (ltb→lt _ _ inside),
      )
]
