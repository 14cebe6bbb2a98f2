-- ===== src/Replay/Client/Once.antt =====
-- The client's window lets no packet through twice (rust-client/session.rs).
use csqtt_android.Shared.{
  ℕ, zero, suc, ◌+◌, ◌-◌, ◌%◌, ◌≤◌, ◌<◌, ◌≡◌, ◌≢◌, refl, Bool, true, false, not, ◌&&◌, ◌||◌, List,
  [], ◌∷◌, Option, none, some, ltb, leb, ◌==◌, arith, ◌⊎◌, inl, inr, Bool-cases, leb→le, subst, sym,
  ap, ◌∙◌,
}
use csqtt_android.Replay.{Bitmap, empty, set_srtp_bit, clear_srtp_bit, test_srtp_bit}
use csqtt_android.Replay.Client.{ReplayWindow, clear_bits, accept, accept_after}

abbrev known_at : Option ℕ → Bitmap → ℕ → Bool
known_at none seen s = false
known_at (some highest) seen s = leb s highest && (leb 16_384 (highest - s) || test_srtp_bit s seen)

-- Whether a number is refused: it was seen, or the window has left it behind.
abbrev pub known : ReplayWindow → ℕ → Bool
known w s = known_at w.highest w.seen s

abbrev pub in_window : ReplayWindow → ℕ → Bool
in_window w s = elim w.highest [ none ↦ false | some highest ↦ ltb (highest - s) 16_384 ]

clear_bits_keeps :
    (highest left i : ℕ) (seen : Bitmap) (index : ℕ)
    → ((o : ℕ) → i ≤ o → o < i + left → (highest + o) % 16_384 ≢ index)
    → clear_bits highest left i seen index ≡ seen index
unfolding clear_bits clear_srtp_bit
clear_bits_keeps highest zero i seen index h = refl
clear_bits_keeps highest (suc left) i seen index h = ground (
  arith,
  clear_bits_keeps highest left (i + 1) (clear_srtp_bit (highest + i) seen) index
      (λ o p q. h o (omega arith) (omega arith)),
  h i (omega arith) (omega arith),
)

clear_bits_of_clear :
    (highest left i : ℕ) (seen : Bitmap) (index : ℕ)
    → seen index ≡ false
    → clear_bits highest left i seen index ≡ false
unfolding clear_bits clear_srtp_bit
clear_bits_of_clear highest zero i seen index e = e
clear_bits_of_clear highest (suc left) i seen index e =
    clear_bits_of_clear highest left (i + 1) (clear_srtp_bit (highest + i) seen) index
      (ground (arith, e))

clear_bits_clears :
    (highest left i : ℕ) (seen : Bitmap) (index o : ℕ)
    → i ≤ o
    → o < i + left
    → (highest + o) % 16_384 ≡ index
    → clear_bits highest left i seen index ≡ false
unfolding clear_bits clear_srtp_bit
clear_bits_clears highest zero i seen index o p q e = absurd (omega arith)
clear_bits_clears highest (suc left) i seen index o p q e = elim (Bool-cases (i == o)) [
  | inl here ↦ clear_bits_of_clear highest left (i + 1) _ index (ground (arith, e, here))
  | inr later ↦
      clear_bits_clears highest left (i + 1) _ index o (ground (arith, later)) (omega arith) e
]

-- The bit of a number in the window of `t`, after a move to `t`.
moved_bit :
    (highest t s : ℕ) (seen : Bitmap)
    → highest < t
    → t - highest < 16_384
    → s ≤ t
    → t - s < 16_384
    → clear_bits highest (t - highest) 1 seen (s % 16_384) ≡ (leb s highest && test_srtp_bit s seen)
unfolding test_srtp_bit
moved_bit highest t s seen up near le w = elim (Bool-cases (leb s highest)) [
  | inl old ↦ ground (
    arith,
    old,
    clear_bits_keeps highest (t - highest) 1 seen (s % 16_384)
        (λ o p q e. apart o p q (leb→le _ _ old) e),
  )
  | inr young ↦
      let above : highest < s = ground (arith, young) in
      ground (
        arith,
        young,
        clear_bits_clears highest (t - highest) 1 seen (s % 16_384) (s - highest) (omega arith)
            (omega arith)
            (ap (λ k. k % 16_384) (let e : highest + (s - highest) ≡ s = omega arith in e)),
      )
]
  where
    apart :
        (o : ℕ) → 1 ≤ o → o < 1 + (t - highest) → s ≤ highest → (highest + o) % 16_384 ≢ s % 16_384
    apart o p q old e = omega arith

abbrev window : Option ℕ → Bitmap → ReplayWindow
window highest seen = record { highest = highest; seen = seen }

answer_at :
    (h : Option ℕ) (seen : Bitmap) (t : ℕ) → (accept (window h seen) t).1 ≡ not (known_at h seen t)
unfolding accept accept_after
answer_at none seen t = refl
answer_at (some highest) seen t = ground arith

apart_bit :
    (t s : ℕ) (seen : Bitmap)
    → s ≢ t
    → (s ≤ t × (t - s < 16_384)) ⊎ (t ≤ s × (s - t < 16_384))
    → set_srtp_bit t seen (s % 16_384) ≡ seen (s % 16_384)
unfolding set_srtp_bit
apart_bit t s seen ne w = ground (arith, apart)
  where
    apart : s % 16_384 ≢ t % 16_384
    apart e = ground (arith, e, w, ne)

-- A window that no packet has reached has no bit set.
abbrev pub Unused : Option ℕ → Bitmap → Type 0
Unused h seen = h ≡ none → (index : ℕ) → seen index ≡ false

taken_at :
    (h : Option ℕ) (seen : Bitmap) (t s : ℕ)
    → Unused h seen
    → (accept (window h seen) t).1 ≡ true
    → in_window (accept (window h seen) t).0 s ≡ true
    → s ≢ t
    → known (accept (window h seen) t).0 s ≡ known_at h seen s
unfolding accept accept_after test_srtp_bit
taken_at none seen t s u h inside ne =
    ground (arith, inside, ne, apart_bit t s seen ne, u refl (s % 16_384))
taken_at (some highest) seen t s u h inside ne = elim (Bool-cases (leb t highest)) [
  | inl back ↦ ground (arith, h, back, inside, ne, apart_bit t s seen ne)
  | inr up ↦ elim (Bool-cases (leb 16_384 (t - highest))) [
    | inl far ↦ ground (arith, up, far, inside, ne, apart_bit t s empty ne)
    | inr near ↦ ground (
      arith,
      up,
      near,
      inside,
      ne,
      apart_bit t s (clear_bits highest (t - highest) 1 seen) ne,
      moved_bit highest t s seen,
    )
  ]
]

refused_at :
    (h : Option ℕ) (seen : Bitmap) (t : ℕ)
    → (accept (window h seen) t).1 ≡ false
    → (accept (window h seen) t).0 ≡ window h seen
unfolding accept accept_after
refused_at none seen t h = cc
refused_at (some highest) seen t h = ground (arith, h)

-- If a window that no packet has reached has no bit set: either the answer is that the number is
-- known, and nothing changes; or it was not known, and of the other numbers in the window exactly
-- those are known that were.
pub window_answers :
    (w : ReplayWindow) (t s : ℕ)
    → Unused w.highest w.seen
    → let next = accept w t in
      (next.1 ≡ not (known w t))
      × (next.1 ≡ false → next.0 ≡ w)
      × (next.1 ≡ true → in_window next.0 s ≡ true → s ≢ t → known next.0 s ≡ known w s)
window_answers w t s u =
    (answer_at w.highest w.seen t, refused_at w.highest w.seen t, taken_at w.highest w.seen t s u)

accepted_known :
    (h : Option ℕ) (seen : Bitmap) (t : ℕ) → known (accept (window h seen) t).0 t ≡ true
unfolding accept accept_after test_srtp_bit set_srtp_bit
accepted_known none seen t = ground arith
accepted_known (some highest) seen t = ground arith

-- Behind the window everything is known.
left_behind :
    (h : Option ℕ) (seen : Bitmap) (t s : ℕ)
    → known_at h seen s ≡ true
    → in_window (accept (window h seen) t).0 s ≡ false
    → known (accept (window h seen) t).0 s ≡ true
unfolding accept accept_after
left_behind none seen t s k out = cc
left_behind (some highest) seen t s k out = ground (arith, k, out)

stays_known :
    (w : ReplayWindow) (t s : ℕ)
    → Unused w.highest w.seen
    → known w s ≡ true
    → known (accept w t).0 s ≡ true
stays_known w t s u k = elim (Bool-cases (accept w t).1) [
  | inr refused ↦ subst (λ x. known x s ≡ true) (sym (refused_at w.highest w.seen t refused)) k
  | inl taken ↦ elim (Bool-cases (in_window (accept w t).0 s)) [
    | inr out ↦ left_behind w.highest w.seen t s k out
    | inl inside ↦ elim (Bool-cases (s == t)) [
      | inr other ↦ taken_at w.highest w.seen t s u taken inside (λ e. ground (arith, e, other)) ∙ k
      | inl same ↦
          let e : s ≡ t = ground (arith, same) in
          subst (λ x. known (accept w t).0 x ≡ true) (sym e) (accepted_known w.highest w.seen t)
    ]
  ]
]

-- A run of packet numbers, whatever the answers.
unfoldable pub run : ReplayWindow → List ℕ → ReplayWindow
run w [] = w
run w (t ∷ ts) = run (accept w t).0 ts

used_at : (h : Option ℕ) (seen : Bitmap) (t : ℕ) → (accept (window h seen) t).0.highest ≢ none
unfolding accept accept_after
used_at none seen t e = cc
used_at (some highest) seen t e = ground (arith, e)

used : (w : ReplayWindow) (t : ℕ) → Unused (accept w t).0.highest (accept w t).0.seen
used w t e = absurd (used_at w.highest w.seen t e)

known-run :
    (w : ReplayWindow) (s : ℕ) (ts : List ℕ)
    → Unused w.highest w.seen
    → known w s ≡ true
    → known (run w ts) s ≡ true
unfolding run
known-run w s [] u k = k
known-run w s (t ∷ ts) u k = known-run (accept w t).0 s ts (used w t) (stays_known w t s u k)

-- A packet number is never accepted again after it was given to the window once, whatever other
-- numbers follow in between.
pub never_accepted_again :
    (w : ReplayWindow) (s : ℕ) (ts : List ℕ) → (accept (run (accept w s).0 ts) s).1 ≡ false
never_accepted_again w s ts =
    answer_at _ _ s
    ∙ ap not (known-run (accept w s).0 s ts (used w s) (accepted_known w.highest w.seen s))
