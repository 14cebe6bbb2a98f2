-- ===== src/Replay/Once.antt =====
-- Which packets the window lets through (rust-server/protocol.rs).
use csqtt_android.Shared.{
  ℕ, ◌≤◌, ◌<◌, ◌≡◌, refl, true, false, not, ◌&&◌, ◌||◌, List, [], ◌∷◌, leb, ◌==◌, ==_refl,
  if◌then◌else◌, arith, ◌⊎◌, inl, inr, Bool-cases, All, subst, sym, ap, ◌∙◌,
}
use csqtt_android.Replay.{ReplayState, new, sub16, test_srtp_bit, accept}
use csqtt_android.Replay.Window.{
  IsReplay, in_window, knows, is_old, accept_first, accept_forward, accept_behind,
}

pub new-IsReplay : IsReplay new
new-IsReplay = record { range = omega arith; unused = λ e index. refl }

pub accept-IsReplay : (r : ReplayState) (t : ℕ) → IsReplay r → t < 65_536 → IsReplay (accept r t).0
unfolding accept
accept-IsReplay r t v p = record {
  range = ground (arith, v.range);
  unused = λ e index. ground (arith, e, v.unused);
}

answer :
    (r : ReplayState) (t : ℕ)
    → IsReplay r
    → t < 65_536
    → (accept r t).1 ≡ not (r.initialized && (knows r t || is_old r t))
unfolding accept
answer r t v p = ground (arith, v.range)

refused_same : (r : ReplayState) (t : ℕ) → (accept r t).1 ≡ false → (accept r t).0 ≡ r
unfolding accept
refused_same r t h = ground (arith, h)

accepted_knows :
    (r : ReplayState) (t s : ℕ)
    → IsReplay r
    → t < 65_536
    → s < 65_536
    → (accept r t).1 ≡ true
    → knows (accept r t).0 s ≡ (s == t || (knows r s && in_window (accept r t).0 s))
accepted_knows r t s v p q h = elim (Bool-cases r.initialized) [
  | inr e ↦ ground (arith, e, accept_first r t s v e p q)
  | inl e ↦
      elim (Bool-cases (if sub16 t r.highest == 0 then true else leb 32_768 (sub16 t r.highest))) [
        | inr ahead ↦
            accept_forward r t s v e p q (λ z. ground (arith, ahead, z)) (ground (arith, ahead))
        | inl back ↦
            let free : (sub16 r.highest t < 16_384) × (test_srtp_bit t r.bitmap ≡ false) =
              ground (arith, h, e, back, answer r t v p, v.range) in
            accept_behind r t s v e p q (ground (arith, back)) free.0 free.1
      ]
]

-- A number is accepted unless the window is in use and either knows it or has left it behind; an
-- accepted number is known from then on, with all that was known and is still in the window, and a
-- refused one changes nothing. All are 16-bit numbers, and a state that no packet has reached has no
-- bit set.
pub accept_answers :
    (r : ReplayState) (t s : ℕ)
    → IsReplay r
    → t < 65_536
    → s < 65_536
    → let next = accept r t in
      (next.1 ≡ not (r.initialized && (knows r t || is_old r t)))
      × (next.1 ≡ true → knows next.0 s ≡ (s == t || (knows r s && in_window next.0 s)))
      × (next.1 ≡ false → next.0 ≡ r)
accept_answers r t s v p q = (answer r t v p, accepted_knows r t s v p q, refused_same r t)

-- A run of packets, whatever the answers.
unfoldable pub run : ReplayState → List ℕ → ReplayState
run r [] = r
run r (t ∷ ts) = run (accept r t).0 ts

-- The highest number is never more than 32,768 ahead of `s` in the run.
abbrev pub StaysNear : ℕ → ReplayState → List ℕ → Type 0
StaysNear s r [] = Unit
StaysNear s r (t ∷ ts) = (sub16 (accept r t).0.highest s ≤ 32_768) × StaysNear s (accept r t).0 ts

abbrev Refuses : ReplayState → ℕ → Type 0
Refuses r s = (r.initialized && (knows r s || is_old r s)) ≡ true

used : (r : ReplayState) (t : ℕ) → (accept r t).0.initialized ≡ true
unfolding accept
used r t = ground arith

moves :
    (r : ReplayState) (t : ℕ)
    → r.initialized ≡ true
    → ((accept r t).0.highest ≡ r.highest)
      ⊎ (((accept r t).0.highest ≡ t) × (sub16 t r.highest < 32_768))
unfolding accept
moves r t e = ground (arith, e)

old_stays_out :
    (r : ReplayState) (t s : ℕ)
    → IsReplay r
    → t < 65_536
    → s < 65_536
    → r.initialized ≡ true
    → is_old r s ≡ true
    → in_window (accept r t).0 s ≡ false
old_stays_out r t s v p q e old = ground (arith, old, moves r t e, v.range)

outside_old :
    (r : ReplayState) (s : ℕ)
    → IsReplay r
    → s < 65_536
    → r.initialized ≡ true
    → sub16 r.highest s ≤ 32_768
    → in_window r s ≡ false
    → Refuses r s
outside_old r s v q e near out = ground (arith, e, out, v.range)

Refuses-step :
    (r : ReplayState) (t s : ℕ)
    → IsReplay r
    → t < 65_536
    → s < 65_536
    → Refuses r s
    → sub16 (accept r t).0.highest s ≤ 32_768
    → Refuses (accept r t).0 s
Refuses-step r t s v p q h near = elim (Bool-cases (in_window (accept r t).0 s)) [
  | inr out ↦ outside_old (accept r t).0 s (accept-IsReplay r t v p) q (used r t) near out
  | inl inside ↦ elim (Bool-cases (accept r t).1) [
    | inr refused ↦ subst (λ x. Refuses x s) (sym (refused_same r t refused)) h
    | inl taken ↦ elim (Bool-cases (knows r s)) [
      | inl known ↦ known_after (ground (arith, accepted_knows r t s v p q taken, known, inside))
      | inr unknown ↦ lost unknown inside
    ]
  ]
]
  where
    known_after : knows (accept r t).0 s ≡ true → Refuses (accept r t).0 s
    known_after k = ground (arith, used r t, k)

    lost : knows r s ≡ false → in_window (accept r t).0 s ≡ true → Refuses (accept r t).0 s
    lost unknown inside =
        let parts : (r.initialized ≡ true) × (is_old r s ≡ true) = ground (arith, h, unknown) in
        absurd (ground (arith, inside, old_stays_out r t s v p q parts.0 parts.1))

Refuses-run :
    (r : ReplayState) (s : ℕ) (ts : List ℕ)
    → IsReplay r
    → s < 65_536
    → All (λ t. t < 65_536) ts
    → Refuses r s
    → StaysNear s r ts
    → (accept (run r ts) s).1 ≡ false
unfolding run
Refuses-run r s [] v q ps h near = answer r s v q ∙ ap not h
Refuses-run r s (t ∷ ts) v q ps h near =
    Refuses-run (accept r t).0 s ts (accept-IsReplay r t v ps.0) q ps.1
      (Refuses-step r t s v ps.0 q h near.0) near.1

-- A sequence number that was accepted is refused from then on, whatever other packets arrive in
-- between, for as long as the highest number is at most 32,768 ahead of it (all being 16-bit numbers,
-- and a state that no packet has reached having no bit set).
pub accepted_once :
    (r : ReplayState) (s : ℕ) (ts : List ℕ)
    → IsReplay r
    → s < 65_536
    → All (λ t. t < 65_536) ts
    → (accept r s).1 ≡ true
    → StaysNear s (accept r s).0 ts
    → (accept (run (accept r s).0 ts) s).1 ≡ false
accepted_once r s ts v q ps h near =
    Refuses-run (accept r s).0 s ts (accept-IsReplay r s v q) q ps known near
  where
    known : Refuses (accept r s).0 s
    known = rw (used r s) (ground (arith, ==_refl s, accepted_knows r s s v q q h))
