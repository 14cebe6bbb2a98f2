-- ===== src/Stun/Tiles.antt =====
-- The attributes of a message that decodes tile its body (rust-client/stun_codec.rs).
use csqtt_android.Shared.{
  ℕ, zero, suc, ◌+◌, ◌*◌, ◌/◌, ◌≤◌, ◌≡◌, refl, List, [], ◌∷◌, none, ltb, length, take, drop, u16_at,
  arith, Bool-cases, Option-cases, inl, inr, length-take, length-drop, ap, sym, subst, ◌∙◌,
}
use csqtt_android.Stun.{
  header_size, Attribute, Message, ok, next_position, step, check_attributes, decode, attribute_at,
  attributes_from, attributes,
}

-- The bytes of an attribute: its header, its value and the padding of the value.
abbrev pub size : Attribute → ℕ
size a = 4 + (length a.value + 3) / 4 * 4

-- The attributes stand one behind the other from `position` to `end`, each inside the message.
abbrev pub Tiled : List ℕ → ℕ → ℕ → List Attribute → Type 0
Tiled raw position end [] = position ≡ end
Tiled raw position end (a ∷ rest) =
    (a.header_start ≡ position)
    × (a.value_start ≡ position + 4)
    × (a.value_end ≡ position + 4 + length a.value)
    × (a.value ≡ take (length a.value) (drop (position + 4) raw))
    × (a.value_end ≤ length raw)
    × Tiled raw (position + size a) end rest

step_value :
    (raw : List ℕ) (position : ℕ)
    → step raw (length raw) position ≡ none
    → length (attribute_at raw position).value ≡ u16_at raw (position + 2)
unfolding step attribute_at
step_value raw position h = ground (
  arith,
  h,
  length-take (u16_at raw (position + 2)) (drop (position + 4) raw),
  length-drop (position + 4) raw,
)

step_fits :
    (raw : List ℕ) (position : ℕ)
    → step raw (length raw) position ≡ none
    → (next_position raw position ≤ length raw)
      × (position + 4 + u16_at raw (position + 2) ≤ length raw)
unfolding step
step_fits raw position h = ground (arith, h)

one_more :
    (raw : List ℕ) (position : ℕ) (rest : List Attribute)
    → step raw (length raw) position ≡ none
    → Tiled raw (next_position raw position) (length raw) rest
    → Tiled raw position (length raw) (attribute_at raw position ∷ rest)
unfolding attribute_at
one_more raw position rest h tiled = (
  refl,
  refl,
  omega (arith, step_value raw position h),
  ap (λ n. take n (drop (position + 4) raw)) (sym (step_value raw position h)),
  omega (arith, step_fits raw position h),
  subst (λ p. Tiled raw p (length raw) rest) (omega (arith, step_value raw position h)) tiled,
)

tiled :
    (fuel : ℕ) (raw : List ℕ) (position : ℕ)
    → position ≤ length raw
    → length raw ≤ position + fuel
    → check_attributes fuel raw (length raw) position ≡ none
    → Tiled raw position (length raw) (attributes_from fuel raw (length raw) position)
unfolding check_attributes attributes_from
tiled zero raw position le enough h = omega arith
tiled (suc fuel) raw position le enough h = elim (Bool-cases (ltb position (length raw))) [
  | inr out ↦ rw out (ground (arith, out))
  | inl inside ↦ elim (Option-cases (step raw (length raw) position)) [
    | inr (e, bad) ↦ absurd (ground (arith, h, inside, bad))
    | inl fine ↦ rw inside (
        one_more raw position _ fine (
          tiled fuel raw (next_position raw position) (step_fits raw position fine).0 (omega arith)
            (ground (arith, h, inside, fine))))
  ]
]

decoded :
    (raw : List ℕ) (m : Message)
    → decode raw ≡ ok m
    → let end = header_size + u16_at raw 2 in
      (length raw ≡ end)
      × (check_attributes end raw end header_size ≡ none)
      × (m.raw ≡ raw)
      × (m.end ≡ end)
unfolding decode
decoded raw m h = ground (arith, h)

-- A message that decodes is a header of 20 bytes with as many bytes behind it as the header declares
-- in its third and fourth byte, and its attributes stand one behind the other from the end of its
-- header to its own end, each with its whole value inside the message: no read of the iterator is out
-- of range.
pub decode-Tiled :
    (raw : List ℕ) (m : Message)
    → decode raw ≡ ok m
    → (length raw ≡ 20 + u16_at raw 2)
      × (m.raw ≡ raw)
      × (m.end ≡ length raw)
      × Tiled raw 20 (length raw) (attributes m)
unfolding decode attributes
decode-Tiled raw m h =
    let (len, checked, same, end) = decoded raw m h in
    (
      len,
      same,
      end ∙ sym len,
      rw (same, end ∙ sym len)
          (tiled (length raw) raw header_size (omega (arith, len)) (omega arith)
            (subst (λ e. check_attributes e raw e header_size ≡ none) (sym len) checked)),
    )
