-- ===== src/Framing/Prefix.antt =====
-- More bytes do not change a frame (rust-client/turn_stream.rs).
use csqtt_android.Shared.{
  ℕ, zero, suc, ◌+◌, ◌≤◌, ◌<◌, ◌≡◌, ◌≢◌, refl, ap, Bool, List, [], ◌∷◌, ◌++◌, Option, none, some,
  ltb, length, take, drop, get_or, arith, length-append, length-drop, Bool-cases, inl, inr,
}
use csqtt_android.Framing.{
  FrameKind, control, channel_data, Result, ok, err, control_start, data_start, frame_start,
  need_more, decode_kind, decode_frame,
}

get_or-append : (xs ys : List ℕ) (i : ℕ) → i < length xs → get_or (xs ++ ys) i 0 ≡ get_or xs i 0
get_or-append [] ys i h = omega arith
get_or-append (x ∷ xs) ys zero h = refl
get_or-append (x ∷ xs) ys (suc i) h = get_or-append xs ys i (omega arith)

take_of_append : (n : ℕ) (xs ys : List ℕ) → n ≤ length xs → take n (xs ++ ys) ≡ take n xs
take_of_append zero xs ys h = refl
take_of_append (suc n) [] ys h = absurd (omega arith)
take_of_append (suc n) (x ∷ xs) ys h = ap (◌∷◌ x) (take_of_append n xs ys (omega arith))

drop_of_append : (n : ℕ) (xs ys : List ℕ) → n ≤ length xs → drop n (xs ++ ys) ≡ drop n xs ++ ys
drop_of_append zero xs ys h = refl
drop_of_append (suc n) [] ys h = absurd (omega arith)
drop_of_append (suc n) (x ∷ xs) ys h = drop_of_append n xs ys (omega arith)

-- The start of a frame is decided by the bytes that there are, unless it waits for more.
start_stable : (xs ys : List ℕ) → frame_start xs ≢ ok none → frame_start (xs ++ ys) ≡ frame_start xs
unfolding frame_start control_start data_start
start_stable xs ys h = elim (Bool-cases (ltb (length xs) 4)) [
  | inl short ↦ absurd (h (ground (arith, short)))
  | inr four ↦
      let long : 4 ≤ length xs = ground (arith, four) in
      ground (
        arith,
        h,
        length-append xs ys,
        get_or-append xs ys 0 (omega arith),
        get_or-append xs ys 2 (omega arith),
        get_or-append xs ys 3 (omega arith),
        drop_of_append 4 xs ys long,
        take_of_append 4 (drop 4 xs) ys,
        length-drop 4 xs,
      )
]

kind_stable :
    (has_packet : Bool) (xs ys : List ℕ) (kind : FrameKind)
    → (decode_kind has_packet xs kind).1 ≢ ok need_more
    → decode_kind has_packet (xs ++ ys) kind
      ≡ ((decode_kind has_packet xs kind).0 ++ ys, (decode_kind has_packet xs kind).1)
unfolding decode_kind
kind_stable has_packet xs ys (control n) h =
    ground (arith, h, length-append xs ys, take_of_append n xs ys, drop_of_append n xs ys)
kind_stable has_packet xs ys (channel_data n p) h =
    ground
      (arith, h, length-append xs ys, take_of_append (n + p) xs ys, drop_of_append (n + p) xs ys)

-- A frame, or an error, that the bytes of a buffer give is not changed by bytes that follow them,
-- which stay in the buffer.
pub decode_frame_stable :
    (has_packet : Bool) (xs ys : List ℕ)
    → (decode_frame has_packet xs).1 ≢ ok need_more
    → decode_frame has_packet (xs ++ ys)
      ≡ ((decode_frame has_packet xs).0 ++ ys, (decode_frame has_packet xs).1)
unfolding decode_frame
decode_frame_stable has_packet xs ys h = go (frame_start xs) refl
  where
    go :
        (start : Result (Option FrameKind))
        → frame_start xs ≡ start
        → decode_frame has_packet (xs ++ ys)
          ≡ ((decode_frame has_packet xs).0 ++ ys, (decode_frame has_packet xs).1)
    go (err e) s = ground (arith, s, start_stable xs ys)
    go (ok none) s = absurd (h (ground (arith, s)))
    go (ok (some kind)) s =
        ground (arith, h, s, start_stable xs ys, kind_stable has_packet xs ys kind)
