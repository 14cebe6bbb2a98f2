-- ===== src/Framing/Tests.antt =====
-- A control frame of 20 bytes, cut in two, and the start of a data frame behind it.
use csqtt_android.Shared.{ℕ, ◌≡◌, refl, true, List, [], ◌∷◌, ◌++◌, arith, same_bytes}
use csqtt_android.Framing.{
  ok, control_frame, frame, control_start, frame_start, decode_kind, decode_frame, read_frame,
}
use csqtt_android.Framing.Reader.{Agrees, read_frame-decode_frame}

abbrev first_part : List ℕ
first_part = 0 ∷ 1 ∷ 0 ∷ 0 ∷ 0x21 ∷ 0x12 ∷ 0xa4 ∷ []

abbrev second_part : List ℕ
second_part = 0x42 ∷ 0 ∷ 1 ∷ 2 ∷ 3 ∷ 4 ∷ 5 ∷ 6 ∷ 7 ∷ 8 ∷ 9 ∷ 10 ∷ 11 ∷ []

abbrev next_part : List ℕ
next_part = 0x40 ∷ 0 ∷ []

decoded :
    decode_frame true (first_part ++ second_part)
    ≡ ([], ok (frame (control_frame (first_part ++ second_part))))
unfolding decode_frame frame_start control_start decode_kind same_bytes
decoded = refl

read_frame-decode_frame_example :
    Agrees
      (read_frame true [] (first_part ∷ second_part ∷ next_part ∷ []))
      (next_part, ok (frame (control_frame (first_part ++ second_part))))
unfolding decode_frame frame_start control_start decode_kind same_bytes
read_frame-decode_frame_example =
    read_frame-decode_frame true [] (first_part ∷ second_part ∷ next_part ∷ [])
      (omega arith, (omega arith, (omega arith, tt)))
