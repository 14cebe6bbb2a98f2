-- ===== src/Framing/Reader.antt =====
-- The frames that are read do not depend on how the stream is cut (rust-client/turn_stream.rs).
use csqtt_android.Shared.{
  ℕ, ◌+◌, ◌≤◌, ◌<◌, ◌≡◌, ◌≢◌, refl, sym, ◌∙◌, Bool, true, false, List, [], ◌∷◌, ◌++◌, Option, none,
  some, length, arith, inl, inr, ◌⊎◌, All, append-nil, append_assoc,
}
use csqtt_android.Framing.{
  FrameKind, control, channel_data, Result, ok, err, control_start, data_start, frame_start, Frame,
  StreamDecode, frame, need_more, decode_kind, decode_frame, copy_channel_data, ReadFrame,
  after_decode, read_frame,
}
use csqtt_android.Framing.Prefix.{decode_frame_stable}

abbrev pub concat : List (List ℕ) → List ℕ
concat [] = []
concat (chunk ∷ chunks) = chunk ++ concat chunks

abbrev pub as_returned : Result StreamDecode → Option (Result Frame)
as_returned (err e) = some (err e)
as_returned (ok (frame f)) = some (ok f)
as_returned (ok need_more) = none

-- The bytes of a frame, its padding included.
abbrev frame_size : FrameKind → ℕ
frame_size (control n) = n
frame_size (channel_data n p) = n + p

short_kind :
    (bytes : List ℕ) (kind : FrameKind)
    → frame_start bytes ≡ ok (some kind)
    → frame_size kind ≤ 4_096
unfolding frame_start control_start data_start
short_kind bytes (control n) h = ground (arith, h)
short_kind bytes (channel_data n p) h = ground (arith, h)

incomplete_kind :
    (has_packet : Bool) (xs : List ℕ) (kind : FrameKind)
    → (decode_kind has_packet xs kind).1 ≡ ok need_more
    → ((decode_kind has_packet xs kind).0 ≡ xs) × (length xs < frame_size kind)
unfolding decode_kind copy_channel_data
incomplete_kind has_packet xs (control n) h = ground (arith, h)
incomplete_kind true xs (channel_data n p) h = ground (arith, h)
incomplete_kind false xs (channel_data n p) h = ground (arith, h)

no_start : (xs : List ℕ) → frame_start xs ≡ ok none → length xs < 8
unfolding frame_start control_start data_start
no_start xs h = ground (arith, h)

-- A buffer whose frame is not complete is short, and is not touched.
incomplete :
    (has_packet : Bool) (xs : List ℕ)
    → (decode_frame has_packet xs).1 ≡ ok need_more
    → ((decode_frame has_packet xs).0 ≡ xs) × (length xs < 4_096)
unfolding decode_frame
incomplete has_packet xs h = go (frame_start xs) refl
  where
    go :
        (start : Result (Option FrameKind))
        → frame_start xs ≡ start
        → ((decode_frame has_packet xs).0 ≡ xs) × (length xs < 4_096)
    go (err e) s = absurd (ground (arith, h, s))
    go (ok none) s = ground (arith, s, no_start xs s)
    go (ok (some kind)) s =
        ground (arith, h, s, short_kind xs kind s, incomplete_kind has_packet xs kind)

is_waiting : (r : Result StreamDecode) → (r ≡ ok need_more) ⊎ (r ≢ ok need_more)
is_waiting (err e) = inr (λ h. cc)
is_waiting (ok (frame f)) = inr (λ h. cc)
is_waiting (ok need_more) = inl refl

after_decode_settled :
    (d : List ℕ × Result StreamDecode) (chunks : List (List ℕ)) (read : List ℕ → ReadFrame)
    → d.1 ≢ ok need_more
    → after_decode d chunks read
      ≡ record { buffer = d.0; unread = chunks; returned = as_returned d.1 }
after_decode_settled (rest, err e) chunks read h = refl
after_decode_settled (rest, ok (frame f)) chunks read h = refl
after_decode_settled (rest, ok need_more) chunks read h = absurd (h refl)

after_decode_waiting :
    (d : List ℕ × Result StreamDecode) (chunks : List (List ℕ)) (read : List ℕ → ReadFrame)
    → d.1 ≡ ok need_more
    → after_decode d chunks read ≡ read d.0
after_decode_waiting (rest, err e) chunks read h = cc
after_decode_waiting (rest, ok (frame f)) chunks read h = cc
after_decode_waiting (rest, ok need_more) chunks read h = refl

abbrev pub Agrees : ReadFrame → List ℕ × Result StreamDecode → Type 0
Agrees out d = (out.returned ≡ as_returned d.1) × (out.buffer ++ concat out.unread ≡ d.0)

-- Reading goes on to a buffer `rest`, with more chunks to come.
settled-Agrees :
    (has_packet : Bool) (buffer : List ℕ) (chunks : List (List ℕ)) (read : List ℕ → ReadFrame)
    → (decode_frame has_packet buffer).1 ≢ ok need_more
    → Agrees
        (after_decode (decode_frame has_packet buffer) chunks read)
        (decode_frame has_packet (buffer ++ concat chunks))
settled-Agrees has_packet buffer chunks read h =
    rw
      (
        after_decode_settled (decode_frame has_packet buffer) chunks read h,
        decode_frame_stable has_packet buffer (concat chunks) h,
      )
      (refl, refl)

waits :
    (has_packet : Bool) (buffer : List ℕ)
    → (decode_frame has_packet buffer).1 ≡ ok need_more
    → read_frame has_packet buffer [] ≡ record { buffer = buffer; unread = []; returned = none }
unfolding read_frame
waits has_packet buffer h =
    after_decode_waiting (decode_frame has_packet buffer) [] _ h
    ∙ ground (arith, incomplete has_packet buffer h)

reads :
    (has_packet : Bool) (buffer chunk : List ℕ) (chunks : List (List ℕ))
    → (decode_frame has_packet buffer).1 ≡ ok need_more
    → 0 < length chunk
    → read_frame has_packet buffer (chunk ∷ chunks) ≡ read_frame has_packet (buffer ++ chunk) chunks
unfolding read_frame
reads has_packet buffer chunk chunks h full =
    let (same, short) = incomplete has_packet buffer h in
    after_decode_waiting (decode_frame has_packet buffer) (chunk ∷ chunks) _ h
    ∙ rw same (ground (arith, short))

-- Whatever the chunks are into which the stream is cut, as long as none is empty, a call of
-- `read_frame` returns what one decoding of the whole stream returns, or waits if that does; what it
-- leaves in the buffer and in the chunks is what the decoding leaves.
pub read_frame-decode_frame :
    (has_packet : Bool) (buffer : List ℕ) (chunks : List (List ℕ))
    → All (λ chunk. 0 < length chunk) chunks
    → Agrees
        (read_frame has_packet buffer chunks)
        (decode_frame has_packet (buffer ++ concat chunks))
unfolding read_frame
read_frame-decode_frame has_packet buffer [] full =
    elim (is_waiting (decode_frame has_packet buffer).1) [
      | inr settled ↦ settled-Agrees has_packet buffer [] _ settled
      | inl waiting ↦
          let (same, short) = incomplete has_packet buffer waiting in
          rw (waits has_packet buffer waiting, append-nil buffer, waiting) (refl, sym same)
    ]
read_frame-decode_frame has_packet buffer (chunk ∷ chunks) full =
    elim (is_waiting (decode_frame has_packet buffer).1) [
      | inr settled ↦ settled-Agrees has_packet buffer (chunk ∷ chunks) _ settled
      | inl waiting ↦
          rw
            (
              reads has_packet buffer chunk chunks waiting full.0,
              ← append_assoc buffer chunk (concat chunks),
            )
            (read_frame-decode_frame has_packet (buffer ++ chunk) chunks full.1)
    ]
