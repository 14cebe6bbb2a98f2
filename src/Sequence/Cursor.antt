-- ===== src/Sequence/Cursor.antt =====
-- The strict cursor: a decoder that follows an encoder (shared/proxy_sequence.rs).
use csqtt_android.Shared.{
  ℕ, ◌+◌, ◌≤◌, ◌<◌, ◌≡◌, refl, sym, ◌∙◌, ap, List, [], ◌++◌, arith, length, take, drop,
  length-append, take-length-append, drop-length-append, length-to_be, from_be-to_be, from_be,
  to_be, word_mod,
}
use csqtt_android.Sequence.{
  StreamSequence, ok, err, gap, offset_overflow, encode_at, encode, decode,
}

-- The header and the body of an encoded chunk.
pub parts-encode_at :
    (offset : ℕ) (bytes : List ℕ)
    → offset < word_mod
    → (from_be (take 8 (encode_at offset bytes)) ≡ offset)
      × (drop 8 (encode_at offset bytes) ≡ bytes)
      × (length (encode_at offset bytes) ≡ 8 + length bytes)
unfolding encode_at
parts-encode_at offset bytes h = (
  ap from_be head ∙ from_be-to_be 8 offset h,
  ap (λ (n : ℕ). drop n (to_be 8 offset ++ bytes)) (sym wide)
      ∙ drop-length-append (to_be 8 offset) bytes,
  length-append (to_be 8 offset) bytes ∙ ap (λ (n : ℕ). n + length bytes) wide,
)
  where
    wide : length (to_be 8 offset) ≡ 8
    wide = length-to_be 8 offset

    head : take 8 (to_be 8 offset ++ bytes) ≡ to_be 8 offset
    head =
        ap (λ (n : ℕ). take n (to_be 8 offset ++ bytes)) (sym wide)
        ∙ take-length-append (to_be 8 offset) bytes

-- What the decoder does with a chunk at any offset: it drops the chunk behind the cursor, refuses
-- the chunk ahead of it, and takes the chunk at the cursor, unless the cursor would overflow.
pub decode-encode_at :
    (s : StreamSequence) (offset : ℕ) (bytes : List ℕ)
    → offset < word_mod
    → (offset < s.offset → decode s (encode_at offset bytes) ≡ (s, ok []))
      × (s.offset < offset → decode s (encode_at offset bytes) ≡ (s, err gap))
      × (offset ≡ s.offset
          → offset + length bytes < word_mod
          → decode s (encode_at offset bytes)
            ≡ (record { offset = offset + length bytes }, ok bytes))
      × (offset ≡ s.offset
          → word_mod ≤ offset + length bytes
          → decode s (encode_at offset bytes) ≡ (s, err offset_overflow))
unfolding decode
decode-encode_at s offset bytes h =
    let (at, body, len) = parts-encode_at offset bytes h in
    (
      λ lt. rw (at, body, len) (ground arith),
      λ lt. rw (at, body, len) (ground arith),
      λ e fits. rw (at, body, len) (ground arith),
      λ e over. rw (at, body, len) (ground arith),
    )

encode-ok :
    (s s' : StreamSequence) (bytes frame : List ℕ)
    → encode s bytes ≡ (s', ok frame)
    → (s.offset + length bytes < word_mod)
      × (s' ≡ record { offset = s.offset + length bytes })
      × (frame ≡ encode_at s.offset bytes)
unfolding encode
encode-ok s s' bytes frame h = ground arith

-- A decoder whose cursor stands where the encoder's did takes the encoded bytes and follows it; a
-- second copy of the frame is then dropped, and leaves the cursor where it is.
pub decode-encode :
    (s s' : StreamSequence) (bytes frame : List ℕ)
    → encode s bytes ≡ (s', ok frame)
    → (decode s frame ≡ (s', ok bytes)) × (0 < length bytes → decode s' frame ≡ (s', ok []))
decode-encode s s' bytes frame h =
    let (fits, moved, wire) = encode-ok s s' bytes frame h in
    let (behind, _, here, _) = decode-encode_at s s.offset bytes (omega arith) in
    let (again, _, _, _) = decode-encode_at s' s.offset bytes (omega arith) in
    (rw (wire, moved) (here refl fits), λ some_bytes. rw wire (again (rw moved (omega arith))))
