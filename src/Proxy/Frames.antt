-- ===== src/Proxy/Frames.antt =====
-- Frames come back from their bytes, and which addresses are dialled.
use csqtt_android.Shared.{
  ℕ, ◌+◌, ◌<◌, ◌≡◌, List, some, arith, length, to_be, from_be-to_be, length-to_be, starts_with,
  length-append, take_append, drop_append, word_mod,
}
use csqtt_android.Proxy.{is_frame, parse_frame, encode_frame}

length-encode_frame :
    (kind stream_id : ℕ) (payload : List ℕ)
    → length (encode_frame kind stream_id payload) ≡ 15 + length payload
unfolding encode_frame
length-encode_frame kind stream_id payload =
    omega (arith, length-append (to_be 8 stream_id) payload, length-to_be 8 stream_id)

-- A frame that either end writes is a frame for the other, which reads its kind, its stream and its
-- payload back; the stream is a 64-bit number.
pub parse_frame-encode_frame :
    (kind stream_id : ℕ) (payload : List ℕ)
    → stream_id < word_mod
    → parse_frame (encode_frame kind stream_id payload)
      ≡ some (record { kind = kind; stream_id = stream_id; payload = payload })
unfolding parse_frame encode_frame is_frame starts_with
parse_frame-encode_frame kind stream_id payload h = ground (
  arith,
  length-encode_frame kind stream_id payload,
  take_append 8 (to_be 8 stream_id) payload (length-to_be 8 stream_id),
  drop_append 8 (to_be 8 stream_id) payload (length-to_be 8 stream_id),
  from_be-to_be 8 stream_id (omega arith),
)
