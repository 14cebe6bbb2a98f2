-- ===== src/Framing.antt =====
-- rust-client/turn_stream.rs: TURN frames in a stream of bytes. The socket and its two writer queues
-- are left out; a packet from the pool is there or not (`has_packet`), and a frame is its bytes.
pub mod Prefix
pub mod Reader
mod Tests
use csqtt_android.Shared.{
  ℕ, zero, suc, ◌+◌, ◌-◌, ◌*◌, ◌/◌, ◌%◌, Bool, true, false, not, List, [], ◌∷◌, ◌++◌, Option, none,
  some, ltb, leb, ◌==◌, if◌then◌else◌, length, take, drop, byte_at, u16_at, same_bytes,
}

abbrev pub max_control_frame_bytes : ℕ
max_control_frame_bytes = 4_096

-- `PACKET_CAPACITY - PACKET_HEADROOM`
abbrev pub max_data_frame_bytes : ℕ
max_data_frame_bytes = 2_240

abbrev pub stream_read_buffer_bytes : ℕ
stream_read_buffer_bytes = max_control_frame_bytes

pub data Error : Type 0 where
  unaligned_length control_too_long invalid_cookie reserved_type data_too_long : Error
  buffer_limit stream_closed packet_capacity : Error

pub data Result {ℓ} (A : Type ℓ) : Type ℓ where
  ok : A → Result A
  err : Error → Result A

pub data FrameKind : Type 0 where
  control : ℕ → FrameKind
  channel_data : ℕ → ℕ → FrameKind

abbrev pub magic_cookie : List ℕ
magic_cookie = 0x21 ∷ 0x12 ∷ 0xa4 ∷ 0x42 ∷ []

-- `bytes[0] & 0xc0` is 0 below 64, and 0x40 from there up to 127.
unfoldable pub control_start : List ℕ → ℕ → Result (Option FrameKind)
control_start bytes declared =
    if not (declared % 4 == 0)
    then err unaligned_length
    else if ltb max_control_frame_bytes (20 + declared)
    then err control_too_long
    else if ltb (length bytes) 8
    then ok none
    else if not (same_bytes (take 4 (drop 4 bytes)) magic_cookie)
    then err invalid_cookie
    else ok (some (control (20 + declared)))

unfoldable pub data_start : ℕ → Result (Option FrameKind)
data_start declared =
    let padding = (4 - declared % 4) % 4 in
    if ltb max_data_frame_bytes (4 + declared + padding)
    then err data_too_long
    else ok (some (channel_data (4 + declared) padding))

unfoldable pub frame_start : List ℕ → Result (Option FrameKind)
frame_start bytes =
    if ltb (length bytes) 4
    then ok none
    else if byte_at bytes 0 / 64 % 4 == 0
    then control_start bytes (u16_at bytes 2)
    else if not (byte_at bytes 0 / 64 % 4 == 1)
    then err reserved_type
    else data_start (u16_at bytes 2)

pub data Frame : Type 0 where
  control_frame : List ℕ → Frame
  data_frame : List ℕ → Frame
  data_dropped : Frame

pub data StreamDecode : Type 0 where
  frame : Frame → StreamDecode
  need_more : StreamDecode

-- `set_read_len` fails for more bytes than a packet holds.
unfoldable pub copy_channel_data : Bool → List ℕ → Result StreamDecode
copy_channel_data false wire = ok (frame data_dropped)
copy_channel_data true wire =
    if ltb max_data_frame_bytes (length wire)
    then err packet_capacity
    else ok (frame (data_frame wire))

-- The buffer after the call, and what the call returns.
unfoldable pub decode_kind : Bool → List ℕ → FrameKind → List ℕ × Result StreamDecode
decode_kind has_packet buffer (control frame_bytes) =
    if ltb (length buffer) frame_bytes
    then (buffer, ok need_more)
    else (drop frame_bytes buffer, ok (frame (control_frame (take frame_bytes buffer))))
decode_kind has_packet buffer (channel_data frame_bytes padding) =
    if ltb (length buffer) (frame_bytes + padding) then (buffer, ok need_more) else (
      drop (frame_bytes + padding) buffer,
      copy_channel_data has_packet (take (frame_bytes + padding) buffer),
    )

abbrev pub decode_started : Bool → List ℕ → Result (Option FrameKind) → List ℕ × Result StreamDecode
decode_started has_packet buffer (err e) = (buffer, err e)
decode_started has_packet buffer (ok none) = (buffer, ok need_more)
decode_started has_packet buffer (ok (some kind)) = decode_kind has_packet buffer kind

unfoldable pub decode_frame : Bool → List ℕ → List ℕ × Result StreamDecode
unfolding decode_kind frame_start
decode_frame has_packet buffer = decode_started has_packet buffer (frame_start buffer)

-- What a call of `read_frame` leaves: the buffer, the chunks not yet read, and what it returns;
-- `none` says that it still waits for the socket.
pub record ReadFrame : Type 0 where
  pub buffer : List ℕ
  pub unread : List (List ℕ)
  pub returned : Option (Result Frame)

abbrev pub after_decode :
    List ℕ × Result StreamDecode → List (List ℕ) → (List ℕ → ReadFrame) → ReadFrame
after_decode (rest, err e) chunks read = record {
  buffer = rest;
  unread = chunks;
  returned = some (err e);
}
after_decode (rest, ok (frame f)) chunks read = record {
  buffer = rest;
  unread = chunks;
  returned = some (ok f);
}
after_decode (rest, ok need_more) chunks read = read rest

-- `read_buf` on the chunks that the socket yields, an empty one at its end.
unfoldable pub read_frame : Bool → List ℕ → List (List ℕ) → ReadFrame
read_frame has_packet buffer [] = after_decode (decode_frame has_packet buffer) [] (λ rest.
    if leb stream_read_buffer_bytes (length rest)
    then record { buffer = rest; unread = []; returned = some (err buffer_limit) }
    else record { buffer = rest; unread = []; returned = none })
read_frame has_packet buffer (chunk ∷ chunks) =
    after_decode (decode_frame has_packet buffer) (chunk ∷ chunks) (λ rest.
      if leb stream_read_buffer_bytes (length rest)
      then record { buffer = rest; unread = chunk ∷ chunks; returned = some (err buffer_limit) }
      else if length chunk == 0
      then record { buffer = rest; unread = chunks; returned = some (err stream_closed) }
      else read_frame has_packet (rest ++ chunk) chunks)
