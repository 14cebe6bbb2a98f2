-- ===== src/Proxy.antt =====
-- The frames of proxied streams (rust-server/stream_proxy.rs and rust-client/stream_proxy.rs, which
-- read and write them in the same way), and what the server keeps to send again.
pub mod Frames
pub mod Resend
pub mod Sent
mod Tests
use csqtt_android.Shared.{
  ℕ, zero, suc, ◌+◌, ◌-◌, ◌*◌, ◌%◌, Bool, true, false, not, ◌||◌, ◌&&◌, List, [], ◌∷◌, ◌++◌, Option,
  none, some, ltb, leb, ◌==◌, if◌then◌else◌, length, take, drop, byte_at, u16_at, from_be, to_be,
  starts_with, min, same_bytes,
}
use csqtt_android.Shared.{ascii}
use csqtt_android.Sequence.{StreamSequence, Result, ok, err, encode, encode_at}

abbrev pub magic : List ℕ
magic = ascii "CSQPX2"

abbrev pub header_len : ℕ
header_len = 15

abbrev pub max_data : ℕ
max_data = 1_280

abbrev pub resend_buffer_bytes : ℕ
resend_buffer_bytes = 131_072

abbrev pub resend_max_frames : ℕ
resend_max_frames = 128

pub record Frame : Type 0 where
  pub kind : ℕ
  pub stream_id : ℕ
  pub payload : List ℕ

unfoldable pub is_frame : List ℕ → Bool
is_frame payload = leb header_len (length payload) && starts_with magic payload

unfoldable pub parse_frame : List ℕ → Option Frame
parse_frame payload =
    if not (is_frame payload)
    then none
    else some (record {
      kind = byte_at payload 6;
      stream_id = from_be (take 8 (drop 7 payload));
      payload = drop header_len payload;
    })

unfoldable pub encode_frame : ℕ → ℕ → List ℕ → List ℕ
encode_frame kind stream_id payload = magic ++ (kind ∷ (to_be 8 stream_id ++ payload))

-- `replayable` of the client: whether the bytes that a caller sent may be sent once more.
unfoldable pub replayable : List ℕ → Bool
replayable [] = true
replayable (b ∷ parked) =
    starts_with (ascii "GET ") (b ∷ parked)
    || (starts_with (ascii "HEAD ") (b ∷ parked)
        || (starts_with (ascii "OPTIONS ") (b ∷ parked)
            || starts_with (ascii "TRACE ") (b ∷ parked)))

-- The addresses of IPv4 that are never dialled, and the private ones, by their octets.
abbrev pub is_private_v4 : List ℕ → Bool
is_private_v4 o =
    byte_at o 0 == 10
    || ((byte_at o 0 == 172 && (leb 16 (byte_at o 1) && leb (byte_at o 1) 31))
        || (byte_at o 0 == 192 && byte_at o 1 == 168))

unfoldable pub allowed_v4 : List ℕ → Bool → Bool
allowed_v4 o allow_private =
    not (same_bytes o (0 ∷ 0 ∷ 0 ∷ 0 ∷ []))
    && (not (byte_at o 0 == 127)
        && (not (leb 224 (byte_at o 0) && leb (byte_at o 0) 239)
            && (not (same_bytes o (255 ∷ 255 ∷ 255 ∷ 255 ∷ []))
                && (allow_private
                    || (not (byte_at o 0 == 169 && byte_at o 1 == 254) && not (is_private_v4 o))))))

-- `Range within the resend tail reachable from offset`; the second test never holds.
unfoldable pub resend_range : ℕ → ℕ → ℕ → Option ℕ
resend_range out_tail_len out_total offset =
    let oldest = out_total - out_tail_len in
    if ltb offset oldest || leb out_total offset
    then none
    else if ltb out_tail_len (offset - oldest)
    then none
    else some (offset - oldest)

-- What `run_stream` keeps of the bytes that it sends.
pub record Outbound : Type 0 where
  pub sent : StreamSequence
  pub out_tail : List ℕ

abbrev pub new : Outbound
new = record { sent = record { offset = 0 }; out_tail = [] }

-- `drain(..overflow)`
abbrev pub last_bytes : List ℕ → List ℕ
last_bytes tail = drop (length tail - resend_buffer_bytes) tail

-- Bytes that were read from the target: the payload of the DATA frame.
unfoldable pub send_data : Outbound → List ℕ → Outbound × Result (List ℕ)
send_data o plaintext =
    let s = encode o.sent plaintext in
    (record { sent = s.0; out_tail = last_bytes (o.out_tail ++ plaintext) }, s.1)

-- The loop of a RESEND, with the frames that may still be sent.
unfoldable pub resend_loop : ℕ → ℕ → List ℕ → List (List ℕ)
resend_loop zero cursor slice = []
resend_loop (suc frames) cursor [] = []
resend_loop (suc frames) cursor (b ∷ slice) =
    let n = min (length (b ∷ slice)) max_data in
    encode_at cursor (take n (b ∷ slice)) ∷ resend_loop frames (cursor + n) (drop n (b ∷ slice))

unfoldable pub resend : Outbound → ℕ → List (List ℕ)
resend o offset = elim (resend_range (length o.out_tail) o.sent.offset offset) [
  | none ↦ []
  | some start ↦ resend_loop resend_max_frames offset (drop start o.out_tail)
]

-- A turn of the loop of `run_stream` that sends.
pub data Event : Type 0 where
  read : List ℕ → Event
  ask : ℕ → Event

abbrev pub prepend_ok : Result (List ℕ) → List (List ℕ) → List (List ℕ)
prepend_ok (ok payload) rest = payload ∷ rest
prepend_ok (err e) rest = []

-- The payloads of all DATA frames of a run; an error ends it.
unfoldable pub run_stream : Outbound → List Event → List (List ℕ)
run_stream o [] = []
run_stream o (read plaintext ∷ events) =
    prepend_ok (send_data o plaintext).1 (run_stream (send_data o plaintext).0 events)
run_stream o (ask offset ∷ events) = resend o offset ++ run_stream o events
