-- ===== src/Proxy/Tests.antt =====
-- A stream of five bytes in two chunks, of which the first is lost and sent again.
use csqtt_android.Shared.{ℕ, ◌≡◌, ◌++◌, List, [], ◌∷◌, some, arith, length}
use csqtt_android.Sequence
use csqtt_android.Sequence.Stream.{receive}
use csqtt_android.Proxy.{Event, read, ask, new, run_stream, parse_frame, encode_frame}
use csqtt_android.Proxy.Frames.{parse_frame-encode_frame}
use csqtt_android.Proxy.Sent.{carried, stream_arrives}

abbrev events : List Event
events = read (1 ∷ 2 ∷ []) ∷ read (3 ∷ 4 ∷ 5 ∷ []) ∷ ask 0 ∷ []

stream_arrives_example :
    let (r, out) = receive Sequence.new [] (carried (1 ∷ 2 ∷ []) (run_stream new events)) in
    (length out ≡ r.expected) × ((rest : List ℕ) × (1 ∷ 2 ∷ 3 ∷ 4 ∷ 5 ∷ [] ≡ out ++ rest))
stream_arrives_example = stream_arrives events (1 ∷ 2 ∷ []) (omega arith)

parse_frame-encode_frame_example :
    parse_frame (encode_frame 4 77 (9 ∷ 8 ∷ []))
    ≡ some (record { kind = 4; stream_id = 77; payload = 9 ∷ 8 ∷ [] })
parse_frame-encode_frame_example = parse_frame-encode_frame 4 77 (9 ∷ 8 ∷ []) (omega arith)
