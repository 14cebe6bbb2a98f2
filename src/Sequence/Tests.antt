-- ===== src/Sequence/Tests.antt =====
-- shared/proxy_sequence.rs at concrete inputs.
use csqtt_android.Shared.{
  ℕ, ◌<◌, ◌≤◌, ◌≡◌, refl, List, [], ◌∷◌, ◌++◌, some, arith, length, true, ◌⊎◌, All, drop, from_be,
  to_be,
}
use csqtt_android.Sequence.{
  StreamSequence, ReorderReceiver, ok, err, missing_offset, new, encode, encode_at, decode, push,
  push_chunk, flush, park, lookup, erase, is_waiting, missing_offset_of,
}
use csqtt_android.Sequence.Cursor.{decode-encode}
use csqtt_android.Sequence.Delivery.{IsPart}
use csqtt_android.Sequence.Stream.{IsFrameOf, receive, received_is_head}
use csqtt_android.Sequence.Window.{Kept, new-IsWindow, push-IsWindow}
use csqtt_android.Sequence.Overtaken.{overtaken_waits_for_ever}

abbrev stream : List ℕ
stream = 10 ∷ 11 ∷ 12 ∷ 13 ∷ 14 ∷ 15 ∷ []

abbrev at_three : StreamSequence
at_three = record { offset = 3 }

abbrev second_half : List ℕ
second_half = encode_at 3 (13 ∷ 14 ∷ 15 ∷ [])

-- The second half first: it is parked, and comes out behind the first half.
abbrev swapped : List (List ℕ)
swapped = second_half ∷ encode_at 0 (10 ∷ 11 ∷ 12 ∷ []) ∷ []

receive-swapped : (receive new [] swapped).1 ≡ stream
unfolding receive push push_chunk flush park lookup erase encode_at from_be to_be
receive-swapped = refl

-- The replay of the whole stream passes over the parked half.
receive-replayed :
    let (r, out) = receive new [] (second_half ∷ encode_at 0 stream ∷ []) in
    (out ≡ stream) × (is_waiting r ≡ true) × (missing_offset_of r ≡ some 6) × (r.buffered_bytes ≡ 3)
unfolding receive push push_chunk flush park lookup erase encode_at from_be to_be is_waiting
    missing_offset_of
receive-replayed = (refl, refl, refl, refl)

decode-encode_example :
    (decode at_three second_half ≡ (record { offset = 6 }, ok (13 ∷ 14 ∷ 15 ∷ [])))
    × (0 < 3 → decode (record { offset = 6 }) second_half ≡ (record { offset = 6 }, ok []))
unfolding encode encode_at
decode-encode_example =
    decode-encode at_three (record { offset = 6 }) (13 ∷ 14 ∷ 15 ∷ []) second_half refl

first-IsPart : IsPart stream 0 stream
first-IsPart = record { before = []; after = []; parts = refl; at = refl }

second-IsPart : IsPart stream 3 (13 ∷ 14 ∷ 15 ∷ [])
second-IsPart = record { before = 10 ∷ 11 ∷ 12 ∷ []; after = []; parts = refl; at = refl }

swapped-IsFrameOf : All (IsFrameOf stream) swapped
swapped-IsFrameOf = (
  record { offset = 3; chunk = 13 ∷ 14 ∷ 15 ∷ []; part = second-IsPart; wire = refl },
  (
    record {
      offset = 0;
      chunk = 10 ∷ 11 ∷ 12 ∷ [];
      part = record { before = []; after = 13 ∷ 14 ∷ 15 ∷ []; parts = refl; at = refl };
      wire = refl;
    },
    tt,
  ),
)

received_is_head_example :
    let (r, out) = receive new [] swapped in
    (length out ≡ r.expected) × ((rest : List ℕ) × (stream ≡ out ++ rest))
received_is_head_example = received_is_head stream swapped (omega arith) swapped-IsFrameOf

push-IsWindow_example :
    ((length second_half < 8) × (push new second_half ≡ (new, err missing_offset)))
    ⊎ ((8 ≤ length second_half) × Kept new (drop 8 second_half) (push new second_half))
push-IsWindow_example = push-IsWindow new second_half new-IsWindow

-- The second half of the stream is parked at 3.
abbrev half_parked : ReorderReceiver
half_parked = record { expected = 0; pending = (3, 13 ∷ 14 ∷ 15 ∷ []) ∷ []; buffered_bytes = 3 }

overtaken_waits_for_ever_example :
    is_waiting (receive half_parked [] (encode_at 0 stream ∷ second_half ∷ [])).0 ≡ true
unfolding lookup
overtaken_waits_for_ever_example =
    overtaken_waits_for_ever stream [] half_parked 3 (13 ∷ 14 ∷ 15 ∷ []) stream (second_half ∷ [])
      (omega arith)
      (record { rest = stream; head = refl; cursor = refl; parked = (second-IsPart, tt) }) refl
      first-IsPart (omega arith) (omega arith) (swapped-IsFrameOf.0, tt)
