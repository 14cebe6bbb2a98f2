-- ===== src/Proxy/Sent.antt =====
-- From the bytes that the server reads to those that the client hands on, over any network.
use csqtt_android.Shared.{
  ℕ, zero, suc, ◌+◌, ◌-◌, ◌<◌, ◌≡◌, refl, ap, sym, subst, ◌∙◌, List, [], ◌∷◌, ◌++◌, Option, none,
  some, arith, length, take, drop, length-append, take-append-drop, word_mod, append_assoc,
  append-nil, All, get_elem?,
}
use csqtt_android.Sequence.{
  StreamSequence, Result, ok, err, encode, encode_at, advance, ReorderReceiver,
}
use csqtt_android.Sequence
use csqtt_android.Sequence.Delivery.{IsPart}
use csqtt_android.Sequence.Stream.{IsFrameOf, receive, received_is_head}
use csqtt_android.Proxy.{
  Outbound, new, send_data, resend, Event, read, ask, prepend_ok, run_stream, resend_buffer_bytes,
}
use csqtt_android.Proxy.Resend.{IsTail, part_grows, All-append, All-grow, resend-IsFrameOf}

encoded :
    (s : StreamSequence) (bytes : List ℕ)
    → s.offset + length bytes < word_mod
    → encode s bytes ≡ (record { offset = s.offset + length bytes }, ok (encode_at s.offset bytes))
unfolding encode advance
encoded s bytes h = ground (arith, h)

sent-IsPart : (src plaintext : List ℕ) → IsPart (src ++ plaintext) (length src) plaintext
sent-IsPart src plaintext = record {
  before = src;
  after = [];
  parts = ap (λ x. src ++ x) (sym (append-nil plaintext));
  at = refl;
}

-- A sent chunk is a part of the stream so far, and the tail goes on.
send_data_lem :
    (src : List ℕ) (o : Outbound) (plaintext : List ℕ)
    → IsTail src o
    → length src + length plaintext < word_mod
    → ((send_data o plaintext).1 ≡ ok (encode_at (length src) plaintext))
      × IsTail (src ++ plaintext) (send_data o plaintext).0
unfolding send_data
send_data_lem src o plaintext t h =
    let e = encoded o.sent plaintext (omega (arith, t.at)) in
    (
      rw (e, t.at) refl,
      record {
        gone = t.gone ++ take over (o.out_tail ++ plaintext);
        whole =
            ap (λ x. x ++ plaintext) t.whole
            ∙ append_assoc t.gone o.out_tail plaintext
            ∙ ap (λ x. t.gone ++ x) (sym (take-append-drop over (o.out_tail ++ plaintext)))
            ∙ sym (
                append_assoc t.gone (take over (o.out_tail ++ plaintext))
                  (drop over (o.out_tail ++ plaintext)));
        at = length-append src plaintext ∙ rw e (omega (arith, t.at));
      },
    )
  where
    over : ℕ
    over = length (o.out_tail ++ plaintext) - resend_buffer_bytes

-- The bytes that a run reads.
abbrev pub bytes_read : List Event → List ℕ
bytes_read [] = []
bytes_read (read plaintext ∷ events) = plaintext ++ bytes_read events
bytes_read (ask offset ∷ events) = bytes_read events

run-IsFrameOf :
    (src : List ℕ) (o : Outbound) (events : List Event)
    → IsTail src o
    → length src + length (bytes_read events) < word_mod
    → All (IsFrameOf (src ++ bytes_read events)) (run_stream o events)
unfolding run_stream
run-IsFrameOf src o [] t h = tt
run-IsFrameOf src o (ask offset ∷ events) t h =
    All-append (src ++ bytes_read events) (resend o offset) (run_stream o events)
      (All-grow src (bytes_read events) (resend o offset) (resend-IsFrameOf src o offset t))
      (run-IsFrameOf src o events t h)
run-IsFrameOf src o (read plaintext ∷ events) t h =
    let room : length src + length plaintext < word_mod =
      omega (arith, length-append plaintext (bytes_read events)) in
    let (e, next) = send_data_lem src o plaintext t room in
    subst
      (λ s.
        All (IsFrameOf s)
          (prepend_ok (send_data o plaintext).1 (run_stream (send_data o plaintext).0 events)))
      (append_assoc src plaintext (bytes_read events))
      (rw e (
        first,
        run-IsFrameOf (src ++ plaintext) (send_data o plaintext).0 events next (
            omega
              (arith, length-append plaintext (bytes_read events), length-append src plaintext)),
      ))
  where
    first : IsFrameOf ((src ++ plaintext) ++ bytes_read events) (encode_at (length src) plaintext)
    first =
        part_grows (src ++ plaintext) (bytes_read events) (encode_at (length src) plaintext)
          (record {
            offset = length src;
            chunk = plaintext;
            part = sent-IsPart src plaintext;
            wire = refl;
          })

-- A network hands over the frames whose numbers stand in a list: in any order, some not at all,
-- some more than once.
abbrev pub carried : List ℕ → List (List ℕ) → List (List ℕ)
carried [] frames = []
carried (i ∷ order) frames = elim (get_elem? frames i) [
  | none ↦ carried order frames
  | some frame ↦ frame ∷ carried order frames
]

All-get :
    (src : List ℕ) (frames : List (List ℕ)) (i : ℕ) (frame : List ℕ)
    → All (IsFrameOf src) frames
    → get_elem? frames i ≡ some frame
    → IsFrameOf src frame
All-get src [] i frame p h = absurd (cc)
All-get src (x ∷ frames) zero frame p h = subst (IsFrameOf src) (cc) p.0
All-get src (x ∷ frames) (suc i) frame p h = All-get src frames i frame p.1 h

All-carried :
    (src : List ℕ) (order : List ℕ) (frames : List (List ℕ))
    → All (IsFrameOf src) frames
    → All (IsFrameOf src) (carried order frames)
All-carried src [] frames p = tt
All-carried src (i ∷ order) frames p = go (get_elem? frames i) refl (All-carried src order frames p)
  where
    go :
        (found : Option (List ℕ))
        → get_elem? frames i ≡ found
        → All (IsFrameOf src) (carried order frames)
        → All
            (IsFrameOf src)
            (elim found [ none ↦ carried order frames | some frame ↦ frame ∷ carried order frames ])
    go none e rest = rest
    go (some frame) e rest = (All-get src frames i frame p e, rest)

-- Whatever the server reads from the target and is asked to send again, and whatever the network
-- loses, repeats or reorders of what it sends, the bytes that the receiver at the other end hands on
-- are exactly the head, up to its cursor, of the bytes that the server read, if these are fewer than
-- 2 ^ 64.
pub stream_arrives :
    (events : List Event) (order : List ℕ)
    → length (bytes_read events) < word_mod
    → let (r, out) = receive Sequence.new [] (carried order (run_stream new events)) in
      (length out ≡ r.expected) × ((rest : List ℕ) × (bytes_read events ≡ out ++ rest))
stream_arrives events order h =
    received_is_head (bytes_read events) (carried order (run_stream new events)) h (
      All-carried (bytes_read events) order (run_stream new events)
        (run-IsFrameOf [] new events (record { gone = []; whole = refl; at = refl }) (omega arith)))
