-- ===== src/Sequence/Overtaken.antt =====
-- A parked chunk that the cursor passes over is never taken out again, so that the receiver of
-- shared/proxy_sequence.rs goes on waiting with no hole open.
use csqtt_android.Shared.{
  ℕ, zero, suc, ◌+◌, ◌%◌, ◌<◌, ◌≡◌, refl, ◌∙◌, List, [], ◌∷◌, ◌++◌, Option, none, some, arith,
  length, All, length-append, word_mod, Option-cases, inl, inr, Bool-cases, ltb, ◌==◌, ==_iff, true,
  not,
}
use csqtt_android.Sequence.{
  Chunks, lookup, ReorderReceiver, delivered, consume, flush, park, push_chunk, push, encode_at,
  max_buffered, is_waiting, is_empty,
}
use csqtt_android.Sequence.Pending.{lookup-erase_ne}
use csqtt_android.Sequence.Delivery.{IsPart, Tracks, flush-Tracks, consume-Tracks, here-Tracks}
use csqtt_android.Sequence.Stream.{
  IsFrameOf, receive, receive-delivered, receive_rule, offset-lt, push-encode_at, push-Tracks,
}

-- A chunk parked at `o`, behind the cursor.
record IsOvertaken (o : ℕ) (r : ReorderReceiver) : Type 0 where
  chunk : List ℕ
  parked : lookup o r.pending ≡ some chunk
  behind : o < r.expected

moved :
    {o : ℕ} (src out output : List ℕ) (r : ReorderReceiver) (next : List ℕ)
    → length src < word_mod
    → Tracks src (out ++ output) r
    → lookup r.expected r.pending ≡ some next
    → IsOvertaken o r
    → o < (consume r next).expected
moved src out output r next small t e v = omega (
  arith,
  v.behind,
  (consume-Tracks src out output r next small t e).cursor,
  t.cursor,
  length-append out (output ++ next),
  length-append output next,
  length-append out output,
)

-- A flush moves the cursor on only.
flush-IsOvertaken :
    (src out : List ℕ) (o fuel : ℕ) (r : ReorderReceiver) (output : List ℕ)
    → length src < word_mod
    → Tracks src (out ++ output) r
    → IsOvertaken o r
    → IsOvertaken o (flush fuel r output).0
unfolding flush
flush-IsOvertaken src out o zero r output small t v = v
flush-IsOvertaken src out o (suc fuel) r output small t v =
    elim (Option-cases (lookup r.expected r.pending)) [
      | inl e ↦ rw (e, flush) v
      | inr (next, e) ↦
          rw (e, flush)
            (let t' = consume-Tracks src out output r next small t e in
              flush-IsOvertaken src out o fuel (consume r next) (output ++ next) small t' (record {
                chunk = v.chunk;
                parked =
                    lookup-erase_ne r.expected o r.pending (λ p. omega (arith, v.behind))
                    ∙ v.parked;
                behind = moved src out output r next small t e v;
              }))
    ]

park-IsOvertaken :
    (o : ℕ) (r : ReorderReceiver) (offset : ℕ) (chunk : List ℕ) (known : Option (List ℕ))
    → o < offset
    → IsOvertaken o r
    → IsOvertaken o (park r offset chunk known).0
unfolding park lookup
park-IsOvertaken o r offset chunk (some other) h v = v
park-IsOvertaken o r offset chunk none h v =
    elim (Bool-cases (ltb max_buffered (r.buffered_bytes + length chunk))) [
      | inl e ↦ rw e (record { chunk = v.chunk; parked = v.parked; behind = v.behind })
      | inr e ↦
          rw e (record { chunk = v.chunk; parked = ground (arith, v.parked); behind = v.behind })
    ]

push_chunk-IsOvertaken :
    (src out : List ℕ) (o : ℕ) (r : ReorderReceiver) (offset : ℕ) (chunk : List ℕ)
    → length src < word_mod
    → Tracks src out r
    → IsPart src offset chunk
    → IsOvertaken o r
    → IsOvertaken o (push_chunk r offset chunk).0
unfolding push_chunk
push_chunk-IsOvertaken src out o r offset chunk small t p v =
    elim (Bool-cases (ltb offset r.expected)) [
      | inl e ↦ rw e v
      | inr ahead ↦ rw ahead (elim (Bool-cases (offset == r.expected)) [
        | inl hit ↦ rw hit (
            let t' =
              here-Tracks src out r offset chunk small t p ((==_iff offset r.expected).0 hit) in
            flush-IsOvertaken src out o (length r.pending) _ chunk small t' (record {
              chunk = v.chunk;
              parked = v.parked;
              behind = omega (arith, v.behind, t'.cursor, t.cursor, length-append out chunk);
            }))
        | inr miss ↦ rw miss (
            park-IsOvertaken o r offset chunk (lookup offset r.pending)
              (let far : o < offset = ground (arith, v.behind) in far) v)
      ])
    ]

push-IsOvertaken :
    (src out : List ℕ) (o : ℕ) (r : ReorderReceiver) (frame : List ℕ)
    → length src < word_mod
    → Tracks src out r
    → IsFrameOf src frame
    → IsOvertaken o r
    → IsOvertaken o (push r frame).0
push-IsOvertaken src out o r frame small t f v =
    rw (f.wire, push-encode_at r f.offset f.chunk (offset-lt src f.chunk f.offset small f.part))
      (push_chunk-IsOvertaken src out o r f.offset f.chunk small t f.part v)

IsOvertaken-waiting : (o : ℕ) (r : ReorderReceiver) → IsOvertaken o r → is_waiting r ≡ true
unfolding is_waiting lookup
IsOvertaken-waiting o r v = waits r.pending v.parked
  where
    waits : (m : Chunks) → lookup o m ≡ some v.chunk → not (is_empty m) ≡ true
    waits [] e = cc
    waits (c ∷ m) e = refl

push_here :
    (r : ReorderReceiver) (chunk : List ℕ)
    → r.expected < word_mod
    → push r (encode_at r.expected chunk)
      ≡ delivered (
          flush
            (length r.pending)
            (record r { expected = (r.expected + length chunk) % word_mod })
            chunk)
unfolding push_chunk
push_here r chunk h = push-encode_at r r.expected chunk h ∙ ground arith

-- When a chunk at the cursor reaches past the start of a parked chunk, as a replay cut at other
-- places does, the parked chunk stays: the receiver waits for ever, whatever frames of the stream
-- follow, also when all of the stream has been handed on and no hole is left.
pub overtaken_waits_for_ever :
    (src out : List ℕ) (r : ReorderReceiver) (o : ℕ) (parked chunk : List ℕ)
    (frames : List (List ℕ))
    → length src < word_mod
    → Tracks src out r
    → lookup o r.pending ≡ some parked
    → IsPart src r.expected chunk
    → r.expected < o
    → o < r.expected + length chunk
    → All (IsFrameOf src) frames
    → is_waiting (receive r out (encode_at r.expected chunk ∷ frames)).0 ≡ true
overtaken_waits_for_ever src out r o parked chunk frames small t e p ahead inside fs =
    rw
      (receive-delivered r _ out _ _ frames
        (push_here r chunk (offset-lt src chunk r.expected small p)))
      (IsOvertaken-waiting o _
        (receive_rule (λ out r. Tracks src out r × IsOvertaken o r) (IsFrameOf src)
          (λ out r frame f b. (
            push-Tracks src out r frame small b.0 f,
            push-IsOvertaken src out o r frame small b.0 f b.1,
          ))
          frames _ _ fs (flushed, left)).1)
  where
    started :
        Tracks src (out ++ chunk) (record r { expected = (r.expected + length chunk) % word_mod })
    started = here-Tracks src out r r.expected chunk small t p refl

    flushed :
        let f =
          flush
            (length r.pending)
            (record r { expected = (r.expected + length chunk) % word_mod })
            chunk in
        Tracks src (out ++ f.1) f.0
    flushed = flush-Tracks src out (length r.pending) _ chunk small started

    left :
        IsOvertaken o
          (flush
            (length r.pending)
            (record r { expected = (r.expected + length chunk) % word_mod })
            chunk).0
    left = flush-IsOvertaken src out o (length r.pending) _ chunk small started (record {
      chunk = parked;
      parked = e;
      behind = omega (arith, started.cursor, t.cursor, length-append out chunk);
    })
