-- ===== src/Sequence/Stream.antt =====
-- A whole run of `ReorderReceiver` over the frames of a sender (shared/proxy_sequence.rs).
use csqtt_android.Shared.{
  ℕ, ◌<◌, ◌≡◌, refl, ap, List, [], ◌∷◌, ◌++◌, Option, none, some, arith, length, All, append-nil,
  length-append, word_mod,
}
use csqtt_android.Sequence.{
  ReorderReceiver, Result, ok, err, new, delivered, push_chunk, push, encode_at,
}
use csqtt_android.Sequence.Cursor.{parts-encode_at}
use csqtt_android.Sequence.Delivery.{IsPart, Tracks, handed, push_chunk-Tracks}

-- A frame of the sender: some part of its stream, at its offset.
pub record IsFrameOf (src frame : List ℕ) : Type 0 where
  pub offset : ℕ
  pub chunk : List ℕ
  pub part : IsPart src offset chunk
  pub wire : frame ≡ encode_at offset chunk

pub offset-lt :
    (src chunk : List ℕ) (offset : ℕ)
    → length src < word_mod
    → IsPart src offset chunk
    → offset < word_mod
offset-lt src chunk offset small p =
    omega (arith, ap length p.parts, length-append p.before (chunk ++ p.after))

pub push-encode_at :
    (r : ReorderReceiver) (offset : ℕ) (chunk : List ℕ)
    → offset < word_mod
    → push r (encode_at offset chunk) ≡ push_chunk r offset chunk
unfolding push
push-encode_at r offset chunk h =
    let (at, body, len) = parts-encode_at offset chunk h in rw (at, body, len) (ground arith)

pub push-Tracks :
    (src out : List ℕ) (r : ReorderReceiver) (frame : List ℕ)
    → length src < word_mod
    → Tracks src out r
    → IsFrameOf src frame
    → Tracks src (out ++ handed (push r frame).1) (push r frame).0
push-Tracks src out r frame small t f =
    rw (f.wire, push-encode_at r f.offset f.chunk (offset-lt src f.chunk f.offset small f.part))
      (push_chunk-Tracks src out r f.offset f.chunk small t f.part)

-- The frames of a connection in the order of their arrival, and the bytes written to the socket.
-- The first error ends the stream.
unfoldable pub receive : ReorderReceiver → List ℕ → List (List ℕ) → ReorderReceiver × List ℕ
receive r out [] = (r, out)
receive r out (frame ∷ frames) =
    let (r', result) = push r frame in
    elim result [
      | ok none ↦ receive r' out frames
      | ok (some output) ↦ receive r' (out ++ output) frames
      | err e ↦ (r', out)
    ]

-- A push that hands bytes on.
pub receive-delivered :
    (r r' : ReorderReceiver) (out output frame : List ℕ) (frames : List (List ℕ))
    → push r frame ≡ delivered (r', output)
    → receive r out (frame ∷ frames) ≡ receive r' (out ++ output) frames
unfolding receive
receive-delivered r r' out output frame frames e = ap continue e
  where
    continue : ReorderReceiver × Result (Option (List ℕ)) → ReorderReceiver × List ℕ
    continue q = elim q.1 [
      | ok none ↦ receive q.0 out frames
      | ok (some more) ↦ receive q.0 (out ++ more) frames
      | err x ↦ (q.0, out)
    ]

-- What every push keeps, the whole run keeps.
pub receive_rule {ℓ κ} :
    (P : List ℕ → ReorderReceiver → Type ℓ) (F : List ℕ → Type κ)
    → ((out : List ℕ) (r : ReorderReceiver) (frame : List ℕ)
        → F frame
        → P out r
        → P (out ++ handed (push r frame).1) (push r frame).0)
    → (frames : List (List ℕ)) (out : List ℕ) (r : ReorderReceiver) → All F frames
    → P out r
    → P (receive r out frames).1 (receive r out frames).0
unfolding receive
receive_rule P F keep [] out r fs p = p
receive_rule P F keep (frame ∷ frames) out r fs p =
    go (push r frame).0 (push r frame).1 (keep out r frame fs.0 p)
      (λ out' r' p'. receive_rule P F keep frames out' r' fs.1 p')
  where
    after : ReorderReceiver → Result (Option (List ℕ)) → ReorderReceiver × List ℕ
    after r' result = elim result [
      | ok none ↦ receive r' out frames
      | ok (some output) ↦ receive r' (out ++ output) frames
      | err e ↦ (r', out)
    ]

    go :
        (r' : ReorderReceiver) (result : Result (Option (List ℕ)))
        → P (out ++ handed result) r'
        → ((out' : List ℕ) (r'' : ReorderReceiver)
            → P out' r''
            → P (receive r'' out' frames).1 (receive r'' out' frames).0)
        → P (after r' result).1 (after r' result).0
    go r' (ok none) p' ih = ih out r' (rw append-nil at p')
    go r' (ok (some output)) p' ih = ih (out ++ output) r' p'
    go r' (err e) p' ih = rw append-nil at p'

-- Whatever frames of one stream arrive, in whatever order, lost, repeated or cut at other places
-- than before, the bytes handed on are exactly the head of that stream up to the cursor, if the
-- stream has fewer than 2 ^ 64 bytes.
pub received_is_head :
    (src : List ℕ) (frames : List (List ℕ))
    → length src < word_mod
    → All (IsFrameOf src) frames
    → let (r, out) = receive new [] frames in
      (length out ≡ r.expected) × ((rest : List ℕ) × (src ≡ out ++ rest))
received_is_head src frames small fs =
    let t =
      receive_rule (Tracks src) (IsFrameOf src)
        (λ out r frame f t. push-Tracks src out r frame small t f) frames [] new fs
        (record { rest = src; head = refl; cursor = refl; parked = tt }) in
    (t.cursor, (t.rest, t.head))
