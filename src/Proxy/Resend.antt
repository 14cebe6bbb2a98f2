-- ===== src/Proxy/Resend.antt =====
-- Everything that the server sends of a stream is part of the stream (rust-server/stream_proxy.rs),
-- so that the client's reorder receiver can put it together.
use csqtt_android.Shared.{
  ℕ, zero, suc, ◌+◌, ◌-◌, ◌≤◌, ◌≡◌, refl, ap, sym, ◌∙◌, List, [], ◌∷◌, ◌++◌, Option, none, some,
  arith, length, take, drop, length-append, length-take, take-append-drop, append_assoc, All, min,
}
use csqtt_android.Sequence.Stream.{IsFrameOf}
use csqtt_android.Proxy.{Outbound, resend_loop, resend_range, resend, max_data, resend_max_frames}

-- The tail is the end of the bytes that were sent.
pub record IsTail (src : List ℕ) (o : Outbound) : Type 0 where
  pub gone : List ℕ
  pub whole : src ≡ gone ++ o.out_tail
  pub at : length src ≡ o.sent.offset

pub part_grows : (src more frame : List ℕ) → IsFrameOf src frame → IsFrameOf (src ++ more) frame
part_grows src more frame f = record {
  offset = f.offset;
  chunk = f.chunk;
  part = record {
    before = f.part.before;
    after = f.part.after ++ more;
    parts =
        ap (λ x. x ++ more) f.part.parts
        ∙ append_assoc f.part.before (f.chunk ++ f.part.after) more
        ∙ ap (λ x. f.part.before ++ x) (append_assoc f.chunk f.part.after more);
    at = f.part.at;
  };
  wire = f.wire;
}

pub All-append :
    (src : List ℕ) (xs ys : List (List ℕ))
    → All (IsFrameOf src) xs
    → All (IsFrameOf src) ys
    → All (IsFrameOf src) (xs ++ ys)
All-append src [] ys p q = q
All-append src (x ∷ xs) ys p q = (p.0, All-append src xs ys p.1 q)

pub All-grow :
    (src more : List ℕ) (xs : List (List ℕ))
    → All (IsFrameOf src) xs
    → All (IsFrameOf (src ++ more)) xs
All-grow src more [] p = tt
All-grow src more (x ∷ xs) p = (part_grows src more x p.0, All-grow src more xs p.1)

resend_loop-IsFrameOf :
    (frames : ℕ) (src before : List ℕ) (cursor : ℕ) (slice : List ℕ)
    → src ≡ before ++ slice
    → length before ≡ cursor
    → All (IsFrameOf src) (resend_loop frames cursor slice)
unfolding resend_loop
resend_loop-IsFrameOf zero src before cursor slice e h = tt
resend_loop-IsFrameOf (suc frames) src before cursor [] e h = tt
resend_loop-IsFrameOf (suc frames) src before cursor (b ∷ slice) e h = (
  record {
    offset = cursor;
    chunk = take n (b ∷ slice);
    part = record { before = before; after = drop n (b ∷ slice); parts = split; at = h };
    wire = refl;
  },
  resend_loop-IsFrameOf frames src (before ++ take n (b ∷ slice)) (cursor + n) (drop n (b ∷ slice))
      (split ∙ sym (append_assoc before (take n (b ∷ slice)) (drop n (b ∷ slice))))
      (omega (arith, h, length-append before (take n (b ∷ slice)), length-take n (b ∷ slice))),
)
  where
    n : ℕ
    n = min (length (b ∷ slice)) max_data

    split : src ≡ before ++ (take n (b ∷ slice) ++ drop n (b ∷ slice))
    split = e ∙ ap (λ x. before ++ x) (sym (take-append-drop n (b ∷ slice)))

range_start :
    (tail_len total offset start : ℕ)
    → resend_range tail_len total offset ≡ some start
    → tail_len ≤ total
    → (total - tail_len + start ≡ offset) × (start ≤ tail_len)
unfolding resend_range
range_start tail_len total offset start h le = ground (arith, h)

pub resend-IsFrameOf :
    (src : List ℕ) (o : Outbound) (offset : ℕ)
    → IsTail src o
    → All (IsFrameOf src) (resend o offset)
unfolding resend
resend-IsFrameOf src o offset t = go (resend_range (length o.out_tail) o.sent.offset offset) refl
  where
    tail : List ℕ
    tail = o.out_tail

    long : length src ≡ length t.gone + length tail
    long = ap length t.whole ∙ length-append t.gone tail

    go :
        (range : Option ℕ)
        → resend_range (length o.out_tail) o.sent.offset offset ≡ range
        → All (IsFrameOf src) (elim range [
          | none ↦ []
          | some start ↦ resend_loop resend_max_frames offset (drop start o.out_tail)
        ])
    go none e = tt
    go (some start) e =
        let (at, le) =
          range_start (length tail) o.sent.offset offset start e (omega (arith, long, t.at)) in
        resend_loop-IsFrameOf resend_max_frames src (t.gone ++ take start tail) offset
          (drop start tail)
          (t.whole
            ∙ ap (λ x. t.gone ++ x) (sym (take-append-drop start tail))
            ∙ sym (append_assoc t.gone (take start tail) (drop start tail)))
          (omega (
            arith,
            at,
            le,
            long,
            t.at,
            length-append t.gone (take start tail),
            length-take start tail,
          ))
