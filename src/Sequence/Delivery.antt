-- ===== src/Sequence/Delivery.antt =====
-- What `ReorderReceiver` hands on is the sender's stream, whatever order its chunks arrive in.
use csqtt_android.Shared.{
  ℕ, zero, suc, ◌+◌, ◌%◌, ◌<◌, ◌≡◌, refl, sym, subst, ap, ap₂, ◌∙◌, List, [], ◌∷◌, ◌++◌, Option,
  none, some, arith, length, All, append_assoc, append-nil, length-append, word_mod, Option-cases,
  inl, inr, Bool-cases, ltb, ◌==◌, ==_iff,
}
use mathlib.Core.Path.{subst₂}
use csqtt_android.Sequence.{
  Chunks, lookup, erase, ReorderReceiver, Result, ok, err, consume, flush, park, push_chunk,
  max_buffered,
}

-- `chunk` is the part of the stream `src` at `offset`.
pub record IsPart (src : List ℕ) (offset : ℕ) (chunk : List ℕ) : Type 0 where
  pub before : List ℕ
  pub after : List ℕ
  pub parts : src ≡ before ++ (chunk ++ after)
  pub at : length before ≡ offset

abbrev pub PartsOf : List ℕ → Chunks → Type 0
PartsOf src = All (λ c. IsPart src c.0 c.1)

-- The receiver has handed on `out`, the head of the stream up to its cursor, and what it has
-- parked is of the stream.
pub record Tracks (src out : List ℕ) (r : ReorderReceiver) : Type 0 where
  pub rest : List ℕ
  pub head : src ≡ out ++ rest
  pub cursor : length out ≡ r.expected
  pub parked : PartsOf src r.pending

-- Two heads of one list that are as long are the same.
heads_agree : (a b c d : List ℕ) → a ++ b ≡ c ++ d → length a ≡ length c → a ≡ c
heads_agree [] b [] d e h = refl
heads_agree [] b (y ∷ c) d e h = absurd (omega arith)
heads_agree (x ∷ a) b [] d e h = absurd (omega arith)
heads_agree (x ∷ a) b (y ∷ c) d e h = ap₂ ◌∷◌ (cc) (heads_agree a b c d (cc) (omega arith))

lookup-IsPart :
    (src : List ℕ) (k : ℕ) (m : Chunks) (chunk : List ℕ)
    → PartsOf src m
    → lookup k m ≡ some chunk
    → IsPart src k chunk
unfolding lookup
lookup-IsPart src k [] chunk p h = cc
lookup-IsPart src k ((i, other) ∷ m) chunk p h = elim (Bool-cases (i == k)) [
  | inl hit ↦
      subst₂ (IsPart src) ((==_iff i k).0 hit) (let e : some other ≡ some chunk = rw hit at h in cc)
        p.0
  | inr miss ↦ lookup-IsPart src k m chunk p.1 (rw miss at h)
]

erase-PartsOf : (src : List ℕ) (k : ℕ) (m : Chunks) → PartsOf src m → PartsOf src (erase k m)
unfolding erase
erase-PartsOf src k [] p = p
erase-PartsOf src k ((i, other) ∷ m) p = elim (Bool-cases (i == k)) [
  | inl hit ↦ rw hit p.1
  | inr miss ↦ rw miss (p.0, erase-PartsOf src k m p.1)
]

-- A part of the stream that starts where `out` ends goes on from it.
extend :
    (src out chunk : List ℕ) (n : ℕ) (rest : List ℕ)
    → src ≡ out ++ rest
    → length out ≡ n
    → IsPart src n chunk
    → (more : List ℕ) × (src ≡ (out ++ chunk) ++ more)
extend src out chunk n rest e len p = (p.after, p.parts ∙ regroup)
  where
    same : p.before ≡ out
    same = heads_agree p.before (chunk ++ p.after) out rest (sym p.parts ∙ e) (p.at ∙ sym len)

    regroup : p.before ++ (chunk ++ p.after) ≡ (out ++ chunk) ++ p.after
    regroup =
        ap (λ (l : List ℕ). l ++ (chunk ++ p.after)) same ∙ sym (append_assoc out chunk p.after)

-- A cursor that follows a stream shorter than its word does not wrap.
advance_cursor :
    (src out chunk more : List ℕ) (n : ℕ)
    → length src < word_mod
    → src ≡ (out ++ chunk) ++ more
    → length out ≡ n
    → length (out ++ chunk) ≡ (n + length chunk) % word_mod
advance_cursor src out chunk more n small split len =
    omega (arith, ap length split, length-append (out ++ chunk) more, length-append out chunk)

pub consume-Tracks :
    (src out output : List ℕ) (r : ReorderReceiver) (next : List ℕ)
    → length src < word_mod
    → Tracks src (out ++ output) r
    → lookup r.expected r.pending ≡ some next
    → Tracks src (out ++ (output ++ next)) (consume r next)
consume-Tracks src out output r next small t e =
    let (more, split) =
      extend src (out ++ output) next r.expected t.rest t.head t.cursor
        (lookup-IsPart src r.expected r.pending next t.parked e) in
    record {
      rest = more;
      head = split ∙ ap (λ (l : List ℕ). l ++ more) (append_assoc out output next);
      cursor =
          ap length (sym (append_assoc out output next))
          ∙ advance_cursor src (out ++ output) next more r.expected small split t.cursor;
      parked = erase-PartsOf src r.expected r.pending t.parked;
    }

pub flush-Tracks :
    (src out : List ℕ) (fuel : ℕ) (r : ReorderReceiver) (output : List ℕ)
    → length src < word_mod
    → Tracks src (out ++ output) r
    → Tracks src (out ++ (flush fuel r output).1) (flush fuel r output).0
unfolding flush
flush-Tracks src out zero r output small t = t
flush-Tracks src out (suc fuel) r output small t =
    elim (Option-cases (lookup r.expected r.pending)) [
      | inl e ↦ rw (e, flush) t
      | inr (next, e) ↦
          rw (e, flush)
            (flush-Tracks src out fuel (consume r next) (output ++ next) small
              (consume-Tracks src out output r next small t e))
    ]

-- What a push hands on.
abbrev pub handed : Result (Option (List ℕ)) → List ℕ
handed (ok (some output)) = output
handed (ok none) = []
handed (err e) = []

-- Nothing is handed on, and what is parked is of the stream.
still :
    (src out : List ℕ) (r : ReorderReceiver) (m : Chunks) (n : ℕ)
    → Tracks src out r
    → PartsOf src m
    → Tracks src (out ++ []) (record r { pending = m; buffered_bytes = n })
still src out r m n t parked = record {
  rest = t.rest;
  head = rw append-nil t.head;
  cursor = rw append-nil t.cursor;
  parked = parked;
}

park-Tracks :
    (src out : List ℕ) (r : ReorderReceiver) (offset : ℕ) (chunk : List ℕ) (known : Option (List ℕ))
    → Tracks src out r
    → IsPart src offset chunk
    → Tracks src (out ++ handed (park r offset chunk known).1) (park r offset chunk known).0
unfolding park
park-Tracks src out r offset chunk (some other) t p =
    still src out r r.pending r.buffered_bytes t t.parked
park-Tracks src out r offset chunk none t p =
    elim (Bool-cases (ltb max_buffered (r.buffered_bytes + length chunk))) [
      | inl e ↦ rw e (still src out r r.pending _ t t.parked)
      | inr e ↦ rw e (still src out r ((offset, chunk) ∷ r.pending) _ t (p, t.parked))
    ]

pub here-Tracks :
    (src out : List ℕ) (r : ReorderReceiver) (offset : ℕ) (chunk : List ℕ)
    → length src < word_mod
    → Tracks src out r
    → IsPart src offset chunk
    → offset ≡ r.expected
    → Tracks src (out ++ chunk) (record r { expected = (r.expected + length chunk) % word_mod })
here-Tracks src out r offset chunk small t p here =
    let (more, split) =
      extend src out chunk r.expected t.rest t.head t.cursor
        (subst (λ (o : ℕ). IsPart src o chunk) here p) in
    record {
      rest = more;
      head = split;
      cursor = advance_cursor src out chunk more r.expected small split t.cursor;
      parked = t.parked;
    }

pub push_chunk-Tracks :
    (src out : List ℕ) (r : ReorderReceiver) (offset : ℕ) (chunk : List ℕ)
    → length src < word_mod
    → Tracks src out r
    → IsPart src offset chunk
    → Tracks src (out ++ handed (push_chunk r offset chunk).1) (push_chunk r offset chunk).0
unfolding push_chunk
push_chunk-Tracks src out r offset chunk small t p = elim (Bool-cases (ltb offset r.expected)) [
  | inl e ↦ rw e (still src out r r.pending r.buffered_bytes t t.parked)
  | inr ahead ↦ rw ahead (elim (Bool-cases (offset == r.expected)) [
    | inl hit ↦ rw hit (
        flush-Tracks src out (length r.pending) _ chunk small
          (here-Tracks src out r offset chunk small t p ((==_iff offset r.expected).0 hit)))
    | inr miss ↦ rw miss (park-Tracks src out r offset chunk (lookup offset r.pending) t p)
  ])
]
