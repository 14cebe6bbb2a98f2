-- ===== src/Dns/Written.antt =====
-- The names that rust-client/dns.rs writes in a query, as its loop over a name reads them.
use csqtt_android.Shared.{
  ℕ, zero, suc, ◌+◌, ◌≤◌, ◌<◌, ◌≡◌, ◌∙◌, refl, sym, ap, ap₂, subst, Bool, true, false, ◌||◌, Option,
  none, some, List, [], ◌∷◌, ◌++◌, ltb, leb, ◌==◌, if◌then◌else◌, length, get_elem?, drop, to_be,
  length-append, append_assoc, drop_append, Name, map_option, arith,
}
use csqtt_android.Dns.{
  ok, and_then, past, skip_label, skip_from, skip_name, skip_questions, is_label, write_labels,
  build_query, query_header, split_dots, trim_dots,
}

skip_from-turn :
    (fuel : ℕ) (m : List ℕ) (offset len next : ℕ) (is_end : Bool)
    → get_elem? m offset ≡ some len
    → skip_label m offset len ≡ ok (next, is_end)
    → skip_from (suc fuel) m offset ≡ (if is_end then ok next else skip_from fuel m next)
unfolding skip_from and_then
skip_from-turn fuel m offset len next is_end found turn =
    rw (found, skip_from) (rw (turn, and_then) refl)

skip_label-written :
    (m : List ℕ) (offset len : ℕ)
    → 1 ≤ len
    → len ≤ 63
    → offset + 1 + len ≤ length m
    → skip_label m offset len ≡ ok (offset + 1 + len, false)
unfolding skip_label past and_then
skip_label-written m offset len low high inside = ground arith

skip_label-end : (m : List ℕ) (offset : ℕ) → skip_label m offset 0 ≡ ok (offset + 1, true)
unfolding skip_label
skip_label-end m offset = refl

get_at_end :
    (pre : List ℕ) (b : ℕ) (rest : List ℕ) → get_elem? (pre ++ (b ∷ rest)) (length pre) ≡ some b
get_at_end [] b rest = refl
get_at_end (a ∷ pre) b rest = get_at_end pre b rest

-- How the bytes of labels begin.
Begins : Name → List Name → List ℕ → Type 0
Begins label labels bytes =
    (is_label label ≡ true)
    × ((rest : List ℕ) × (write_labels labels ≡ some rest)
        × (bytes ≡ length label ∷ (label ++ rest)))

write_labels-Begins :
    (label : Name) (labels : List Name) (bytes : List ℕ)
    → write_labels (label ∷ labels) ≡ some bytes
    → Begins label labels bytes
unfolding write_labels Begins
write_labels-Begins label labels bytes h = begins (is_label label) (write_labels labels) refl refl h
  where
    begins :
        (b : Bool) (o : Option (List ℕ))
        → is_label label ≡ b
        → write_labels labels ≡ o
        → (if b then map_option (λ r. length label ∷ (label ++ r)) o else none) ≡ some bytes
        → (is_label label ≡ true)
          × ((rest : List ℕ) × (write_labels labels ≡ some rest)
              × (bytes ≡ length label ∷ (label ++ rest)))
    begins true (some rest) e f g = (e, (rest, f, cc))
    begins true none e f g = cc
    begins false o e f g = cc

is_label-length : (label : Name) → is_label label ≡ true → (1 ≤ length label) × (length label ≤ 63)
unfolding is_label
is_label-length label h = ground (arith, h)

-- The loop over the labels that were written, after `pre` and before `post`.
skip_from-write_labels :
    (post : List ℕ) (fuel : ℕ) (labels : List Name) (pre bytes : List ℕ)
    → length labels < fuel
    → write_labels labels ≡ some bytes
    → skip_from fuel (pre ++ (bytes ++ (0 ∷ post))) (length pre)
      ≡ ok (length pre + length bytes + 1)
unfolding write_labels Begins
skip_from-write_labels post zero labels pre bytes enough h = absurd (omega (arith, enough))
skip_from-write_labels post (suc fuel) [] pre bytes enough h =
    let none_left : bytes ≡ [] = cc in
    subst
      (λ x.
        skip_from (suc fuel) (pre ++ (x ++ (0 ∷ post))) (length pre)
        ≡ ok (length pre + length x + 1))
      (sym none_left)
      (skip_from-turn fuel (pre ++ (0 ∷ post)) (length pre) 0 (length pre + 1) true
          (get_at_end pre 0 post) (skip_label-end (pre ++ (0 ∷ post)) (length pre))
        ∙ ap ok (omega arith))
skip_from-write_labels post (suc fuel) (label ∷ labels) pre bytes enough h =
    let (good, (rest, written, shape)) = write_labels-Begins label labels bytes h in
    let (low, high) = is_label-length label good in
    let after : List ℕ = rest ++ (0 ∷ post) in
    let whole : List ℕ = pre ++ (length label ∷ (label ++ after)) in
    let joined : pre ++ (bytes ++ (0 ∷ post)) ≡ whole =
      ap (λ x. pre ++ (x ++ (0 ∷ post))) shape
      ∙ ap (λ x. pre ++ (length label ∷ x)) (append_assoc label rest (0 ∷ post)) in
    let moved : whole ≡ (pre ++ (length label ∷ label)) ++ after =
      sym (append_assoc pre (length label ∷ label) after) in
    let place : length pre + 1 + length label ≡ length (pre ++ (length label ∷ label)) =
      omega (arith, length-append pre (length label ∷ label)) in
    let sized : length pre + 1 + length label ≤ length whole =
      omega
        (arith, length-append pre (length label ∷ (label ++ after)), length-append label after) in
    let inner =
      skip_from-write_labels post fuel labels (pre ++ (length label ∷ label)) rest
        (omega (arith, enough)) written in
    ap (λ x. skip_from (suc fuel) x (length pre)) joined
    ∙ (skip_from-turn fuel whole (length pre) (length label) (length pre + 1 + length label) false
          (get_at_end pre (length label) (label ++ after))
          (skip_label-written whole (length pre) (length label) low high sized)
        ∙ (ap₂ (skip_from fuel) moved place
            ∙ (inner ∙ ap ok (omega (arith, ap length shape, place, length-append label rest)))))

length-write_labels :
    (labels : List Name) (bytes : List ℕ)
    → write_labels labels ≡ some bytes
    → length labels ≤ length bytes
unfolding Begins
length-write_labels [] bytes h = omega arith
length-write_labels (label ∷ labels) bytes h =
    let (good, (rest, written, shape)) = write_labels-Begins label labels bytes h in
    omega
      (arith, length-write_labels labels rest written, ap length shape, length-append label rest)

length-query_header : (query_id : ℕ) → length (query_header query_id) ≡ 12
unfolding to_be
length-query_header query_id = refl

-- A query is a header, labels, and a tail of five bytes.
IsQuery : ℕ → ℕ → List ℕ → Type 0
IsQuery query_id record_type query =
    (labels : List Name) × (bytes : List ℕ) × (write_labels labels ≡ some bytes)
    × (query ≡ query_header query_id ++ (bytes ++ (0 ∷ (to_be 2 record_type ++ to_be 2 1))))

build_query-IsQuery :
    (host : Name) (query_id record_type : ℕ) (query : List ℕ)
    → build_query host query_id record_type ≡ some query
    → IsQuery query_id record_type query
unfolding build_query IsQuery
build_query-IsQuery host query_id record_type query h =
    built (length (trim_dots host) == 0 || ltb 253 (length (trim_dots host)))
      (write_labels (split_dots (trim_dots host))) refl h
  where
    built :
        (b : Bool) (o : Option (List ℕ))
        → write_labels (split_dots (trim_dots host)) ≡ o
        → (if b
            then none
            else map_option
                (λ x. query_header query_id ++ (x ++ (0 ∷ (to_be 2 record_type ++ to_be 2 1))))
                o)
          ≡ some query
        → (labels : List Name) × (bytes : List ℕ) × (write_labels labels ≡ some bytes)
          × (query ≡ query_header query_id ++ (bytes ++ (0 ∷ (to_be 2 record_type ++ to_be 2 1))))
    built false (some bytes) e g = (split_dots (trim_dots host), bytes, e, cc)
    built false none e g = cc
    built true o e g = cc

question_skipped :
    (labels : List Name) (bytes header tail : List ℕ)
    → write_labels labels ≡ some bytes
    → length header ≡ 12
    → 4 ≤ length tail
    → skip_questions 1 (header ++ (bytes ++ (0 ∷ tail))) 12 ≡ ok (12 + length bytes + 1 + 4)
unfolding skip_questions skip_name past and_then
question_skipped labels bytes header tail h twelve four =
    let message : List ℕ = header ++ (bytes ++ (0 ∷ tail)) in
    let size : length message ≡ 12 + (length bytes + (1 + length tail)) =
      omega (
        arith,
        length-append header (bytes ++ (0 ∷ tail)),
        length-append bytes (0 ∷ tail),
        twelve,
      ) in
    let name : skip_name message 12 ≡ ok (12 + length bytes + 1) =
      subst (λ n. skip_from (suc (length message)) message n ≡ ok (n + length bytes + 1)) twelve
        (skip_from-write_labels tail (suc (length message)) labels header bytes
          (omega (arith, size, length-write_labels labels bytes h)) h) in
    let room : leb (12 + length bytes + 1 + 4) (length message) ≡ true = ground (arith, size) in
    rw (name, skip_questions, and_then) (rw (room, past, and_then) refl)

-- The question of a query is passed over: a response of any header of twelve bytes that repeats it is
-- read on from the place after it, which is where the query ends, whatever follows it there.
pub skip_questions-build_query :
    (host : Name) (query_id record_type : ℕ) (query header rest : List ℕ)
    → build_query host query_id record_type ≡ some query
    → length header ≡ 12
    → skip_questions 1 (header ++ (drop 12 query ++ rest)) 12 ≡ ok (length query)
unfolding IsQuery to_be
skip_questions-build_query host query_id record_type query header rest h twelve =
    let (labels, bytes, written, shape) = build_query-IsQuery host query_id record_type query h in
    let tail : List ℕ = to_be 2 record_type ++ to_be 2 1 in
    let question : drop 12 query ≡ bytes ++ (0 ∷ tail) =
      ap (drop 12) shape
      ∙ drop_append 12 (query_header query_id) (bytes ++ (0 ∷ tail))
          (length-query_header query_id) in
    let size : length query ≡ 12 + length bytes + 1 + 4 =
      omega (arith, ap length shape, length-append bytes (0 ∷ tail)) in
    ap (λ x. skip_questions 1 (header ++ x) 12)
      (ap (λ x. x ++ rest) question ∙ append_assoc bytes (0 ∷ tail) rest)
    ∙ (question_skipped labels bytes header (tail ++ rest) written twelve (omega arith)
        ∙ ap ok (sym size))
