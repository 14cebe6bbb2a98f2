-- ===== src/Sequence.antt =====
-- shared/proxy_sequence.rs: the byte offsets of a proxied TCP stream. `StreamSequence` is the strict
-- cursor of a sender, and `ReorderReceiver` puts chunks that arrive out of order together again.
pub mod Cursor
pub mod Pending
pub mod Window
pub mod Delivery
pub mod Stream
pub mod Overtaken
mod Tests
use csqtt_android.Shared.{
  ℕ, zero, suc, ◌+◌, ◌-◌, ◌%◌, Bool, true, false, not, List, [], ◌∷◌, ◌++◌, Option, none, some, ltb,
  ◌==◌, if◌then◌else◌, length, take, drop, word_mod, checked_add, from_be, to_be,
}

pub record StreamSequence : Type 0 where
  pub offset : ℕ

-- The errors of this file, by what their messages say.
pub data Error : Type 0 where
  missing_offset gap offset_overflow window_overflow : Error

pub data Result {ℓ} (A : Type ℓ) : Type ℓ where
  ok : A → Result A
  err : Error → Result A

unfoldable pub advance : StreamSequence → ℕ → StreamSequence × Result (Unit {0})
advance s len = elim (checked_add s.offset len) [
  | none ↦ (s, err offset_overflow)
  | some offset ↦ (record { offset = offset }, ok tt)
]

unfoldable pub encode_at : ℕ → List ℕ → List ℕ
encode_at offset bytes = to_be 8 offset ++ bytes

abbrev replaced {ℓ κ} :
    {A : Type ℓ} {B : Type κ} → B → StreamSequence × Result A → StreamSequence × Result B
replaced b (s, ok a) = (s, ok b)
replaced b (s, err e) = (s, err e)

unfoldable pub encode : StreamSequence → List ℕ → StreamSequence × Result (List ℕ)
unfolding advance
encode s bytes = replaced (encode_at s.offset bytes) (advance s (length bytes))

unfoldable pub decode : StreamSequence → List ℕ → StreamSequence × Result (List ℕ)
unfolding advance
decode s payload =
    let offset = from_be (take 8 payload) in
    let bytes = drop 8 payload in
    if ltb (length payload) 8
    then (s, err missing_offset)
    else if ltb offset s.offset
    then (s, ok [])
    else if ltb s.offset offset
    then (s, err gap)
    else replaced bytes (advance s (length bytes))

abbrev pub max_buffered : ℕ
max_buffered = 131_072

-- The `BTreeMap` of parked chunks, as an association list without repeated keys.
abbrev pub Chunks : Type 0
Chunks = List (ℕ × List ℕ)

unfoldable pub lookup : ℕ → Chunks → Option (List ℕ)
lookup k [] = none
lookup k ((j, chunk) ∷ rest) = if j == k then some chunk else lookup k rest

unfoldable pub erase : ℕ → Chunks → Chunks
erase k [] = []
erase k ((j, chunk) ∷ rest) = if j == k then rest else (j, chunk) ∷ erase k rest

pub record ReorderReceiver : Type 0 where
  pub expected : ℕ
  pub pending : Chunks
  pub buffered_bytes : ℕ

abbrev pub new : ReorderReceiver
new = record { expected = 0; pending = []; buffered_bytes = 0 }

-- `pending.remove(&expected)` found `next`: one turn of the flush.
abbrev pub consume : ReorderReceiver → List ℕ → ReorderReceiver
consume r next = record r {
  expected = (r.expected + length next) % word_mod;
  pending = erase r.expected r.pending;
  buffered_bytes = r.buffered_bytes - length next;
}

-- The `while let` loop. Each turn takes a chunk out, so that their number is fuel enough.
unfoldable pub flush : ℕ → ReorderReceiver → List ℕ → ReorderReceiver × List ℕ
flush zero r output = (r, output)
flush (suc fuel) r output = elim (lookup r.expected r.pending) [
  | none ↦ (r, output)
  | some next ↦ flush fuel (consume r next) (output ++ next)
]

abbrev pub delivered : ReorderReceiver × List ℕ → ReorderReceiver × Result (Option (List ℕ))
delivered (r, output) = (r, ok (some output))

-- A chunk that lies ahead of the cursor is parked.
unfoldable pub park :
    ReorderReceiver → ℕ → List ℕ → Option (List ℕ) → ReorderReceiver × Result (Option (List ℕ))
park r offset chunk (some parked) = (r, ok none)
park r offset chunk none =
    let buffered = r.buffered_bytes + length chunk in
    if ltb max_buffered buffered
    then (record r { buffered_bytes = buffered }, err window_overflow)
    else (record r { buffered_bytes = buffered; pending = (offset, chunk) ∷ r.pending }, ok none)

unfoldable pub push_chunk :
    ReorderReceiver → ℕ → List ℕ → ReorderReceiver × Result (Option (List ℕ))
push_chunk r offset chunk =
    if ltb offset r.expected
    then (r, ok none)
    else if offset == r.expected
    then delivered (
        flush (length r.pending) (record r { expected = (r.expected + length chunk) % word_mod })
          chunk)
    else park r offset chunk (lookup offset r.pending)

unfoldable pub push : ReorderReceiver → List ℕ → ReorderReceiver × Result (Option (List ℕ))
push r payload =
    if ltb (length payload) 8
    then (r, err missing_offset)
    else push_chunk r (from_be (take 8 payload)) (drop 8 payload)

abbrev pub is_empty {ℓ} : {A : Type ℓ} → List A → Bool
is_empty [] = true
is_empty (x ∷ xs) = false

unfoldable pub is_waiting : ReorderReceiver → Bool
is_waiting r = not (is_empty r.pending)

unfoldable pub missing_offset_of : ReorderReceiver → Option ℕ
unfolding is_waiting
missing_offset_of r = if is_waiting r then some r.expected else none
