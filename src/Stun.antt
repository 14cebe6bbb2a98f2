-- ===== src/Stun.antt =====
-- rust-client/stun_codec.rs: STUN messages and their attributes. A message is a list of bytes; the
-- masks are written as quotients and remainders, `(n + 3) & !3` as `(n + 3) / 4 * 4`. The additions
-- stay far below 2^64, since every length is a 16-bit number, so that `checked_add` gives a sum.
pub mod Tiles
pub mod Kind
mod Tests
use Prim.Native.Nat.{bit_xor}
use csqtt_android.Shared.{
  ℕ, zero, suc, ◌+◌, ◌-◌, ◌*◌, ◌/◌, ◌%◌, Bool, true, false, not, ◌||◌, List, [], ◌∷◌, Option, none,
  some, ltb, ◌==◌, if◌then◌else◌, length, take, drop, u16_at, from_be, same_bytes,
}

abbrev pub header_size : ℕ
header_size = 20

-- 0x2112a442, big-endian
abbrev pub magic_cookie : List ℕ
magic_cookie = 0x21 ∷ 0x12 ∷ 0xa4 ∷ 0x42 ∷ []

abbrev pub attr_fingerprint : ℕ
attr_fingerprint = 0x8028

abbrev pub fingerprint_xor : ℕ
fingerprint_xor = 0x5354554e

-- The messages of the `bail!`s.
pub data Error : Type 0 where
  header_truncated leading_bits type_zero cookie_mismatch length_unaligned length_mismatch : Error
  attribute_header_truncated attribute_value_truncated : Error

pub data Class : Type 0 where
  request indication success error : Class

pub record Attribute : Type 0 where
  pub kind : ℕ
  pub value : List ℕ
  pub header_start : ℕ
  pub value_start : ℕ
  pub value_end : ℕ

pub record Message : Type 0 where
  pub raw : List ℕ
  pub kind : ℕ
  pub transaction : List ℕ
  pub end : ℕ

pub data Result {ℓ} (A : Type ℓ) : Type ℓ where
  ok : A → Result A
  err : Error → Result A

-- The position behind the attribute whose header is at `position`.
abbrev pub next_position : List ℕ → ℕ → ℕ
next_position raw position = position + 4 + (u16_at raw (position + 2) + 3) / 4 * 4

-- One turn of the loop at a position before `end`: an error, or the next position.
unfoldable pub step : List ℕ → ℕ → ℕ → Option Error
step raw end position =
    if ltb (end - position) 4
    then some attribute_header_truncated
    else if ltb end (next_position raw position)
        || ltb end (position + 4 + u16_at raw (position + 2))
    then some attribute_value_truncated
    else none

-- The loop. Every turn moves the position on by at least 4, so that `end` turns are enough
-- (Stun.Tiles); a loop without turns left at a position before `end` stops as if it were there.
unfoldable pub check_attributes : ℕ → List ℕ → ℕ → ℕ → Option Error
check_attributes zero raw end position = none
check_attributes (suc fuel) raw end position =
    if not (ltb position end) then none else elim (step raw end position) [
      | some e ↦ some e
      | none ↦ check_attributes fuel raw end (next_position raw position)
    ]

abbrev checked : Message → Option Error → Result Message
checked message none = ok message
checked message (some e) = err e

unfoldable pub decode : List ℕ → Result Message
decode raw =
    let kind = u16_at raw 0 in
    let declared = u16_at raw 2 in
    let end = header_size + declared in
    if ltb (length raw) header_size
    then err header_truncated
    else if not (kind / 0x4000 == 0)
    then err leading_bits
    else if kind == 0
    then err type_zero
    else if not (same_bytes (take 4 (drop 4 raw)) magic_cookie)
    then err cookie_mismatch
    else if not (declared % 4 == 0)
    then err length_unaligned
    else if not (length raw == end)
    then err length_mismatch
    else checked (record { raw = raw; kind = kind; transaction = take 12 (drop 8 raw); end = end })
        (check_attributes end raw end header_size)

abbrev pub class_number : ℕ → Class
class_number zero = request
class_number (suc zero) = indication
class_number (suc (suc zero)) = success
class_number (suc (suc (suc n))) = error

unfoldable pub class : Message → Class
class m = class_number (m.kind / 16 % 2 + m.kind / 256 % 2 * 2)

unfoldable pub method : Message → ℕ
method m = m.kind % 16 + m.kind / 32 % 8 * 16 + m.kind / 512 % 32 * 128

-- `Attributes::next` at a position before the end
unfoldable pub attribute_at : List ℕ → ℕ → Attribute
attribute_at raw position =
    let kind = u16_at raw position in
    let len = u16_at raw (position + 2) in
    record {
      kind = if kind == 0x8020 then 0x0020 else kind;
      value = take len (drop (position + 4) raw);
      header_start = position;
      value_start = position + 4;
      value_end = position + 4 + len;
    }

-- The items of the iterator from a position on.
unfoldable pub attributes_from : ℕ → List ℕ → ℕ → ℕ → List Attribute
attributes_from zero raw end position = []
attributes_from (suc fuel) raw end position =
    if ltb position end
    then attribute_at raw position ∷ attributes_from fuel raw end (next_position raw position)
    else []

unfoldable pub attributes : Message → List Attribute
attributes m = attributes_from m.end m.raw m.end header_size

abbrev find_kind : ℕ → List Attribute → Option Attribute
find_kind target [] = none
find_kind target (a ∷ rest) = if a.kind == target then some a else find_kind target rest

unfoldable pub attribute : Message → ℕ → Option Attribute
unfolding attributes
attribute m target = find_kind target (attributes m)

-- `crc32fast::hash` is a parameter.
unfoldable pub fingerprint_valid : (List ℕ → ℕ) → Message → Option Bool
unfolding attribute
fingerprint_valid hash m = elim (attribute m attr_fingerprint) [
  | none ↦ none
  | some a ↦
      if not (length a.value == 4) || not (a.header_start + 8 == m.end)
      then some false
      else some (from_be a.value == bit_xor (hash (take a.header_start m.raw)) fingerprint_xor)
]
