-- ===== src/Shared/Bytes.antt =====
-- Bytes: big-endian numbers of a fixed width, prefixes, and the fields of a packet.
use Prim.Native.Nat.{ℕ, zero, suc, ◌+◌, ◌*◌, ◌/◌, ◌%◌, ◌^◌, ◌<◌}
use mathlib.Core.Path.{◌≡◌, refl, ◌∙◌}
use mathlib.Core.Bool.{Bool, true, false, ◌&&◌}
use mathlib.Core.Option.{Option, none, some}
use mathlib.Core.List.{List, [], ◌∷◌, ◌++◌}
use native.Mathlib.Nat.{pow-suc}
use native.Mathlib.Omega.{arith}
use csqtt_android.Shared.Tests.{◌==◌, ==_refl, if◌then◌else◌}
use csqtt_android.Shared.Lists.{length, get_or, length-append}

-- `packet[i]`, for an index that the code has checked.
abbrev pub byte_at : List ℕ → ℕ → ℕ
byte_at packet i = get_or packet i 0

-- `u16::from_be_bytes([packet[i], packet[i + 1]])`
abbrev pub u16_at : List ℕ → ℕ → ℕ
u16_at packet i = byte_at packet i * 256 + byte_at packet (i + 1)

from_be_onto : ℕ → List ℕ → ℕ
from_be_onto acc [] = acc
from_be_onto acc (b ∷ bs) = from_be_onto (acc * 256 + b) bs

-- `uN::from_be_bytes`
unfoldable pub from_be : List ℕ → ℕ
unfolding from_be_onto
from_be bs = from_be_onto 0 bs

-- `to_be_bytes` of a number that is `width` bytes wide
unfoldable pub to_be : ℕ → ℕ → List ℕ
to_be zero n = []
to_be (suc width) n = to_be width (n / 256) ++ (n % 256 ∷ [])

pub length-to_be : (width n : ℕ) → length (to_be width n) ≡ width
unfolding to_be
length-to_be zero n = refl
length-to_be (suc width) n =
    omega
      (arith, length-append (to_be width (n / 256)) (n % 256 ∷ []), length-to_be width (n / 256))

from_be_onto-append :
    (acc : ℕ) (xs : List ℕ) (b : ℕ)
    → from_be_onto acc (xs ++ (b ∷ [])) ≡ from_be_onto acc xs * 256 + b
unfolding from_be_onto
from_be_onto-append acc [] b = refl
from_be_onto-append acc (x ∷ xs) b = from_be_onto-append (acc * 256 + x) xs b

pub from_be-to_be : (width n : ℕ) → n < 256 ^ width → from_be (to_be width n) ≡ n
unfolding from_be to_be
from_be-to_be zero n h = omega arith
from_be-to_be (suc width) n h =
    from_be_onto-append 0 (to_be width (n / 256)) (n % 256)
    ∙ omega (arith, from_be-to_be width (n / 256) shorter)
  where
    shorter : n / 256 < 256 ^ width
    shorter = omega (arith, pow-suc 256 width)

-- `starts_with` and `strip_prefix`
unfoldable pub strip_prefix : List ℕ → List ℕ → Option (List ℕ)
strip_prefix [] bytes = some bytes
strip_prefix (p ∷ ps) [] = none
strip_prefix (p ∷ ps) (b ∷ bytes) = if p == b then strip_prefix ps bytes else none

unfoldable pub starts_with : List ℕ → List ℕ → Bool
starts_with [] bytes = true
starts_with (p ∷ ps) [] = false
starts_with (p ∷ ps) (b ∷ bytes) = p == b && starts_with ps bytes

-- slice equality
unfoldable pub same_bytes : List ℕ → List ℕ → Bool
same_bytes [] [] = true
same_bytes [] (b ∷ bs) = false
same_bytes (a ∷ xs) [] = false
same_bytes (a ∷ xs) (b ∷ bs) = a == b && same_bytes xs bs

pub strip_prefix-append : (p rest : List ℕ) → strip_prefix p (p ++ rest) ≡ some rest
unfolding strip_prefix
strip_prefix-append [] rest = refl
strip_prefix-append (b ∷ p) rest = rw (==_refl b) (strip_prefix-append p rest)

pub starts_with-append : (p rest : List ℕ) → starts_with p (p ++ rest) ≡ true
unfolding starts_with
starts_with-append [] rest = refl
starts_with-append (b ∷ p) rest = rw (==_refl b) (starts_with-append p rest)

pub append_of_strip : (p bytes rest : List ℕ) → strip_prefix p bytes ≡ some rest → bytes ≡ p ++ rest
unfolding strip_prefix
append_of_strip [] bytes rest h = ground arith
append_of_strip (b ∷ p) [] rest h = cc
append_of_strip (b ∷ p) (c ∷ bytes) rest h = ground (arith, append_of_strip p bytes rest)
