-- ===== src/Shared/Text.antt =====
-- ASCII texts as bytes, and the decimal texts of a `u8`.
use Prim.Native.Nat.{ℕ, ◌+◌, ◌-◌, ◌*◌, ◌/◌, ◌%◌, ◌<◌}
use Prim.Native.Char.{code}
use Prim.Native.String.{String}
use mathlib.Core.Path.{◌≡◌}
use mathlib.Core.Bool.{◌&&◌}
use mathlib.Core.List.{List, [], ◌∷◌}
use mathlib.Core.Option.{Option, none, some}
use native.Mathlib.Omega.{arith}
use csqtt_android.Shared.Tests.{◌==◌, ltb, leb, if◌then◌else◌}

-- The bytes of an ASCII text.
abbrev pub ascii : String → List ℕ
ascii String.[] = []
ascii (String.◌∷◌ c s) = code c ∷ ascii s

-- `to_string` of a `u8`
unfoldable pub decimal : ℕ → List ℕ
decimal n =
    if ltb n 10
    then (48 + n) ∷ []
    else if ltb n 100
    then (48 + n / 10) ∷ (48 + n % 10) ∷ []
    else (48 + n / 100) ∷ (48 + n / 10 % 10) ∷ (48 + n % 10) ∷ []

unfoldable pub parse_digits : ℕ → List ℕ → Option ℕ
parse_digits acc [] = some acc
parse_digits acc (b ∷ bs) =
    let rest = parse_digits (acc * 10 + (b - 48)) bs in
    if leb 48 b && (leb b 57 && ltb (acc * 10 + (b - 48)) 256) then rest else none

-- `parse::<u8>`
unfoldable pub parse_u8 : List ℕ → Option ℕ
parse_u8 [] = none
parse_u8 (b ∷ []) = parse_digits 0 (b ∷ [])
parse_u8 (b ∷ c ∷ bs) = if b == 43 then parse_digits 0 (c ∷ bs) else parse_digits 0 (b ∷ c ∷ bs)

pub parse_u8-decimal : (n : ℕ) → n < 256 → parse_u8 (decimal n) ≡ some n
unfolding decimal parse_digits parse_u8
parse_u8-decimal n h = ground arith
