-- ===== src/Stun/Tests.antt =====
-- The message of the tests of stun_codec.rs: an Allocate request with two attributes.
use csqtt_android.Shared.{ℕ, ◌≡◌, refl, ◌+◌, List, [], ◌∷◌, length, u16_at, same_bytes}
use csqtt_android.Stun.{Message, step, check_attributes, decode, attributes}
use csqtt_android.Stun.Tiles.{Tiled, decode-Tiled}

abbrev transaction_bytes : List ℕ
transaction_bytes = 0 ∷ 1 ∷ 2 ∷ 3 ∷ 4 ∷ 5 ∷ 6 ∷ 7 ∷ 8 ∷ 9 ∷ 10 ∷ 11 ∷ []

abbrev body : List ℕ
body = 0 ∷ 0x19 ∷ 0 ∷ 4 ∷ 17 ∷ 0 ∷ 0 ∷ 0 ∷ 0x80 ∷ 0x28 ∷ 0 ∷ 4 ∷ 0xc4 ∷ 0xb8 ∷ 0xec ∷ 0x87 ∷ []

abbrev allocate : List ℕ
allocate =
    0 ∷ 3 ∷ 0 ∷ 16 ∷ 0x21 ∷ 0x12 ∷ 0xa4 ∷ 0x42 ∷ 0 ∷ 1 ∷ 2 ∷ 3 ∷ 4 ∷ 5 ∷ 6 ∷ 7 ∷ 8 ∷ 9 ∷ 10 ∷ 11
    ∷ body

abbrev message : Message
message = record { raw = allocate; kind = 3; transaction = transaction_bytes; end = 36 }

decode-Tiled_example :
    (length allocate ≡ 20 + u16_at allocate 2)
    × (allocate ≡ allocate)
    × (36 ≡ length allocate)
    × Tiled allocate 20 36 (attributes message)
unfolding decode check_attributes step same_bytes
decode-Tiled_example = decode-Tiled allocate message refl
