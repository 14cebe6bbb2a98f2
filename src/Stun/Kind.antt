-- ===== src/Stun/Kind.antt =====
-- Class and method of a message (rust-client/stun_codec.rs).
use csqtt_android.Shared.{ℕ, zero, suc, ◌+◌, ◌*◌, ◌/◌, ◌%◌, ◌<◌, ◌≡◌, refl, arith}
use csqtt_android.Stun.{
  Message, Class, request, indication, success, error, class_number, class, method,
}

-- The two bits of a class.
abbrev pub class_bits : Class → ℕ
class_bits request = 0
class_bits indication = 1
class_bits success = 2
class_bits error = 3

bits-class_number : (n : ℕ) → n < 4 → class_bits (class_number n) ≡ n
bits-class_number zero h = refl
bits-class_number (suc zero) h = refl
bits-class_number (suc (suc zero)) h = refl
bits-class_number (suc (suc (suc n))) h = omega arith

-- The type of a message is made up of its class and its method: none of its 14 bits is lost, and
-- none is read twice.
pub kind-class_method :
    (m : Message)
    → m.kind < 0x4000
    → m.kind
      ≡ method m % 16
        + class_bits (class m) % 2 * 16
        + method m / 16 % 8 * 32
        + class_bits (class m) / 2 * 256
        + method m / 128 * 512
unfolding class method
kind-class_method m h =
    omega (arith, bits-class_number (m.kind / 16 % 2 + m.kind / 256 % 2 * 2) (omega arith))
