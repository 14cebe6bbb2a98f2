-- ===== src/Replay.antt =====
-- `ReplayState` of rust-server/protocol.rs: the window of RTP sequence numbers that a path has seen.
-- The 256 words of 64 bits are one map of 16,384 bits: bit `index % 64` of word `index / 64` is bit
-- `index`. Before the first packet there is no map, and no bit is read.
pub mod Bits
pub mod Window
pub mod Client
pub mod Once
mod Tests
use csqtt_android.Shared.{
  ℕ, zero, suc, ◌+◌, ◌-◌, ◌%◌, Bool, true, false, not, ◌&&◌, ◌||◌, List, [], ◌∷◌, ltb, leb, ◌==◌,
  if◌then◌else◌,
}

abbrev pub Bitmap : Type 0
Bitmap = ℕ → Bool

pub record ReplayState : Type 0 where
  pub initialized : Bool
  pub highest : ℕ
  pub bitmap : Bitmap

abbrev pub empty : Bitmap
empty index = false

abbrev pub new : ReplayState
new = record { initialized = false; highest = 0; bitmap = empty }

-- `wrapping_sub` of two 16-bit numbers
abbrev pub sub16 : ℕ → ℕ → ℕ
sub16 a b = (a + (65_536 - b)) % 65_536

-- `wrapping_add`
abbrev pub add16 : ℕ → ℕ → ℕ
add16 a b = (a + b) % 65_536

unfoldable pub set_srtp_bit : ℕ → Bitmap → Bitmap
set_srtp_bit counter bitmap index = index == counter % 16_384 || bitmap index

unfoldable pub clear_srtp_bit : ℕ → Bitmap → Bitmap
clear_srtp_bit counter bitmap index = not (index == counter % 16_384) && bitmap index

unfoldable pub test_srtp_bit : ℕ → Bitmap → Bool
test_srtp_bit counter bitmap = bitmap (counter % 16_384)

-- The loop over `offset`, …, of which `left` are still to come.
unfoldable pub clear_ahead : ℕ → ℕ → ℕ → Bitmap → Bitmap
clear_ahead highest zero offset bitmap = bitmap
clear_ahead highest (suc left) offset bitmap =
    clear_ahead highest left (offset + 1) (clear_srtp_bit (add16 highest offset) bitmap)

unfoldable pub accept : ReplayState → ℕ → ReplayState × Bool
accept r seq =
    let forward = sub16 seq r.highest in
    let behind = sub16 r.highest seq in
    if not r.initialized
    then (record { initialized = true; highest = seq; bitmap = set_srtp_bit seq r.bitmap }, true)
    else if not (forward == 0) && ltb forward 32_768
    then (
      record r {
        highest = seq;
        bitmap =
            set_srtp_bit seq
              (if leb 16_384 forward then empty else clear_ahead r.highest forward 1 r.bitmap);
      },
      true,
    )
    else if leb 16_384 behind || test_srtp_bit seq r.bitmap
    then (r, false)
    else (record r { bitmap = set_srtp_bit seq r.bitmap }, true)
