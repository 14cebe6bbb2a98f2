-- ===== src/Replay/Client.antt =====
-- `ReplayWindow` of rust-client/session.rs: the client's window, over 64-bit packet numbers that it
-- rebuilds from the 16 bits of a packet. The words of the map are one map of bits, as on the server.
pub mod Once
pub mod Extend
use csqtt_android.Shared.{
  ℕ, zero, suc, ◌+◌, ◌-◌, ◌*◌, ◌/◌, ◌%◌, Bool, true, false, not, ◌&&◌, ◌||◌, Option, none, some,
  ltb, leb, ◌==◌, if◌then◌else◌, min, word_mod,
}
use csqtt_android.Replay.{Bitmap, empty, set_srtp_bit, clear_srtp_bit, test_srtp_bit}

pub record ReplayWindow : Type 0 where
  pub highest : Option ℕ
  pub seen : Bitmap

abbrev pub new : ReplayWindow
new = record { highest = none; seen = empty }

-- The loop over `1..=shift`, from `i` on.
unfoldable pub clear_bits : ℕ → ℕ → ℕ → Bitmap → Bitmap
clear_bits highest zero i seen = seen
clear_bits highest (suc left) i seen =
    clear_bits highest left (i + 1) (clear_srtp_bit (highest + i) seen)

-- The rest of `accept`, with a highest number.
unfoldable pub accept_after : ℕ → Bitmap → ℕ → ReplayWindow × Bool
accept_after highest seen counter =
    let shift = counter - highest in
    if ltb highest counter
    then (
      record {
        highest = some counter;
        seen =
            set_srtp_bit counter
              (if leb 16_384 shift then empty else clear_bits highest shift 1 seen);
      },
      true,
    )
    else if leb 16_384 (highest - counter)
    then (record { highest = some highest; seen = seen }, false)
    else if test_srtp_bit counter seen
    then (record { highest = some highest; seen = seen }, false)
    else (record { highest = some highest; seen = set_srtp_bit counter seen }, true)

unfoldable pub accept : ReplayWindow → ℕ → ReplayWindow × Bool
accept w counter = elim w.highest [
  | none ↦ (record { highest = some counter; seen = set_srtp_bit counter w.seen }, true)
  | some highest ↦ accept_after highest w.seen counter
]

-- `saturating_add` of 64-bit numbers
abbrev pub saturating_add : ℕ → ℕ → ℕ
saturating_add a b = min (a + b) (word_mod - 1)

-- The number that `accept_rtp` takes a packet's 16 bits for. `base | sequence` is a sum, since the
-- low 16 bits of `base` are clear.
unfoldable pub extended : ℕ → ℕ → ℕ
extended highest sequence =
    let plain = highest / 65_536 * 65_536 + sequence in
    if ltb (saturating_add plain 32_768) highest
    then saturating_add plain 65_536
    else if ltb (saturating_add highest 32_768) plain && leb 65_536 plain
    then plain - 65_536
    else plain

unfoldable pub accept_rtp : ReplayWindow → ℕ → ReplayWindow × Bool
accept_rtp w sequence = elim w.highest [
  | none ↦ accept w sequence
  | some highest ↦ accept w (extended highest sequence)
]
