-- ===== src/Replay/Client/Extend.antt =====
-- From 16 bits back to the packet's number (rust-client/session.rs).
use csqtt_android.Shared.{ℕ, ◌+◌, ◌%◌, ◌<◌, ◌≡◌, arith, word_mod}
use csqtt_android.Replay.Client.{extended}

-- A packet's number comes back from its low 16 bits, if it is less than 32,768 away from the highest
-- number, and that is not at the end of the 64 bits.
pub extended_lem :
    (highest number : ℕ)
    → highest < number + 32_768
    → number < highest + 32_768
    → highest + 65_536 < word_mod
    → extended highest (number % 65_536) ≡ number
unfolding extended
extended_lem highest number below above far = ground arith
