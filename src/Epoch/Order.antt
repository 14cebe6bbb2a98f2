-- ===== src/Epoch/Order.antt =====
-- A device's generations only go forward (rust-server/protocol.rs).
use csqtt_android.Shared.{ℕ, ◌≤◌, ◌<◌, ◌≡◌, List, [], ◌∷◌, arith}
use csqtt_android.Epoch.{stale, DeviceEpochState, admit}

-- A client that asks to be let in.
pub record Client : Type 0 where
  pub generation : ℕ
  pub salt : List ℕ

unfoldable pub admit_all : DeviceEpochState → List Client → DeviceEpochState
admit_all s [] = s
admit_all s (c ∷ cs) = admit_all (admit s c.generation c.salt).0 cs

admit_grows :
    (s : DeviceEpochState) (c : Client)
    → s.generation_id ≤ (admit s c.generation c.salt).0.generation_id
unfolding admit
admit_grows s c = ground arith

admit_all_grows :
    (s : DeviceEpochState) (cs : List Client) → s.generation_id ≤ (admit_all s cs).generation_id
unfolding admit_all
admit_all_grows s [] = omega arith
admit_all_grows s (c ∷ cs) =
    omega (arith, admit_grows s c, admit_all_grows (admit s c.generation c.salt).0 cs)

reached :
    (s : DeviceEpochState) (c : Client)
    → c.generation ≤ (admit s c.generation c.salt).0.generation_id
unfolding admit
reached s c = ground arith

old_is_stale :
    (s : DeviceEpochState) (c : Client)
    → c.generation < s.generation_id
    → admit s c.generation c.salt ≡ (s, stale)
unfolding admit
old_is_stale s c h = ground (arith, h)

-- Once a client of some generation has asked, whatever the answer and whoever asks after it, every
-- client of an older generation is refused as stale, and changes nothing.
pub older_refused :
    (s : DeviceEpochState) (c old : Client) (cs : List Client)
    → old.generation < c.generation
    → let later = admit_all (admit s c.generation c.salt).0 cs in
      admit later old.generation old.salt ≡ (later, stale)
older_refused s c old cs h =
    old_is_stale _ old
      (omega (arith, reached s c, admit_all_grows (admit s c.generation c.salt).0 cs))
