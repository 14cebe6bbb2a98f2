-- ===== src/Epoch.antt =====
-- `DeviceEpochState` of rust-server/protocol.rs: which generation of a device's client is admitted. A
-- salt is its bytes.
pub mod Order
mod Tests
use csqtt_android.Shared.{
  ℕ, Bool, true, false, ◌&&◌, List, [], ◌∷◌, ltb, ◌==◌, if◌then◌else◌, same_bytes,
}

pub data DeviceEpochDecision : Type 0 where
  current advanced stale salt_conflict : DeviceEpochDecision

pub record DeviceEpochState : Type 0 where
  pub generation_id : ℕ
  pub session_salt : List ℕ

abbrev pub new : DeviceEpochState
new = record { generation_id = 0; session_salt = [] }

abbrev pub is_empty : List ℕ → Bool
is_empty [] = true
is_empty (b ∷ bs) = false

unfoldable pub admit : DeviceEpochState → ℕ → List ℕ → DeviceEpochState × DeviceEpochDecision
admit s generation_id session_salt =
    let replaced : DeviceEpochState = record {
      generation_id = generation_id;
      session_salt = session_salt;
    } in
    if s.generation_id == 0 && is_empty s.session_salt
    then (replaced, if generation_id == 0 && is_empty session_salt then current else advanced)
    else if ltb generation_id s.generation_id
    then (s, stale)
    else if ltb s.generation_id generation_id
    then (replaced, advanced)
    else if same_bytes session_salt s.session_salt
    then (s, current)
    else (s, salt_conflict)

unfoldable pub matches : DeviceEpochState → ℕ → List ℕ → Bool
matches s generation_id session_salt =
    s.generation_id == generation_id && same_bytes s.session_salt session_salt
