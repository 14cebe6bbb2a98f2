-- ===== src/Control/Inventory.antt =====
-- `StreamInventory` of rust-server/protocol.rs: which workers of a client the server sees. A session
-- is its number and the count of workers that it wants. The caller counts no worker above 126, the
-- last index of `present`.
use csqtt_android.Shared.{
  ℕ, zero, suc, ◌≤◌, ◌<◌, ◌≡◌, refl, ap, ◌∙◌, Bool, true, false, List, [], ◌∷◌, ◌++◌, arith, ltb,
  leb, if◌then◌else◌, length, get_or, set, replicate, ◌↔◌, ◌==◌, length-set, Bool-cases, inl, inr,
}
use csqtt_android.Control.Client.{max_stream_workers}
use csqtt_android.Control.Server.{fill_missing}
use csqtt_android.Control.Rounds.{names, names-fill_missing}

abbrev pub stream_control_carriers : ℕ
stream_control_carriers = 3

pub record StreamInventory : Type 0 where
  pub desired_count : ℕ
  pub desired_session_id : ℕ
  pub present : List Bool
  pub carriers : List ℕ
  pub seen : Bool

-- `new`, and also what `reset` leaves
abbrev pub new_inventory : StreamInventory
new_inventory = record {
  desired_count = 0;
  desired_session_id = 0;
  present = replicate 127 false;
  carriers = [];
  seen = false;
}

pub record Sighting : Type 0 where
  pub slot : ℕ
  pub session_id : ℕ
  pub desired_stream_count : ℕ
  pub worker_id : ℕ

unfoldable pub observe : StreamInventory → Sighting → StreamInventory
observe i s =
    let newer = leb i.desired_session_id s.session_id in
    record {
      desired_count = if newer then s.desired_stream_count else i.desired_count;
      desired_session_id = if newer then s.session_id else i.desired_session_id;
      present = set i.present s.worker_id true;
      carriers =
          if ltb (length i.carriers) stream_control_carriers
          then i.carriers ++ (s.slot ∷ [])
          else i.carriers;
      seen = true;
    }

unfoldable pub observe_all : StreamInventory → List Sighting → StreamInventory
observe_all i [] = i
observe_all i (s ∷ ss) = observe_all (observe i s) ss

-- Whether a worker is among those seen.
abbrev pub was_seen : ℕ → List Sighting → Bool
was_seen w [] = false
was_seen w (s ∷ ss) = if s.worker_id == w then true else was_seen w ss

get_or-set_same : (xs : List Bool) (i : ℕ) → i < length xs → get_or (set xs i true) i false ≡ true
get_or-set_same [] i h = absurd (omega arith)
get_or-set_same (x ∷ xs) zero h = refl
get_or-set_same (x ∷ xs) (suc i) h = get_or-set_same xs i (omega arith)

get_or-set_other :
    (xs : List Bool) (i j : ℕ)
    → (i == j) ≡ false
    → get_or (set xs i true) j false ≡ get_or xs j false
get_or-set_other [] i j h = refl
get_or-set_other (x ∷ xs) zero zero h = absurd (ground (arith, h))
get_or-set_other (x ∷ xs) zero (suc j) h = refl
get_or-set_other (x ∷ xs) (suc i) zero h = refl
get_or-set_other (x ∷ xs) (suc i) (suc j) h = get_or-set_other xs i j (ground (arith, h))

present-observe_all :
    (i : StreamInventory) (ss : List Sighting) (w : ℕ)
    → w < length i.present
    → get_or (observe_all i ss).present w false
      ≡ (if was_seen w ss then true else get_or i.present w false)
unfolding observe_all observe
present-observe_all i [] w h = refl
present-observe_all i (s ∷ ss) w h =
    present-observe_all (observe i s) ss w (omega (arith, length-set i.present s.worker_id true))
    ∙ elim (Bool-cases (s.worker_id == w)) [
      | inl same ↦
          let e : s.worker_id ≡ w = ground (arith, same) in
          rw
            (same, ap (λ k. get_or (set i.present k true) w false) e, get_or-set_same i.present w h)
            (ground arith)
      | inr other ↦ rw (other, get_or-set_other i.present s.worker_id w other) refl
    ]

get_or-replicate : (n w : ℕ) → get_or (replicate n false) w false ≡ false
get_or-replicate zero w = refl
get_or-replicate (suc n) zero = refl
get_or-replicate (suc n) (suc w) = get_or-replicate n w

-- Of the workers that a client should have, at most 126, those are missing from a pass over the
-- sessions that no session of the pass carries.
pub missing-observe_all :
    (ss : List Sighting) (w : ℕ)
    → let i = observe_all new_inventory ss in
      (names w (fill_missing i.desired_count i.present) ≡ true)
      ↔ ((1 ≤ w) × (w ≤ i.desired_count) × (w ≤ max_stream_workers) × (was_seen w ss ≡ false))
missing-observe_all ss w =
    ((λ h. ground (arith, h, missing, seen_at)), λ h. ground (arith, h, missing, seen_at))
  where
    i : StreamInventory
    i = observe_all new_inventory ss

    missing : (names w (fill_missing i.desired_count i.present) ≡ true) ↔ (
        (1 ≤ w)
        × (w ≤ i.desired_count)
        × (w ≤ max_stream_workers)
        × (get_or i.present w false ≡ false))
    missing = names-fill_missing i.desired_count i.present w

    bit : w < 127 → get_or i.present w false ≡ (if was_seen w ss then true else false)
    bit l =
        present-observe_all new_inventory ss w l
        ∙ ap (λ b. if was_seen w ss then true else b) (get_or-replicate 127 w)

    seen_at : w ≤ max_stream_workers → get_or i.present w false ≡ was_seen w ss
    seen_at l = bit (omega arith) ∙ same (was_seen w ss)
      where
        same : (b : Bool) → (if b then true else false) ≡ b
        same true = refl
        same false = refl
