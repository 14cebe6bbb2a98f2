-- ===== src/Repair/Tests.antt =====
-- A client with three workers: a command for 2 and 9, then one more.
use csqtt_android.Shared.{◌≡◌, ◌⊎◌, refl, true, false, [], ◌∷◌, some}
use csqtt_android.Repair.{
  RepairSlot, RepairState, RepairCommand, slot, repair_slot, repair_workers, apply_repair,
}
use csqtt_android.Repair.Command.{is_in, Brings, slot-apply_repair}

abbrev first : RepairCommand
first = record { sequence = 5; worker_ids = 2 ∷ 9 ∷ 2 ∷ [] }

abbrev tired : RepairSlot
tired = record {
  restart_generation = 1;
  credential_generation = 0;
  last_sequence = 5;
  ready_sequence = 0;
}

abbrev fresh : RepairSlot
fresh = record {
  restart_generation = 0;
  credential_generation = 0;
  last_sequence = 0;
  ready_sequence = 0;
}

abbrev slots : RepairState
slots = fresh ∷ fresh ∷ tired ∷ fresh ∷ []

-- Worker 2 has seen the sequence before.
named_again : slot (apply_repair slots first).0 2 ≡ some tired
unfolding apply_repair repair_workers slot repair_slot
named_again = refl

slot-apply_repair_example :
    ((is_in 2 (2 ∷ 9 ∷ 2 ∷ []) ≡ true)
      × Brings 5 (some fresh) (slot (apply_repair (fresh ∷ fresh ∷ fresh ∷ []) first).0 2))
    ⊎ ((is_in 2 (2 ∷ 9 ∷ 2 ∷ []) ≡ false)
        × (slot (apply_repair (fresh ∷ fresh ∷ fresh ∷ []) first).0 2 ≡ some fresh))
unfolding slot
slot-apply_repair_example = slot-apply_repair (fresh ∷ fresh ∷ fresh ∷ []) first 2
