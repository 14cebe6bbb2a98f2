-- ===== src/Repair.antt =====
-- rust-client/repair.rs: the repair state of the workers. A slot's atomics are fields; a command is
-- applied with no other command between, so that `compare_exchange` meets the value just loaded.
-- A slot's `notify`, which only wakes the task that waits for the slot, is left out.
pub mod Command
pub mod Once
mod Tests
use csqtt_android.Shared.{
  ℕ, zero, suc, ◌+◌, ◌%◌, List, [], ◌∷◌, Option, none, some, Bool, true, false, ◌&&◌, not, leb, ltb,
  ◌==◌, if◌then◌else◌, get_elem?, set, replicate, word_mod, max,
}

pub record RepairSlot : Type 0 where
  pub restart_generation : ℕ
  pub credential_generation : ℕ
  pub last_sequence : ℕ
  pub ready_sequence : ℕ

abbrev pub new_slot : RepairSlot
new_slot = record {
  restart_generation = 0;
  credential_generation = 0;
  last_sequence = 0;
  ready_sequence = 0;
}

abbrev pub RepairState : Type 0
RepairState = List RepairSlot

pub record RepairApplyResult : Type 0 where
  pub restarts : ℕ
  pub credential_resets : ℕ

-- `StreamRepairCommand`, less its worker count, which this file does not read.
pub record RepairCommand : Type 0 where
  pub sequence : ℕ
  pub worker_ids : List ℕ

unfoldable pub new : ℕ → RepairState
new desired_count = replicate (suc desired_count) new_slot

-- Slot 0 belongs to no worker.
unfoldable pub slot : RepairState → ℕ → Option RepairSlot
slot slots worker_id = if worker_id == 0 then none else get_elem? slots worker_id

abbrev generation_of : (RepairSlot → ℕ) → Option RepairSlot → ℕ
generation_of field none = 0
generation_of field (some s) = field s

unfoldable pub restart_generation_of : RepairState → ℕ → ℕ
restart_generation_of slots worker_id =
    generation_of (λ s. s.restart_generation) (slot slots worker_id)

unfoldable pub credential_generation_of : RepairState → ℕ → ℕ
credential_generation_of slots worker_id =
    generation_of (λ s. s.credential_generation) (slot slots worker_id)

unfoldable pub mark_ready : RepairState → ℕ → RepairState
mark_ready slots worker_id = elim (slot slots worker_id) [
  | none ↦ slots
  | some s ↦ set slots worker_id (record s { ready_sequence = s.last_sequence })
]

-- Whether a repair calls for new credentials as well: the repair before it was not answered.
abbrev pub unanswered : RepairSlot → Bool
unanswered s = not (s.last_sequence == 0) && ltb s.ready_sequence s.last_sequence

-- The slot behind a successful exchange of `last_sequence`.
abbrev pub repaired : ℕ → RepairSlot → RepairSlot
repaired sequence s = record {
  restart_generation = (s.restart_generation + 1) % word_mod;
  credential_generation =
      if unanswered s then (s.credential_generation + 1) % word_mod else s.credential_generation;
  last_sequence = sequence;
  ready_sequence = s.ready_sequence;
}

-- One worker of a command: the slot, and what it adds to the result.
unfoldable pub repair_slot : ℕ → RepairSlot → RepairSlot × RepairApplyResult
repair_slot sequence s =
    if leb sequence s.last_sequence then (s, record { restarts = 0; credential_resets = 0 }) else (
      repaired sequence s,
      record { restarts = 1; credential_resets = if unanswered s then 1 else 0 },
    )

abbrev pub add_results : RepairApplyResult → RepairApplyResult → RepairApplyResult
add_results a b = record {
  restarts = a.restarts + b.restarts;
  credential_resets = a.credential_resets + b.credential_resets;
}

unfoldable pub repair_workers :
    ℕ → List ℕ → RepairState → RepairApplyResult → RepairState × RepairApplyResult
repair_workers sequence [] slots result = (slots, result)
repair_workers sequence (worker_id ∷ ids) slots result = elim (slot slots worker_id) [
  | none ↦ repair_workers sequence ids slots result
  | some s ↦
      repair_workers sequence ids (set slots worker_id (repair_slot sequence s).0)
        (add_results result (repair_slot sequence s).1)
]

unfoldable pub apply_repair : RepairState → RepairCommand → RepairState × RepairApplyResult
apply_repair slots command =
    repair_workers command.sequence command.worker_ids slots
      (record { restarts = 0; credential_resets = 0 })

unfoldable pub alive_workers : ℕ → List ℕ → RepairState → ℕ → RepairState × ℕ
alive_workers sequence [] slots applied = (slots, applied)
alive_workers sequence (worker_id ∷ ids) slots applied = elim (slot slots worker_id) [
  | none ↦ alive_workers sequence ids slots applied
  | some s ↦
      alive_workers sequence ids
        (set slots worker_id (record s { ready_sequence = max s.ready_sequence sequence }))
        (applied + 1)
]

unfoldable pub apply_alive : RepairState → RepairCommand → RepairState × ℕ
apply_alive slots command = alive_workers command.sequence command.worker_ids slots 0
