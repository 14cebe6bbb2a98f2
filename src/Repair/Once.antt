-- ===== src/Repair/Once.antt =====
-- A repair is applied once, and an answered one does not reset credentials (rust-client/repair.rs).
use csqtt_android.Shared.{
  ℕ, zero, suc, ◌≤◌, ◌<◌, ◌≡◌, refl, ap, ◌∙◌, List, [], ◌∷◌, Option, none, some, true, arith,
  ==_refl, get_elem?, set, Option-cases, inl, inr, ◌↔◌,
}
use csqtt_android.Repair.{
  RepairSlot, RepairState, RepairApplyResult, RepairCommand, slot, repair_slot, repair_workers,
  apply_repair, mark_ready, add_results,
}
use csqtt_android.Repair.Command.{is_in, slot-set, slot-apply_repair_lem}

set_same :
    (slots : RepairState) (v : ℕ) (s : RepairSlot)
    → get_elem? slots v ≡ some s
    → set slots v s ≡ slots
set_same [] v s h = refl
set_same (x ∷ slots) zero s h = ground arith
set_same (x ∷ slots) (suc v) s h = ap (◌∷◌ x) (set_same slots v s h)

slot-set_same :
    (slots : RepairState) (v : ℕ) (s : RepairSlot) → slot slots v ≡ some s → set slots v s ≡ slots
unfolding slot
slot-set_same slots v s h = set_same slots v s (ground arith)

-- Every slot that the list names has seen the sequence.
abbrev IsSettled : ℕ → List ℕ → RepairState → Type 0
IsSettled sequence ids slots =
    (w : ℕ) (s : RepairSlot)
    → is_in w ids ≡ true
    → slot slots w ≡ some s
    → sequence ≤ s.last_sequence

repair_slot_settled :
    (sequence : ℕ) (s : RepairSlot)
    → sequence ≤ s.last_sequence
    → repair_slot sequence s ≡ (s, record { restarts = 0; credential_resets = 0 })
unfolding repair_slot
repair_slot_settled sequence s h = ground arith

add_nothing :
    (result : RepairApplyResult)
    → add_results result (record { restarts = 0; credential_resets = 0 }) ≡ result
add_nothing result = ground arith

repair_workers_settled :
    (sequence : ℕ) (ids : List ℕ) (slots : RepairState) (result : RepairApplyResult)
    → IsSettled sequence ids slots
    → repair_workers sequence ids slots result ≡ (slots, result)
unfolding repair_workers
repair_workers_settled sequence [] slots result settled = refl
repair_workers_settled sequence (v ∷ ids) slots result settled =
    elim (Option-cases (slot slots v)) [
      | inl e ↦ rw (e, repair_workers) (repair_workers_settled sequence ids slots result rest)
      | inr (s, e) ↦
          rw (e, repair_workers)
            (rw
              (
                repair_slot_settled sequence s (settled v s (rw (==_refl v) refl) e),
                slot-set_same slots v s e,
                add_nothing result,
              )
              (repair_workers_settled sequence ids slots result rest))
    ]
  where
    rest : IsSettled sequence ids slots
    rest w s m e = settled w s (ground (arith, m)) e

repair_slot_reaches :
    (sequence : ℕ) (s : RepairSlot) → sequence ≤ (repair_slot sequence s).0.last_sequence
unfolding repair_slot
repair_slot_reaches sequence s = ground arith

-- The same command again changes nothing and reports nothing.
pub apply_repair_twice :
    (slots : RepairState) (command : RepairCommand)
    → apply_repair (apply_repair slots command).0 command
      ≡ ((apply_repair slots command).0, record { restarts = 0; credential_resets = 0 })
unfolding apply_repair
apply_repair_twice slots command =
    repair_workers_settled command.sequence command.worker_ids _ _ settled
  where
    settled : IsSettled command.sequence command.worker_ids (apply_repair slots command).0
    settled w s m e = elim (Option-cases (slot slots w)) [
      | inl gone ↦ ground (arith, gone, slot-apply_repair_lem slots command w)
      | inr (old, found) ↦ ground (
        arith,
        found,
        slot-apply_repair_lem slots command w,
        repair_slot_reaches command.sequence old,
      )
    ]

abbrev resets_of : ℕ → Option RepairSlot → ℕ
resets_of sequence none = 0
resets_of sequence (some s) = (repair_slot sequence s).1.credential_resets

one_worker :
    (slots : RepairState) (w sequence : ℕ)
    → (apply_repair slots (record { sequence = sequence; worker_ids = w ∷ [] })).1.credential_resets
      ≡ resets_of sequence (slot slots w)
unfolding apply_repair repair_workers
one_worker slots w sequence = ground arith

slot-mark_ready :
    (slots : RepairState) (w : ℕ) (s : RepairSlot)
    → slot (mark_ready slots w) w ≡ some s
    → s.ready_sequence ≡ s.last_sequence
unfolding mark_ready
slot-mark_ready slots w s h = elim (Option-cases (slot slots w)) [
  | inl gone ↦ ground (arith, gone)
  | inr (old, found) ↦ ground (
    arith,
    found,
    slot-set slots w w old (record old { ready_sequence = old.last_sequence }) found,
  )
]

answered :
    (sequence : ℕ) (s : RepairSlot)
    → s.last_sequence ≤ s.ready_sequence
    → (repair_slot sequence s).1.credential_resets ≡ 0
unfolding repair_slot
answered sequence s h = ground arith

-- A worker that has reported ready keeps its credentials through the next repair, whatever its
-- sequence.
pub mark_ready_keeps_credentials :
    (slots : RepairState) (w sequence : ℕ)
    → let command : RepairCommand = record { sequence = sequence; worker_ids = w ∷ [] } in
      (apply_repair (mark_ready slots w) command).1.credential_resets ≡ 0
mark_ready_keeps_credentials slots w sequence =
    one_worker (mark_ready slots w) w sequence ∙ go (slot (mark_ready slots w) w) refl
  where
    go : (o : Option RepairSlot) → slot (mark_ready slots w) w ≡ o → resets_of sequence o ≡ 0
    go none e = refl
    go (some s) e = answered sequence s (omega (arith, slot-mark_ready slots w s e))

-- A worker's slot that a repair has passed without an answer loses its credentials with the next.
pub unanswered_repair_resets :
    (slots : RepairState) (w sequence : ℕ) (s : RepairSlot)
    → slot slots w ≡ some s
    → let command : RepairCommand = record { sequence = sequence; worker_ids = w ∷ [] } in
      ((apply_repair slots command).1.credential_resets ≡ 1) ↔ (
        (s.last_sequence < sequence) × (0 < s.last_sequence) × (s.ready_sequence < s.last_sequence))
unfolding repair_slot
unanswered_repair_resets slots w sequence s e = (
  (λ h. ground (arith, e, one_worker slots w sequence)),
  λ h. ground (arith, e, one_worker slots w sequence),
)
