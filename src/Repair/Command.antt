-- ===== src/Repair/Command.antt =====
-- What a repair command does to each worker's slot (rust-client/repair.rs).
use csqtt_android.Shared.{
  ℕ, ◌+◌, ◌%◌, ◌^◌, ◌≤◌, ◌<◌, ◌≡◌, ◌⊎◌, ◌∙◌, refl, sym, subst, Bool-cases, leb, leb→le, true, List,
  [], ◌∷◌, Option, none, some, Bool, false, ◌||◌, arith, ◌==◌, if◌then◌else◌, set, length,
  get_elem?-set_self, get_elem?-set_ne, lt_length_of_get, Option-cases, inl, inr,
}
use csqtt_android.Repair.{
  RepairSlot, RepairState, RepairApplyResult, RepairCommand, slot, repair_slot, repair_workers,
  repaired, unanswered, apply_repair, add_results,
}

abbrev pub is_in : ℕ → List ℕ → Bool
is_in w [] = false
is_in w (x ∷ xs) = x == w || is_in w xs

-- What the command does to one slot that it names.
abbrev pub after_repair : ℕ → Option RepairSlot → Option RepairSlot
after_repair sequence none = none
after_repair sequence (some s) = some (repair_slot sequence s).0

pub slot-set :
    (slots : RepairState) (w v : ℕ) (s s' : RepairSlot)
    → slot slots v ≡ some s
    → slot (set slots v s') w ≡ (if v == w then some s' else slot slots w)
unfolding slot
slot-set slots w v s s' h = ground (
  arith,
  get_elem?-set_self slots v s',
  get_elem?-set_ne slots v w s',
  lt_length_of_get slots v s,
)

repair_twice :
    (sequence : ℕ) (s : RepairSlot)
    → (repair_slot sequence (repair_slot sequence s).0).0 ≡ (repair_slot sequence s).0
unfolding repair_slot
repair_twice sequence s = ground arith

slot-repair_workers :
    (sequence : ℕ) (ids : List ℕ) (slots : RepairState) (result : RepairApplyResult) (w : ℕ)
    → slot (repair_workers sequence ids slots result).0 w
      ≡ (if is_in w ids then after_repair sequence (slot slots w) else slot slots w)
unfolding repair_workers
slot-repair_workers sequence [] slots result w = refl
slot-repair_workers sequence (v ∷ ids) slots result w = elim (Option-cases (slot slots v)) [
  | inl e ↦
      rw (e, repair_workers) (ground (arith, e, slot-repair_workers sequence ids slots result w))
  | inr (s, e) ↦
      rw (e, repair_workers)
        (ground (
          arith,
          e,
          slot-set slots w v s (repair_slot sequence s).0,
          repair_twice sequence s,
          slot-repair_workers sequence ids (set slots v (repair_slot sequence s).0)
              (add_results result (repair_slot sequence s).1) w,
        ))
]

pub slot-apply_repair_lem :
    (slots : RepairState) (command : RepairCommand) (w : ℕ)
    → slot (apply_repair slots command).0 w ≡ (
        if is_in w command.worker_ids
        then after_repair command.sequence (slot slots w)
        else slot slots w)
unfolding apply_repair
slot-apply_repair_lem slots command w =
    slot-repair_workers command.sequence command.worker_ids slots _ w

-- New credentials for a slot whose last repair was not answered, and for no other.
abbrev pub Credentials : RepairSlot → RepairSlot → Type 0
Credentials s t =
    ((0 < s.last_sequence)
      × (s.ready_sequence < s.last_sequence)
      × (t.credential_generation ≡ (s.credential_generation + 1) % 2 ^ 64))
    ⊎ (((s.last_sequence ≡ 0) ⊎ (s.last_sequence ≤ s.ready_sequence))
        × (t.credential_generation ≡ s.credential_generation))

-- A slot that has seen the sequence or a later one is kept, and any other is restarted.
abbrev pub IsRepaired : ℕ → RepairSlot → RepairSlot → Type 0
IsRepaired sequence s t =
    ((sequence ≤ s.last_sequence) × (t ≡ s))
    ⊎ ((s.last_sequence < sequence)
        × (t.last_sequence ≡ sequence)
        × (t.restart_generation ≡ (s.restart_generation + 1) % 2 ^ 64)
        × (t.ready_sequence ≡ s.ready_sequence)
        × Credentials s t)

-- The slot of a worker that a command names.
abbrev pub Brings : ℕ → Option RepairSlot → Option RepairSlot → Type 0
Brings sequence none o = o ≡ none
Brings sequence (some s) o = (t : RepairSlot) × (o ≡ some t) × IsRepaired sequence s t

repair_slot-IsRepaired :
    (sequence : ℕ) (s : RepairSlot) → IsRepaired sequence s (repair_slot sequence s).0
unfolding repair_slot
repair_slot-IsRepaired sequence s = elim (Bool-cases (leb sequence s.last_sequence)) [
  | inl seen ↦ inl (leb→le sequence s.last_sequence seen, rw (seen) refl)
  | inr later ↦ rw (later) (inr (ground (arith, later), refl, refl, refl, credentials))
]
  where
    credentials : Credentials s (repaired sequence s)
    credentials = elim (Bool-cases (unanswered s)) [
      | inl e ↦ inl (ground (arith, e), ground (arith, e), rw (e) refl)
      | inr e ↦ inr (ground (arith, e), rw (e) refl)
    ]

after_repair-Brings :
    (sequence : ℕ) (o : Option RepairSlot) → Brings sequence o (after_repair sequence o)
after_repair-Brings sequence none = refl
after_repair-Brings sequence (some s) = (_, refl, repair_slot-IsRepaired sequence s)

-- A command brings each slot that it names to its own sequence, once however often it is named: the
-- slot is restarted, and what it was ready for stays. It gets new credentials when it was repaired
-- before and has not been ready since, and keeps its credentials otherwise. A named slot that has seen
-- that sequence or a later one, and every other slot, stays as it is. Generations wrap around at 2^64.
pub slot-apply_repair :
    (slots : RepairState) (command : RepairCommand) (w : ℕ)
    → ((is_in w command.worker_ids ≡ true)
        × Brings command.sequence (slot slots w) (slot (apply_repair slots command).0 w))
      ⊎ ((is_in w command.worker_ids ≡ false)
          × (slot (apply_repair slots command).0 w ≡ slot slots w))
slot-apply_repair slots command w = elim (Bool-cases (is_in w command.worker_ids)) [
  | inl named ↦ inl (
    named,
    subst (Brings command.sequence (slot slots w))
        (sym (slot-apply_repair_lem slots command w ∙ rw (named) refl))
        (after_repair-Brings command.sequence (slot slots w)),
  )
  | inr other ↦ inr (other, slot-apply_repair_lem slots command w ∙ rw (other) refl)
]

result-repair_workers :
    (sequence : ℕ) (ids : List ℕ) (slots : RepairState) (result : RepairApplyResult)
    → let r = (repair_workers sequence ids slots result).1 in
      (r.restarts ≤ result.restarts + length ids)
      × (r.credential_resets + result.restarts ≤ r.restarts + result.credential_resets)
unfolding repair_workers repair_slot
result-repair_workers sequence [] slots result = omega arith
result-repair_workers sequence (v ∷ ids) slots result = elim (Option-cases (slot slots v)) [
  | inl e ↦ rw (e, repair_workers) (omega (arith, result-repair_workers sequence ids slots result))
  | inr (s, e) ↦
      rw (e, repair_workers)
        (ground (
          arith,
          result-repair_workers sequence ids (set slots v (repair_slot sequence s).0)
              (add_results result (repair_slot sequence s).1),
        ))
]

-- A command reports at most one restart for each worker that it names, and credentials are reset
-- for restarted workers only.
pub apply_repair_result :
    (slots : RepairState) (command : RepairCommand)
    → let r = (apply_repair slots command).1 in
      (r.restarts ≤ length command.worker_ids) × (r.credential_resets ≤ r.restarts)
unfolding apply_repair
apply_repair_result slots command = omega (
  arith,
  result-repair_workers command.sequence command.worker_ids slots
      (record { restarts = 0; credential_resets = 0 }),
)
