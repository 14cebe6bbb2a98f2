-- ===== src/Dns/Names.antt =====
-- The loop over a name in the messages of rust-client/dns.rs.
use csqtt_android.Shared.{
  ℕ, zero, suc, ◌+◌, ◌≤◌, ◌<◌, Bool, true, false, List, if◌then◌else◌, length, get_elem?, arith,
  Option-cases, inl, inr, lt_length_of_get,
}
use csqtt_android.Dns.{
  Answer, ok, refused, out_of_fuel, and_then, past, skip_label, skip_from, skip_name,
}

-- An answer that is a place in `(low, high]`, or a refusal.
unfoldable pub Within : ℕ → ℕ → Answer ℕ → Type 0
Within low high (ok n) = (low < n) × (n ≤ high)
Within low high refused = 0 ≤ 0
Within low high out_of_fuel = 1 ≤ 0

unfoldable Turn : ℕ → ℕ → Answer (ℕ × Bool) → Type 0
Turn low high (ok next) = (low < next.0) × (next.0 ≤ high)
Turn low high refused = 0 ≤ 0
Turn low high out_of_fuel = 1 ≤ 0

Turn-skip_label :
    (message : List ℕ) (offset len : ℕ)
    → offset < length message
    → Turn offset (length message) (skip_label message offset len)
unfolding Turn skip_label past and_then
Turn-skip_label message offset len h = ground arith

-- What follows a turn, with `later` the loop on the fuel that is left.
Within-turn :
    (low high : ℕ) (later : ℕ → Answer ℕ) (r : Answer (ℕ × Bool))
    → Turn low high r
    → ((next : ℕ) → low < next → next ≤ high → Within next high (later next))
    → Within low high (and_then r (λ next. if next.1 then ok next.0 else later next.0))
unfolding Turn Within and_then
Within-turn low high later refused t h = omega arith
Within-turn low high later out_of_fuel t h = t
Within-turn low high later (ok (next, true)) t h = t
Within-turn low high later (ok (next, false)) t h = widen (later next) (h next t.0 t.1)
  where
    widen : (r : Answer ℕ) → Within next high r → Within low high r
    widen (ok n) w = (omega (arith, t.0, w.0), w.1)
    widen refused w = w
    widen out_of_fuel w = w

skip_from-Within :
    (fuel : ℕ) (message : List ℕ) (offset : ℕ)
    → offset ≤ length message
    → length message < offset + fuel
    → Within offset (length message) (skip_from fuel message offset)
unfolding skip_from Within
skip_from-Within zero message offset inside h = omega (arith, inside, h)
skip_from-Within (suc fuel) message offset inside h =
    elim (Option-cases (get_elem? message offset)) [
      | inl past_end ↦ rw (past_end, skip_from, Within) (omega arith)
      | inr (len, found) ↦
          rw (found, skip_from)
            (Within-turn offset (length message) (skip_from fuel message)
              (skip_label message offset len)
              (Turn-skip_label message offset len (lt_length_of_get message offset len found))
              (λ next after within.
                skip_from-Within fuel message next within (omega (arith, h, after))))
    ]

-- From any place in a message, the loop over a name ends, whatever the bytes: its fuel is enough, and
-- the place it ends at is a later one, still within the message.
pub skip_name-Within :
    (message : List ℕ) (offset : ℕ)
    → offset ≤ length message
    → Within offset (length message) (skip_name message offset)
unfolding skip_name
skip_name-Within message offset inside =
    skip_from-Within (suc (length message)) message offset inside (omega arith)
