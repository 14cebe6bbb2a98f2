-- ===== src/Supervisor.antt =====
-- rust-server/udp_supervisor.rs: the delays between attempts of the UDP listener, in milliseconds.
-- An attempt is how long it ran; the loop is followed until it is cancelled, so that a run is the
-- list of its failed attempts.
pub mod Delays
mod Tests
use csqtt_android.Shared.{ℕ, zero, suc, ◌*◌, ◌+◌, List, [], ◌∷◌, ltb, leb, if◌then◌else◌, min, max}

pub record RestartPolicy : Type 0 where
  pub initial_delay : ℕ
  pub max_delay : ℕ
  pub reset_after : ℕ

abbrev pub default : RestartPolicy
default = record { initial_delay = 250; max_delay = 30_000; reset_after = 60_000 }

unfoldable pub bounded_delay : RestartPolicy → ℕ → ℕ
bounded_delay policy delay = min (max delay 1) (max policy.max_delay 1)

-- `saturating_mul` saturates far above `max_delay`
unfoldable pub next_delay : RestartPolicy → ℕ → ℕ
unfolding bounded_delay
next_delay policy delay = bounded_delay policy (delay * 2)

-- The delay after an attempt that ran for `elapsed`.
unfoldable pub delay_after : RestartPolicy → ℕ → ℕ → ℕ
delay_after policy delay elapsed =
    if leb policy.reset_after elapsed then bounded_delay policy policy.initial_delay else delay

-- The delays that the attempts of a run are followed by.
unfoldable pub run : RestartPolicy → ℕ → List ℕ → List ℕ
run policy delay [] = []
run policy delay (elapsed ∷ attempts) =
    let now = delay_after policy delay elapsed in now ∷ run policy (next_delay policy now) attempts

unfoldable pub supervise : RestartPolicy → List ℕ → List ℕ
unfolding bounded_delay run
supervise policy attempts = run policy (bounded_delay policy policy.initial_delay) attempts
