-- ===== src/Supervisor/Tests.antt =====
-- The default policy over four failures, of which the third comes after a minute.
use csqtt_android.Shared.{◌≡◌, refl, [], ◌∷◌}
use csqtt_android.Supervisor.{default, run, supervise, bounded_delay, next_delay, delay_after}

delays : supervise default (5 ∷ 5 ∷ 60_000 ∷ 5 ∷ []) ≡ 250 ∷ 500 ∷ 250 ∷ 500 ∷ []
unfolding supervise run bounded_delay next_delay delay_after
delays = refl
