-- ===== src/Worker/Groups.antt =====
-- The worker ids of the groups of rust-client/worker.rs.
use csqtt_android.Shared.{ℕ, ◌+◌, ◌-◌, ◌/◌, ◌≤◌, ◌<◌, ◌≡◌, ◌↔◌, arith}
use csqtt_android.Worker.{group_worker_ids}

-- A worker id from 1 on is in the range of exactly one group from 1 on.
pub group_worker_ids_iff :
    (group_id id : ℕ)
    → 1 ≤ group_id
    → 1 ≤ id
    → (((group_worker_ids group_id).0 ≤ id) × (id < (group_worker_ids group_id).1))
      ↔ (group_id ≡ (id - 1) / 9 + 1)
unfolding group_worker_ids
group_worker_ids_iff group_id id g h = ground arith
