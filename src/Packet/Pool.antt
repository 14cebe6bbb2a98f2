-- ===== src/Packet/Pool.antt =====
-- The pool (packet.rs of both ends) as a transition system: `try_acquire` and `release` are called by
-- many tasks at once, and each of their atomic operations is a step. A task that is between two of
-- them is counted by where it stands.
use csqtt_android.Shared.{ℕ, ◌+◌, ◌-◌, ◌≤◌, ◌<◌, ◌≡◌, max, min, arith}
use csqtt_android.Packet.{packet_pool_retained_max}

-- The queue is counted by its length. `popped` tasks took a buffer from the queue and have not yet
-- counted it out of `retained`; `counted` tasks have a buffer counted into `retained` and have not
-- yet pushed it; `refused` found the queue full and have not yet counted it out again; `discarded`
-- dropped their buffer and have not yet counted it out of `allocated`. `lent` buffers are in packets.
pub record PacketPool : Type 0 where
  pub capacity : ℕ
  pub retained_limit : ℕ
  pub queue : ℕ
  pub allocated : ℕ
  pub retained : ℕ
  pub lent : ℕ
  pub popped : ℕ
  pub counted : ℕ
  pub refused : ℕ
  pub discarded : ℕ

abbrev pub new : ℕ → PacketPool
new buffers = record {
  capacity = max buffers 1;
  retained_limit = min (max buffers 1) packet_pool_retained_max;
  queue = 0;
  allocated = 0;
  retained = 0;
  lent = 0;
  popped = 0;
  counted = 0;
  refused = 0;
  discarded = 0;
}

pub data ◌⟶◌ : PacketPool → PacketPool → Type 0 where
  -- `try_acquire`: `queue.pop()` finds a buffer
  pop : {p : PacketPool} → 0 < p.queue → p ⟶ record p { queue = p.queue - 1; popped = p.popped + 1 }
  -- `retained.fetch_sub(1)`, and the buffer is lent
  uncount :
      {p : PacketPool}
      → 0 < p.popped
      → p ⟶ record p { retained = p.retained - 1; popped = p.popped - 1; lent = p.lent + 1 }
  -- `allocated.fetch_update` after an empty queue; it may have filled again by now
  allocate :
      {p : PacketPool}
      → p.allocated < p.capacity
      → p ⟶ record p { allocated = p.allocated + 1; lent = p.lent + 1 }
  -- `release`: the storage has not its size, or `retained` is at its limit
  discard :
      {p : PacketPool}
      → 0 < p.lent
      → p ⟶ record p { lent = p.lent - 1; discarded = p.discarded + 1 }
  -- `allocated.fetch_sub(1)` of a dropped buffer
  free :
      {p : PacketPool}
      → 0 < p.discarded
      → p ⟶ record p { allocated = p.allocated - 1; discarded = p.discarded - 1 }
  -- `release`: `retained.fetch_update` counts the buffer in
  count :
      {p : PacketPool}
      → 0 < p.lent
      → p.retained < p.retained_limit
      → p ⟶ record p { retained = p.retained + 1; lent = p.lent - 1; counted = p.counted + 1 }
  -- `queue.push(storage)` succeeds
  push :
      {p : PacketPool}
      → 0 < p.counted
      → p.queue < p.capacity
      → p ⟶ record p { queue = p.queue + 1; counted = p.counted - 1 }
  -- the queue is full
  refuse :
      {p : PacketPool}
      → 0 < p.counted
      → p.capacity ≤ p.queue
      → p ⟶ record p { counted = p.counted - 1; refused = p.refused + 1 }
  -- `retained.fetch_sub(1)` after a refused push, the buffer being dropped
  give_up :
      {p : PacketPool}
      → 0 < p.refused
      → p ⟶ record p {
        retained = p.retained - 1;
        refused = p.refused - 1;
        discarded = p.discarded + 1;
      }

infix 40 ◌⟶◌
-- The states of a pool made for `buffers` buffers.
pub data Reachable (buffers : ℕ) : PacketPool → Type 0 where
  start : Reachable buffers (new buffers)
  after : {p q : PacketPool} → Reachable buffers p → p ⟶ q → Reachable buffers q

-- Every buffer is in one place, `retained` counts those in or near the queue, and both stay within
-- their limits.
pub record IsBalanced (p : PacketPool) : Type 0 where
  pub every : p.allocated ≡ p.queue + p.lent + p.popped + p.counted + p.refused + p.discarded
  pub near_queue : p.retained ≡ p.queue + p.popped + p.counted + p.refused
  pub allocated_bound : p.allocated ≤ p.capacity
  pub retained_bound : p.retained ≤ p.retained_limit
  pub limit_bound : p.retained_limit ≤ p.capacity
  pub limit_max : p.retained_limit ≤ packet_pool_retained_max

step-IsBalanced : (p q : PacketPool) → p ⟶ q → IsBalanced p → IsBalanced q
step-IsBalanced p q (pop h) b = omega arith
step-IsBalanced p q (uncount h) b = omega arith
step-IsBalanced p q (allocate h) b = omega arith
step-IsBalanced p q (discard h) b = omega arith
step-IsBalanced p q (free h) b = omega arith
step-IsBalanced p q (count h l) b = omega arith
step-IsBalanced p q (push h l) b = omega arith
step-IsBalanced p q (refuse h l) b = omega arith
step-IsBalanced p q (give_up h) b = omega arith

new-IsBalanced : (buffers : ℕ) → IsBalanced (new buffers)
new-IsBalanced buffers = omega arith

-- In every state that a pool can reach, whatever tasks take and give back buffers at once: each
-- buffer is in one place, at most `capacity` of them exist, at most 2,048 of them are kept, and the
-- two counters are exact.
pub Reachable-IsBalanced : (buffers : ℕ) (p : PacketPool) → Reachable buffers p → IsBalanced p
Reachable-IsBalanced buffers p start = new-IsBalanced buffers
Reachable-IsBalanced buffers q (after {p = p} r s) =
    step-IsBalanced p q s (Reachable-IsBalanced buffers p r)

-- A buffer that was counted in always finds room in the queue, and no counter is taken below 0.
pub push_finds_room :
    (buffers : ℕ) (p : PacketPool)
    → Reachable buffers p
    → (0 < p.counted → p.queue < p.capacity)
      × (0 < p.popped → 0 < p.retained)
      × (0 < p.refused → 0 < p.retained)
      × (0 < p.discarded → 0 < p.allocated)
push_finds_room buffers p r =
    let b = Reachable-IsBalanced buffers p r in
    (
      (λ h. omega (arith, b)),
      (λ h. omega (arith, b)),
      (λ h. omega (arith, b)),
      λ h. omega (arith, b),
    )

-- When no task is inside the pool and no packet is out, every buffer that exists is in the queue:
-- none is lost.
pub at_rest :
    (buffers : ℕ) (p : PacketPool)
    → Reachable buffers p
    → p.lent ≡ 0
    → p.popped + p.counted + p.refused + p.discarded ≡ 0
    → (p.queue ≡ p.allocated) × (p.retained ≡ p.queue)
at_rest buffers p r out quiet = let b = Reachable-IsBalanced buffers p r in omega (arith, b)
