-- ===== src/Downlink/Oldest.antt =====
-- The packets of a lane are taken in their order (rust-server/downlink_queue.rs).
use csqtt_android.Shared.{
  ℕ, zero, suc, ◌≡◌, refl, ap, sym, ◌∙◌, subst, List, ◌∷◌, none, some, arith, length, get_elem?,
  Option-cases, inl, inr, get_elem?-set_self, lt_length_of_get,
}
use csqtt_android.Scheduler.{PacketClass, latency, priority, bulk}
use csqtt_android.Downlink.{PacketSlots, Lane, queue, with_queue, slots_dequeue}
use csqtt_android.Downlink.Queue.{
  DownlinkQueue, ring, cursor, next_key, from_lane, dequeue_loop, dequeue,
}
use csqtt_android.Downlink.Dequeue.{waiting, lanes-with_cursor}

-- The lane that a packet was taken from.
abbrev Takes : DownlinkQueue → PacketClass → DownlinkQueue → ℕ → List ℕ → Type 0
Takes q class q' key packet = waiting q key class ≡ packet ∷ waiting q' key class

queue-with_queue :
    (lane : Lane) (class : PacketClass) (s : PacketSlots)
    → queue (with_queue lane class s) class ≡ s
queue-with_queue lane latency s = refl
queue-with_queue lane priority s = refl
queue-with_queue lane bulk s = refl

from_lane-Takes :
    (q : DownlinkQueue) (class : PacketClass) (key k : ℕ) (q' : DownlinkQueue) (packet : List ℕ)
    → from_lane q key class ≡ some (q', k, packet)
    → (k ≡ key) × Takes q class q' key packet
unfolding slots_dequeue
from_lane-Takes q class key k q' packet h = elim (Option-cases (get_elem? q.lanes key)) [
  | inl gone ↦ absurd (ground (arith, h, gone))
  | inr (lane, e) ↦
      let s = (slots_dequeue (queue lane class)).0 in
      ground (
        arith,
        h,
        e,
        get_elem?-set_self q.lanes key (with_queue lane class s)
            (lt_length_of_get q.lanes key lane e),
        queue-with_queue lane class s,
      )
]

waiting-next_key :
    (q : DownlinkQueue) (class : PacketClass) (key : ℕ)
    → waiting (next_key q class).0 key class ≡ waiting q key class
unfolding next_key
waiting-next_key q class key = elim (Option-cases (get_elem? (ring q class) (cursor q class))) [
  | inl none_left ↦ ground (arith, none_left)
  | inr (k, at) ↦ ground (arith, at, lanes-with_cursor q class)
]

loop_empty :
    (attempts : ℕ) (q : DownlinkQueue) (class : PacketClass) (k : ℕ)
    → (next_key q class).1 ≡ some k
    → from_lane (next_key q class).0 k class ≡ none
    → dequeue_loop (suc attempts) q class ≡ dequeue_loop attempts (next_key q class).0 class
unfolding dequeue_loop
loop_empty attempts q class k found empty = ground (arith, found, empty)

loop_found :
    (attempts : ℕ) (q : DownlinkQueue) (class : PacketClass) (k key : ℕ) (q' : DownlinkQueue)
    (packet : List ℕ)
    → (next_key q class).1 ≡ some k
    → from_lane (next_key q class).0 k class ≡ some (q', key, packet)
    → dequeue_loop (suc attempts) q class ≡ (q', some (key, packet))
unfolding dequeue_loop
loop_found attempts q class k key q' packet found taken = ground (arith, found, taken)

loop-Takes :
    (attempts : ℕ) (q : DownlinkQueue) (class : PacketClass) (key : ℕ) (packet : List ℕ)
    → (dequeue_loop attempts q class).1 ≡ some (key, packet)
    → Takes q class (dequeue_loop attempts q class).0 key packet
unfolding dequeue_loop
loop-Takes zero q class key packet h = cc
loop-Takes (suc attempts) q class key packet h = elim (Option-cases (next_key q class).1) [
  | inl none_left ↦ absurd (ground (arith, h, none_left))
  | inr (k, found) ↦ elim (Option-cases (from_lane (next_key q class).0 k class)) [
    | inl empty ↦
        let e = loop_empty attempts q class k found empty in
        sym (waiting-next_key q class key)
        ∙ subst (λ r. Takes (next_key q class).0 class r.0 key packet) (sym e)
            (loop-Takes attempts (next_key q class).0 class key packet (sym (ap (λ r. r.1) e) ∙ h))
    | inr ((q', k', p), taken) ↦
        let e = loop_found attempts q class k k' q' p found taken in
        let (same_key, takes) = from_lane-Takes (next_key q class).0 class k k' q' p taken in
        taken_from k q' k' p e same_key takes
  ]
]
  where
    taken_from :
        (k : ℕ) (q' : DownlinkQueue) (k' : ℕ) (p : List ℕ)
        → dequeue_loop (suc attempts) q class ≡ (q', some (k', p))
        → k' ≡ k
        → Takes (next_key q class).0 class q' k p
        → Takes q class (dequeue_loop (suc attempts) q class).0 key packet
    taken_from k q' k' p e same_key t =
        let ids : (key ≡ k) × (packet ≡ p) = ground (arith, h, e, same_key) in
        subst (λ r. Takes q class r.0 key packet) (sym e)
          (sym (waiting-next_key q class key) ∙ rw (ids.0, ids.1) t)

-- A packet that `dequeue` gives is the one that waited longest in its lane, and the others of the
-- lane go on waiting in their order.
pub dequeue_takes_oldest :
    (q : DownlinkQueue) (class : PacketClass) (key : ℕ) (packet : List ℕ)
    → (dequeue q class).1 ≡ some (key, packet)
    → waiting q key class ≡ packet ∷ waiting (dequeue q class).0 key class
unfolding dequeue
dequeue_takes_oldest q class key packet h = loop-Takes (length (ring q class)) q class key packet h
