-- ===== src/Downlink/Slots.antt =====
-- The buffers of a queue are neither lost nor made (rust-server/downlink_queue.rs).
use csqtt_android.Shared.{
  ℕ, zero, suc, ◌+◌, ◌-◌, ◌≤◌, ◌<◌, ◌≡◌, refl, ap, sym, ◌∙◌, true, false, List, [], ◌∷◌, ◌++◌,
  arith, ltb, length, take, min, max, length-append, Bool-cases, inl, inr,
}
use csqtt_android.Downlink.{
  PacketSlots, total, without_last, grow, drop_slot, shrink, resize, slots_enqueue, packet_capacity,
}

length-without_last : (xs : List (List ℕ)) → length (without_last xs) ≡ length xs - 1
length-without_last [] = refl
length-without_last (x ∷ []) = refl
length-without_last (x ∷ y ∷ ys) = omega (arith, length-without_last (y ∷ ys))

take-without_last :
    (n : ℕ) (xs : List (List ℕ)) → n < length xs → take n (without_last xs) ≡ take n xs
take-without_last n [] h = absurd (omega arith)
take-without_last zero (x ∷ xs) h = refl
take-without_last (suc n) (x ∷ []) h = absurd (omega arith)
take-without_last (suc n) (x ∷ y ∷ ys) h = ap (◌∷◌ x) (take-without_last n (y ∷ ys) (omega arith))

take_all : (n : ℕ) (xs : List (List ℕ)) → length xs ≤ n → take n xs ≡ xs
take_all zero [] h = refl
take_all zero (x ∷ xs) h = absurd (omega arith)
take_all (suc n) [] h = refl
take_all (suc n) (x ∷ xs) h = ap (◌∷◌ x) (take_all n xs (omega arith))

grow_lem :
    (fuel capacity : ℕ) (s : PacketSlots)
    → capacity ≤ total s + fuel
    → (total (grow fuel capacity s) ≡ max (total s) capacity)
      × ((grow fuel capacity s).pending ≡ s.pending)
unfolding grow
grow_lem zero capacity s h = (omega arith, refl)
grow_lem (suc fuel) capacity s h =
    ground (arith, grow_lem fuel capacity (record s { free = s.free + 1 }))

drop_slot_lem :
    (capacity : ℕ) (s : PacketSlots)
    → capacity < total s
    → (total (drop_slot s) ≡ total s - 1)
      × (take capacity (drop_slot s).pending ≡ take capacity s.pending)
drop_slot_lem capacity s h =
    ground (arith, length-without_last s.pending, take-without_last capacity s.pending)

shrink_lem :
    (fuel capacity : ℕ) (s : PacketSlots)
    → total s ≤ capacity + fuel
    → (total (shrink fuel capacity s) ≡ min (total s) capacity)
      × ((shrink fuel capacity s).pending ≡ take capacity s.pending)
unfolding shrink
shrink_lem zero capacity s h = (omega arith, sym (take_all capacity s.pending (omega arith)))
shrink_lem (suc fuel) capacity s h = elim (Bool-cases (ltb capacity (total s))) [
  | inl over ↦
      let above : capacity < total s = ground (arith, over) in
      let (fewer, same) = drop_slot_lem capacity s above in
      let (size, kept) = shrink_lem fuel capacity (drop_slot s) (omega (arith, fewer)) in
      rw over (omega (arith, size, fewer), kept ∙ same)
  | inr within ↦
      let below : total s ≤ capacity = ground (arith, within) in
      rw within (omega arith, sym (take_all capacity s.pending (omega arith)))
]

-- After a change of its capacity a queue has exactly that many buffers, free or pending, and of the
-- pending packets the oldest are kept, as many as there is room for.
pub resize_lem :
    (s : PacketSlots) (capacity : ℕ)
    → (total (resize s capacity) ≡ capacity)
      × ((resize s capacity).pending ≡ take capacity s.pending)
unfolding resize
resize_lem s zero = (refl, refl)
resize_lem s (suc n) =
    let (grown, same) = grow_lem (suc n) (suc n) s (omega arith) in
    let (size, kept) =
      shrink_lem (total (grow (suc n) (suc n) s)) (suc n) (grow (suc n) (suc n) s) (omega arith) in
    rw not_cleared (omega (arith, grown, size), kept ∙ ap (take (suc n)) same)
  where
    not_cleared :
        resize s (suc n) ≡ shrink (total (grow (suc n) (suc n) s)) (suc n) (grow (suc n) (suc n) s)
    not_cleared = ground arith

-- A packet that is taken uses one free buffer and stands last; a packet is refused, and nothing
-- changes, exactly if no buffer is free or the packet is longer than one.
pub slots_enqueue_lem :
    (s : PacketSlots) (packet : List ℕ)
    → let next = slots_enqueue s packet in
      (total next.0 ≡ total s)
      × (next.1 ≡ true → next.0.pending ≡ s.pending ++ (packet ∷ []))
      × (next.1 ≡ false → next.0 ≡ s)
      × (next.1 ≡ true → (0 < s.free) × (length packet ≤ packet_capacity))
unfolding slots_enqueue
slots_enqueue_lem s packet = (
  ground (arith, length-append s.pending (packet ∷ [])),
  (λ h. ground (arith, h)),
  (λ h. ground (arith, h)),
  λ h. ground (arith, h),
)
