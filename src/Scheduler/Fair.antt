-- ===== src/Scheduler/Fair.antt =====
-- Where shared/striped_scheduler.rs sends the packets of one class: in range, and evenly.
use csqtt_android.Shared.{
  ℕ, zero, suc, ◌+◌, ◌-◌, ◌*◌, ◌/◌, ◌%◌, ◌≤◌, ◌<◌, ◌≡◌, refl, ap, ◌∙◌, ◌⊎◌, inl, inr, List, [], ◌∷◌,
  Option, none, some, ◌==◌, if◌then◌else◌, min, arith, word_mod,
}
use native.Mathlib.Nat.{add-zero, add-mod_right, mod-eq_of_lt, mod-lt}
use csqtt_android.Scheduler.{
  PacketClass, latency, priority, bulk, stripe_packet_chunk, DispatchTicket, worker_index,
  StripedScheduler, counter, advance, begin_class, select_class,
}

-- With no worker nothing is counted; with workers the ticket is for one of them, and the counter
-- of the packet's class alone moves on by one, round the word.
pub begin_class_cases :
    (s : StripedScheduler) (count : ℕ) (class : PacketClass)
    → ((count ≡ 0) × (begin_class s count class ≡ (s, none)))
      ⊎ ((ticket : DispatchTicket) × (begin_class s count class ≡ (advance s class, some ticket))
          × (ticket.start_slot < count)
          × (ticket.worker_count ≡ count)
          × (ticket.cohort_len ≡ count)
          × (ticket.class ≡ class))
unfolding begin_class
begin_class_cases s zero class = inl (refl, refl)
begin_class_cases s (suc n) class = inr (
  (record {
    start_slot = min (counter s class / stripe_packet_chunk class % suc n) (suc n - 1);
    worker_count = suc n;
    cohort_len = suc n;
    class = class;
  }),
  ground arith,
  omega arith,
  refl,
  refl,
  refl,
)

-- The slots of `n` packets of one class in a row.
unfoldable pub serve : ℕ → StripedScheduler → ℕ → PacketClass → List (Option ℕ)
serve zero s count class = []
serve (suc n) s count class =
    let (s', slot) = select_class s count class in slot ∷ serve n s' count class

-- How many of them go to worker `w`.
abbrev pub goes_to : ℕ → Option ℕ → ℕ
goes_to w none = 0
goes_to w (some slot) = if slot == w then 1 else 0

unfoldable pub share : ℕ → List (Option ℕ) → ℕ
share w [] = 0
share w (slot ∷ slots) = goes_to w slot + share w slots

-- The sum of `f` over the `n` numbers from `k` on.
window_sum : (ℕ → ℕ) → ℕ → ℕ → ℕ
window_sum f zero k = 0
window_sum f (suc n) k = f k + window_sum f n (k + 1)

window_sum_snoc : (f : ℕ → ℕ) (n k : ℕ) → window_sum f (suc n) k ≡ window_sum f n k + f (k + n)
unfolding window_sum
window_sum_snoc f zero k = omega (arith, ap f (add-zero k))
window_sum_snoc f (suc n) k =
    omega
      (arith, window_sum_snoc f n (k + 1), ap f (let e : k + 1 + n ≡ k + suc n = omega arith in e))

-- Over a whole period the sum does not depend on where it starts.
window_sum_periodic :
    (f : ℕ → ℕ) (period : ℕ)
    → ((k : ℕ) → f (k + period) ≡ f k)
    → (k : ℕ) → window_sum f period k ≡ window_sum f period 0
unfolding window_sum
window_sum_periodic f period p zero = refl
window_sum_periodic f period p (suc k) = omega (
  arith,
  window_sum_periodic f period p k,
  window_sum_snoc f period k,
  p k,
  ap (window_sum f period) (let e : k + 1 ≡ suc k = omega arith in e),
)

module _ (class : PacketClass) (count w : ℕ) where
  -- Whether packet number `k` goes to worker `w`.
  abbrev hit : ℕ → ℕ
  hit k = if min (k / stripe_packet_chunk class % count) (count - 1) == w then 1 else 0

  hit_periodic : (k : ℕ) → hit (k + stripe_packet_chunk class * count) ≡ hit k
  hit_periodic k = ap (λ (i : ℕ). if min i (count - 1) == w then 1 else 0) (turn class)
    where
      turn :
          (c : PacketClass)
          → (k + stripe_packet_chunk c * count) / stripe_packet_chunk c % count
            ≡ k / stripe_packet_chunk c % count
      turn latency =
          rw (let e : (k + 1 * count) / 1 ≡ k / 1 + count = omega arith in e)
            (add-mod_right (k / 1) count)
      turn priority =
          rw (let e : (k + 2 * count) / 2 ≡ k / 2 + count = omega arith in e)
            (add-mod_right (k / 2) count)
      turn bulk =
          rw (let e : (k + 2 * count) / 2 ≡ k / 2 + count = omega arith in e)
            (add-mod_right (k / 2) count)

-- Packet number `n` of the first round goes to the worker whose chunk `n` lies in.
hit_first :
    (class : PacketClass) (count w n : ℕ)
    → n < stripe_packet_chunk class * count
    → hit class count w n ≡ (if n / stripe_packet_chunk class == w then 1 else 0)
hit_first class count w n h = ap (λ (i : ℕ). if i == w then 1 else 0) (inside class h)
  where
    inside :
        (c : PacketClass)
        → n < stripe_packet_chunk c * count
        → min (n / stripe_packet_chunk c % count) (count - 1) ≡ n / stripe_packet_chunk c
    inside latency h = omega (arith, mod-eq_of_lt {n = n / 1} {m = count} (omega arith))
    inside priority h = omega (arith, mod-eq_of_lt {n = n / 2} {m = count} (omega arith))
    inside bulk h = omega (arith, mod-eq_of_lt {n = n / 2} {m = count} (omega arith))

-- In the first round the chunks go to the workers in their order.
first_round :
    (class : PacketClass) (count w n : ℕ)
    → n ≤ stripe_packet_chunk class * count
    → window_sum (hit class count w) n 0
      ≡ min (n - stripe_packet_chunk class * w) (stripe_packet_chunk class)
unfolding window_sum
first_round latency count w zero le = omega arith
first_round priority count w zero le = omega arith
first_round bulk count w zero le = omega arith
first_round latency count w (suc n) le = ground (
  arith,
  window_sum_snoc (hit latency count w) n 0,
  first_round latency count w n,
  hit_first latency count w n,
)
first_round priority count w (suc n) le = ground (
  arith,
  window_sum_snoc (hit priority count w) n 0,
  first_round priority count w n,
  hit_first priority count w n,
)
first_round bulk count w (suc n) le = ground (
  arith,
  window_sum_snoc (hit bulk count w) n 0,
  first_round bulk count w n,
  hit_first bulk count w n,
)

select_class-some :
    (s : StripedScheduler) (count : ℕ) (class : PacketClass)
    → 0 < count
    → select_class s count class ≡ (
      advance s class,
      some (min (counter s class / stripe_packet_chunk class % count) (count - 1)),
    )
unfolding select_class begin_class
select_class-some s zero class h = absurd (omega arith)
select_class-some s (suc n) class h = ground arith

counter-advance :
    (s : StripedScheduler) (class : PacketClass)
    → counter s class + 1 < word_mod
    → counter (advance s class) class ≡ counter s class + 1
counter-advance s latency h = omega arith
counter-advance s priority h = omega arith
counter-advance s bulk h = omega arith

share-serve :
    (n : ℕ) (s : StripedScheduler) (count : ℕ) (class : PacketClass) (w : ℕ)
    → 0 < count
    → counter s class + n + 1 < word_mod
    → share w (serve n s count class) ≡ window_sum (hit class count w) n (counter s class)
unfolding serve share window_sum
share-serve zero s count class w pos fits = refl
share-serve (suc n) s count class w pos fits = rw (select_class-some s count class pos) (
    ap (λ (i : ℕ). hit class count w (counter s class) + i)
      (share-serve n (advance s class) count class w pos (omega (arith, step))
        ∙ ap (window_sum (hit class count w) n) step))
  where
    step : counter (advance s class) class ≡ counter s class + 1
    step = counter-advance s class (omega arith)

-- A round of `chunk * count` packets of one class in a row, from wherever the class's counter
-- stands, gives each of the `count` workers exactly `chunk` of them, as long as the counter does
-- not pass the end of its word.
pub round_is_fair :
    (s : StripedScheduler) (count : ℕ) (class : PacketClass) (w : ℕ)
    → w < count
    → counter s class + stripe_packet_chunk class * count + 1 < word_mod
    → share w (serve (stripe_packet_chunk class * count) s count class) ≡ stripe_packet_chunk class
round_is_fair s count class w h fits =
    share-serve (stripe_packet_chunk class * count) s count class w (omega arith) fits
    ∙ window_sum_periodic (hit class count w) (stripe_packet_chunk class * count)
        (hit_periodic class count w) (counter s class)
    ∙ first_round class count w (stripe_packet_chunk class * count) (omega arith)
    ∙ whole class
  where
    whole :
        (c : PacketClass)
        → min (stripe_packet_chunk c * count - stripe_packet_chunk c * w) (stripe_packet_chunk c)
          ≡ stripe_packet_chunk c
    whole latency = omega arith
    whole priority = omega arith
    whole bulk = omega arith

ticket_fields :
    (s : StripedScheduler) (count : ℕ) (class : PacketClass) (ticket : DispatchTicket)
    → (begin_class s count class).1 ≡ some ticket
    → (ticket.start_slot < count) × (ticket.worker_count ≡ count)
unfolding begin_class
ticket_fields s count class ticket e = ground arith

-- The workers of a ticket are numbered below its `worker_count`, and the offset 0 is its own slot.
pub worker_index_bounds :
    (s : StripedScheduler) (count : ℕ) (class : PacketClass) (ticket : DispatchTicket)
    → count < word_mod
    → (begin_class s count class).1 ≡ some ticket
    → ((offset : ℕ) → worker_index ticket offset < count)
      × (worker_index ticket 0 ≡ ticket.start_slot)
unfolding worker_index
worker_index_bounds s count class ticket h e =
    let (slot, workers) = ticket_fields s count class ticket e in
    (
      λ offset. rw workers (mod-lt ((ticket.start_slot + offset) % word_mod) (omega arith)),
      rw (workers, add-zero, mod-eq_of_lt {n = ticket.start_slot} {m = word_mod} (omega arith))
          (mod-eq_of_lt slot),
    )
