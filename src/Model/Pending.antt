-- ===== src/Model/Pending.antt =====
-- The pending updates of the queue of writes: their revisions and how many there are
-- (rust-server/model.rs).
use csqtt_android.Shared.{
  ℕ, ◌+◌, ◌≤◌, ◌<◌, ◌≡◌, refl, Bool, true, false, List, [], ◌∷◌, arith, leb, if◌then◌else◌,
  word_mod, min, ◌^◌, ◌-◌,
}
use csqtt_android.Model.Disk.{TrafficSnapshot}
use csqtt_android.Model.Persistence.{
  PersistenceUpdate, snapshot, traffic, revision_after, push_traffic,
}

-- One revision comes after another: it is higher, but that revisions stop at 2^64 - 1.
abbrev pub IsAfter : ℕ → ℕ → Type 0
IsAfter r q = (r ≤ q) × (min (r + 1) (2 ^ 64 - 1) ≤ q)

-- Pending revisions rise from `r` on, and the last is `n`.
abbrev pub Rises : ℕ → List (ℕ × PersistenceUpdate) → ℕ → Type 0
Rises r [] n = r ≡ n
Rises r (x ∷ us) n = IsAfter r x.0 × Rises x.0 us n

-- At most a snapshot and then traffic.
abbrev pub is_short : List (ℕ × PersistenceUpdate) → Bool
is_short [] = true
is_short (x ∷ []) = true
is_short ((r, snapshot db) ∷ (q, traffic t) ∷ []) = true
is_short _ = false

pub Rises-le : (r : ℕ) (us : List (ℕ × PersistenceUpdate)) (n : ℕ) → Rises r us n → r ≤ n
Rises-le r [] n h = omega arith
Rises-le r (x ∷ us) n (h, hs) = omega (arith, Rises-le x.0 us n hs)

pub Rises-push_traffic :
    (r : ℕ) (us : List (ℕ × PersistenceUpdate)) (n m : ℕ) (t : TrafficSnapshot)
    → Rises r us n
    → IsAfter n m
    → Rises r (push_traffic us m t) m
unfolding push_traffic
Rises-push_traffic r [] n m t h k = (omega arith, refl)
Rises-push_traffic r ((q, traffic old) ∷ []) n m t (h, e) k = (omega arith, refl)
Rises-push_traffic r ((q, snapshot db) ∷ []) n m t (h, e) k = (h, (omega arith, refl))
Rises-push_traffic r (x ∷ y ∷ us) n m t (h, hs) k = (h, Rises-push_traffic x.0 (y ∷ us) n m t hs k)

pub is_short-push_traffic :
    (us : List (ℕ × PersistenceUpdate)) (m : ℕ) (t : TrafficSnapshot)
    → is_short us ≡ true
    → is_short (push_traffic us m t) ≡ true
unfolding push_traffic
is_short-push_traffic [] m t h = refl
is_short-push_traffic ((q, traffic old) ∷ []) m t h = refl
is_short-push_traffic ((q, snapshot db) ∷ []) m t h = refl
is_short-push_traffic ((q, snapshot db) ∷ (r, traffic u) ∷ []) m t h = refl
is_short-push_traffic ((q, traffic u) ∷ y ∷ us) m t h = cc
is_short-push_traffic ((q, snapshot db) ∷ (r, snapshot e) ∷ us) m t h = cc
is_short-push_traffic ((q, snapshot db) ∷ (r, traffic u) ∷ z ∷ us) m t h = cc

pub is_short_tail :
    (x : ℕ × PersistenceUpdate) (us : List (ℕ × PersistenceUpdate))
    → is_short (x ∷ us) ≡ true
    → is_short us ≡ true
is_short_tail x [] h = refl
is_short_tail x (y ∷ []) h = refl
is_short_tail (q, snapshot db) ((r, traffic u) ∷ z ∷ us) h = cc
is_short_tail (q, snapshot db) ((r, snapshot u) ∷ z ∷ us) h = cc
is_short_tail (q, traffic u) (y ∷ z ∷ us) h = cc

pub revision_after-IsAfter :
    (n : ℕ) → n < word_mod → IsAfter n (revision_after n) × (revision_after n < word_mod)
unfolding revision_after
revision_after-IsAfter n h = omega arith

-- Worker's moves until a pending update from `r` on is written: two for each.
abbrev pub moves_for : List (ℕ × PersistenceUpdate) → ℕ → ℕ
moves_for [] r = 0
moves_for (x ∷ us) r = if leb r x.0 then 2 else 2 + moves_for us r

pub moves_for-push_traffic :
    (base : ℕ) (us : List (ℕ × PersistenceUpdate)) (n m : ℕ) (t : TrafficSnapshot) (r : ℕ)
    → Rises base us n
    → base < r
    → r ≤ n
    → n ≤ m
    → moves_for (push_traffic us m t) r ≤ moves_for us r
unfolding push_traffic
moves_for-push_traffic base [] n m t r e h k l = absurd (omega arith)
moves_for-push_traffic base ((q, traffic old) ∷ []) n m t r (g, e) h k l = ground arith
moves_for-push_traffic base ((q, snapshot db) ∷ []) n m t r (g, e) h k l = ground arith
moves_for-push_traffic base (x ∷ y ∷ us) n m t r (g, gs) h k l =
    ground (arith, moves_for-push_traffic x.0 (y ∷ us) n m t r gs)

pub moves_for-single :
    (base : ℕ) (us : List (ℕ × PersistenceUpdate)) (n m : ℕ) (u : PersistenceUpdate) (r : ℕ)
    → Rises base us n
    → base < r
    → r ≤ n
    → n ≤ m
    → moves_for ((m, u) ∷ []) r ≤ moves_for us r
moves_for-single base [] n m u r e h k l = absurd (omega arith)
moves_for-single base (x ∷ us) n m u r g h k l = ground arith

pub short_moves :
    (us : List (ℕ × PersistenceUpdate)) (r : ℕ) → is_short us ≡ true → moves_for us r ≤ 4
short_moves [] r h = omega arith
short_moves (x ∷ []) r h = ground arith
short_moves ((q, snapshot db) ∷ (s, traffic t) ∷ []) r h = ground arith
short_moves ((q, traffic u) ∷ y ∷ us) r h = cc
short_moves ((q, snapshot db) ∷ (s, snapshot e) ∷ us) r h = cc
short_moves ((q, snapshot db) ∷ (s, traffic u) ∷ z ∷ us) r h = cc
