-- ===== src/Worker/Leases.antt =====
-- The leases that the cache of rust-client/worker.rs gives out, over a run of the calls of
-- `GroupCredentials`.
use csqtt_android.Shared.{
  ℕ, ◌+◌, ◌≤◌, ◌<◌, Bool, true, false, Option, none, some, List, [], ◌∷◌, word_mod, arith, length,
}
use csqtt_android.Worker.{
  CredentialCache, CredentialLease, Fetched, failed, fetched, default, workers_per_credential,
  reserve, record_allocation, release, invalidate, rotate_after_quota, retry_after_mismatch,
  next_quota_delay, get_lease, or_fetched, after_store,
}
use csqtt_android.Worker.Room.{
  given, room_in, IsNewest, room, IsCache, Fits, Fits-lend, Fits-store, Fits-record_allocation,
  Fits-release, Fits-invalidate, Fits-rotate_after_quota, Fits-retry_after_mismatch,
}

pub data Call : Type 0 where
  get : Fetched → Call
  allocated : CredentialLease → Call
  released : CredentialLease → Call
  invalid : CredentialLease → Call
  over_quota : CredentialLease → Call
  mismatched : CredentialLease → Call

-- A call, with the lease that it gives.
unfoldable pub call : CredentialCache → Call → CredentialCache × Option CredentialLease
call c (get answer) = get_lease c answer
call c (allocated lease) = (record_allocation c lease, none)
call c (released lease) = (release c lease, none)
call c (invalid lease) = ((invalidate c lease).0, none)
call c (over_quota lease) = ((rotate_after_quota c lease).0, none)
call c (mismatched lease) = ((retry_after_mismatch c lease).0, none)

unfoldable pub returned : ℕ → Call → ℕ
returned g (get answer) = 0
returned g (allocated lease) = 0
returned g (released lease) = given g (some lease)
returned g (invalid lease) = 0
returned g (over_quota lease) = 0
returned g (mismatched lease) = 0

-- How many leases of generation `g` a run of calls gives, and how many of it are released.
unfoldable pub all_given : ℕ → CredentialCache → List Call → ℕ
all_given g c [] = 0
all_given g c (k ∷ calls) = given g (call c k).1 + all_given g (call c k).0 calls

unfoldable pub all_returned : ℕ → List Call → ℕ
all_returned g [] = 0
all_returned g (k ∷ calls) = returned g k + all_returned g calls

Fits-trans :
    (g : ℕ) (c d e : CredentialCache) (o₁ b₁ n₁ o₂ b₂ n₂ : ℕ)
    → Fits g c d o₁ b₁ n₁
    → Fits g d e o₂ b₂ n₂
    → Fits g c e (o₁ + o₂) (b₁ + b₂) (n₁ + n₂)
Fits-trans g c d e o₁ b₁ n₁ o₂ b₂ n₂ f h = record {
  valid = h.valid;
  counted = omega (arith, f.counted, h.counted);
  next = omega (arith, f.next, h.next);
}

Fits-reserve :
    (g : ℕ) (c : CredentialCache) → IsCache c → Fits g c (reserve c).0 (given g (reserve c).1) 0 0
unfolding reserve
Fits-reserve g c v = Fits-lend g c.quota_blocked c.next_generation c.quota_retries c.current v

Fits-after_store :
    (g : ℕ) (c stored : CredentialCache) (is_new cancelled : Bool)
    → Fits g c stored 0 0 1
    → Fits g c
        (after_store stored is_new cancelled).0
        (given g (after_store stored is_new cancelled).1)
        0
        1
unfolding after_store given next_quota_delay
Fits-after_store g c stored false cancelled f = record {
  valid = f.valid;
  counted = f.counted;
  next = f.next;
}
Fits-after_store g c stored true true f = f
Fits-after_store g c stored true false f =
    let lent = Fits-reserve g stored f.valid in
    record {
      valid = lent.valid;
      counted = omega (arith, f.counted, lent.counted);
      next = omega (arith, f.next, lent.next);
    }

Fits-or_fetched :
    (g : ℕ) (c reserved : CredentialCache) (lease : Option CredentialLease) (answer : Fetched)
    → Fits g c reserved (given g lease) 0 0
    → c.next_generation + 1 < word_mod
    → Fits g c
        (or_fetched reserved lease answer).0
        (given g (or_fetched reserved lease answer).1)
        0
        1
unfolding or_fetched given
Fits-or_fetched g c d (some lease) answer f small = record {
  valid = f.valid;
  counted = f.counted;
  next = omega (arith, f.next);
}
Fits-or_fetched g c d none failed f small = record {
  valid = f.valid;
  counted = f.counted;
  next = omega (arith, f.next);
}
Fits-or_fetched g c d none (fetched credentials cancelled) f small =
    Fits-after_store g c _ _ cancelled (
      Fits-trans g c d _ 0 0 0 0 0 1 f (
        Fits-store g d.quota_blocked d.next_generation d.quota_retries d.current credentials f.valid
          (omega (arith, f.next))))

Fits-call :
    (g : ℕ) (c : CredentialCache) (k : Call)
    → IsCache c
    → c.next_generation + 1 < word_mod
    → Fits g c (call c k).0 (given g (call c k).1) (returned g k) 1
unfolding call returned given get_lease
Fits-call g c (get answer) v small = Fits-or_fetched g c _ _ answer (Fits-reserve g c v) small
Fits-call g c (allocated lease) v small =
    Fits-record_allocation g c.quota_blocked c.next_generation c.quota_retries c.current lease v
Fits-call g c (released lease) v small =
    Fits-release g c.quota_blocked c.next_generation c.quota_retries c.current lease v
Fits-call g c (invalid lease) v small =
    Fits-invalidate g c.quota_blocked c.next_generation c.quota_retries c.current lease v
Fits-call g c (over_quota lease) v small =
    Fits-rotate_after_quota g c.quota_blocked c.next_generation c.quota_retries c.current lease v
Fits-call g c (mismatched lease) v small =
    Fits-retry_after_mismatch g c.quota_blocked c.next_generation c.quota_retries c.current lease v

given_within :
    (g : ℕ) (c : CredentialCache) (calls : List Call)
    → IsCache c
    → c.next_generation + length calls < word_mod
    → all_given g c calls ≤ room g c + all_returned g calls
unfolding all_given all_returned
given_within g c [] v small = omega arith
given_within g c (k ∷ calls) v small =
    let one = Fits-call g c k v (omega (arith, small)) in
    let rest = given_within g (call c k).0 calls one.valid (omega (arith, small, one.next)) in
    omega (arith, one.counted, rest)

-- Of the credentials of one generation, in any run of fewer than 2^64 calls on a new cache, at most 18
-- leases more are given than are released: whatever is fetched, whichever leases are reported as
-- allocated, invalid, over quota or mismatched, and however often one lease is released.
pub given-bounded :
    (g : ℕ) (calls : List Call)
    → length calls < word_mod
    → all_given g default calls ≤ workers_per_credential + all_returned g calls
unfolding room_in IsNewest
given-bounded g calls small =
    let bound = given_within g default calls (omega arith) (omega (arith, small)) in
    ground (arith, bound)
