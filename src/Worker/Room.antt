-- ===== src/Worker/Room.antt =====
-- What each operation of the cache of rust-client/worker.rs does to the number of leases of one
-- generation that can still be given.
use csqtt_android.Shared.{
  ℕ, ◌+◌, ◌-◌, ◌≤◌, ◌<◌, ◌≡◌, Option, none, some, ltb, ◌==◌, if◌then◌else◌, word_mod, arith,
}
use csqtt_android.Worker.{
  CredentialCache, CachedCredentials, CredentialLease, TurnCredentials, workers_per_credential,
  lend, store, record_allocation, release, invalidate, rotate_after_quota, retry_after_mismatch,
  is_lease_of,
}

-- Whether a lease is one of a generation, as a number.
unfoldable pub given : ℕ → Option CredentialLease → ℕ
given g none = 0
given g (some lease) = if lease.generation == g then 1 else 0

-- The leases of generation `g` that can still be given.
unfoldable pub room_in : ℕ → ℕ → Option CachedCredentials → ℕ
room_in g newest none = if ltb newest g then workers_per_credential else 0
room_in g newest (some cached) =
    if ltb newest g
    then workers_per_credential
    else if cached.generation == g
    then workers_per_credential - cached.allocation_attempts
    else 0

abbrev pub room : ℕ → CredentialCache → ℕ
room g c = room_in g c.next_generation c.current

unfoldable pub IsNewest : ℕ → Option CachedCredentials → Type 0
IsNewest newest none = 0 ≤ newest
IsNewest newest (some cached) =
    (cached.generation ≡ newest) × (cached.allocation_attempts ≤ workers_per_credential)

-- The credentials in use are of the newest generation, and were reserved 18 times at most.
abbrev pub IsCache : CredentialCache → Type 0
IsCache c = IsNewest c.next_generation c.current

-- From `c` to `d`, with `out` leases of generation `g` given and `back` of them released.
pub record Fits (g : ℕ) (c d : CredentialCache) (out back grown : ℕ) : Type 0 where
  pub valid : IsCache d
  pub counted : out + room g d ≤ room g c + back
  pub next : d.next_generation ≤ c.next_generation + grown

module _ (g : ℕ) (b : Option TurnCredentials) (n r : ℕ) where
  abbrev pub cache : Option CachedCredentials → CredentialCache
  cache o = record { current = o; quota_blocked = b; next_generation = n; quota_retries = r }

  pub Fits-lend :
      (o : Option CachedCredentials)
      → IsCache (cache o)
      → Fits g (cache o) (lend (cache o) o).0 (given g (lend (cache o) o).1) 0 0
  unfolding lend room_in given IsNewest
  Fits-lend none v = record { valid = v; counted = ground arith; next = ground arith }
  Fits-lend (some cached) v = record {
    valid = ground arith;
    counted = ground arith;
    next = ground arith;
  }

  pub Fits-store :
      (o : Option CachedCredentials) (credentials : TurnCredentials)
      → IsCache (cache o)
      → n + 1 < word_mod
      → Fits g (cache o) (store (cache o) credentials).0 0 0 1
  unfolding store room_in IsNewest
  Fits-store none credentials v small = record {
    valid = ground arith;
    counted = ground arith;
    next = ground arith;
  }
  Fits-store (some cached) credentials v small = record {
    valid = ground arith;
    counted = ground arith;
    next = ground arith;
  }

  pub Fits-record_allocation :
      (o : Option CachedCredentials) (lease : CredentialLease)
      → IsCache (cache o)
      → Fits g (cache o) (record_allocation (cache o) lease) 0 0 1
  unfolding record_allocation room_in IsNewest
  Fits-record_allocation none lease v = record {
    valid = v;
    counted = ground arith;
    next = ground arith;
  }
  Fits-record_allocation (some cached) lease v = record {
    valid = ground arith;
    counted = ground arith;
    next = ground arith;
  }

  pub Fits-release :
      (o : Option CachedCredentials) (lease : CredentialLease)
      → IsCache (cache o)
      → Fits g (cache o) (release (cache o) lease) 0 (given g (some lease)) 1
  unfolding release room_in IsNewest given is_lease_of
  Fits-release none lease v = record { valid = v; counted = ground arith; next = ground arith }
  Fits-release (some cached) lease v = record {
    valid = ground arith;
    counted = ground arith;
    next = ground arith;
  }

  pub Fits-invalidate :
      (o : Option CachedCredentials) (lease : CredentialLease)
      → IsCache (cache o)
      → Fits g (cache o) (invalidate (cache o) lease).0 0 0 1
  unfolding invalidate room_in IsNewest
  Fits-invalidate none lease v = record { valid = v; counted = ground arith; next = ground arith }
  Fits-invalidate (some cached) lease v = record {
    valid = ground arith;
    counted = ground arith;
    next = ground arith;
  }

  pub Fits-rotate_after_quota :
      (o : Option CachedCredentials) (lease : CredentialLease)
      → IsCache (cache o)
      → Fits g (cache o) (rotate_after_quota (cache o) lease).0 0 0 1
  unfolding rotate_after_quota room_in IsNewest
  Fits-rotate_after_quota none lease v = record {
    valid = v;
    counted = ground arith;
    next = ground arith;
  }
  Fits-rotate_after_quota (some cached) lease v = record {
    valid = ground arith;
    counted = ground arith;
    next = ground arith;
  }

  pub Fits-retry_after_mismatch :
      (o : Option CachedCredentials) (lease : CredentialLease)
      → IsCache (cache o)
      → Fits g (cache o) (retry_after_mismatch (cache o) lease).0 0 0 1
  unfolding retry_after_mismatch room_in IsNewest
  Fits-retry_after_mismatch none lease v = record {
    valid = v;
    counted = ground arith;
    next = ground arith;
  }
  Fits-retry_after_mismatch (some cached) lease v = record {
    valid = ground arith;
    counted = ground arith;
    next = ground arith;
  }
