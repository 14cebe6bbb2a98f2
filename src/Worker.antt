-- ===== src/Worker.antt =====
-- rust-client/worker.rs: the credentials that the workers of a cohort share, with the leases of them
-- that are given out, the ids of the workers of a group, and the gate of the recovery log. The cache
-- stands under one lock, which `get` keeps while it fetches, so that calls follow each other.
pub mod Room
pub mod Leases
pub mod Quota
pub mod Groups
pub mod Gate
mod Tests
use csqtt_android.Shared.{
  ℕ, ◌+◌, ◌-◌, ◌*◌, ◌/◌, ◌%◌, ◌^◌, min, max, Bool, true, false, ◌&&◌, not, Option, none, some, List,
  [], ◌∷◌, ltb, leb, ◌==◌, if◌then◌else◌, word_mod, same_bytes, Name,
}

abbrev pub workers_per_group : ℕ
workers_per_group = 9

abbrev pub groups_per_credential : ℕ
groups_per_credential = 2

abbrev pub workers_per_credential : ℕ
workers_per_credential = workers_per_group * groups_per_credential

pub record TurnCredentials : Type 0 where
  pub username : Name
  pub password : Name
  pub server_addresses : List Name

unfoldable pub same_addresses : List Name → List Name → Bool
same_addresses [] [] = true
same_addresses [] (b ∷ bs) = false
same_addresses (a ∷ xs) [] = false
same_addresses (a ∷ xs) (b ∷ bs) = same_bytes a b && same_addresses xs bs

unfoldable pub same_turn_credentials : TurnCredentials → TurnCredentials → Bool
same_turn_credentials left right =
    same_bytes left.username right.username
    && (same_bytes left.password right.password
        && same_addresses left.server_addresses right.server_addresses)

pub record CachedCredentials : Type 0 where
  pub value : TurnCredentials
  pub generation : ℕ
  pub allocation_attempts : ℕ
  pub allocation_mismatches : ℕ

pub record CredentialLease : Type 0 where
  pub value : TurnCredentials
  pub generation : ℕ

pub record CredentialCache : Type 0 where
  pub current : Option CachedCredentials
  pub quota_blocked : Option TurnCredentials
  pub next_generation : ℕ
  pub quota_retries : ℕ

abbrev pub default : CredentialCache
default = record { current = none; quota_blocked = none; next_generation = 0; quota_retries = 0 }

abbrev pub saturating_suc : ℕ → ℕ
saturating_suc n = min (n + 1) (word_mod - 1)

-- A `Duration` in milliseconds.
unfoldable pub quota_rotation_delay : ℕ → ℕ
quota_rotation_delay attempt =
    if attempt == 0
    then 100
    else if attempt == 1
    then 300
    else if attempt == 2
    then 500
    else if attempt == 3
    then 800
    else 1_500

unfoldable pub lend :
    CredentialCache → Option CachedCredentials → CredentialCache × Option CredentialLease
lend c none = (c, none)
lend c (some cached) =
    if leb workers_per_credential cached.allocation_attempts
    then (record c { current = none }, none)
    else (
      record c {
        current =
            some
              (record cached { allocation_attempts = saturating_suc cached.allocation_attempts });
      },
      some (record { value = cached.value; generation = cached.generation }),
    )

unfoldable pub reserve : CredentialCache → CredentialCache × Option CredentialLease
reserve c = lend c c.current

unfoldable pub is_blocked : Option TurnCredentials → TurnCredentials → Bool
is_blocked none credentials = false
is_blocked (some blocked) credentials = same_turn_credentials blocked credentials

unfoldable pub store : CredentialCache → TurnCredentials → CredentialCache × Bool
store c credentials =
    let generation = max (saturating_suc c.next_generation) 1 in
    if is_blocked c.quota_blocked credentials then (c, false) else (
      record c {
        quota_blocked = none;
        next_generation = generation;
        current = some (record {
          value = credentials;
          generation = generation;
          allocation_attempts = 0;
          allocation_mismatches = 0;
        });
      },
      true,
    )

-- The test that a lease is one of the credentials in use.
unfoldable pub is_lease_of : CredentialLease → CachedCredentials → Bool
is_lease_of lease cached =
    cached.generation == lease.generation && same_turn_credentials cached.value lease.value

unfoldable pub record_allocation : CredentialCache → CredentialLease → CredentialCache
record_allocation c lease = elim c.current [
  | none ↦ c
  | some cached ↦
      if is_lease_of lease cached
      then record c {
        current = some (record cached { allocation_mismatches = 0 });
        quota_retries = 0;
      }
      else c
]

unfoldable pub release : CredentialCache → CredentialLease → CredentialCache
release c lease = elim c.current [
  | none ↦ c
  | some cached ↦
      if is_lease_of lease cached
      then record c {
        current = some (record cached { allocation_attempts = cached.allocation_attempts - 1 });
      }
      else c
]

unfoldable pub invalidate : CredentialCache → CredentialLease → CredentialCache × Bool
invalidate c lease = elim c.current [
  | none ↦ (c, false)
  | some cached ↦
      if is_lease_of lease cached then (record c { current = none }, true) else (c, false)
]

pub data QuotaRotation : Type 0 where
  rotated : ℕ → QuotaRotation
  replaced : QuotaRotation

unfoldable pub next_quota_delay : CredentialCache → CredentialCache × ℕ
next_quota_delay c = (
  record c { quota_retries = saturating_suc c.quota_retries },
  quota_rotation_delay c.quota_retries,
)

unfoldable pub rotate_after_quota :
    CredentialCache → CredentialLease → CredentialCache × QuotaRotation
rotate_after_quota c lease = elim c.current [
  | none ↦ (c, QuotaRotation.replaced)
  | some cached ↦
      if is_lease_of lease cached
      then (
        record c {
          current = none;
          quota_blocked = some cached.value;
          quota_retries = saturating_suc c.quota_retries;
        },
        rotated (quota_rotation_delay c.quota_retries),
      )
      else (c, QuotaRotation.replaced)
]

pub data AllocationMismatch : Type 0 where
  retry_current : AllocationMismatch
  rotated : AllocationMismatch
  replaced : AllocationMismatch

unfoldable pub retry_after_mismatch :
    CredentialCache → CredentialLease → CredentialCache × AllocationMismatch
retry_after_mismatch c lease = elim c.current [
  | none ↦ (c, AllocationMismatch.replaced)
  | some cached ↦
      if not (is_lease_of lease cached)
      then (c, AllocationMismatch.replaced)
      else if cached.allocation_mismatches == 0
      then (
        record c { current = some (record cached { allocation_mismatches = 1 }) },
        retry_current,
      )
      else (record c { current = none }, AllocationMismatch.rotated)
]

-- What a fetch of new credentials comes to: an error, or a stop before an answer; or credentials, and
-- whether the sleep that follows is cancelled.
pub data Fetched : Type 0 where
  failed : Fetched
  fetched : TurnCredentials → Bool → Fetched

unfoldable pub after_store :
    CredentialCache → Bool → Bool → CredentialCache × Option CredentialLease
after_store stored false cancelled = ((next_quota_delay stored).0, none)
after_store stored true true = (stored, none)
after_store stored true false = reserve stored

unfoldable pub or_fetched :
    CredentialCache → Option CredentialLease → Fetched → CredentialCache × Option CredentialLease
or_fetched c (some lease) answer = (c, some lease)
or_fetched c none failed = (c, none)
or_fetched c none (fetched credentials cancelled) =
    let (stored, is_new) = store c credentials in after_store stored is_new cancelled

-- `GroupCredentials::get` of a hash that is available, less the count of failures, which only sets
-- how long a failed call sleeps.
unfoldable pub get_lease : CredentialCache → Fetched → CredentialCache × Option CredentialLease
get_lease c answer = let (reserved, lease) = reserve c in or_fetched reserved lease answer

unfoldable pub worker_retry_delay_with_jitter : ℕ → ℕ → ℕ
worker_retry_delay_with_jitter attempt jitter_ms =
    min (250 * (2 ^ min (attempt - 1) 4)) 4_000 + min jitter_ms 250

-- The range is [first, end).
unfoldable pub group_worker_ids : ℕ → ℕ × ℕ
group_worker_ids group_id =
    let first = (group_id - 1) * workers_per_group + 1 in (first, first + workers_per_group)

unfoldable pub group_hash_index : ℕ → ℕ → ℕ
group_hash_index group_index hash_count = group_index % hash_count

unfoldable pub credential_cohort_index : ℕ → ℕ
credential_cohort_index group_index_for_hash = group_index_for_hash / groups_per_credential
