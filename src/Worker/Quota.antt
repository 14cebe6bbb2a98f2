-- ===== src/Worker/Quota.antt =====
-- The credentials that a TURN server has refused for its quota, in the cache of
-- rust-client/worker.rs.
use csqtt_android.Shared.{
  ℕ, ◌≡◌, refl, sym, subst, Bool, true, false, Option, none, some, List, [], ◌∷◌, arith, max,
  same_bytes_refl, eq_of_same_bytes, Name,
}
use csqtt_android.Worker.{
  CredentialCache, CachedCredentials, CredentialLease, TurnCredentials, failed, fetched,
  QuotaRotation, reserve, lend, store, is_blocked, record_allocation, release, invalidate,
  rotate_after_quota, retry_after_mismatch, next_quota_delay, get_lease, or_fetched, after_store,
  is_lease_of, same_turn_credentials, same_addresses, saturating_suc,
}
use csqtt_android.Worker.Leases.{
  Call, call, get, allocated, released, invalid, over_quota, mismatched,
}

same_addresses_refl : (xs : List Name) → same_addresses xs xs ≡ true
unfolding same_addresses
same_addresses_refl [] = refl
same_addresses_refl (a ∷ xs) = rw (same_bytes_refl a) (same_addresses_refl xs)

eq_of_same_addresses : (xs ys : List Name) → same_addresses xs ys ≡ true → xs ≡ ys
unfolding same_addresses
eq_of_same_addresses [] [] h = refl
eq_of_same_addresses [] (b ∷ ys) h = cc
eq_of_same_addresses (a ∷ xs) [] h = cc
eq_of_same_addresses (a ∷ xs) (b ∷ ys) h =
    ground (arith, eq_of_same_bytes a b, eq_of_same_addresses xs ys)

same_turn_credentials_refl : (v : TurnCredentials) → same_turn_credentials v v ≡ true
unfolding same_turn_credentials
same_turn_credentials_refl v =
    rw (same_bytes_refl v.username)
      (rw (same_bytes_refl v.password) (same_addresses_refl v.server_addresses))

eq_of_same_turn_credentials : (v w : TurnCredentials) → same_turn_credentials v w ≡ true → v ≡ w
unfolding same_turn_credentials
eq_of_same_turn_credentials v w h =
    let name : v.username ≡ w.username = ground (arith, eq_of_same_bytes v.username w.username) in
    let key : v.password ≡ w.password = ground (arith, eq_of_same_bytes v.password w.password) in
    let servers : v.server_addresses ≡ w.server_addresses =
      ground (arith, eq_of_same_addresses v.server_addresses w.server_addresses) in
    λ i. record { username = name i; password = key i; server_addresses = servers i }

-- The calls' fetches bring no other credentials than `v`.
unfoldable pub OnlyFetches : TurnCredentials → List Call → Type 0
OnlyFetches v [] = v ≡ v
OnlyFetches v (get failed ∷ calls) = OnlyFetches v calls
OnlyFetches v (get (fetched w cancelled) ∷ calls) = (w ≡ v) × OnlyFetches v calls
OnlyFetches v (allocated lease ∷ calls) = OnlyFetches v calls
OnlyFetches v (released lease ∷ calls) = OnlyFetches v calls
OnlyFetches v (invalid lease ∷ calls) = OnlyFetches v calls
OnlyFetches v (over_quota lease ∷ calls) = OnlyFetches v calls
OnlyFetches v (mismatched lease ∷ calls) = OnlyFetches v calls

-- The cache after a run of calls, and the leases that they give.
unfoldable pub run : CredentialCache → List Call → CredentialCache
run c [] = c
run c (k ∷ calls) = run (call c k).0 calls

abbrev pub add : Option CredentialLease → List CredentialLease → List CredentialLease
add none leases = leases
add (some lease) leases = lease ∷ leases

unfoldable pub leases : CredentialCache → List Call → List CredentialLease
leases c [] = []
leases c (k ∷ calls) = add (call c k).1 (leases (call c k).0 calls)

abbrev blocked : TurnCredentials → ℕ → ℕ → CredentialCache
blocked v n r = record {
  current = none;
  quota_blocked = some v;
  next_generation = n;
  quota_retries = r;
}

-- A run on the cache that blocks `v` gives no lease and leaves such a cache.
Stays : TurnCredentials → ℕ → CredentialCache → List Call → Type 0
Stays v n c calls = (leases c calls ≡ []) × ((r : ℕ) × (run c calls ≡ blocked v n r))

fetch_refused :
    (v : TurnCredentials) (n r : ℕ) (cancelled : Bool)
    → call (blocked v n r) (get (fetched v cancelled)) ≡ (blocked v n (saturating_suc r), none)
unfolding call get_lease or_fetched after_store reserve lend store is_blocked next_quota_delay
fetch_refused v n r cancelled = rw (same_turn_credentials_refl v)

Stays-step :
    (v : TurnCredentials) (n r : ℕ) (c : CredentialCache) (k : Call) (calls : List Call)
    → call c k ≡ (blocked v n r, none)
    → Stays v n (blocked v n r) calls
    → Stays v n c (k ∷ calls)
unfolding Stays run leases
Stays-step v n r c k calls e h =
    subst (λ p. (add p.1 (leases p.0 calls) ≡ []) × ((s : ℕ) × (run p.0 calls ≡ blocked v n s)))
      (sym e) h

stays :
    (v : TurnCredentials) (n r : ℕ) (calls : List Call)
    → OnlyFetches v calls
    → Stays v n (blocked v n r) calls
unfolding OnlyFetches run leases Stays call get_lease or_fetched reserve lend record_allocation
    release invalidate rotate_after_quota retry_after_mismatch
stays v n r [] only = (refl, (r, refl))
stays v n r (get failed ∷ calls) only = stays v n r calls only
stays v n r (get (fetched w cancelled) ∷ calls) (same, only) =
    Stays-step v n (saturating_suc r) (blocked v n r) (get (fetched w cancelled)) calls
      (subst
        (λ x.
          call (blocked v n r) (get (fetched x cancelled)) ≡ (blocked v n (saturating_suc r), none))
        (sym same) (fetch_refused v n r cancelled))
      (stays v n (saturating_suc r) calls only)
stays v n r (allocated lease ∷ calls) only = stays v n r calls only
stays v n r (released lease ∷ calls) only = stays v n r calls only
stays v n r (invalid lease ∷ calls) only = stays v n r calls only
stays v n r (over_quota lease ∷ calls) only = stays v n r calls only
stays v n r (mismatched lease ∷ calls) only = stays v n r calls only

rotated-blocks :
    (o : Option CachedCredentials) (b : Option TurnCredentials) (n r : ℕ) (lease : CredentialLease)
    (d : CredentialCache) (delay : ℕ)
    → rotate_after_quota
        (record { current = o; quota_blocked = b; next_generation = n; quota_retries = r })
        lease
      ≡ (d, QuotaRotation.rotated delay)
    → d ≡ blocked lease.value n (saturating_suc r)
unfolding rotate_after_quota is_lease_of
rotated-blocks none b n r lease d delay h = ground (arith, h)
rotated-blocks (some cached) b n r lease d delay h =
    ground (arith, h, eq_of_same_turn_credentials cached.value lease.value)

fetch_given :
    (v w : TurnCredentials) (n r : ℕ)
    → same_turn_credentials v w ≡ false
    → (call (blocked v n r) (get (fetched w false))).1
      ≡ some (record { value = w; generation = max (saturating_suc n) 1 })
unfolding call get_lease or_fetched after_store reserve lend store is_blocked
fetch_given v w n r other = rw other refl

-- Once a lease's credentials were taken out of use for a quota, a run of calls whose fetches bring no
-- others, whatever else it reports, gives no lease; and the fetch after it that brings others gives a
-- lease of them, of a new generation.
pub rotated-refuses :
    (c : CredentialCache) (lease : CredentialLease) (d : CredentialCache) (delay : ℕ)
    (calls : List Call) (w : TurnCredentials)
    → rotate_after_quota c lease ≡ (d, QuotaRotation.rotated delay)
    → OnlyFetches lease.value calls
    → same_turn_credentials lease.value w ≡ false
    → (leases d calls ≡ [])
      × ((call (run d calls) (get (fetched w false))).1
          ≡ some (record { value = w; generation = max (saturating_suc c.next_generation) 1 }))
unfolding Stays
rotated-refuses c lease d delay calls w h only other =
    let blocks =
      rotated-blocks c.current c.quota_blocked c.next_generation c.quota_retries lease d delay h in
    let (nothing, (r, at_end)) =
      subst (λ x. Stays lease.value c.next_generation x calls) (sym blocks)
        (stays lease.value c.next_generation (saturating_suc c.quota_retries) calls only) in
    (
      nothing,
      subst
          (λ x.
            (call x (get (fetched w false))).1
            ≡ some (record { value = w; generation = max (saturating_suc c.next_generation) 1 }))
          (sym at_end) (fetch_given lease.value w c.next_generation r other),
    )
