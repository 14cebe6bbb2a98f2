-- ===== src/Worker/Tests.antt =====
-- Two credentials, leases of them, and a gate that is asked four times.
use csqtt_android.Shared.{
  ℕ, ◌+◌, ◌≤◌, ◌≡◌, refl, false, some, List, [], ◌∷◌, length, max, arith, same_bytes,
}
use csqtt_android.Worker.{
  TurnCredentials, CredentialLease, CredentialCache, QuotaRotation, fetched, failed, default,
  get_lease, or_fetched, after_store, store, is_blocked, reserve, lend, release, is_lease_of,
  same_turn_credentials, same_addresses, rotate_after_quota, quota_rotation_delay, saturating_suc,
  workers_per_credential, worker_retry_delay_with_jitter,
}
use csqtt_android.Worker.Leases.{
  Call, get, released, over_quota, all_given, all_returned, call, given-bounded,
}
use csqtt_android.Worker.Room.{given}
use csqtt_android.Worker.Quota.{leases, run, OnlyFetches, rotated-refuses}
use csqtt_android.Worker.Gate.{
  new, observe, observe_all, reports, total, IsApart, IsEarly, reports-count,
}

abbrev first : TurnCredentials
first = record { username = 65 ∷ []; password = 66 ∷ []; server_addresses = (49 ∷ []) ∷ [] }

abbrev second : TurnCredentials
second = record { username = 65 ∷ []; password = 67 ∷ []; server_addresses = (49 ∷ []) ∷ [] }

abbrev lease : CredentialLease
lease = record { value = first; generation = 1 }

abbrev two_calls : List Call
two_calls = get (fetched first false) ∷ released lease ∷ get failed ∷ []

two_given : all_given 1 default two_calls ≡ 2
unfolding all_given given call get_lease or_fetched after_store store is_blocked reserve lend
    release is_lease_of same_turn_credentials same_addresses same_bytes
two_given = refl

given-bounded_example :
    all_given 1 default two_calls ≤ workers_per_credential + all_returned 1 two_calls
given-bounded_example = given-bounded 1 two_calls (omega arith)

abbrev in_use : CredentialCache
in_use = (get_lease default (fetched first false)).0

abbrev out_of_use : CredentialCache
out_of_use = (rotate_after_quota in_use lease).0

abbrev repeated : List Call
repeated = get (fetched first false) ∷ get failed ∷ over_quota lease ∷ []

is_rotated : rotate_after_quota in_use lease ≡ (out_of_use, QuotaRotation.rotated 100)
unfolding rotate_after_quota get_lease or_fetched after_store store is_blocked reserve lend
    is_lease_of same_turn_credentials same_addresses same_bytes quota_rotation_delay
is_rotated = refl

only_first : OnlyFetches first repeated
unfolding OnlyFetches
only_first = (refl, refl)

others : same_turn_credentials first second ≡ false
unfolding same_turn_credentials same_bytes same_addresses
others = refl

rotated-refuses_example :
    (leases out_of_use repeated ≡ [])
    × ((call (run out_of_use repeated) (get (fetched second false))).1
        ≡ some
            (record { value = second; generation = max (saturating_suc in_use.next_generation) 1 }))
rotated-refuses_example =
    rotated-refuses in_use lease out_of_use 100 repeated second is_rotated only_first others

abbrev nows : List ℕ
nows = 5 ∷ 6 ∷ 7 ∷ 10_005 ∷ []

two_reports : reports new nows ≡ (5, 1) ∷ (10_005, 3) ∷ []
unfolding reports observe
two_reports = refl

nows-IsEarly : IsEarly nows
unfolding IsEarly
nows-IsEarly = (omega arith, (omega arith, (omega arith, (omega arith, omega arith))))

reports-count_example :
    (total (reports new nows) + (observe_all new nows).pending ≡ length nows)
    × IsApart 0 (reports new nows)
reports-count_example = reports-count nows (omega arith) nows-IsEarly

second_retry : worker_retry_delay_with_jitter 2 300 ≡ 750
unfolding worker_retry_delay_with_jitter
second_retry = refl
