-- ===== src/Model/Profiles.antt =====
-- The local proxy profiles and the active one (rust-server/model.rs).
use csqtt_android.Shared.{
  ◌≤◌, ◌<◌, ◌≡◌, ◌≢◌, ◌↔◌, ◌⊎◌, ◌==◌, if◌then◌else◌, refl, ap₂, map, some, ◌∙◌, Bool, true, false,
  not, ◌&&◌, List, [], ◌∷◌, none, arith, Bool-cases, inl, inr, same_bytes, same_bytes_refl,
  eq_of_same_bytes, Name, length,
}
use csqtt_android.Model.{
  LocalProxyProfile, LocalProxyState, is_empty, find_profile, any_profile, normal_ports, normalize,
  active_profile, without_profile, remove_profile,
}

find_profile-any :
    (profiles : List LocalProxyProfile) (id : Name)
    → any_profile profiles id ≡ true
    → find_profile profiles id ≢ none
unfolding find_profile any_profile
find_profile-any [] id h = cc
find_profile-any (p ∷ profiles) id h = ground (arith, h, find_profile-any profiles id)

-- A profile with a port.
abbrev pub with_port : LocalProxyProfile → LocalProxyProfile
with_port p = record p { port = if p.port == 0 then 45_000 else p.port }

-- The active id is kept when it is the id of a profile, and is empty otherwise.
abbrev pub IsActiveOf : LocalProxyState → Name → Type 0
IsActiveOf s id =
    (((p : LocalProxyProfile) × (find_profile s.profiles s.active_profile_id ≡ some p))
      × (id ≡ s.active_profile_id))
    ⊎ ((find_profile s.profiles s.active_profile_id ≡ none) × (id ≡ []))

normal_ports-map :
    (profiles : List LocalProxyProfile) → normal_ports profiles ≡ map with_port profiles
unfolding normal_ports
normal_ports-map [] = refl
normal_ports-map (p ∷ profiles) = ap₂ (λ q qs. q ∷ qs) (ground arith) (normal_ports-map profiles)

pub normalize-profiles : (s : LocalProxyState) → (normalize s).profiles ≡ map with_port s.profiles
unfolding normalize
normalize-profiles s = ground (arith, normal_ports-map s.profiles)

find_profile-none :
    (profiles : List LocalProxyProfile) (id : Name)
    → any_profile (normal_ports profiles) id ≡ false
    → find_profile profiles id ≡ none
unfolding find_profile any_profile normal_ports
find_profile-none [] id h = refl
find_profile-none (p ∷ profiles) id h = ground (arith, h, find_profile-none profiles id)

find_profile-some :
    (profiles : List LocalProxyProfile) (id : Name)
    → any_profile (normal_ports profiles) id ≡ true
    → (p : LocalProxyProfile) × (find_profile profiles id ≡ some p)
unfolding find_profile any_profile normal_ports
find_profile-some [] id h = cc
find_profile-some (p ∷ profiles) id h = elim (Bool-cases (same_bytes p.id id)) [
  | inl e ↦ (p, rw (e) refl)
  | inr e ↦
      let (q, found) = find_profile-some profiles id (ground (arith, e, h)) in (q, rw (e) found)
]

no_name : (id : Name) → is_empty id ≡ true → id ≡ []
no_name [] h = refl
no_name (b ∷ id) h = cc

pub normalize-IsActiveOf : (s : LocalProxyState) → IsActiveOf s (normalize s).active_profile_id
unfolding normalize
normalize-IsActiveOf s =
    elim (Bool-cases (any_profile (normal_ports s.profiles) s.active_profile_id)) [
      | inl known ↦
          inl (find_profile-some s.profiles s.active_profile_id known, ground (arith, known))
      | inr unknown ↦ inr (
        find_profile-none s.profiles s.active_profile_id unknown,
        ground (arith, unknown, no_name s.active_profile_id),
      )
    ]

any_profile-without :
    (profiles : List LocalProxyProfile) (id other : Name)
    → any_profile (without_profile profiles id) other
      ≡ (any_profile profiles other && not (same_bytes id other))
unfolding any_profile without_profile
any_profile-without [] id other = refl
any_profile-without (p ∷ profiles) id other = elim (Bool-cases (same_bytes p.id id)) [
  | inl e ↦ ground (arith, e, eq_of_same_bytes p.id id e, any_profile-without profiles id other)
  | inr e ↦ ground (
    arith,
    e,
    eq_of_same_bytes p.id other,
    eq_of_same_bytes id other,
    same_bytes_refl p.id,
    any_profile-without profiles id other,
  )
]

find_profile-without :
    (profiles : List LocalProxyProfile) (id other : Name)
    → same_bytes id other ≡ false
    → find_profile (without_profile profiles id) other ≡ find_profile profiles other
unfolding find_profile without_profile
find_profile-without [] id other h = refl
find_profile-without (p ∷ profiles) id other h = elim (Bool-cases (same_bytes p.id id)) [
  | inl e ↦
      ground (arith, e, h, eq_of_same_bytes p.id id e, find_profile-without profiles id other h)
  | inr e ↦ ground (arith, e, find_profile-without profiles id other h)
]

length-without :
    (profiles : List LocalProxyProfile) (id : Name)
    → (length (without_profile profiles id) ≤ length profiles)
      × ((length (without_profile profiles id) < length profiles)
          ↔ (any_profile profiles id ≡ true))
unfolding any_profile without_profile
length-without [] id = ground arith
length-without (p ∷ profiles) id = ground (arith, length-without profiles id)

-- The active profile is one of the list, when there is one.
abbrev pub IsNormal : LocalProxyState → Type 0
IsNormal s =
    is_empty s.active_profile_id ≡ false → any_profile s.profiles s.active_profile_id ≡ true

normalize-IsNormal : (s : LocalProxyState) → IsNormal (normalize s)
unfolding normalize
normalize-IsNormal s = ground arith

normal_ports_twice :
    (profiles : List LocalProxyProfile)
    → normal_ports (normal_ports profiles) ≡ normal_ports profiles
unfolding normal_ports
normal_ports_twice [] = refl
normal_ports_twice (p ∷ profiles) = ground (arith, normal_ports_twice profiles)

normalize_twice : (s : LocalProxyState) → normalize (normalize s) ≡ normalize s
unfolding normalize
normalize_twice s = ground (arith, normal_ports_twice s.profiles)

remove_profile-IsNormal :
    (s : LocalProxyState) (id : Name) → IsNormal s → IsNormal (remove_profile s id).0
unfolding remove_profile
remove_profile-IsNormal s id v = ground (
  arith,
  v,
  any_profile-without s.profiles id s.active_profile_id,
  eq_of_same_bytes s.active_profile_id id,
  same_bytes_refl s.active_profile_id,
  eq_of_same_bytes id s.active_profile_id,
)

active_of_normal :
    (s : LocalProxyState)
    → IsNormal s
    → is_empty s.active_profile_id ≡ false
    → active_profile s ≢ none
unfolding active_profile
active_of_normal s v e = rw (e) (find_profile-any s.profiles s.active_profile_id (v e))

remove_profile-profiles :
    (s : LocalProxyState) (id : Name)
    → ((remove_profile s id).0.profiles ≡ without_profile s.profiles id)
      × ((remove_profile s id).1 ≡ any_profile s.profiles id)
unfolding remove_profile
remove_profile-profiles s id = (ground arith, ground (arith, length-without s.profiles id))

inactive :
    (s : LocalProxyState) (id : Name)
    → same_bytes s.active_profile_id id ≡ true
    → active_profile (remove_profile s id).0 ≡ none
unfolding remove_profile active_profile
inactive s id h = ground (arith, h)

-- A normalized state stays as it is when it is normalized again, and has an active profile whenever
-- it names one; so it does after the removal of a profile. The removal takes out exactly the profiles
-- of that id, says whether there was one, and leaves no active profile if it was that one.
pub remove_profile-active :
    (s : LocalProxyState) (id : Name)
    → let n : LocalProxyState = normalize s in
      let r : LocalProxyState × Bool = remove_profile n id in
      (normalize n ≡ n)
      × (is_empty n.active_profile_id ≡ false → active_profile n ≢ none)
      × (is_empty r.0.active_profile_id ≡ false → active_profile r.0 ≢ none)
      × (any_profile r.0.profiles id ≡ false)
      × ((other : Name)
          → same_bytes id other ≡ false
          → find_profile r.0.profiles other ≡ find_profile n.profiles other)
      × (r.1 ≡ any_profile n.profiles id)
      × (same_bytes n.active_profile_id id ≡ true → active_profile r.0 ≡ none)
remove_profile-active s id =
    let n = normalize s in
    let r = remove_profile n id in
    let after = remove_profile-profiles n id in
    (
      normalize_twice s,
      active_of_normal n (normalize-IsNormal s),
      active_of_normal r.0 (remove_profile-IsNormal n id (normalize-IsNormal s)),
      rw (after.0) (
          any_profile-without n.profiles id id
          ∙ rw (same_bytes_refl id) (neither (any_profile n.profiles id))),
      (λ other h. rw (after.0) (find_profile-without n.profiles id other h)),
      after.1,
      inactive n id,
    )
  where
    neither : (b : Bool) → (b && false) ≡ false
    neither true = refl
    neither false = refl
