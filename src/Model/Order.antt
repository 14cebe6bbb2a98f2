-- ===== src/Model/Order.antt =====
-- `ORDER BY sort_order` gives the profiles of a snapshot in their order (rust-server/model.rs).
use csqtt_android.Shared.{
  ℕ, ◌+◌, ◌≤◌, ◌≡◌, ◌≢◌, refl, sym, ap, ◌∙◌, false, List, [], ◌∷◌, none, some, arith, if◌then◌else◌,
  Bool-cases, inl, inr, same_bytes, same_bytes_refl, Name, get, contains_key, IsMap,
  contains_key-get, eq_of_same_bytes,
}
use csqtt_android.Model.{LocalProxyProfile}
use csqtt_android.Model.Disk.{ProfileRow, profile_rows}
use csqtt_android.Model.Load.{place, order_rows, profiles_of}

-- The rows without the one of a key.
unfoldable erase {ℓ} : {V : Type ℓ} → Name → List (Name × V) → List (Name × V)
erase k [] = []
erase k ((j, w) ∷ m) = if same_bytes j k then m else (j, w) ∷ erase k m

get-erase {ℓ} :
    {V : Type ℓ} (k : Name) (m : List (Name × V)) (j : Name)
    → IsMap m
    → get (erase k m) j ≡ (if same_bytes k j then none else get m j)
unfolding erase get
get-erase k [] j d = ground arith
get-erase k ((i, w) ∷ m) j (fresh, d) = elim (Bool-cases (same_bytes i k)) [
  | inl e ↦
      ground (arith, e, fresh, eq_of_same_bytes i k e, eq_of_same_bytes k j, contains_key-get m k)
  | inr e ↦ elim (Bool-cases (same_bytes i j)) [
    | inl f ↦ ground (arith, e, f, eq_of_same_bytes i j f, eq_of_same_bytes k i, same_bytes_refl i)
    | inr f ↦ rw (e, f) (get-erase k m j d)
  ]
]

contains_key-erase {ℓ} :
    {V : Type ℓ} (k : Name) (m : List (Name × V)) (j : Name)
    → IsMap m
    → contains_key m j ≡ false
    → contains_key (erase k m) j ≡ false
contains_key-erase k m j d h =
    ground (arith, h, contains_key-get m j, contains_key-get (erase k m) j, get-erase k m j d)

erase-IsMap {ℓ} : {V : Type ℓ} (k : Name) (m : List (Name × V)) → IsMap m → IsMap (erase k m)
unfolding erase
erase-IsMap k [] d = tt
erase-IsMap k ((j, w) ∷ m) (fresh, d) = elim (Bool-cases (same_bytes j k)) [
  | inl e ↦ rw (e) d
  | inr e ↦ rw (e) (contains_key-erase k m j d fresh, erase-IsMap k m d)
]

place_comm :
    (a b : ProfileRow) (rows : List ProfileRow)
    → a.sort_order ≢ b.sort_order
    → place a (place b rows) ≡ place b (place a rows)
unfolding place
place_comm a b [] h = ground (arith, h)
place_comm a b (r ∷ rows) h = ground (arith, h, place_comm a b rows h)

-- No other row of the table has the sort order of `row`.
abbrev IsAlone : Name → ProfileRow → List (Name × ProfileRow) → Type 0
IsAlone k row m =
    (j : Name) (r : ProfileRow) → get (erase k m) j ≡ some r → r.sort_order ≢ row.sort_order

order_rows-erase :
    (m : List (Name × ProfileRow)) (k : Name) (row : ProfileRow)
    → IsMap m
    → get m k ≡ some row
    → IsAlone k row m
    → order_rows m ≡ place row (order_rows (erase k m))
unfolding order_rows erase get
order_rows-erase [] k row d h alone = cc
order_rows-erase ((j, w) ∷ m) k row (fresh, d) h alone = elim (Bool-cases (same_bytes j k)) [
  | inl e ↦ rw (e) (ap (λ r. place r (order_rows m)) (ground (arith, e, h)))
  | inr e ↦ rw (e) (
      ap (place w) (order_rows-erase m k row d (ground (arith, e, h)) (rest e))
      ∙ place_comm w row (order_rows (erase k m)) (alone j w (rw (e, same_bytes_refl j) refl)))
]
  where
    rest : same_bytes j k ≡ false → IsAlone k row m
    rest e i r g = elim (Bool-cases (same_bytes j i)) [
      | inl f ↦ absurd (
          ground (
            arith,
            g,
            fresh,
            eq_of_same_bytes j i f,
            contains_key-get (erase k m) j,
            contains_key-erase k m j d fresh,
          ))
      | inr f ↦ alone i r (rw (e, f) g)
    ]

profile_rows_from :
    (i : ℕ) (ps : List LocalProxyProfile) (k : Name) (r : ProfileRow)
    → get (profile_rows i ps) k ≡ some r
    → i ≤ r.sort_order
unfolding profile_rows get
profile_rows_from i [] k r h = cc
profile_rows_from i (p ∷ ps) k r h = ground (arith, h, profile_rows_from (i + 1) ps k r)

empty_of_get : (m : List (Name × ProfileRow)) → ((k : Name) → get m k ≡ none) → order_rows m ≡ []
unfolding get order_rows
empty_of_get [] h = refl
empty_of_get ((j, w) ∷ m) h = absurd (ground (arith, h j, same_bytes_refl j))

-- The rows of a list of profiles, in its order.
unfoldable in_order : ℕ → List LocalProxyProfile → List ProfileRow
in_order i [] = []
in_order i (p ∷ ps) = record { sort_order = i; profile = p } ∷ in_order (i + 1) ps

place-in_order :
    (i : ℕ) (p : LocalProxyProfile) (ps : List LocalProxyProfile)
    → place (record { sort_order = i; profile = p }) (in_order (i + 1) ps) ≡ in_order i (p ∷ ps)
unfolding place in_order
place-in_order i p [] = refl
place-in_order i p (q ∷ ps) = ground arith

order_rows-profile_rows :
    (i : ℕ) (ps : List LocalProxyProfile) (m : List (Name × ProfileRow))
    → IsMap m
    → IsMap (profile_rows i ps)
    → ((k : Name) → get m k ≡ get (profile_rows i ps) k)
    → order_rows m ≡ in_order i ps
unfolding profile_rows get in_order
order_rows-profile_rows i [] m d v h = empty_of_get m h
order_rows-profile_rows i (p ∷ ps) m d (fresh, v) h =
    order_rows-erase m p.id row d (h p.id ∙ rw (same_bytes_refl p.id) refl) alone
    ∙ ap (place row)
        (order_rows-profile_rows (i + 1) ps (erase p.id m) (erase-IsMap p.id m d) v others)
    ∙ place-in_order i p ps
  where
    row : ProfileRow
    row = record { sort_order = i; profile = p }

    others : (k : Name) → get (erase p.id m) k ≡ get (profile_rows (i + 1) ps) k
    others k = elim (Bool-cases (same_bytes p.id k)) [
      | inl e ↦ ground (
        arith,
        e,
        fresh,
        eq_of_same_bytes p.id k e,
        contains_key-get (profile_rows (i + 1) ps) p.id,
        get-erase p.id m k d,
      )
      | inr e ↦ ground (arith, e, get-erase p.id m k d, h k)
    ]

    alone : IsAlone p.id row m
    alone k r g =
        λ e. absurd (omega (arith, e, profile_rows_from (i + 1) ps k r (sym (others k) ∙ g)))

profiles_of-in_order : (i : ℕ) (ps : List LocalProxyProfile) → profiles_of (in_order i ps) ≡ ps
unfolding profiles_of in_order
profiles_of-in_order i [] = refl
profiles_of-in_order i (p ∷ ps) = ap (◌∷◌ p) (profiles_of-in_order (i + 1) ps)

-- Rows with the ids and the order of a list of profiles are read as that list.
pub profiles_of-order_rows :
    (ps : List LocalProxyProfile) (m : List (Name × ProfileRow))
    → IsMap m
    → IsMap (profile_rows 0 ps)
    → ((k : Name) → get m k ≡ get (profile_rows 0 ps) k)
    → profiles_of (order_rows m) ≡ ps
profiles_of-order_rows ps m d v h =
    ap profiles_of (order_rows-profile_rows 0 ps m d v h) ∙ profiles_of-in_order 0 ps
