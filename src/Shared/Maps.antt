-- ===== src/Shared/Maps.antt =====
-- Maps keyed by strings, as the bytes of the string: a `BTreeMap<String, V>`, and a SQL table with a
-- text primary key. Entries stand in the order of their insertion, which no lookup sees.
use Prim.Native.Nat.{ℕ}
use mathlib.Core.Path.{◌≡◌, refl, sym, ap, ◌∙◌}
use mathlib.Core.Bool.{Bool, true, false}
use mathlib.Core.List.{List, [], ◌∷◌}
use mathlib.Core.Option.{Option, none, some}
use mathlib.Core.Logic.{inl, inr}
use native.Mathlib.Omega.{arith}
use csqtt_android.Shared.Tests.{==_refl, if◌then◌else◌, Bool-cases}
use csqtt_android.Shared.Bytes.{same_bytes}

-- A string as its bytes.
abbrev pub Name : Type 0
Name = List ℕ

pub same_bytes_refl : (k : Name) → same_bytes k k ≡ true
unfolding same_bytes
same_bytes_refl [] = refl
same_bytes_refl (b ∷ k) = rw (==_refl b) (same_bytes_refl k)

pub eq_of_same_bytes : (k j : Name) → same_bytes k j ≡ true → k ≡ j
unfolding same_bytes
eq_of_same_bytes [] [] h = refl
eq_of_same_bytes [] (c ∷ j) h = cc
eq_of_same_bytes (b ∷ k) [] h = cc
eq_of_same_bytes (b ∷ k) (c ∷ j) h = ground (arith, eq_of_same_bytes k j)

-- `Option::or`
abbrev pub or {ℓ} : {A : Type ℓ} → Option A → Option A → Option A
or none b = b
or (some a) b = some a

abbrev pub map_option {ℓ κ} : {A : Type ℓ} {B : Type κ} → (A → B) → Option A → Option B
map_option f none = none
map_option f (some a) = some (f a)

abbrev pub get_default {ℓ} : {A : Type ℓ} → A → Option A → A
get_default d none = d
get_default d (some a) = a

module _ {ℓ} {V : Type ℓ} where
  unfoldable pub get : List (Name × V) → Name → Option V
  get [] k = none
  get ((j, v) ∷ m) k = if same_bytes j k then some v else get m k

  -- `contains_key`
  unfoldable pub contains_key : List (Name × V) → Name → Bool
  contains_key [] k = false
  contains_key ((j, v) ∷ m) k = if same_bytes j k then true else contains_key m k

  -- `insert`, and `INSERT … ON CONFLICT DO UPDATE` of a whole row
  unfoldable pub insert : Name → V → List (Name × V) → List (Name × V)
  insert k v [] = (k, v) ∷ []
  insert k v ((j, w) ∷ m) = if same_bytes j k then (k, v) ∷ m else (j, w) ∷ insert k v m

  -- `append`, and a loop of such inserts
  unfoldable pub insert_all : List (Name × V) → List (Name × V) → List (Name × V)
  insert_all [] m = m
  insert_all ((k, v) ∷ rows) m = insert_all rows (insert k v m)

  -- `INSERT … ON CONFLICT DO NOTHING`
  unfoldable pub insert_new : Name → V → List (Name × V) → List (Name × V)
  insert_new k v m = if contains_key m k then m else insert k v m

  unfoldable pub insert_all_new : List (Name × V) → List (Name × V) → List (Name × V)
  insert_all_new [] m = m
  insert_all_new ((k, v) ∷ rows) m = insert_all_new rows (insert_new k v m)

  -- `UPDATE … WHERE key = k`
  unfoldable pub update : Name → (V → V) → List (Name × V) → List (Name × V)
  update k f [] = []
  update k f ((j, v) ∷ m) =
      if same_bytes j k then (j, f v) ∷ update k f m else (j, v) ∷ update k f m

  -- `DELETE` of the rows whose key the test refuses
  unfoldable pub retain : (Name → Bool) → List (Name × V) → List (Name × V)
  retain p [] = []
  retain p ((j, v) ∷ m) = if p j then (j, v) ∷ retain p m else retain p m

  -- `values_mut`
  unfoldable pub map_values : (V → V) → List (Name × V) → List (Name × V)
  map_values f [] = []
  map_values f ((j, v) ∷ m) = (j, f v) ∷ map_values f m

  -- No key stands twice.
  abbrev pub IsMap : List (Name × V) → Type 0
  IsMap [] = Unit
  IsMap ((k, v) ∷ m) = (contains_key m k ≡ false) × IsMap m

module _ {ℓ} {V : Type ℓ} where
  pub contains_key-get :
      (m : List (Name × V)) (k : Name)
      → contains_key m k ≡ elim (get m k) [ none ↦ false | some v ↦ true ]
  unfolding get contains_key
  contains_key-get [] k = refl
  contains_key-get ((j, v) ∷ m) k = elim (Bool-cases (same_bytes j k)) [
    | inl e ↦ rw (e) refl
    | inr e ↦ rw (e) (contains_key-get m k)
  ]

  pub get-insert :
      (m : List (Name × V)) (k : Name) (v : V) (i : Name)
      → get (insert k v m) i ≡ (if same_bytes k i then some v else get m i)
  unfolding get insert
  get-insert [] k v i = refl
  get-insert ((j, w) ∷ m) k v i = elim (Bool-cases (same_bytes j k)) [
    | inl e ↦ ground (arith, e, eq_of_same_bytes j k e)
    | inr e ↦ elim (Bool-cases (same_bytes j i)) [
      | inl f ↦
          ground (arith, e, f, eq_of_same_bytes j i f, eq_of_same_bytes k i, same_bytes_refl i)
      | inr f ↦ rw (e, f) (get-insert m k v i)
    ]
  ]

  pub get-update :
      (m : List (Name × V)) (k : Name) (f : V → V) (i : Name)
      → get (update k f m) i ≡ (if same_bytes k i then map_option f (get m i) else get m i)
  unfolding get update
  get-update [] k f i = ground arith
  get-update ((j, w) ∷ m) k f i = elim (Bool-cases (same_bytes j k)) [
    | inl e ↦ elim (Bool-cases (same_bytes j i)) [
      | inl d ↦
          ground (arith, e, d, eq_of_same_bytes j k e, eq_of_same_bytes j i d, same_bytes_refl i)
      | inr d ↦ rw (e, d) (get-update m k f i)
    ]
    | inr e ↦ elim (Bool-cases (same_bytes j i)) [
      | inl d ↦
          ground (arith, e, d, eq_of_same_bytes j i d, eq_of_same_bytes k i, same_bytes_refl i)
      | inr d ↦ rw (e, d) (get-update m k f i)
    ]
  ]

  pub get-retain :
      (m : List (Name × V)) (p : Name → Bool) (i : Name)
      → get (retain p m) i ≡ (if p i then get m i else none)
  unfolding get retain
  get-retain [] p i = ground arith
  get-retain ((j, w) ∷ m) p i = elim (Bool-cases (p j)) [
    | inl e ↦ elim (Bool-cases (same_bytes j i)) [
      | inl d ↦ ground (arith, e, d, eq_of_same_bytes j i d)
      | inr d ↦ rw (e, d) (get-retain m p i)
    ]
    | inr e ↦ elim (Bool-cases (same_bytes j i)) [
      | inl d ↦ ground (arith, e, d, eq_of_same_bytes j i d, get-retain m p i)
      | inr d ↦ rw (e, d) (get-retain m p i)
    ]
  ]

  pub get-map_values :
      (m : List (Name × V)) (f : V → V) (i : Name) → get (map_values f m) i ≡ map_option f (get m i)
  unfolding get map_values
  get-map_values [] f i = refl
  get-map_values ((j, w) ∷ m) f i = ground (arith, get-map_values m f i)

  pub get-insert_all :
      (rows m : List (Name × V)) (i : Name)
      → IsMap rows
      → get (insert_all rows m) i ≡ or (get rows i) (get m i)
  unfolding get insert_all
  get-insert_all [] m i d = refl
  get-insert_all ((k, v) ∷ rows) m i (fresh, d) = elim (Bool-cases (same_bytes k i)) [
    | inl e ↦ ground (
      arith,
      e,
      eq_of_same_bytes k i e,
      fresh,
      contains_key-get rows k,
      get-insert m k v i,
      get-insert_all rows (insert k v m) i d,
    )
    | inr e ↦ ground (arith, e, get-insert m k v i, get-insert_all rows (insert k v m) i d)
  ]

  contains_key-insert :
      (m : List (Name × V)) (k : Name) (v : V) (i : Name)
      → contains_key (insert k v m) i ≡ (if same_bytes k i then true else contains_key m i)
  contains_key-insert m k v i =
      ground (arith, contains_key-get (insert k v m) i, contains_key-get m i, get-insert m k v i)

  pub insert-IsMap : (m : List (Name × V)) (k : Name) (v : V) → IsMap m → IsMap (insert k v m)
  unfolding insert contains_key
  insert-IsMap [] k v d = (refl, tt)
  insert-IsMap ((j, w) ∷ m) k v (fresh, d) = elim (Bool-cases (same_bytes j k)) [
    | inl e ↦ rw (e) (ap (contains_key m) (sym (eq_of_same_bytes j k e)) ∙ fresh, d)
    | inr e ↦ rw (e) (
      ground
          (arith, e, fresh, contains_key-insert m k v j, eq_of_same_bytes k j, same_bytes_refl j),
      insert-IsMap m k v d,
    )
  ]

  pub insert_all-IsMap : (rows m : List (Name × V)) → IsMap m → IsMap (insert_all rows m)
  unfolding insert_all
  insert_all-IsMap [] m d = d
  insert_all-IsMap ((k, v) ∷ rows) m d = insert_all-IsMap rows (insert k v m) (insert-IsMap m k v d)

  pub get-insert_new :
      (m : List (Name × V)) (k : Name) (v : V) (i : Name)
      → get (insert_new k v m) i ≡ or (get m i) (if same_bytes k i then some v else none)
  unfolding insert_new
  get-insert_new m k v i = elim (Bool-cases (same_bytes k i)) [
    | inl e ↦ ground (arith, e, eq_of_same_bytes k i e, contains_key-get m k, get-insert m k v i)
    | inr e ↦ ground (arith, e, contains_key-get m k, get-insert m k v i)
  ]

  pub get-insert_all_new :
      (rows m : List (Name × V)) (i : Name)
      → get (insert_all_new rows m) i ≡ or (get m i) (get rows i)
  unfolding get insert_all_new
  get-insert_all_new [] m i = ground arith
  get-insert_all_new ((k, v) ∷ rows) m i =
      ground (arith, get-insert_new m k v i, get-insert_all_new rows (insert_new k v m) i)

  pub retain-IsMap : (m : List (Name × V)) (p : Name → Bool) → IsMap m → IsMap (retain p m)
  unfolding retain
  retain-IsMap [] p d = tt
  retain-IsMap ((j, w) ∷ m) p (fresh, d) = elim (Bool-cases (p j)) [
    | inl e ↦ rw (e) (
      ground (
        arith,
        e,
        fresh,
        contains_key-get m j,
        contains_key-get (retain p m) j,
        get-retain m p j,
      ),
      retain-IsMap m p d,
    )
    | inr e ↦ rw (e) (retain-IsMap m p d)
  ]
