-- ===== src/Model/Import.antt =====
-- A load loses nothing of the older files and overwrites nothing of the newer (rust-server/model.rs).
use csqtt_android.Shared.{
  ◌≤◌, ◌≡◌, ◌++◌, not, if◌then◌else◌, refl, ap, subst, ◌∙◌, Bool, true, false, ◌&&◌, List, [], ◌∷◌,
  Option, none, some, arith, Bool-cases, Option-cases, inl, inr, same_bytes, Name, get, All,
  eq_of_same_bytes,
}
use csqtt_android.Model.{ClientDevice, PasswordEntry, Database}
use csqtt_android.Model.Disk.{Disk}
use csqtt_android.Model.Matches.{
  IsSamePassword, IsSameDevice, IsSamePassword-of_match, IsSameDevice-of_match,
}
use csqtt_android.Model.Load.{
  read_database_snapshot, legacy_password_matches, legacy_device_matches, all_match,
  verify_legacy_database_rows, imported, parse_all, succeeds, later, remove_all, verify_all,
  ConfigDir, Outcomes, load_database,
}

head_match {ℓ} :
    {V : Type ℓ} (matches : V → V → Bool) (o : Option V) (v : V) (rest : Bool)
    → (elim o [ none ↦ false | some w ↦ matches w v ] && rest) ≡ true
    → (w : V) × (o ≡ some w) × (matches w v ≡ true)
head_match matches none v rest h = cc
head_match matches (some w) v rest h = (w, refl, ground (arith, h))

all_match-get {ℓ} :
    {V : Type ℓ} (matches : V → V → Bool) (sqlite legacy : List (Name × V)) (k : Name) (v : V)
    → all_match matches sqlite legacy ≡ true
    → get legacy k ≡ some v
    → (w : V) × (get sqlite k ≡ some w) × (matches w v ≡ true)
unfolding all_match get
all_match-get matches sqlite [] k v h g = cc
all_match-get {V = V} matches sqlite ((j, u) ∷ legacy) k v h g =
    elim (Bool-cases (same_bytes j k)) [
      | inl e ↦
          subst (λ x. (w : V) × (get sqlite k ≡ some w) × (matches w x ≡ true))
            (ground (arith, e, g))
            (subst (λ i. (w : V) × (get sqlite i ≡ some w) × (matches w u ≡ true))
              (eq_of_same_bytes j k e) (head_match matches (get sqlite j) u _ h))
      | inr e ↦ all_match-get matches sqlite legacy k v (ground (arith, h)) (ground (arith, e, g))
    ]

-- Every password and device of an older file stands in the database, the same but for its counters
-- and, for a device, its session.
pub record IsCovered (db legacy : Database) : Type 0 where
  pub passwords :
      (k : Name) (entry : PasswordEntry)
      → get legacy.passwords k ≡ some entry
      → (kept : PasswordEntry) × (get db.passwords k ≡ some kept) × IsSamePassword kept entry
  pub devices :
      (id : Name) (device : ClientDevice)
      → get legacy.devices id ≡ some device
      → (kept : ClientDevice) × (get db.devices id ≡ some kept) × IsSameDevice kept device

-- What a parsed file asks for; one that does not parse is never covered.
abbrev pub Covers : Database → Option Database → Type 0
Covers db none = 1 ≤ 0
Covers db (some legacy) = IsCovered db legacy

verified :
    (db legacy : Database)
    → verify_legacy_database_rows db (imported legacy) ≡ true
    → IsCovered db legacy
unfolding verify_legacy_database_rows
verified db legacy h = record {
  passwords = λ k entry g.
      let (kept, found, same) =
        all_match-get legacy_password_matches db.passwords legacy.passwords k entry
          (ground (arith, h)) g in
      (kept, found, IsSamePassword-of_match kept entry same);
  devices = λ id device g.
      let (kept, found, same) =
        all_match-get legacy_device_matches db.devices legacy.devices id device (ground (arith, h))
          g in
      (kept, found, IsSameDevice-of_match kept device same);
}

files_verified :
    (db : Database) (files : List (Option Database)) (legacy : List Database)
    → parse_all files ≡ some legacy
    → verify_all db legacy ≡ true
    → All (Covers db) files
unfolding parse_all verify_all
files_verified db [] legacy e h = tt
files_verified db (none ∷ files) legacy e h = cc
files_verified db (some l ∷ files) legacy e h = elim (Option-cases (parse_all files)) [
  | inl f ↦ absurd (ground (arith, e, f))
  | inr (rest, f) ↦
      let both : verify_all db (imported l ∷ rest) ≡ true =
        ap (verify_all db) {x = imported l ∷ rest} (ground (arith, e, f)) ∙ h in
      (verified db l (ground (arith, both)), files_verified db files rest f (ground (arith, both)))
]

-- The files that are gone from the directory are covered by the SQLite file.
abbrev pub GoneCovered : Option Disk → List (Option Database) → Type 0
GoneCovered none gone = gone ≡ []
GoneCovered (some disk) gone = All (Covers (read_database_snapshot disk)) gone

-- The files before a load, and those after it: the first ones are gone.
abbrev pub RemovesCovered : List (Option Database) → Option Disk → List (Option Database) → Type 0
RemovesCovered files disk left =
    (gone : List (Option Database)) × (files ≡ gone ++ left) × GoneCovered disk gone

removed :
    (disk : Disk) (files : List (Option Database)) (outcomes : List Bool)
    → All (Covers (read_database_snapshot disk)) files
    → RemovesCovered files (some disk) (remove_all files outcomes).0
unfolding remove_all
removed disk [] outcomes h = ([], refl, tt)
removed disk (file ∷ files) outcomes (one, rest) = elim (Bool-cases (succeeds outcomes)) [
  | inr stops ↦ rw (stops) ([], refl, tt)
  | inl goes ↦
      let (gone, split, covered) = removed disk files (later outcomes) rest in
      rw (goes) (file ∷ gone, ap (λ fs. file ∷ fs) split, (one, covered))
]

all_removed :
    (files : List (Option Database)) (outcomes : List Bool)
    → (remove_all files outcomes).1 ≡ true
    → (remove_all files outcomes).0 ≡ []
unfolding remove_all
all_removed [] outcomes h = refl
all_removed (file ∷ files) outcomes h = ground (arith, h, all_removed files (later outcomes))

-- What is shown of a load from `files`.
abbrev Loads : List (Option Database) → ConfigDir × Option Database → Type 0
Loads files r =
    RemovesCovered files r.0.disk r.0.legacy
    × ((db : Database) → r.1 ≡ some db → (r.0.legacy ≡ []) × All (Covers db) files)

-- The end of a load, by what the import, the check and the removals come to.
Loads-end :
    (dir : ConfigDir) (disk : Disk) (legacy : List Database) (imported_all : Bool)
    (outcomes : List Bool)
    → parse_all dir.legacy ≡ some legacy
    → Loads dir.legacy (
        if not imported_all
        then (record dir { disk = some disk }, none)
        else if not (verify_all (read_database_snapshot disk) legacy)
        then (record dir { disk = some disk }, none)
        else (
          record { disk = some disk; legacy = (remove_all dir.legacy outcomes).0 },
          if (remove_all dir.legacy outcomes).1 then some (read_database_snapshot disk) else none,
        ))
Loads-end dir disk legacy false outcomes e = (([], refl, tt), λ db f. cc)
Loads-end dir disk legacy true outcomes e =
    elim (Bool-cases (verify_all (read_database_snapshot disk) legacy)) [
      | inr v ↦ rw (v) (([], refl, tt), λ db f. cc)
      | inl v ↦
          let covered = files_verified (read_database_snapshot disk) dir.legacy legacy e v in
          rw (v) (
            removed disk dir.legacy outcomes covered,
            λ db f. given db (remove_all dir.legacy outcomes).1 refl f covered,
          )
    ]
  where
    given :
        (db : Database) (b : Bool)
        → (remove_all dir.legacy outcomes).1 ≡ b
        → (if b then some (read_database_snapshot disk) else none) ≡ some db
        → All (Covers (read_database_snapshot disk)) dir.legacy
        → ((remove_all dir.legacy outcomes).0 ≡ []) × All (Covers db) dir.legacy
    given db false g f covered = cc
    given db true g f covered = (
      all_removed dir.legacy outcomes g,
      subst (λ d. All (Covers d) dir.legacy) (ground (arith, f)) covered,
    )

-- The files that a load removes are the first ones of the older files, and the SQLite file as the load
-- leaves it has every password and device of them, the same but for its counters and, for a device, its
-- session: whichever transaction of the import or removal of a file fails. A load that gives a database
-- has removed them all, and the database has every password and device of them in the same way. The
-- other calls of SQLite succeed.
pub load_database-Covers :
    (dir : ConfigDir) (outcomes : Outcomes)
    → RemovesCovered dir.legacy
        (load_database dir outcomes).0.disk
        (load_database dir outcomes).0.legacy
      × ((db : Database)
          → (load_database dir outcomes).1 ≡ some db
          → ((load_database dir outcomes).0.legacy ≡ []) × All (Covers db) dir.legacy)
unfolding load_database
load_database-Covers dir outcomes = go dir.disk dir.legacy
  where
    nothing_gone : (disk : Option Disk) → GoneCovered disk []
    nothing_gone none = refl
    nothing_gone (some disk) = tt

    go :
        (disk : Option Disk) (legacy : List (Option Database))
        → Loads legacy (load_database (record { disk = disk; legacy = legacy }) outcomes)
    go none [] = (([], refl, refl), λ db e. (refl, tt))
    go (some disk) [] = (([], refl, tt), λ db e. (refl, tt))
    go disk (file ∷ files) = elim (Option-cases (parse_all (file ∷ files))) [
      | inl e ↦ rw (e, load_database) (([], refl, nothing_gone disk), λ db f. cc)
      | inr (legacy, e) ↦
          rw (e, load_database)
            (Loads-end (record { disk = disk; legacy = file ∷ files }) _ legacy _ outcomes.removals
              e)
    ]
