-- ===== src/Model/Bindings.antt =====
-- Which device is bound to which password, and the addresses of the devices (rust-server/model.rs).
use csqtt_android.Shared.{
  ℕ, zero, suc, ◌+◌, ◌≤◌, ◌<◌, ◌≡◌, refl, sym, ap, subst, ◌==◌, ◌∙◌, ◌⊎◌, contains_key, same_bytes,
  same_bytes_refl, eq_of_same_bytes, Bool, true, false, List, [], ◌∷◌, Option, none, some, arith,
  if◌then◌else◌, Bool-cases, inl, inr, Name, get, map_option,
}
use csqtt_android.Model.{
  ClientDevice, PasswordEntry, Database, is_empty, unbind, unbind_where, is_dangling,
  prune_dangling_device_bindings, address, is_used, next_ip_from, get_next_ip,
}

-- A device after the loop.
abbrev after : (ClientDevice → Bool) → ClientDevice → ClientDevice
after test device = if test device then unbind device else device

get-unbind_where :
    (test : ClientDevice → Bool) (m : List (Name × ClientDevice)) (id : Name)
    → get (unbind_where test m).0 id ≡ map_option (after test) (get m id)
unfolding get unbind_where
get-unbind_where test [] id = refl
get-unbind_where test ((j, d) ∷ m) id = ground (arith, get-unbind_where test m id)

unbind_where_idle :
    (test : ClientDevice → Bool) (m : List (Name × ClientDevice))
    → (unbind_where test m).1 ≡ false
    → (unbind_where test m).0 ≡ m
unfolding unbind_where
unbind_where_idle test [] h = refl
unbind_where_idle test ((j, d) ∷ m) h = ground (arith, h, unbind_where_idle test m)

-- A device is bound to the main password, or to one of the database's.
abbrev pub IsBound : Database → ClientDevice → Type 0
IsBound db device =
    (device.bound_password ≡ db.main_password)
    ⊎ ((entry : PasswordEntry) × (get db.passwords device.bound_password ≡ some entry))

-- A device before and after the pruning.
abbrev pub Pruned : Database → Option ClientDevice → Option ClientDevice → Type 0
Pruned db none o = o ≡ none
Pruned db (some device) o =
    (((device.bound_password ≡ []) ⊎ IsBound db device) × (o ≡ some device))
    ⊎ ((¬ IsBound db device) × (o ≡ some (record device { bound_password = [] })))

contains_key-cases {ℓ} :
    {V : Type ℓ} (m : List (Name × V)) (k : Name)
    → ((contains_key m k ≡ true) × ((v : V) × (get m k ≡ some v)))
      ⊎ ((contains_key m k ≡ false) × (get m k ≡ none))
unfolding contains_key get
contains_key-cases [] k = inr (refl, refl)
contains_key-cases ((j, v) ∷ m) k = elim (Bool-cases (same_bytes j k)) [
  | inl e ↦ rw (e) (inl (refl, (v, refl)))
  | inr e ↦ rw (e) (contains_key-cases m k)
]

no_name : (k : Name) → is_empty k ≡ true → k ≡ []
no_name [] h = refl
no_name (b ∷ k) h = cc

is_dangling-IsBound :
    (db : Database) (device : ClientDevice)
    → ((is_dangling db device ≡ false) × ((device.bound_password ≡ []) ⊎ IsBound db device))
      ⊎ ((is_dangling db device ≡ true) × (¬ IsBound db device))
unfolding is_dangling
is_dangling-IsBound db device =
    let key : Name = device.bound_password in
    elim (Bool-cases (is_empty key)) [
      | inl e ↦ rw (e) (inl (refl, inl (no_name key e)))
      | inr e ↦ elim (Bool-cases (same_bytes key db.main_password)) [
        | inl m ↦ rw (e, m) (inl (refl, inr (inl (eq_of_same_bytes key db.main_password m))))
        | inr m ↦ elim (contains_key-cases db.passwords key) [
          | inl (c, found) ↦ rw (e, m, c) (inl (refl, inr (inr found)))
          | inr (c, missing) ↦ rw (e, m, c) (inr (refl, loose m missing))
        ]
      ]
    ]
  where
    loose :
        same_bytes device.bound_password db.main_password ≡ false
        → get db.passwords device.bound_password ≡ none
        → ¬ IsBound db device
    loose m missing (inl same) =
        let itself : same_bytes device.bound_password db.main_password ≡ true =
          ap (same_bytes device.bound_password) (sym same)
          ∙ same_bytes_refl device.bound_password in
        cc
    loose m missing (inr (entry, found)) = cc

Pruned-after :
    (db : Database) (o : Option ClientDevice) → Pruned db o (map_option (after (is_dangling db)) o)
Pruned-after db none = refl
Pruned-after db (some device) = elim (is_dangling-IsBound db device) [
  | inl (stays, bound) ↦ inl (bound, rw (stays) refl)
  | inr (goes, loose) ↦ inr (loose, rw (goes) refl)
]

-- The pruning keeps a device as it is when it is bound to no password, to the main one or to one that
-- the database has, takes the binding away when it is bound to another, and adds and removes no
-- device. The flag that it returns is off only if nothing has changed.
pub prune_dangling_device_bindings-unbinds :
    (db : Database)
    → ((id : Name)
        → Pruned db (get db.devices id) (get (prune_dangling_device_bindings db).0.devices id))
      × ((prune_dangling_device_bindings db).1 ≡ false → (prune_dangling_device_bindings db).0 ≡ db)
unfolding prune_dangling_device_bindings
prune_dangling_device_bindings-unbinds db = (
  (λ id.
      subst (Pruned db (get db.devices id)) (sym (get-unbind_where (is_dangling db) db.devices id))
        (Pruned-after db (get db.devices id))),
  λ h.
      ap (λ devices. record db { devices = devices })
        (unbind_where_idle (is_dangling db) db.devices h),
)

-- The address that the loop gives is the first free one, and it gives none only when all are used.
abbrev pub FirstFree : ℕ × ℕ × ℕ → List (Name × ClientDevice) → ℕ → ℕ → Option Name → Type 0
FirstFree prefix devices left i none =
    (j : ℕ) → i ≤ j → j < i + left → is_used devices (address prefix j) ≡ true
FirstFree prefix devices left i (some ip) =
    (n : ℕ) × (i ≤ n)
    × (n < i + left)
    × (ip ≡ address prefix n)
    × (is_used devices ip ≡ false)
    × ((j : ℕ) → i ≤ j → j < n → is_used devices (address prefix j) ≡ true)

-- What holds at `i` and after it holds from `i` on.
from_next :
    (P : ℕ → Type 0) (i n : ℕ)
    → P i
    → ((j : ℕ) → i + 1 ≤ j → j < n → P j)
    → (j : ℕ) → i ≤ j
    → j < n
    → P j
from_next P i n now later j h k = elim (Bool-cases (i == j)) [
  | inl e ↦ subst P (ground (arith, e)) now
  | inr e ↦ later j (ground (arith, e, h)) k
]

FirstFree-suc :
    (prefix : ℕ × ℕ × ℕ) (devices : List (Name × ClientDevice)) (left i : ℕ) (o : Option Name)
    → is_used devices (address prefix i) ≡ true
    → FirstFree prefix devices left (i + 1) o
    → FirstFree prefix devices (suc left) i o
FirstFree-suc prefix devices left i none e f = λ j h k.
    from_next (λ j. is_used devices (address prefix j) ≡ true) i (i + 1 + left) e f j h
      (omega arith)
FirstFree-suc prefix devices left i (some ip) e (n, low, high, same, free, used) = (
  n,
  omega arith,
  omega arith,
  same,
  free,
  from_next (λ j. is_used devices (address prefix j) ≡ true) i n e used,
)

next_ip_from-FirstFree :
    (prefix : ℕ × ℕ × ℕ) (devices : List (Name × ClientDevice)) (left i : ℕ)
    → FirstFree prefix devices left i (next_ip_from prefix devices left i)
unfolding next_ip_from
next_ip_from-FirstFree prefix devices zero i = λ j h k. absurd (omega arith)
next_ip_from-FirstFree prefix devices (suc left) i =
    let rest = next_ip_from-FirstFree prefix devices left (i + 1) in
    elim (Bool-cases (is_used devices (address prefix i))) [
      | inr e ↦ rw (e) (i, omega arith, omega arith, refl, e, λ j h k. absurd (omega arith))
      | inl e ↦ rw (e) (FirstFree-suc prefix devices left i _ e rest)
    ]

-- A new device gets the lowest address from 2 to 250 that no device has, and none only when every one
-- of them is taken.
pub get_next_ip-FirstFree :
    (prefix : ℕ × ℕ × ℕ) (db : Database) → FirstFree prefix db.devices 249 2 (get_next_ip prefix db)
unfolding get_next_ip
get_next_ip-FirstFree prefix db = next_ip_from-FirstFree prefix db.devices 249 2
