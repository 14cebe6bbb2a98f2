-- ===== src/Model/Traffic.antt =====
-- What the traffic transaction and the merging of traffic do to the file's view (rust-server/model.rs).
use csqtt_android.Shared.{
  ◌≡◌, refl, sym, ap, ◌∙◌, true, ◌&&◌, List, [], ◌∷◌, Option, none, some, arith, Bool-cases, inl,
  inr, same_bytes, Name, get, insert_all, update, eq_of_same_bytes, IsMap, or, contains_key-get,
  get-update, get-insert_all, insert_all-IsMap,
}
use csqtt_android.Model.Disk.{
  Disk, TrafficCounters, TrafficSnapshot, count_password, count_device, update_all, no_traffic,
  is_none, null, or_else, write_traffic, merge_from,
}
use csqtt_android.Model.View.{DiskView, view, IsTraffic, counted, traffic_view}

get-update_all {ℓ} :
    {V : Type ℓ} (count : TrafficCounters → V → V) (t : List (Name × TrafficCounters))
    (table : List (Name × V)) (k : Name)
    → IsMap t
    → get (update_all count t table) k ≡ counted count (get t k) (get table k)
unfolding get update_all
get-update_all count [] table k d = refl
get-update_all count ((j, c) ∷ t) table k (fresh, d) = elim (Bool-cases (same_bytes j k)) [
  | inl e ↦ ground (
    arith,
    e,
    fresh,
    eq_of_same_bytes j k e,
    contains_key-get t j,
    get-update table j (count c) k,
    get-update_all count t (update j (count c) table) k d,
  )
  | inr e ↦ ground (
    arith,
    e,
    get-update table j (count c) k,
    get-update_all count t (update j (count c) table) k d,
  )
]

no_rows :
    (t : TrafficSnapshot)
    → no_traffic t ≡ true
    → (t.main ≡ none) × (t.passwords ≡ []) × (t.devices ≡ [])
unfolding no_traffic
no_rows t h = go t.main t.passwords t.devices h
  where
    go :
        (main : Option TrafficCounters) (passwords devices : List (Name × TrafficCounters))
        → (is_none main && (null passwords && null devices)) ≡ true
        → (main ≡ none) × (passwords ≡ []) × (devices ≡ [])
    go none [] [] h = (refl, refl, refl)
    go none [] (x ∷ devices) h = cc
    go none (x ∷ passwords) devices h = cc
    go (some c) passwords devices h = cc

pub idle_traffic : (t : TrafficSnapshot) (v : DiskView) → no_traffic t ≡ true → traffic_view t v ≡ v
unfolding traffic_view get
idle_traffic t v h = let n = no_rows t h in rw (n.0, n.1, n.2) refl

written :
    (disk : Disk) (t : TrafficSnapshot)
    → IsTraffic t
    → view (record disk {
      counters = or_else t.main disk.counters;
      passwords = update_all count_password t.passwords disk.passwords;
      devices = update_all count_device t.devices disk.devices;
    })
      ≡ traffic_view t (view disk)
unfolding view traffic_view
written disk t v = λ i. record (view disk) {
  counters = or_else t.main disk.counters;
  passwords = λ k. get-update_all count_password t.passwords disk.passwords k v.passwords i;
  devices = λ k. get-update_all count_device t.devices disk.devices k v.devices i;
}

pub view-write_traffic :
    (disk : Disk) (t : TrafficSnapshot)
    → IsTraffic t
    → view (write_traffic disk t) ≡ traffic_view t (view disk)
unfolding write_traffic
view-write_traffic disk t v = elim (Bool-cases (no_traffic t)) [
  | inl e ↦ rw (e) (sym (idle_traffic t (view disk) e))
  | inr e ↦ rw (e) (written disk t v)
]

counted_or {ℓ} :
    {V : Type ℓ} (count : TrafficCounters → V → V) (a b : Option TrafficCounters) (row : Option V)
    → ((c d : TrafficCounters) (x : V) → count c (count d x) ≡ count c x)
    → counted count (or a b) row ≡ counted count a (counted count b row)
counted_or count none b row again = refl
counted_or count (some c) none row again = refl
counted_or count (some c) (some e) none again = refl
counted_or count (some c) (some e) (some x) again = ap some (sym (again c e x))

counted_twice {ℓ} :
    {V : Type ℓ} (count : TrafficCounters → V → V) (m old : List (Name × TrafficCounters))
    (k : Name) (row : Option V)
    → IsMap m
    → ((c d : TrafficCounters) (x : V) → count c (count d x) ≡ count c x)
    → counted count (get (insert_all m old) k) row
      ≡ counted count (get m k) (counted count (get old k) row)
counted_twice count m old k row d again =
    ap (λ o. counted count o row) (get-insert_all m old k d)
    ∙ counted_or count (get m k) (get old k) row again

-- Merged traffic does what the two would do one after the other.
pub traffic_view-merge_from :
    (old newer : TrafficSnapshot) (v : DiskView)
    → IsTraffic newer
    → traffic_view (merge_from old newer) v ≡ traffic_view newer (traffic_view old v)
unfolding traffic_view merge_from
traffic_view-merge_from old newer v d = λ i. record v {
  counters = main newer.main i;
  passwords = λ k.
      counted_twice count_password newer.passwords old.passwords k (v.passwords k) d.passwords
        (λ c e x. refl) i;
  devices = λ k.
      counted_twice count_device newer.devices old.devices k (v.devices k) d.devices (λ c e x. refl)
        i;
}
  where
    main :
        (o : Option TrafficCounters)
        → or_else (or_else o old.main) v.counters ≡ or_else o (or_else old.main v.counters)
    main none = refl
    main (some c) = refl

pub merge_from-IsTraffic :
    (old newer : TrafficSnapshot) → IsTraffic old → IsTraffic (merge_from old newer)
unfolding merge_from
merge_from-IsTraffic old newer d = record {
  passwords = insert_all-IsMap newer.passwords old.passwords d.passwords;
  devices = insert_all-IsMap newer.devices old.devices d.devices;
}
