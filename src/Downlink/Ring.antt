-- ===== src/Downlink/Ring.antt =====
-- The rings of the active lanes (rust-server/downlink_queue.rs).
use csqtt_android.Shared.{
  ℕ, zero, suc, ◌+◌, ◌<◌, ◌≡◌, refl, ap, ◌∙◌, List, [], ◌∷◌, ◌++◌, Option, none, some, arith, ◌==◌,
  if◌then◌else◌, get_elem?, replicate,
}
use csqtt_android.Scheduler.{PacketClass, latency, priority, bulk}
use csqtt_android.Downlink.{Lane}
use csqtt_android.Downlink.Queue.{DownlinkQueue, keys_from, rebuild_rings, ring}

-- How often a key stands in a ring.
abbrev pub times : ℕ → List ℕ → ℕ
times key [] = 0
times key (k ∷ ks) = (if k == key then 1 else 0) + times key ks

times-append : (key : ℕ) (xs ys : List ℕ) → times key (xs ++ ys) ≡ times key xs + times key ys
times-append key [] ys = omega arith
times-append key (x ∷ xs) ys = omega (arith, times-append key xs ys)

times-replicate : (key n k : ℕ) → times key (replicate n k) ≡ (if k == key then n else 0)
times-replicate key zero k = ground arith
times-replicate key (suc n) k = ground (arith, times-replicate key n k)

-- What a lane is due in a ring.
abbrev pub due : (Lane → ℕ) → Option Lane → ℕ
due weight none = 0
due weight (some lane) = if lane.active_paths == 0 then 0 else weight lane

abbrev own_keys : (Lane → ℕ) → ℕ → Lane → List ℕ
own_keys weight first lane = if lane.active_paths == 0 then [] else replicate (weight lane) first

times-own_keys :
    (weight : Lane → ℕ) (first key : ℕ) (lane : Lane)
    → times key (own_keys weight first lane) ≡ (if first == key then due weight (some lane) else 0)
times-own_keys weight first key lane = ground (arith, times-replicate key (weight lane) first)

times-keys_from_before :
    (weight : Lane → ℕ) (first key : ℕ) (lanes : List Lane)
    → key < first
    → times key (keys_from weight first lanes) ≡ 0
unfolding keys_from
times-keys_from_before weight first key [] h = refl
times-keys_from_before weight first key (lane ∷ lanes) h =
    times-append key (own_keys weight first lane) (keys_from weight (first + 1) lanes)
    ∙ ground (
      arith,
      times-own_keys weight first key lane,
      times-keys_from_before weight (first + 1) key lanes (omega arith),
    )

times-keys_from :
    (weight : Lane → ℕ) (first i : ℕ) (lanes : List Lane)
    → times (first + i) (keys_from weight first lanes) ≡ due weight (get_elem? lanes i)
unfolding keys_from
times-keys_from weight first i [] = refl
times-keys_from weight first zero (lane ∷ lanes) =
    times-append (first + zero) (own_keys weight first lane) (keys_from weight (first + 1) lanes)
    ∙ ground (
      arith,
      times-own_keys weight first (first + zero) lane,
      times-keys_from_before weight (first + 1) (first + zero) lanes (omega arith),
    )
times-keys_from weight first (suc i) (lane ∷ lanes) =
    times-append (first + suc i) (own_keys weight first lane) (keys_from weight (first + 1) lanes)
    ∙ ground (
      arith,
      times-own_keys weight first (first + suc i) lane,
      ap (λ k. times k (keys_from weight (first + 1) lanes))
          (let e : first + 1 + i ≡ first + suc i = omega arith in e),
      times-keys_from weight (first + 1) i lanes,
    )

times-keys :
    (weight : Lane → ℕ) (key : ℕ) (lanes : List Lane)
    → times key (keys_from weight 0 lanes) ≡ due weight (get_elem? lanes key)
times-keys weight key lanes =
    ap (λ k. times k (keys_from weight 0 lanes)) (let e : key ≡ 0 + key = omega arith in e)
    ∙ times-keys_from weight 0 key lanes

abbrev pub weight_of : PacketClass → Lane → ℕ
weight_of latency lane = 1
weight_of priority lane = 1
weight_of bulk lane = lane.active_paths

-- After the rings are built again, an active lane stands once in the rings of its latency and
-- priority packets and as often as it has active paths in the ring of its bulk packets; an inactive
-- lane, or a key without a lane, stands in none.
pub times-rebuild_rings :
    (q : DownlinkQueue) (class : PacketClass) (key : ℕ)
    → times key (ring (rebuild_rings q) class) ≡ due (weight_of class) (get_elem? q.lanes key)
unfolding rebuild_rings
times-rebuild_rings q latency key = times-keys (λ lane. 1) key q.lanes
times-rebuild_rings q priority key = times-keys (λ lane. 1) key q.lanes
times-rebuild_rings q bulk key = times-keys (λ lane. lane.active_paths) key q.lanes
