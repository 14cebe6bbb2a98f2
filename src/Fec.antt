-- ===== src/Fec.antt =====
-- shared/selective_fec.rs: which packets are sent twice, and the budget of duplicates.
-- A `now` is the nanoseconds of an `Instant`; a masked test `x & (2^k - 1)` is written `x % 2^k`.
pub mod Rate
pub mod Frames
pub mod Headers
mod Tests
use Prim.Native.Nat.{bit_and}
use csqtt_android.Shared.{
  ℕ, zero, suc, ◌+◌, ◌-◌, ◌*◌, ◌/◌, ◌%◌, ◌≡◌, Bool, true, false, ◌||◌, ◌&&◌, List, [], ◌∷◌, Option,
  none, some, ltb, leb, ◌==◌, if◌then◌else◌, not, min, length, drop, get_elem?, byte_at, u16_at,
  starts_with, same_bytes, ascii,
}

abbrev pub max_small_udp_payload : ℕ
max_small_udp_payload = 256

abbrev pub duplicate_burst : ℕ
duplicate_burst = 10

-- `REFILL_INTERVAL`, in nanoseconds: 1,000 ms / 50.
abbrev pub refill_interval : ℕ
refill_interval = 20_000_000

abbrev pub u32_max : ℕ
u32_max = 4_294_967_295

pub record Budget : Type 0 where
  pub tokens : ℕ
  pub updated : ℕ

abbrev pub new : ℕ → Budget
new now = record { tokens = duplicate_burst; updated = now }

-- The refill at the head of `allow`. The numbers of the two saturating operations are written out;
-- `-` stops at 0, as `saturating_duration_since` does.
unfoldable pub refilled : ℕ → Budget → Budget
refilled now b =
    let refill = min ((now - b.updated) / refill_interval) u32_max in
    if (now - b.updated) / refill_interval == 0 then b else record {
      tokens = min (min (b.tokens + refill) u32_max) duplicate_burst;
      updated = b.updated + refill_interval * refill;
    }

unfoldable pub spend : Budget → Budget × Bool
spend b = if b.tokens == 0 then (b, false) else (record b { tokens = b.tokens - 1 }, true)

unfoldable pub allow : ℕ → Budget → Budget × Bool
unfolding spend refilled
allow now b = spend (refilled now b)

unfoldable pub is_control : List ℕ → Bool
is_control packet =
    starts_with (ascii "GETCONF:") packet
    || (starts_with (ascii "TUNCONF:") packet
        || (same_bytes packet (ascii "READY")
            || (same_bytes packet (ascii "READY_OK")
                || (starts_with (ascii "DENIED:") packet
                    || starts_with (ascii "DISCONNECT:") packet))))

-- `packet.get(6)`, tested against a set of frame kinds.
abbrev pub kind_in : (ℕ → Bool) → Option ℕ → Bool
kind_in test none = false
kind_in test (some kind) = test kind

unfoldable pub is_proxy_frame : List ℕ → Bool
is_proxy_frame packet =
    starts_with (ascii "CSQPX2") packet && kind_in (λ k. k == 4) (get_elem? packet 6)

unfoldable pub is_client_duplicable_frame : List ℕ → Bool
is_client_duplicable_frame packet =
    starts_with (ascii "CSQPX2") packet
    && kind_in (λ k. k == 1 || (k == 4 || k == 5)) (get_elem? packet 6)

unfoldable pub is_server_duplicable_frame : List ℕ → Bool
is_server_duplicable_frame packet =
    starts_with (ascii "CSQPX2") packet && kind_in (λ k. leb 2 k && leb k 4) (get_elem? packet 6)

pub record Transport : Type 0 where
  pub protocol : ℕ
  pub bytes : List ℕ

unfoldable pub classify_transport : Transport → Bool
classify_transport t =
    if t.protocol == 6 && leb 14 (length t.bytes)
    then u16_at t.bytes 0 == 53 || (u16_at t.bytes 2 == 53 || not (byte_at t.bytes 13 / 2 % 2 == 0))
    else if t.protocol == 17 && leb 8 (length t.bytes)
    then u16_at t.bytes 0 == 53
      || (u16_at t.bytes 2 == 53 || leb (length t.bytes - 8) max_small_udp_payload)
    else false

unfoldable pub ipv4_transport : List ℕ → Option Transport
ipv4_transport packet =
    let header_len = byte_at packet 0 % 16 * 4 in
    if ltb (length packet) 20 || not (byte_at packet 0 / 16 == 4)
    then none
    else if ltb header_len 20 || ltb (length packet) header_len
    then none
    else if not (u16_at packet 6 % 8192 == 0)
    then none
    else some (record { protocol = byte_at packet 9; bytes = drop header_len packet })

-- One turn of the loop of `ipv6_transport`: `stop` is its `break`.
pub data Turn : Type 0 where
  give_up stop : Turn
  next : ℕ → ℕ → Turn

abbrev pub next_within : List ℕ → ℕ → ℕ → Turn
next_within packet protocol offset =
    if ltb (length packet) offset then give_up else next protocol offset

unfoldable pub turn : List ℕ → ℕ → ℕ → Turn
turn packet protocol offset =
    if protocol == 0 || (protocol == 43 || protocol == 60)
    then (if leb (offset + 2) (length packet)
        then next_within packet (byte_at packet offset)
            (offset + (byte_at packet (offset + 1) + 1) * 8)
        else give_up)
    else if protocol == 44
    then (if leb (offset + 8) (length packet)
        then (if not (bit_and (u16_at packet (offset + 2)) 0xfff8 == 0)
            then give_up
            else next_within packet (byte_at packet offset) (offset + 8))
        else give_up)
    else if protocol == 51
    then (if leb (offset + 2) (length packet)
        then next_within packet (byte_at packet offset)
            (offset + (byte_at packet (offset + 1) + 2) * 4)
        else give_up)
    else stop

-- `packet.get(offset..)?` behind the loop.
abbrev pub transport_at : List ℕ → ℕ → ℕ → Option Transport
transport_at packet protocol offset =
    if leb offset (length packet)
    then some (record { protocol = protocol; bytes = drop offset packet })
    else none

unfoldable pub headers_loop : ℕ → List ℕ → ℕ → ℕ → Option Transport
headers_loop zero packet protocol offset = transport_at packet protocol offset
headers_loop (suc rounds) packet protocol offset = elim (turn packet protocol offset) [
  | give_up ↦ none
  | stop ↦ transport_at packet protocol offset
  | next p o ↦ headers_loop rounds packet p o
]

unfoldable pub ipv6_transport : List ℕ → Option Transport
ipv6_transport packet =
    if ltb (length packet) 40 || not (byte_at packet 0 / 16 == 6)
    then none
    else headers_loop 8 packet (byte_at packet 6) 40

-- `is_some_and(classify_transport)`
abbrev pub classified : Option Transport → Bool
classified none = false
classified (some t) = classify_transport t

unfoldable pub should_duplicate : List ℕ → Bool
should_duplicate packet =
    if is_control packet || is_proxy_frame packet
    then true
    else if ltb 0 (length packet) && byte_at packet 0 / 16 == 4
    then classified (ipv4_transport packet)
    else if ltb 0 (length packet) && byte_at packet 0 / 16 == 6
    then classified (ipv6_transport packet)
    else false
