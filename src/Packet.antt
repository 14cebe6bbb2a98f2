-- ===== src/Packet.antt =====
-- rust-client/packet.rs and rust-server/packet.rs: pools of packet buffers, and the buffers of the
-- client. The pool of the server has the same operations with other constants.
pub mod Pool
pub mod Range
mod Tests
use csqtt_android.Shared.{
  ℕ, zero, suc, ◌+◌, ◌-◌, ◌*◌, ◌/◌, ◌%◌, Bool, true, false, not, ◌||◌, ◌&&◌, List, [], ◌∷◌, Option,
  none, some, ltb, leb, ◌==◌, if◌then◌else◌, length, byte_at, u16_at, max, min,
}

abbrev pub packet_headroom : ℕ
packet_headroom = 64

abbrev pub packet_capacity : ℕ
packet_capacity = 2_304

-- `PACKET_POOL_RETAINED_MAX`
abbrev pub packet_pool_retained_max : ℕ
packet_pool_retained_max = 2_048

unfoldable pub is_ip_packet : List ℕ → Bool
is_ip_packet packet =
    let version = byte_at packet 0 / 16 in
    let header = byte_at packet 0 % 16 * 4 in
    let total = u16_at packet 2 in
    if length packet == 0
    then false
    else if version == 4 && leb 20 (length packet)
    then leb 20 header && (leb header total && leb total (length packet))
    else if version == 6 && leb 40 (length packet)
    then leb (40 + u16_at packet 4) (length packet)
    else false

-- The messages of the `bail!`s.
pub data Error : Type 0 where
  read_too_long prepend_too_long tail_too_long trim_too_long truncate_too_long range_invalid : Error

pub data Result {ℓ} (A : Type ℓ) : Type ℓ where
  ok : A → Result A
  err : Error → Result A

-- The range of a `PacketBuf` in its storage of `packet_capacity` bytes.
pub record PacketBuf : Type 0 where
  pub start : ℕ
  pub end : ℕ

abbrev pub new_packet : PacketBuf
new_packet = record { start = packet_headroom; end = packet_headroom }

-- `Range::len`
abbrev pub len : PacketBuf → ℕ
len p = p.end - p.start

-- The operations give the slice of the storage that they return, as a range, or nothing.
unfoldable pub set_read_len : PacketBuf → ℕ → PacketBuf × Result (Unit {0})
set_read_len p n =
    if ltb (packet_capacity - packet_headroom) n
    then (p, err read_too_long)
    else (record { start = packet_headroom; end = packet_headroom + n }, ok tt)

unfoldable pub prepend : PacketBuf → ℕ → PacketBuf × Result (ℕ × ℕ)
prepend p n =
    if ltb p.start n
    then (p, err prepend_too_long)
    else (record p { start = p.start - n }, ok (p.start - n, p.start - n + n))

unfoldable pub extend_tail : PacketBuf → ℕ → PacketBuf × Result (ℕ × ℕ)
extend_tail p n =
    if ltb packet_capacity (p.end + n)
    then (p, err tail_too_long)
    else (record p { end = p.end + n }, ok (p.end, p.end + n))

unfoldable pub trim_front : PacketBuf → ℕ → PacketBuf × Result (Unit {0})
trim_front p n =
    if ltb (len p) n then (p, err trim_too_long) else (record p { start = p.start + n }, ok tt)

unfoldable pub truncate : PacketBuf → ℕ → PacketBuf × Result (Unit {0})
truncate p n =
    if ltb (len p) n then (p, err truncate_too_long) else (record p { end = p.start + n }, ok tt)

unfoldable pub set_range : PacketBuf → ℕ → ℕ → PacketBuf × Result (Unit {0})
set_range p start end =
    if ltb end start || ltb packet_capacity end
    then (p, err range_invalid)
    else (record { start = start; end = end }, ok tt)
