-- ===== src/Scheduler.antt =====
-- shared/striped_scheduler.rs: the class of a packet, and the worker that each packet of a class
-- goes to. The three counters are the fields of a record, and `fetch_add` returns the old value.
pub mod Fair
mod Tests
use Prim.Native.Nat.{bit_and}
use csqtt_android.Shared.{
  ℕ, zero, suc, ◌+◌, ◌-◌, ◌*◌, ◌/◌, ◌%◌, ◌≡◌, ◌||◌, ◌&&◌, List, [], ◌∷◌, Option, none, some, ltb,
  leb, ◌==◌, if◌then◌else◌, min, length, byte_at, u16_at, word_mod, checked_add,
}

abbrev pub tcp_latency_packet_limit : ℕ
tcp_latency_packet_limit = 192

abbrev pub udp_latency_packet_limit : ℕ
udp_latency_packet_limit = 300

pub data PacketClass : Type 0 where
  latency priority bulk : PacketClass

-- The `..._STRIPE_PACKET_CHUNK` constants.
abbrev pub stripe_packet_chunk : PacketClass → ℕ
stripe_packet_chunk latency = 1
stripe_packet_chunk priority = 2
stripe_packet_chunk bulk = 2

pub record DispatchTicket : Type 0 where
  pub start_slot : ℕ
  pub worker_count : ℕ
  pub cohort_len : ℕ
  pub class : PacketClass

unfoldable pub worker_index : DispatchTicket → ℕ → ℕ
worker_index ticket offset = (ticket.start_slot + offset) % word_mod % ticket.worker_count

pub record StripedScheduler : Type 0 where
  pub latency_packet : ℕ
  pub priority_packet : ℕ
  pub bulk_packet : ℕ

abbrev pub new : StripedScheduler
new = record { latency_packet = 0; priority_packet = 0; bulk_packet = 0 }

abbrev pub counter : StripedScheduler → PacketClass → ℕ
counter s latency = s.latency_packet
counter s priority = s.priority_packet
counter s bulk = s.bulk_packet

-- `fetch_add(1)` wraps.
abbrev pub advance : StripedScheduler → PacketClass → StripedScheduler
advance s latency = record s { latency_packet = (s.latency_packet + 1) % word_mod }
advance s priority = record s { priority_packet = (s.priority_packet + 1) % word_mod }
advance s bulk = record s { bulk_packet = (s.bulk_packet + 1) % word_mod }

unfoldable pub begin_class :
    StripedScheduler → ℕ → PacketClass → StripedScheduler × Option DispatchTicket
begin_class s count class = if count == 0 then (s, none) else (
  advance s class,
  some (record {
    start_slot = min (counter s class / stripe_packet_chunk class % count) (count - 1);
    worker_count = count;
    cohort_len = count;
    class = class;
  }),
)

-- One turn of the loop of `ipv6_transport`: the header at `offset` is skipped, `protocol` is the
-- transport, or the packet is refused.
pub data Hop : Type 0 where
  refused : Hop
  transport : ℕ → Hop
  skip : ℕ → ℕ → Hop

abbrev pub skip_to : List ℕ → ℕ → ℕ → Hop
skip_to packet protocol offset =
    if ltb (length packet) offset then refused else skip protocol offset

unfoldable pub next_header : List ℕ → ℕ → ℕ → Hop
next_header packet protocol offset =
    if protocol == 0 || (protocol == 43 || protocol == 60)
    then (if leb (offset + 2) (length packet)
        then skip_to packet (byte_at packet offset) (offset + (byte_at packet (offset + 1) + 1) * 8)
        else refused)
    else if protocol == 44
    then (if leb (offset + 8) (length packet)
        then (if bit_and (u16_at packet (offset + 2)) 0xfff8 == 0
            then skip_to packet (byte_at packet offset) (offset + 8)
            else refused)
        else refused)
    else if protocol == 51
    then (if leb (offset + 2) (length packet)
        then skip_to packet (byte_at packet offset) (offset + (byte_at packet (offset + 1) + 2) * 4)
        else refused)
    else transport protocol

-- The loop, with `rounds` turns left.
unfoldable pub walk_headers : ℕ → List ℕ → ℕ → ℕ → Option ℕ
walk_headers zero packet protocol offset = some protocol
walk_headers (suc rounds) packet protocol offset = elim (next_header packet protocol offset) [
  | refused ↦ none
  | transport p ↦ some p
  | skip p o ↦ walk_headers rounds packet p o
]

unfoldable pub ipv6_transport : List ℕ → Option ℕ
ipv6_transport packet = walk_headers 8 packet (byte_at packet 6) 40

unfoldable pub internet_transport : List ℕ → Option ℕ
internet_transport [] = none
internet_transport (first ∷ rest) =
    if first / 16 == 4
    then (if leb 20 (first % 16 * 4) && leb (first % 16 * 4) (length (first ∷ rest))
        then some (byte_at (first ∷ rest) 9)
        else none)
    else if first / 16 == 6 && leb 40 (length (first ∷ rest))
    then ipv6_transport (first ∷ rest)
    else none

abbrev pub class_of : ℕ → Option ℕ → PacketClass
class_of len none = bulk
class_of len (some protocol) =
    if protocol == 1 || protocol == 58
    then latency
    else if protocol == 6 && ltb len tcp_latency_packet_limit
    then latency
    else if protocol == 17 && leb len udp_latency_packet_limit
    then latency
    else if protocol == 17
    then priority
    else bulk

unfoldable pub packet_class : List ℕ → PacketClass
packet_class packet = class_of (length packet) (internet_transport packet)

unfoldable pub begin : StripedScheduler → ℕ → List ℕ → StripedScheduler × Option DispatchTicket
begin s count packet = begin_class s count (packet_class packet)

abbrev pub slot_of : Option DispatchTicket → Option ℕ
slot_of none = none
slot_of (some ticket) = some ticket.start_slot

unfoldable pub select_class : StripedScheduler → ℕ → PacketClass → StripedScheduler × Option ℕ
select_class s count class = let (s', ticket) = begin_class s count class in (s', slot_of ticket)

unfoldable pub select : StripedScheduler → ℕ → List ℕ → StripedScheduler × Option ℕ
select s count packet = let (s', ticket) = begin s count packet in (s', slot_of ticket)
