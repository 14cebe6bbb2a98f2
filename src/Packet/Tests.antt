-- ===== src/Packet/Tests.antt =====
-- A pool of one buffer that was lent and given back, and a packet.
use csqtt_android.Shared.{ℕ, List, [], ◌∷◌, arith}
use csqtt_android.Packet.{PacketBuf, new_packet}
use csqtt_android.Packet.Pool
use csqtt_android.Packet.Pool.{
  PacketPool, Reachable, start, after, allocate, count, push, IsBalanced, Reachable-IsBalanced,
  push_finds_room, at_rest,
}
use csqtt_android.Packet.Range.{
  IsRange, Call, read_len, front_room, tail_room, cut, apply_all, apply_all-IsRange,
}

abbrev lent_out : PacketPool
lent_out = record (Pool.new 1) { allocated = 1; lent = 1 }

abbrev counted_in : PacketPool
counted_in = record (Pool.new 1) { allocated = 1; retained = 1; counted = 1 }

abbrev given_back : PacketPool
given_back = record (Pool.new 1) { allocated = 1; retained = 1; queue = 1 }

counted_in-Reachable : Reachable 1 counted_in
counted_in-Reachable =
    after {p = lent_out} (after start (allocate (omega arith))) (count (omega arith) (omega arith))

given_back-Reachable : Reachable 1 given_back
given_back-Reachable =
    after {p = counted_in} counted_in-Reachable (push (omega arith) (omega arith))

Reachable-IsBalanced_example : IsBalanced given_back
Reachable-IsBalanced_example = Reachable-IsBalanced 1 given_back given_back-Reachable

abbrev calls : List Call
calls = read_len 2_000 ∷ front_room 12 ∷ tail_room 16 ∷ tail_room 5_000 ∷ cut 3 ∷ []

apply_all-IsRange_example : IsRange (apply_all calls new_packet)
apply_all-IsRange_example = apply_all-IsRange calls new_packet (omega arith, omega arith)

abbrev packet : PacketBuf
packet = record { start = 64; end = 100 }

abbrev ipv4 : List ℕ
ipv4 = 0x45 ∷ 0 ∷ 0 ∷ 20 ∷ 0 ∷ 0 ∷ 0 ∷ 0 ∷ 64 ∷ 17 ∷ 0 ∷ 0 ∷ 10 ∷ 0 ∷ 0 ∷ 1 ∷ 10 ∷ 0 ∷ 0 ∷ 2 ∷ []
