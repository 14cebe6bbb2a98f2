-- ===== src/Fec/Headers.antt =====
-- The two walks over IPv6 extension headers, of shared/selective_fec.rs and of
-- shared/striped_scheduler.rs, and what they refuse.
use csqtt_android.Shared.{
  ℕ, zero, suc, ◌/◌, ◌%◌, ◌≤◌, ◌≡◌, refl, false, List, ◌∷◌, Option, none, some, arith, length,
  byte_at, u16_at, ◌≢◌, starts_with, same_bytes,
}
use csqtt_android.Scheduler
use csqtt_android.Scheduler.{Hop, refused, transport, skip}
use csqtt_android.Fec.{
  Transport, Turn, give_up, stop, next, turn, headers_loop, ipv6_transport, is_control,
  is_proxy_frame, should_duplicate, ipv4_transport,
}

abbrev pub protocol_of : Option Transport → Option ℕ
protocol_of none = none
protocol_of (some t) = some t.protocol

-- One turn of the one loop is one turn of the other.
abbrev hop_of : ℕ → Turn → Hop
hop_of protocol give_up = refused
hop_of protocol stop = transport protocol
hop_of protocol (next p o) = skip p o

next_header-turn :
    (packet : List ℕ) (protocol offset : ℕ)
    → Scheduler.next_header packet protocol offset ≡ hop_of protocol (turn packet protocol offset)
unfolding Scheduler.next_header turn
next_header-turn packet protocol offset = ground arith

-- The offset never passes the end of the packet.
turn-within :
    (packet : List ℕ) (protocol offset p o : ℕ)
    → turn packet protocol offset ≡ next p o
    → o ≤ length packet
unfolding turn
turn-within packet protocol offset p o h = ground arith

walks_agree :
    (rounds : ℕ) (packet : List ℕ) (protocol offset : ℕ)
    → offset ≤ length packet
    → Scheduler.walk_headers rounds packet protocol offset
      ≡ protocol_of (headers_loop rounds packet protocol offset)
unfolding Scheduler.walk_headers headers_loop
walks_agree zero packet protocol offset h = ground arith
walks_agree (suc rounds) packet protocol offset h =
    go (turn packet protocol offset) refl (walks_agree rounds packet)
  where
    go :
        (t : Turn)
        → turn packet protocol offset ≡ t
        → ((p o : ℕ)
            → o ≤ length packet
            → Scheduler.walk_headers rounds packet p o
              ≡ protocol_of (headers_loop rounds packet p o))
        → Scheduler.walk_headers (suc rounds) packet protocol offset
          ≡ protocol_of (headers_loop (suc rounds) packet protocol offset)
    go give_up e ih = ground (arith, next_header-turn packet protocol offset)
    go stop e ih = ground (arith, next_header-turn packet protocol offset)
    go (next p o) e ih = ground (
      arith,
      next_header-turn packet protocol offset,
      ih p o,
      turn-within packet protocol offset p o,
    )

-- The class of an IPv6 packet and the choice to duplicate it rest on the same protocol: the two
-- walks find the same transport, or both refuse the packet.
pub ipv6_walks_agree :
    (first : ℕ) (rest : List ℕ)
    → first / 16 ≡ 6
    → Scheduler.internet_transport (first ∷ rest) ≡ protocol_of (ipv6_transport (first ∷ rest))
unfolding Scheduler.internet_transport Scheduler.ipv6_transport ipv6_transport
ipv6_walks_agree first rest h =
    ground (arith, walks_agree 8 (first ∷ rest) (byte_at (first ∷ rest) 6) 40)

-- A fragment of an IPv4 packet that does not begin it is never sent twice (0x45 is version 4 with
-- no options).
pub fragment_not_duplicated :
    (rest : List ℕ) → u16_at (0x45 ∷ rest) 6 % 8192 ≢ 0 → should_duplicate (0x45 ∷ rest) ≡ false
unfolding should_duplicate ipv4_transport is_control is_proxy_frame starts_with same_bytes
fragment_not_duplicated rest h = ground arith
