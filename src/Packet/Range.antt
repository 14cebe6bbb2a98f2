-- ===== src/Packet/Range.antt =====
-- The range of a packet stays inside its storage (rust-client/packet.rs).
use csqtt_android.Shared.{
  ℕ, ◌+◌, ◌≤◌, ◌≡◌, true, List, [], ◌∷◌, arith, length, u16_at, byte_at, ◌%◌, ◌*◌, ◌/◌, ◌↔◌, ◌⊎◌,
}
use csqtt_android.Packet.{
  packet_capacity, ok, PacketBuf, len, set_read_len, prepend, extend_tail, trim_front, truncate,
  set_range, is_ip_packet,
}

abbrev pub IsRange : PacketBuf → Type 0
IsRange p = (p.start ≤ p.end) × (p.end ≤ packet_capacity)

-- A call on a packet.
pub data Call : Type 0 where
  read_len front_room tail_room trim cut : ℕ → Call
  range : ℕ → ℕ → Call

abbrev pub apply : Call → PacketBuf → PacketBuf
apply (read_len n) p = (set_read_len p n).0
apply (front_room n) p = (prepend p n).0
apply (tail_room n) p = (extend_tail p n).0
apply (trim n) p = (trim_front p n).0
apply (cut n) p = (truncate p n).0
apply (range start end) p = (set_range p start end).0

unfoldable pub apply_all : List Call → PacketBuf → PacketBuf
apply_all [] p = p
apply_all (c ∷ cs) p = apply_all cs (apply c p)

apply-IsRange : (c : Call) (p : PacketBuf) → IsRange p → IsRange (apply c p)
unfolding set_read_len prepend extend_tail trim_front truncate set_range
apply-IsRange (read_len n) p v = ground (arith, v)
apply-IsRange (front_room n) p v = ground (arith, v)
apply-IsRange (tail_room n) p v = ground (arith, v)
apply-IsRange (trim n) p v = ground (arith, v)
apply-IsRange (cut n) p v = ground (arith, v)
apply-IsRange (range start end) p v = ground (arith, v)

-- Whatever calls are made on a packet, with whatever lengths, its range stays inside its storage: no
-- slice of the storage is out of bounds.
pub apply_all-IsRange : (cs : List Call) (p : PacketBuf) → IsRange p → IsRange (apply_all cs p)
unfolding apply_all
apply_all-IsRange [] p v = v
apply_all-IsRange (c ∷ cs) p v = apply_all-IsRange cs (apply c p) (apply-IsRange c p v)

-- The bytes that `prepend` opens before a packet are taken off again by `trim_front`, and those that
-- `extend_tail` opens by `truncate` to the length before.
pub room_is_undone :
    (p : PacketBuf) (n : ℕ)
    → IsRange p
    → (n ≤ p.start → (trim_front (prepend p n).0 n) ≡ (p, ok tt))
      × (p.end + n ≤ packet_capacity → truncate (extend_tail p n).0 (len p) ≡ (p, ok tt))
unfolding prepend trim_front extend_tail truncate
room_is_undone p n v = ((λ h. ground (arith, v, h)), λ h. ground (arith, v, h))

-- An IP packet is let through exactly if its version is 4 or 6 and the packet that it declares is
-- whole: the headers fit, and so does the declared length.
pub is_ip_packet_iff :
    (packet : List ℕ)
    → (is_ip_packet packet ≡ true) ↔ (
        ((byte_at packet 0 / 16 ≡ 4)
          × (20 ≤ byte_at packet 0 % 16 * 4)
          × (byte_at packet 0 % 16 * 4 ≤ u16_at packet 2)
          × (u16_at packet 2 ≤ length packet))
        ⊎ ((byte_at packet 0 / 16 ≡ 6) × (40 + u16_at packet 4 ≤ length packet)))
unfolding is_ip_packet
is_ip_packet_iff packet = ((λ h. ground (arith, h)), λ h. ground (arith, h))
