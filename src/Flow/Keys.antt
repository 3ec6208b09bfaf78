-- ===== src/Flow/Keys.antt =====
-- Flow keys: the two directions of a conversation, and the comparison of keys.
use smart_bandwidth_optimize.Base.{◌≡◌, true, arith, ◌⊎◌}
use smart_bandwidth_optimize.Base.Text.{
  lower, text_eq_sound, text_eq_refl, text_le-total, text_le-antisym,
}
use smart_bandwidth_optimize.Base.Dict.{IsEq}
use smart_bandwidth_optimize.Classifier.{Packet}
use smart_bandwidth_optimize.Classifier.Table.{reversed}
use smart_bandwidth_optimize.Flow.{FlowKey, from_packet, key_eq}

key_eq_sound : (a b : FlowKey) → key_eq a b ≡ true → a ≡ b
unfolding key_eq
key_eq_sound a b h = ground (
  arith,
  text_eq_sound a.src_ip b.src_ip,
  text_eq_sound a.dst_ip b.dst_ip,
  text_eq_sound a.protocol b.protocol,
)

key_eq_refl : (a : FlowKey) → key_eq a a ≡ true
unfolding key_eq
key_eq_refl a =
    ground (arith, text_eq_refl a.src_ip, text_eq_refl a.dst_ip, text_eq_refl a.protocol)

pub key_eq-IsEq : IsEq key_eq
key_eq-IsEq = record { sound = key_eq_sound; same = key_eq_refl }

-- A packet and its answer, with the endpoints exchanged, belong to the same flow.
from_packet-reversed : {F : Type 0} (p : Packet F) → from_packet (reversed p) ≡ from_packet p
unfolding from_packet
from_packet-reversed p = ground (
  arith,
  text_eq_sound p.src_ip p.dst_ip,
  text_eq_sound p.dst_ip p.src_ip,
  text_eq_refl p.src_ip,
  text_eq_refl p.dst_ip,
  text_le-total p.src_ip p.dst_ip,
  text_le-antisym p.src_ip p.dst_ip,
)

-- Packets of one flow have the same two endpoints, in one order or the other, and protocols that differ
-- in capitals at most.
from_packet-endpoints :
    {F : Type 0} (p q : Packet F)
    → from_packet p ≡ from_packet q
    → (lower p.protocol ≡ lower q.protocol)
      × (((p.src_ip ≡ q.src_ip)
            × (p.src_port ≡ q.src_port)
            × (p.dst_ip ≡ q.dst_ip)
            × (p.dst_port ≡ q.dst_port))
          ⊎ ((p.src_ip ≡ q.dst_ip)
              × (p.src_port ≡ q.dst_port)
              × (p.dst_ip ≡ q.src_ip)
              × (p.dst_port ≡ q.src_port)))
unfolding from_packet
from_packet-endpoints p q h = ground arith
