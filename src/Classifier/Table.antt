-- ===== src/Classifier/Table.antt =====
-- Changes of the rule table, and what the tables say of packets.
use smart_bandwidth_optimize.Base.{◌≡◌, refl, Bool, List, [], ◌∷◌, arith, if◌then◌else◌}
use smart_bandwidth_optimize.Base.Int.{pos}
use smart_bandwidth_optimize.Base.Text.{Text, lower, text_eq}
use smart_bandwidth_optimize.Config.{TrafficPriority, critical}
use smart_bandwidth_optimize.Classifier.{
  Packet, ClassificationRule, TrafficClassifier, matches, ports_match, protocols_match, has_port,
  has_text, first_match, classify, add_rule,
}
use smart_bandwidth_optimize.Classifier.Rules.{icmp, default_rules, default_classifier}

-- A rule added at index 0 decides every packet that it matches, and all others are classified as before.
classify-add_rule :
    {F : Type 0} (search : Text → Text → Bool) (c : TrafficClassifier) (r : ClassificationRule)
    (p : Packet F)
    → (classify search (add_rule c r (pos 0)) p).1
      ≡ (if matches search r p then r.priority else (classify search c p).1)
unfolding classify add_rule first_match
classify-add_rule search c r p = ground arith

-- The packet in the other direction.
abbrev pub reversed : {F : Type 0} → Packet F → Packet F
reversed p = record p {
  src_ip = p.dst_ip;
  dst_ip = p.src_ip;
  src_port = p.dst_port;
  dst_port = p.src_port;
}

module _ {F : Type 0} (search : Text → Text → Bool) where
  matches-reversed :
      (r : ClassificationRule) (p : Packet F) → matches search r (reversed p) ≡ matches search r p
  unfolding matches ports_match protocols_match
  matches-reversed r p = ground arith

  first_match-reversed :
      (rs : List ClassificationRule) (default : TrafficPriority) (p : Packet F)
      → first_match search rs default (reversed p) ≡ first_match search rs default p
  unfolding first_match
  first_match-reversed [] default p = refl
  first_match-reversed (r ∷ rs) default p =
      rw (matches-reversed r p, first_match-reversed rs default p)

-- Both directions of a conversation get the same priority.
classify-reversed :
    {F : Type 0} (search : Text → Text → Bool) (c : TrafficClassifier) (p : Packet F)
    → (classify search c (reversed p)).1 ≡ (classify search c p).1
unfolding classify
classify-reversed search c p = first_match-reversed search c.rules c.default_priority p

-- The default table gives every ICMP packet the priority CRITICAL, whatever its ports and payload and
-- however the protocol is capitalised.
classify-icmp :
    {F : Type 0} (search : Text → Text → Bool) (p : Packet F)
    → lower p.protocol ≡ icmp
    → (classify search default_classifier p).1 ≡ critical
unfolding classify first_match matches ports_match protocols_match default_rules has_text has_port
    text_eq
classify-icmp search p h = ground arith
