-- ===== src/Classifier/Rules.antt =====
-- The default rule table of bandwidth_optimizer/classifier.py.
use smart_bandwidth_optimize.Base.{ℕ, none, List, [], ◌∷◌, map}
use smart_bandwidth_optimize.Base.Int.{pos}
use smart_bandwidth_optimize.Base.Text.{Text, codes}
use smart_bandwidth_optimize.Config.{TrafficPriority, critical, high, medium, low, background}
use smart_bandwidth_optimize.Classifier.{ClassificationRule, TrafficClassifier}

abbrev pub tcp : Text
tcp = codes "tcp"

abbrev pub udp : Text
udp = codes "udp"

abbrev pub icmp : Text
icmp = codes "icmp"

abbrev rule : TrafficPriority → List ℕ → List Text → ClassificationRule
rule p ports protocols = record {
  priority = p;
  ports = map pos ports;
  protocols = protocols;
  payload_pattern = none;
}

unfoldable pub default_rules : List ClassificationRule
default_rules =
    rule critical (5060 ∷ 5061 ∷ 5004 ∷ 5005 ∷ []) (udp ∷ tcp ∷ [])
    ∷ rule critical [] (icmp ∷ [])
    ∷ rule high (53 ∷ []) (udp ∷ tcp ∷ [])
    ∷ rule high (443 ∷ []) (tcp ∷ [])
    ∷ rule high (22 ∷ []) (tcp ∷ [])
    ∷ rule high (80 ∷ 8080 ∷ []) (tcp ∷ [])
    ∷ rule medium (25 ∷ 465 ∷ 587 ∷ 993 ∷ 995 ∷ 110 ∷ 143 ∷ []) (tcp ∷ [])
    ∷ rule medium (5222 ∷ 5269 ∷ []) (tcp ∷ [])
    ∷ rule low (21 ∷ 989 ∷ 990 ∷ []) (tcp ∷ [])
    ∷ rule low (123 ∷ []) (udp ∷ [])
    ∷ rule background (6881 ∷ 6882 ∷ 6883 ∷ 6884 ∷ 6885 ∷ 6886 ∷ 6887 ∷ 6888 ∷ 6889 ∷ [])
        (tcp ∷ udp ∷ [])
    ∷ rule background (6969 ∷ []) (udp ∷ [])
    ∷ []

-- `TrafficClassifier()`
abbrev pub default_classifier : TrafficClassifier
default_classifier = record { rules = default_rules; default_priority = medium }
