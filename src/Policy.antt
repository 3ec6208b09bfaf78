-- ===== src/Policy.antt =====
-- bandwidth_optimizer/policy.py: the rules of a policy and what the classifier gets of them.
pub mod Loader
use smart_bandwidth_optimize.Base.{ℕ, Option, List, map}
use smart_bandwidth_optimize.Base.Int.{ℤ}
use smart_bandwidth_optimize.Base.Text.{Text}
use smart_bandwidth_optimize.Config.{TrafficPriority, ByPriority}
use smart_bandwidth_optimize.Classifier.{ClassificationRule}

pub record PolicyRule (F : Type 0) : Type 0 where
  pub name : Text
  pub priority : TrafficPriority
  pub ports : List ℤ
  pub protocols : List Text
  pub payload_pattern : Option Text
  pub bandwidth_min_pct : F
  pub description : Text
  pub value_coefficient : F

pub record Policy (F : Type 0) : Type 0 where
  pub rules : List (PolicyRule F)
  pub default_priority : TrafficPriority
  pub bandwidth_budget : ByPriority F

unfoldable pub to_classification_rule : {F : Type 0} → PolicyRule F → ClassificationRule
to_classification_rule r = record {
  priority = r.priority;
  ports = r.ports;
  protocols = r.protocols;
  payload_pattern = r.payload_pattern;
}

unfoldable pub to_classification_rules : {F : Type 0} → Policy F → List ClassificationRule
to_classification_rules p = map to_classification_rule p.rules
