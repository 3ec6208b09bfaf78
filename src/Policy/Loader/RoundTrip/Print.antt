-- ===== src/Policy/Loader/RoundTrip/Print.antt =====
-- A policy written out as YAML data.
use smart_bandwidth_optimize.Base.{◌≡◌, refl, ap, Option, none, some, List, [], ◌∷◌, map}
use smart_bandwidth_optimize.Base.Text.{Text, codes, text_eq, upper}
use smart_bandwidth_optimize.Base.Dynamic.{
  Value, int, float, str, sequence, mapping, Items, nil, cons, Fields, end, field, ok, elements,
}
use smart_bandwidth_optimize.Config.{TrafficPriority, critical, high, medium, low, background}
use smart_bandwidth_optimize.Policy.{PolicyRule}
use smart_bandwidth_optimize.Policy.Loader.{Context, priority_name, priority_named, parse_priority}

module _ {F : Type 0} where
  abbrev pub items : List (Value F) → Items F
  items [] = nil
  items (v ∷ vs) = cons v (items vs)

  pub elements-items : (vs : List (Value F)) → elements (items vs) ≡ vs
  elements-items [] = refl
  elements-items (v ∷ vs) = ap (◌∷◌ v) (elements-items vs)

  abbrev pub entry : Text → Value F → Fields F → Fields F
  entry k v fs = field (str k) v fs

  abbrev pub pattern_entry : Option Text → Fields F
  pattern_entry none = end
  pattern_entry (some s) = entry (codes "payload_pattern") (str s) end

  abbrev pub print_priority : TrafficPriority → Value F
  print_priority p = str (priority_name p)

  abbrev pub print_match : PolicyRule F → Fields F
  print_match r = entry (codes "ports") (sequence (items (map int r.ports))) (
      entry (codes "protocols") (sequence (items (map str r.protocols)))
        (pattern_entry r.payload_pattern))

  abbrev pub rule_fields : PolicyRule F → Fields F
  rule_fields r = entry (codes "name") (str r.name) (
      entry (codes "priority") (print_priority r.priority) (
        entry (codes "match") (mapping (print_match r)) (
          entry (codes "value_coefficient") (float r.value_coefficient) (
            entry (codes "bandwidth_min_pct") (float r.bandwidth_min_pct)
              (entry (codes "description") (str r.description) end)))))

  abbrev pub print_rule : PolicyRule F → Value F
  print_rule r = mapping (rule_fields r)

  abbrev pub print_budget : (TrafficPriority → F) → Fields F
  print_budget fractions = entry (priority_name critical) (float (fractions critical)) (
      entry (priority_name high) (float (fractions high)) (
        entry (priority_name medium) (float (fractions medium)) (
          entry (priority_name low) (float (fractions low))
            (entry (priority_name background) (float (fractions background)) end))))

  -- A document with these rules, this default priority and a fraction for each priority.
  abbrev pub print : List (PolicyRule F) → TrafficPriority → (TrafficPriority → F) → Value F
  print rules default fractions = mapping (
      entry (codes "defaults")
        (mapping (
          entry (codes "priority") (print_priority default)
            (entry (codes "bandwidth_budget") (mapping (print_budget fractions)) end)))
        (entry (codes "rules") (sequence (items (map print_rule rules))) end))

pub parse_priority-print :
    (F : Type 0) (p : TrafficPriority) (context : Context)
    → parse_priority {F = F} (print_priority p) context ≡ ok p
unfolding parse_priority priority_named upper text_eq
parse_priority-print F critical context = refl
parse_priority-print F high context = refl
parse_priority-print F medium context = refl
parse_priority-print F low context = refl
parse_priority-print F background context = refl
