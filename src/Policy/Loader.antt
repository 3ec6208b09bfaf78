-- ===== src/Policy/Loader.antt =====
-- `PolicyLoader` of bandwidth_optimizer/policy.py: from what the YAML parser returns to a policy. The parser
-- is the argument `safe_load`, whose `none` is a `YAMLError`.
pub mod Checks
pub mod RoundTrip
pub mod Mistakes
use smart_bandwidth_optimize.Base.{
  ℕ, ◌+◌, Bool, true, false, not, ◌&&◌, Option, none, some, List, [], ◌∷◌, map, if◌then◌else◌,
  or_else,
}
use smart_bandwidth_optimize.Base.Int.{ℤ}
use smart_bandwidth_optimize.Base.Text.{Text, codes, text_eq, lower, upper}
use smart_bandwidth_optimize.Base.Float.{Float, num}
use smart_bandwidth_optimize.Base.Dynamic.{
  Value, null, str, sequence, mapping, Items, nil, Fields, end, PyError, attribute_error,
  type_error, Result, ok, failed, raised, ◌>>=◌, ◌>>◌, guard, Conversions, elements, pairs, get,
  as_mapping, iterate, to_text, is_truthy, get_or_empty, to_int, to_float,
}
use smart_bandwidth_optimize.Config.{
  TrafficPriority, critical, high, medium, low, background, priority_eq, ByPriority,
  default_bandwidth_budget,
}
use smart_bandwidth_optimize.Policy.{PolicyRule, Policy}

-- Where a priority stood: the context of the message.
pub data Context : Type 0 where
  in_defaults in_budget : Context
  in_rule : ℕ → Context

-- `PolicyLoadError`, by what its message says.
pub data LoadError : Type 0 where
  bad_yaml rules_not_list : LoadError
  unknown_priority : Context → Text → LoadError
  budget_range name_required priority_required negative_coefficient : ℕ → LoadError

abbrev pub priority_name : TrafficPriority → Text
priority_name critical = codes "CRITICAL"
priority_name high = codes "HIGH"
priority_name medium = codes "MEDIUM"
priority_name low = codes "LOW"
priority_name background = codes "BACKGROUND"

-- `TrafficPriority[name]`; `none` is a `KeyError`.
unfoldable pub priority_named : Text → Option TrafficPriority
priority_named s =
    if text_eq s (priority_name critical)
    then some critical
    else if text_eq s (priority_name high)
    then some high
    else if text_eq s (priority_name medium)
    then some medium
    else if text_eq s (priority_name low)
    then some low
    else if text_eq s (priority_name background)
    then some background
    else none

-- `_parse_priority`; only a text has the method `upper`.
unfoldable pub parse_priority : {F : Type 0} → Value F → Context → Result LoadError TrafficPriority
parse_priority (str s) context = elim (priority_named (upper s)) [
  | none ↦ failed (unknown_priority context s)
  | some p ↦ ok p
]
parse_priority _ context = raised attribute_error

unfoldable pub set_budget : {F : Type 0} → TrafficPriority → F → ByPriority F → ByPriority F
set_budget p v budget q = if priority_eq p q then some v else budget q

module _ {F : Type 0} ⦃d : Float F⦄ (c : Conversions F) where
  open d use {le}

  -- The loop over `defaults["bandwidth_budget"].items()`, of which `i` entries were read.
  unfoldable pub parse_budget :
      ℕ → List (Value F × Value F) → ByPriority F → Result LoadError (ByPriority F)
  parse_budget i [] budget = ok budget
  parse_budget i ((name, frac) ∷ entries) budget = do
    p ← parse_priority name in_budget
    v ← to_float c frac
    guard (le (num 0) v && le v (num 1)) (budget_range i)
    parse_budget (i + 1) entries (set_budget p v budget)

  -- The `bandwidth_budget` of the defaults, over the built-in one.
  unfoldable pub load_budget : Fields F → Result LoadError (ByPriority F)
  load_budget defaults = elim (get (codes "bandwidth_budget") defaults) [
    | none ↦ ok default_bandwidth_budget
    | some v ↦ as_mapping v >>= λ m. parse_budget 0 (pairs m) default_bandwidth_budget
  ]

  unfoldable pub parse_ints : List (Value F) → Result LoadError (List ℤ)
  parse_ints [] = ok []
  parse_ints (v ∷ vs) = do i ← to_int c v; is ← parse_ints vs; ok (i ∷ is)

  -- A pattern that is no text is kept by the source until `re.search` refuses it, with the `TypeError`
  -- that stands here.
  abbrev pattern_text : Value F → Result LoadError (Option Text)
  pattern_text (str s) = ok (some s)
  pattern_text _ = raised type_error

  -- `match.get("payload_pattern") or None`
  unfoldable pub load_pattern : Fields F → Result LoadError (Option Text)
  load_pattern fs = elim (get (codes "payload_pattern") fs) [
    | none ↦ ok none
    | some v ↦ if is_truthy v then pattern_text v else ok none
  ]

  -- `float(raw.get(key, default))`
  abbrev number_or : Text → F → Fields F → Result LoadError F
  number_or key default fs = elim (get key fs) [ none ↦ ok default | some v ↦ to_float c v ]

  abbrev text_or_empty : Option (Value F) → Text
  text_or_empty none = []
  text_or_empty (some v) = to_text c v

  -- The parts of `match`: ports, protocols and pattern.
  unfoldable pub load_ports : Fields F → Result LoadError (List ℤ)
  load_ports fs = do vs ← iterate (get_or_empty (codes "ports") fs (sequence nil)); parse_ints vs

  unfoldable pub load_protocols : Fields F → Result LoadError (List Text)
  load_protocols fs = do
    vs ← iterate (get_or_empty (codes "protocols") fs (sequence nil))
    ok (map (λ v. lower (to_text c v)) vs)

  unfoldable pub load_coefficient : ℕ → Fields F → Result LoadError F
  load_coefficient index raw = do
    v ← number_or (codes "value_coefficient") (num 1) raw
    guard (not (c.is_negative v)) (negative_coefficient index)
    ok v

  -- `raw.get(key)`, which has to be truthy.
  abbrev required : Text → LoadError → Fields F → Result LoadError (Value F)
  required key e raw = let v = or_else (get key raw) null in guard (is_truthy v) e >> ok v

  -- The rest of `_parse_rule`, once the name and the priority are known.
  unfoldable pub rule_of :
      ℕ → Fields F → Value F → TrafficPriority → Result LoadError (PolicyRule F)
  rule_of index raw name priority = do
    m ← as_mapping (get_or_empty (codes "match") raw (mapping end))
    ports ← load_ports m
    protocols ← load_protocols m
    pattern ← load_pattern m
    coefficient ← load_coefficient index raw
    min_pct ← number_or (codes "bandwidth_min_pct") (num 0) raw
    ok (record {
      name = to_text c name;
      priority = priority;
      ports = ports;
      protocols = protocols;
      payload_pattern = pattern;
      bandwidth_min_pct = min_pct;
      description = text_or_empty (get (codes "description") raw);
      value_coefficient = coefficient;
    })

  unfoldable pub parse_rule : Value F → ℕ → Result LoadError (PolicyRule F)
  unfolding rule_of
  parse_rule v index = do
    raw ← as_mapping v
    name ← required (codes "name") (name_required index) raw
    priority_str ← required (codes "priority") (priority_required index) raw
    priority ← parse_priority priority_str (in_rule index)
    rule_of index raw name priority

  unfoldable pub parse_rules : List (Value F) → ℕ → Result LoadError (List (PolicyRule F))
  parse_rules [] index = ok []
  parse_rules (v ∷ vs) index = do
    r ← parse_rule v index
    rs ← parse_rules vs (index + 1)
    ok (r ∷ rs)

  abbrev as_list : Value F → Result LoadError (List (Value F))
  as_list (sequence vs) = ok (elements vs)
  as_list _ = failed rules_not_list

  unfoldable pub parse : Value F → Result LoadError (Policy F)
  parse v = do
    doc ← as_mapping v
    defaults ← as_mapping (get_or_empty (codes "defaults") doc (mapping end))
    default_priority ←
        parse_priority (or_else (get (codes "priority") defaults) (str (codes "MEDIUM")))
          in_defaults
    budget ← load_budget defaults
    raw_rules ← as_list (get_or_empty (codes "rules") doc (sequence nil))
    rules ← parse_rules raw_rules 0
    ok (record { rules = rules; default_priority = default_priority; bandwidth_budget = budget })

  -- `load_string`: an empty document is an empty mapping.
  unfoldable pub load_string : (Text → Option (Value F)) → Text → Result LoadError (Policy F)
  load_string safe_load text = elim (safe_load text) [
    | none ↦ failed bad_yaml
    | some null ↦ parse (mapping end)
    | some v ↦ parse v
  ]
