-- ===== src/Policy/Loader/RoundTrip.antt =====
-- A policy written out as YAML data, and read back by the loader.
pub mod Print
pub mod Rules
use smart_bandwidth_optimize.Base.{
  ℕ, ◌+◌, ◌≡◌, ◌≢◌, refl, ap, ◌∙◌, true, Option, none, some, List, [], ◌∷◌, map, arith, All,
}
use mathlib.Core.Path.{fun_ext}
use smart_bandwidth_optimize.Base.Int.{ℤ}
use smart_bandwidth_optimize.Base.Text.{Text, codes, text_eq, lower, upper}
use smart_bandwidth_optimize.Base.Float.{Float, num}
use smart_bandwidth_optimize.Base.Dynamic.{
  Value, int, float, str, sequence, mapping, Items, nil, cons, Fields, end, field, ok, Conversions,
  elements, get, pairs, to_text, get_or_empty,
}
use smart_bandwidth_optimize.Config.{
  TrafficPriority, critical, high, medium, low, background, ByPriority, default_bandwidth_budget,
}
use smart_bandwidth_optimize.Policy.{PolicyRule}
use smart_bandwidth_optimize.Policy.Loader.{
  Context, in_budget, priority_name, priority_named, parse_priority, set_budget, parse_budget,
  load_budget, parse_ints, load_pattern, load_ports, load_protocols, load_coefficient, parse_rule,
  parse_rules, parse, load_string, in_defaults, required, name_required, priority_required, in_rule,
  rule_of,
}
use smart_bandwidth_optimize.Policy.Loader.RoundTrip.Print.{
  items, elements-items, entry, pattern_entry, print_priority, print_match, rule_fields, print_rule,
  print_budget, print, parse_priority-print,
}
use smart_bandwidth_optimize.Policy.Loader.RoundTrip.Rules.{IsPrintable, parse_rules-print}

module _ {F : Type 0} ⦃d : Float F⦄ (c : Conversions F) where
  open d use {le}

  module _ (default : TrafficPriority) (fractions : TrafficPriority → F)
      (within : (p : TrafficPriority)
        → (le (num 0) (fractions p) ≡ true) × (le (fractions p) (num 1) ≡ true)) where
    abbrev defaults : Fields F
    defaults =
        entry (codes "priority") (print_priority default)
          (entry (codes "bandwidth_budget") (mapping (print_budget fractions)) end)

    entry-print :
        (p : TrafficPriority) (i : ℕ) (rest : List (Value F × Value F)) (budget : ByPriority F)
        → parse_budget c i ((print_priority p, float (fractions p)) ∷ rest) budget
          ≡ parse_budget c (i + 1) rest (set_budget p (fractions p) budget)
    unfolding parse_budget
    entry-print p i rest budget =
        rw (parse_priority-print F p in_budget, (within p).0, (within p).1) refl

    same_budget :
        (budget : ByPriority F)
        → set_budget background (fractions background) (
            set_budget low (fractions low) (
              set_budget medium (fractions medium) (
                set_budget high
                  (fractions high)
                  (set_budget critical (fractions critical) budget))))
          ≡ (λ p. some (fractions p))
    unfolding set_budget
    same_budget budget = fun_ext by_priority
      where
        by_priority :
            (p : TrafficPriority)
            → set_budget background
                (fractions background)
                (set_budget low (fractions low) (
                  set_budget medium (fractions medium) (
                    set_budget high
                      (fractions high)
                      (set_budget critical (fractions critical) budget))))
                p
              ≡ some (fractions p)
        by_priority critical = refl
        by_priority high = refl
        by_priority medium = refl
        by_priority low = refl
        by_priority background = refl

    parse_budget-nil : (i : ℕ) (budget : ByPriority F) → parse_budget c i [] budget ≡ ok budget
    unfolding parse_budget
    parse_budget-nil i budget = refl

    parse_budget-print :
        parse_budget c 0 (pairs (print_budget fractions)) default_bandwidth_budget
        ≡ ok (λ p. some (fractions p))
    parse_budget-print =
        entry-print critical 0 _ _
        ∙ entry-print high 1 _ _
        ∙ entry-print medium 2 _ _
        ∙ entry-print low 3 _ _
        ∙ entry-print background 4 _ _
        ∙ parse_budget-nil 5 _
        ∙ ap ok (same_budget default_bandwidth_budget)

    load_budget-print : load_budget c defaults ≡ ok (λ p. some (fractions p))
    unfolding load_budget get text_eq
    load_budget-print = parse_budget-print

    parse-print :
        (rules : List (PolicyRule F))
        → All (IsPrintable c) rules
        → parse c (print rules default fractions)
          ≡ ok (record {
            rules = rules;
            default_priority = default;
            bandwidth_budget = λ p. some (fractions p);
          })
    unfolding parse get text_eq
    parse-print [] h =
        rw (parse_priority-print F default in_defaults, load_budget-print)
          (rw (parse_rules-print c [] 0 h) refl)
    parse-print (r ∷ rs) h =
        rw
          (
            parse_priority-print F default in_defaults,
            load_budget-print,
            elements-items (map print_rule rs),
          )
          (rw (parse_rules-print c (r ∷ rs) 0 h) refl)

    -- A document with printable rules (named, with lower-case protocols, no empty pattern and no negative
    -- coefficient), any default priority and a fraction between zero and one for each priority is
    -- loaded as the policy of just these, in the order of the rules.
    pub load_string-print :
        (safe_load : Text → Option (Value F)) (text : Text) (rules : List (PolicyRule F))
        → All (IsPrintable c) rules
        → safe_load text ≡ some (print rules default fractions)
        → load_string c safe_load text
          ≡ ok (record {
            rules = rules;
            default_priority = default;
            bandwidth_budget = λ p. some (fractions p);
          })
    unfolding load_string
    load_string-print safe_load text rules h e = rw (e, load_string) (parse-print rules h)
