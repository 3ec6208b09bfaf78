-- ===== src/Policy/Loader/RoundTrip/Rules.antt =====
-- The rules of a written policy, read back by the loader.
use smart_bandwidth_optimize.Base.{
  ℕ, ◌+◌, ◌≡◌, ◌≢◌, refl, ap, false, Option, none, some, List, [], ◌∷◌, map, arith, All,
}
use smart_bandwidth_optimize.Base.Int.{ℤ}
use smart_bandwidth_optimize.Base.Text.{Text, codes, text_eq, lower}
use smart_bandwidth_optimize.Base.Float.{Float}
use smart_bandwidth_optimize.Base.Dynamic.{
  Value, int, str, sequence, nil, Fields, ok, Conversions, get, to_text, get_or_empty,
}
use smart_bandwidth_optimize.Config.{TrafficPriority, critical, high, medium, low, background}
use smart_bandwidth_optimize.Policy.{PolicyRule}
use smart_bandwidth_optimize.Policy.Loader.{
  parse_ints, load_pattern, load_ports, load_protocols, load_coefficient, parse_rule, parse_rules,
  required, name_required, priority_required, in_rule, rule_of,
}
use smart_bandwidth_optimize.Policy.Loader.RoundTrip.Print.{
  items, elements-items, print_priority, print_match, rule_fields, print_rule, parse_priority-print,
}

module _ {F : Type 0} ⦃d : Float F⦄ where
  open d use {le}

  -- What a rule needs for the loader to give it back.
  pub record IsPrintable (c : Conversions F) (r : PolicyRule F) : Type 0 where
    pub named : r.name ≢ []
    pub lowered : All (λ q. lower q ≡ q) r.protocols
    pub patterned : r.payload_pattern ≢ some []
    pub positive : c.is_negative r.value_coefficient ≡ false

module _ {F : Type 0} ⦃d : Float F⦄ (c : Conversions F) where
  open d use {le}

  parse_ints-print : (is : List ℤ) → parse_ints c (map int is) ≡ ok is
  unfolding parse_ints
  parse_ints-print [] = refl
  parse_ints-print (i ∷ is) = rw (parse_ints-print is)

  get_or_empty_sequence :
      (k : Text) (fs : Fields F) (vs : List (Value F))
      → get k fs ≡ some (sequence (items vs))
      → get_or_empty k fs (sequence nil) ≡ sequence (items vs)
  get_or_empty_sequence k fs [] h = rw h
  get_or_empty_sequence k fs (v ∷ vs) h = rw h

  found_ports :
      (r : PolicyRule F)
      → get (codes "ports") (print_match r) ≡ some (sequence (items (map int r.ports)))
  unfolding get text_eq
  found_ports r = refl

  load_ports-print : (r : PolicyRule F) → load_ports c (print_match r) ≡ ok r.ports
  unfolding load_ports
  load_ports-print r =
      rw
        (
          get_or_empty_sequence (codes "ports") (print_match r) (map int r.ports) (found_ports r),
          elements-items (map int r.ports),
        )
        (parse_ints-print r.ports)

  found_protocols :
      (r : PolicyRule F)
      → get (codes "protocols") (print_match r) ≡ some (sequence (items (map str r.protocols)))
  unfolding get text_eq
  found_protocols r = refl

  lowered_texts :
      (qs : List Text)
      → All (λ q. lower q ≡ q) qs
      → map (λ v. lower (to_text c v)) (map str qs) ≡ qs
  lowered_texts [] h = refl
  lowered_texts (q ∷ qs) h = rw (h.0, lowered_texts qs h.1)

  load_protocols-print :
      (r : PolicyRule F)
      → All (λ q. lower q ≡ q) r.protocols
      → load_protocols c (print_match r) ≡ ok r.protocols
  unfolding load_protocols
  load_protocols-print r h =
      rw
        (
          get_or_empty_sequence (codes "protocols") (print_match r) (map str r.protocols)
              (found_protocols r),
          elements-items (map str r.protocols),
        )
        (ap ok (lowered_texts r.protocols h))

  load_pattern-print :
      (r : PolicyRule F)
      → r.payload_pattern ≢ some []
      → load_pattern c (print_match r) ≡ ok r.payload_pattern
  unfolding load_pattern get text_eq
  load_pattern-print r h = by_pattern r.payload_pattern refl
    where
      by_pattern :
          (o : Option Text)
          → r.payload_pattern ≡ o
          → load_pattern c (print_match r) ≡ ok r.payload_pattern
      by_pattern none e = ground (arith, e)
      by_pattern (some []) e = absurd (h e)
      by_pattern (some (x ∷ xs)) e = ground (arith, e)

  required_name :
      (r : PolicyRule F) (i : ℕ)
      → r.name ≢ []
      → required c (codes "name") (name_required i) (rule_fields r) ≡ ok (str r.name)
  unfolding get text_eq
  required_name r i h = by_name r.name refl
    where
      by_name :
          (s : Text)
          → r.name ≡ s
          → required c (codes "name") (name_required i) (rule_fields r) ≡ ok (str r.name)
      by_name [] e = absurd (h e)
      by_name (x ∷ xs) e = rw e refl

  required_priority :
      (r : PolicyRule F) (i : ℕ)
      → required c (codes "priority") (priority_required i) (rule_fields r)
        ≡ ok (print_priority r.priority)
  unfolding get text_eq
  required_priority r i = by_priority r.priority refl
    where
      by_priority :
          (p : TrafficPriority)
          → r.priority ≡ p
          → required c (codes "priority") (priority_required i) (rule_fields r)
            ≡ ok (print_priority r.priority)
      by_priority critical e = rw e refl
      by_priority high e = rw e refl
      by_priority medium e = rw e refl
      by_priority low e = rw e refl
      by_priority background e = rw e refl

  load_coefficient-print :
      (r : PolicyRule F) (i : ℕ)
      → c.is_negative r.value_coefficient ≡ false
      → load_coefficient c i (rule_fields r) ≡ ok r.value_coefficient
  unfolding load_coefficient get text_eq
  load_coefficient-print r i h = rw h refl

  rule_of-print :
      (r : PolicyRule F) (i : ℕ)
      → IsPrintable c r
      → rule_of c i (rule_fields r) (str r.name) r.priority ≡ ok r
  unfolding rule_of get text_eq
  rule_of-print r i h =
      rw
        (
          load_ports-print r,
          load_protocols-print r h.lowered,
          load_pattern-print r h.patterned,
          load_coefficient-print r i h.positive,
        )
        refl

  parse_rule-print :
      (r : PolicyRule F) (i : ℕ) → IsPrintable c r → parse_rule c (print_rule r) i ≡ ok r
  unfolding parse_rule
  parse_rule-print r i h =
      rw
        (
          required_name r i h.named,
          required_priority r i,
          parse_priority-print F r.priority (in_rule i),
        )
        (rule_of-print r i h)

  pub parse_rules-print :
      (rs : List (PolicyRule F)) (i : ℕ)
      → All (IsPrintable c) rs
      → parse_rules c (map print_rule rs) i ≡ ok rs
  unfolding parse_rules
  parse_rules-print [] i h = refl
  parse_rules-print (r ∷ rs) i h =
      rw (parse_rule-print r i h.0, parse_rules-print rs (i + 1) h.1) refl
