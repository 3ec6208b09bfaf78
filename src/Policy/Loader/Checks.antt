-- ===== src/Policy/Loader/Checks.antt =====
-- What the loader checks, and what a policy that it returns therefore satisfies.
use smart_bandwidth_optimize.Base.{
  ℕ, ◌+◌, ◌≡◌, refl, inl, inr, ◌⊎◌, Bool, true, false, ◌&&◌, Option, some, List, [], ◌∷◌, arith,
  length, All, if◌then◌else◌, ap, ◌∙◌, subst, or_else, Option-cases,
}
use smart_bandwidth_optimize.Base.Text.{Text, codes}
use smart_bandwidth_optimize.Base.Float.{Float, num}
use smart_bandwidth_optimize.Base.Dynamic.{
  get, get_or_empty, pairs, Value, null, boolean, int, float, str, sequence, nil, mapping, Fields,
  end, ok, ◌>>=◌, Conversions, as_mapping, to_float, bind_ok, ok_injective, guard_ok,
}
use smart_bandwidth_optimize.Config.{
  TrafficPriority, priority_eq, ByPriority, default_bandwidth_budget,
}
use smart_bandwidth_optimize.Policy.{PolicyRule, Policy}
use smart_bandwidth_optimize.Policy.Loader.{
  LoadError, in_rule, name_required, priority_required, required, load_ports, load_protocols,
  load_pattern, number_or, in_budget, budget_range, parse_priority, set_budget, parse_budget,
  load_budget, load_coefficient, parse_rule, parse_rules, as_list, in_defaults, parse, load_string,
}

module _ {F : Type 0} ⦃d : Float F⦄ (c : Conversions F) where
  open d use {le}

  -- Every fraction is the built-in one or lies between zero and one.
  abbrev pub IsBudget : ByPriority F → Type 0
  IsBudget budget =
      (p : TrafficPriority)
      → (budget p ≡ default_bandwidth_budget p)
        ⊎ ((v : F) × (budget p ≡ some v) × (le (num 0) v ≡ true) × (le v (num 1) ≡ true))

  set_budget-IsBudget :
      (p : TrafficPriority) (v : F) (budget : ByPriority F)
      → le (num 0) v ≡ true
      → le v (num 1) ≡ true
      → IsBudget budget
      → IsBudget (set_budget p v budget)
  unfolding set_budget
  set_budget-IsBudget p v budget low high h q = by_test (priority_eq p q)
    where
      by_test :
          (b : Bool)
          → ((if b then some v else budget q) ≡ default_bandwidth_budget q)
            ⊎ ((w : F) × ((if b then some v else budget q) ≡ some w)
                × (le (num 0) w ≡ true)
                × (le w (num 1) ≡ true))
      by_test true = inr (v, refl, low, high)
      by_test false = h q

  parse_budget-IsBudget :
      (i : ℕ) (entries : List (Value F × Value F)) (budget : ByPriority F) {final : ByPriority F}
      → IsBudget budget
      → parse_budget c i entries budget ≡ ok final
      → IsBudget final
  unfolding parse_budget
  parse_budget-IsBudget i [] budget {final} start h =
      let same : budget ≡ final = ground (arith, h) in rw same at start
  parse_budget-IsBudget i ((name, frac) ∷ entries) budget start h =
      let (p, named, h1) = bind_ok (parse_priority name in_budget) _ h in
      let (v, read, h2) = bind_ok (to_float c frac) _ h1 in
      let (checked, h3) =
        guard_ok (le (num 0) v && le v (num 1)) (budget_range i)
          (parse_budget c (i + 1) entries (set_budget p v budget)) h2 in
      let low : le (num 0) v ≡ true = ground (arith, checked) in
      let high : le v (num 1) ≡ true = ground (arith, checked) in
      parse_budget-IsBudget (i + 1) entries (set_budget p v budget)
        (set_budget-IsBudget p v budget low high start) h3

  load_budget-IsBudget :
      (defaults : Fields F) {budget : ByPriority F}
      → load_budget c defaults ≡ ok budget
      → IsBudget budget
  unfolding load_budget
  load_budget-IsBudget defaults {budget} h =
      elim (Option-cases (get (codes "bandwidth_budget") defaults)) [
        | inl absent ↦
            let same : default_bandwidth_budget ≡ budget = ground (arith, h, absent) in
            subst IsBudget same built_in
        | inr (v, present) ↦
            let h1 : (as_mapping v >>= λ m. parse_budget c 0 (pairs m) default_bandwidth_budget)
                ≡ ok budget =
              ground (arith, h, present) in
            let (m, read, h2) =
              bind_ok (as_mapping v) (λ m. parse_budget c 0 (pairs m) default_bandwidth_budget)
                h1 in
            parse_budget-IsBudget 0 (pairs m) default_bandwidth_budget built_in h2
      ]
    where
      built_in : IsBudget default_bandwidth_budget
      built_in p = inl refl

  load_coefficient_nonneg :
      (i : ℕ) (raw : Fields F) {v : F} → load_coefficient c i raw ≡ ok v → c.is_negative v ≡ false
  unfolding load_coefficient
  load_coefficient_nonneg i raw h = ground arith

  -- The fields of a rule that was read, its match, and what was read from them.
  pub parse_rule_parts :
      (v : Value F) (i : ℕ) {r : PolicyRule F}
      → parse_rule c v i ≡ ok r
      → (raw : Fields F) × (m : Fields F) × (as_mapping {E = LoadError} v ≡ ok raw)
        × (as_mapping {E = LoadError} (get_or_empty (codes "match") raw (mapping end)) ≡ ok m)
        × (load_protocols c m ≡ ok r.protocols)
        × (load_coefficient c i raw ≡ ok r.value_coefficient)
  unfolding parse_rule
  parse_rule_parts v i {r} h =
      let (raw, e1, h1) = bind_ok (as_mapping v) _ h in
      let (name, e2, h2) = bind_ok (required c (codes "name") (name_required i) raw) _ h1 in
      let (p, e3, h3) = bind_ok (required c (codes "priority") (priority_required i) raw) _ h2 in
      let (priority, e4, h4) = bind_ok (parse_priority p (in_rule i)) _ h3 in
      let (m, e5, h5) =
        bind_ok (as_mapping (get_or_empty (codes "match") raw (mapping end))) _ h4 in
      let (ports, e6, h6) = bind_ok (load_ports c m) _ h5 in
      let (protocols, e7, h7) = bind_ok (load_protocols c m) _ h6 in
      let (pattern, e8, h8) = bind_ok (load_pattern c m) _ h7 in
      let (coefficient, e9, h9) = bind_ok (load_coefficient c i raw) _ h8 in
      let (min_pct, e10, h10) =
        bind_ok (number_or c (codes "bandwidth_min_pct") (num 0) raw) _ h9 in
      let same = ok_injective _ r h10 in
      (
        raw,
        m,
        e1,
        e5,
        e7 ∙ ap (λ (x : PolicyRule F). ok x.protocols) same,
        e9 ∙ ap (λ (x : PolicyRule F). ok x.value_coefficient) same,
      )

  parse_rule_checked :
      (v : Value F) (i : ℕ) {r : PolicyRule F}
      → parse_rule c v i ≡ ok r
      → c.is_negative r.value_coefficient ≡ false
  parse_rule_checked v i h =
      let (raw, m, e1, e2, e3, e4) = parse_rule_parts v i h in load_coefficient_nonneg i raw e4

  parse_rules_checked :
      (vs : List (Value F)) (i : ℕ) {rs : List (PolicyRule F)}
      → parse_rules c vs i ≡ ok rs
      → All (λ r. c.is_negative r.value_coefficient ≡ false) rs × (length rs ≡ length vs)
  unfolding parse_rules
  parse_rules_checked [] i {rs} h =
      let same : [] ≡ rs = ground (arith, h) in
      subst (λ l. All (λ r. c.is_negative r.value_coefficient ≡ false) l × (length l ≡ 0)) same
        (tt, refl)
  parse_rules_checked (v ∷ vs) i {rs} h =
      let (r, read, h1) =
        bind_ok (parse_rule c v i) (λ r. parse_rules c vs (i + 1) >>= λ rs. ok (r ∷ rs)) h in
      let (rest, others, h2) = bind_ok (parse_rules c vs (i + 1)) (λ rs. ok (r ∷ rs)) h1 in
      let (all, count) = parse_rules_checked vs (i + 1) others in
      let same : r ∷ rest ≡ rs = ground (arith, h2) in
      subst
        (λ l. All (λ r. c.is_negative r.value_coefficient ≡ false) l × (length l ≡ length (v ∷ vs)))
        same ((parse_rule_checked v i read, all), omega (arith, count))

  -- What holds of a policy that the loader returns.
  pub record IsChecked (p : Policy F) : Type 0 where
    pub coefficients : All (λ r. c.is_negative r.value_coefficient ≡ false) p.rules
    pub budget : IsBudget p.bandwidth_budget

  parse-IsChecked : (v : Value F) {p : Policy F} → parse c v ≡ ok p → IsChecked p
  unfolding parse
  parse-IsChecked v {p} h =
      let (doc, read, h1) = bind_ok (as_mapping v) _ h in
      let (defaults, found, h2) =
        bind_ok (as_mapping (get_or_empty (codes "defaults") doc (mapping end))) _ h1 in
      let (q, named, h3) =
        bind_ok
          (parse_priority (or_else (get (codes "priority") defaults) (str (codes "MEDIUM")))
            in_defaults)
          _ h2 in
      let (budget, budgeted, h4) = bind_ok (load_budget c defaults) _ h3 in
      let (raw_rules, listed, h5) =
        bind_ok (as_list c (get_or_empty (codes "rules") doc (sequence nil))) _ h4 in
      let (rules, parsed, h6) = bind_ok (parse_rules c raw_rules 0) _ h5 in
      let same : record { rules = rules; default_priority = q; bandwidth_budget = budget } ≡ p =
        ok_injective _ p h6 in
      subst IsChecked same (record {
        coefficients = (parse_rules_checked raw_rules 0 parsed).0;
        budget = load_budget-IsBudget defaults budgeted;
      })

  -- A policy that `load_string` returns has no value coefficient for which `< 0.0` holds, and its budget has, for each
  -- priority, the built-in fraction or one between zero and one.
  pub load_string-IsChecked :
      (safe_load : Text → Option (Value F)) (text : Text) {p : Policy F}
      → load_string c safe_load text ≡ ok p
      → IsChecked p
  unfolding load_string
  load_string-IsChecked safe_load text {p} h = elim (Option-cases (safe_load text)) [
    | inl bad ↦ absurd (ground (arith, bad, h))
    | inr (v, loaded) ↦ with_value v loaded
  ]
    where
      with_value : (v : Value F) → safe_load text ≡ some v → IsChecked p
      with_value null loaded = parse-IsChecked (mapping end) (ground (arith, loaded, h))
      with_value (boolean b) loaded = parse-IsChecked (boolean b) (ground (arith, loaded, h))
      with_value (int i) loaded = parse-IsChecked (int i) (ground (arith, loaded, h))
      with_value (float x) loaded = parse-IsChecked (float x) (ground (arith, loaded, h))
      with_value (str s) loaded = parse-IsChecked (str s) (ground (arith, loaded, h))
      with_value (sequence vs) loaded = parse-IsChecked (sequence vs) (ground (arith, loaded, h))
      with_value (mapping fs) loaded = parse-IsChecked (mapping fs) (ground (arith, loaded, h))
