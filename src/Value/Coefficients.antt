-- ===== src/Value/Coefficients.antt =====
-- The coefficient that a policy assigns, and how overrides and presets change it.
use smart_bandwidth_optimize.Base.{◌≡◌, ◌≢◌, refl, arith, true, false, List, [], ◌∷◌, or_else, All}
use smart_bandwidth_optimize.Base.Text.{Text, text_eq}
use smart_bandwidth_optimize.Base.Float.{Float, num, max}
use smart_bandwidth_optimize.Base.Dict.{
  lookup, lookup-insert_self, lookup-insert_other, lookup-remove, text_eq-IsEq, IsDistinct,
}
use smart_bandwidth_optimize.Classifier.{Packet}
use smart_bandwidth_optimize.Policy.{PolicyRule}
use smart_bandwidth_optimize.Value.{
  FlowValuePolicy, rule_matches, coefficient_from, get_coefficient, set_override, get_override,
  clear_override,
}

module _ {F : Type 0} ⦃d : Float F⦄ where
  -- The rule that decides: the first of the list that matches.
  pub data IsFirst (p : Packet F) : List (PolicyRule F) → PolicyRule F → Type 0 where
    here :
        {r : PolicyRule F} {rs : List (PolicyRule F)}
        → rule_matches r p ≡ true
        → IsFirst p (r ∷ rs) r
    there :
        {r s : PolicyRule F} {rs : List (PolicyRule F)}
        → rule_matches s p ≡ false
        → IsFirst p rs r
        → IsFirst p (s ∷ rs) r

  -- The coefficient of a packet is that of the first rule that matches it, or the rule's override if there
  -- is one, and the default if no rule matches.
  get_coefficient_lem :
      (v : FlowValuePolicy F) (p : Packet F)
      → ((r : PolicyRule F)
          → IsFirst p v.rules r
          → get_coefficient v p ≡ or_else (get_override v r.name) r.value_coefficient)
        × (All (λ r. rule_matches r p ≡ false) v.rules → get_coefficient v p ≡ v.default)
  unfolding get_coefficient get_override coefficient_from lookup
  get_coefficient_lem v p = (λ r first. decided v.rules r first, λ absent. undecided v.rules absent)
    where
      decided :
          (rs : List (PolicyRule F)) (r : PolicyRule F)
          → IsFirst p rs r
          → coefficient_from rs v.overrides v.default p
            ≡ or_else (lookup text_eq r.name v.overrides) r.value_coefficient
      decided [] r first = elim first [ ]
      decided (x ∷ rs) r (here m) = ground (arith, m)
      decided (s ∷ rs) r (there m rest) = ground (arith, m, decided rs r rest)

      undecided :
          (rs : List (PolicyRule F))
          → All (λ r. rule_matches r p ≡ false) rs
          → coefficient_from rs v.overrides v.default p ≡ v.default
      undecided [] h = refl
      undecided (r ∷ rs) h = ground (arith, h.0, undecided rs h.1)

  -- An override sets the coefficient of every packet that its rule decides, with zero as the least value;
  -- clearing it, when no name stands twice, brings the static coefficient back. Packets that a rule of
  -- another name decides keep theirs.
  set_override_lem :
      (v : FlowValuePolicy F) (p : Packet F) (r : PolicyRule F) (name : Text) (c : F)
      → IsDistinct text_eq v.overrides
      → IsFirst p v.rules r
      → (r.name ≡ name → get_coefficient (set_override v name c) p ≡ max (num 0) c)
        × (r.name ≡ name → get_coefficient (clear_override v name) p ≡ r.value_coefficient)
        × (r.name ≢ name → get_coefficient (set_override v name c) p ≡ get_coefficient v p)
  unfolding set_override clear_override get_override
  set_override_lem v p r name c distinct first =
      let set = (get_coefficient_lem (set_override v name c) p).0 r first in
      let clear = (get_coefficient_lem (clear_override v name) p).0 r first in
      let old = (get_coefficient_lem v p).0 r first in
      let value = max (num 0) c in
      (
        λ same. ground (arith, set, same, lookup-insert_self text_eq-IsEq name value v.overrides),
        λ same. ground (
          arith,
          clear,
          same,
          lookup-remove text_eq-IsEq name name v.overrides distinct,
          text_eq-IsEq.same name,
        ),
        λ other.
            ground (
              arith,
              set,
              old,
              lookup-insert_other text_eq-IsEq name r.name value v.overrides other,
            ),
      )
