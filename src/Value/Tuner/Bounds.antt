-- ===== src/Value/Tuner/Bounds.antt =====
-- The range of the tuner's coefficients, and what an observation changes.
use smart_bandwidth_optimize.Base.{◌≡◌, ◌≢◌, refl, arith, true, false, some}
use smart_bandwidth_optimize.Base.Text.{Text, text_eq}
use smart_bandwidth_optimize.Base.Float.{
  Float, IsFloat, num, lt, max, min-le_right, le-max_right, le_refl_by,
}
use smart_bandwidth_optimize.Base.Dict.{
  lookup, lookup-insert_self, lookup-insert_other, text_eq-IsEq,
}
use smart_bandwidth_optimize.Value.{set_override, get_override}
use smart_bandwidth_optimize.Value.Tuner.{
  TunerState, ValueCoefficientTuner, get_or_create_state, efficiency, adjust, observe,
}

module _ {F : Type 0} ⦃d : Float F⦄ where
  open d use {times, le}

  -- The factors are as the constructor clips them, and the coefficient is between the static one and the
  -- ceiling.
  pub record IsTunable (t : ValueCoefficientTuner F) (s : TunerState F) : Type 0 where
    pub boosts : le (num 1) t.boost_factor ≡ true
    pub decays : le t.decay_factor (num 1) ≡ true
    pub nonneg : le (num 0) s.base_coefficient ≡ true
    pub below : le s.base_coefficient s.current_coefficient ≡ true
    pub above : le s.current_coefficient t.max_coeff ≡ true

  -- `observe` writes the coefficient that it returns into the rule's state and, clipped at zero, into
  -- the policy's override for the rule. The states and the overrides of all other rules stay.
  observe_lem :
      (t : ValueCoefficientTuner F) (created now : F) (name : Text)
      (delivered_rate sla_min_rate : F)
      → let (t', c) = observe t created now name delivered_rate sla_min_rate in
        let s =
          adjust t (efficiency delivered_rate sla_min_rate) (get_or_create_state t created name) in
        (c ≡ s.current_coefficient)
        × (get_override t'.policy name ≡ some (max (num 0) c))
        × (lookup text_eq name t'.states ≡ some (record s { last_observed = now }))
        × ((other : Text)
            → other ≢ name
            → (get_override t'.policy other ≡ get_override t.policy other)
              × (lookup text_eq other t'.states ≡ lookup text_eq other t.states))
  unfolding observe get_override set_override
  observe_lem t created now name delivered_rate sla_min_rate =
      let s =
        adjust t (efficiency delivered_rate sla_min_rate) (get_or_create_state t created name) in
      let c = max (num 0) s.current_coefficient in
      let s' = record s { last_observed = now } in
      (
        refl,
        lookup-insert_self text_eq-IsEq name c t.policy.overrides,
        lookup-insert_self text_eq-IsEq name s' t.states,
        λ other ne. (
          lookup-insert_other text_eq-IsEq name other c t.policy.overrides ne,
          lookup-insert_other text_eq-IsEq name other s' t.states ne,
        ),
      )

  module _ (laws : IsFloat F) where
    open laws use {order, le-times, times-le}

    -- An adjustment keeps the coefficient between the static one and the ceiling. It does not lower
    -- it when the efficiency is below the threshold of a violation, and does not raise it
    -- otherwise, also when the delivered rate is below the contracted one. The numbers obey the laws of `IsFloat`.
    pub adjust_bounds :
        (t : ValueCoefficientTuner F) (eff : F) (s : TunerState F)
        → IsTunable t s
        → IsTunable t (adjust t eff s)
          × (lt eff t.violation ≡ true
              → le s.current_coefficient (adjust t eff s).current_coefficient ≡ true)
          × (lt eff t.violation ≡ false
              → le (adjust t eff s).current_coefficient s.current_coefficient ≡ true)
    unfolding adjust
    adjust_bounds t eff s h =
        let c = s.current_coefficient in
        let base = s.base_coefficient in
        let nonneg = order.trans (num 0) base c h.nonneg h.below in
        let grown = le-times c t.boost_factor nonneg h.boosts in
        let shrunk = times-le c t.decay_factor nonneg h.decays in
        let raised = order.trans base c (times c t.boost_factor) h.below grown in
        let lowered = order.trans (times c t.decay_factor) c t.max_coeff shrunk h.above in
        let fits = order.trans base c t.max_coeff h.below h.above in
        let boost = min-le_right order (times c t.boost_factor) t.max_coeff in
        let floor = le-max_right order (times c t.decay_factor) base in
        (
          record {
            boosts = h.boosts;
            decays = h.decays;
            nonneg = ground arith;
            below = ground (arith, le_refl_by order base);
            above = ground arith;
          },
          λ low. ground (arith, low, le_refl_by order c),
          λ high. ground (arith, high, le_refl_by order c),
        )
