-- ===== src/Value/Tuner.antt =====
-- `ValueCoefficientTuner`: the feedback loop that adjusts the overrides of a policy. The policy, which
-- the tuner shares with the optimizer, is a field of its state.
pub mod Bounds
use smart_bandwidth_optimize.Base.{
  ℕ, ◌+◌, ◌≡◌, refl, ap, arith, Bool, true, false, not, ◌&&◌, Option, none, some, List, [], ◌∷◌,
  if◌then◌else◌, or_else, inl, inr, Bool-cases,
}
use smart_bandwidth_optimize.Base.Text.{Text, text_eq}
use smart_bandwidth_optimize.Base.Float.{
  Float, IsFloat, num, lt, eq_by, max, min, min-le_left, min-le_right, le-max_left, le-max_right,
  le_refl_by,
}
use smart_bandwidth_optimize.Base.Dict.{
  lookup, insert, lookup-insert, lookup-insert_self, lookup-remove, text_eq-IsEq, IsDistinct,
}
use smart_bandwidth_optimize.Policy.{PolicyRule}
use smart_bandwidth_optimize.Value.{
  FlowValuePolicy, ValueSlaContract, set_override, get_override, clear_override,
}

pub record TunerState (F : Type 0) : Type 0 where
  pub rule_name : Text
  pub base_coefficient : F
  pub current_coefficient : F
  pub boost_count : ℕ
  pub decay_count : ℕ
  pub last_observed : F

pub record ValueCoefficientTuner (F : Type 0) : Type 0 where
  pub policy : FlowValuePolicy F
  pub boost_factor : F
  pub decay_factor : F
  pub max_coeff : F
  pub perfection : F
  pub violation : F
  pub states : List (Text × TunerState F)

module _ {F : Type 0} ⦃d : Float F⦄ where
  open d use {times, over, le}

  unfoldable pub init : FlowValuePolicy F → F → F → F → F → F → ValueCoefficientTuner F
  init policy boost_factor decay_factor max_coefficient perfection_threshold_pct
        violation_threshold_pct =
      record {
        policy = policy;
        boost_factor = max (num 1) boost_factor;
        decay_factor = min (num 1) (max (num 0) decay_factor);
        max_coeff = max (num 0) max_coefficient;
        perfection = min (num 100) (max (num 0) perfection_threshold_pct);
        violation = min (num 100) (max (num 0) violation_threshold_pct);
        states = [];
      }

  -- The static coefficient of the first rule with the name.
  unfoldable pub base_from : Text → List (PolicyRule F) → F
  base_from name [] = num 1
  base_from name (r ∷ rs) = if text_eq r.name name then r.value_coefficient else base_from name rs

  -- `override or base`: an override of zero counts as none.
  override_or : Option F → F → F
  override_or none base = base
  override_or (some c) base = if eq_by le c (num 0) then base else c

  unfoldable pub get_or_create_state : ValueCoefficientTuner F → F → Text → TunerState F
  unfolding override_or
  get_or_create_state t now name = elim (lookup text_eq name t.states) [
    | some s ↦ s
    | none ↦
        let base = base_from name t.policy.rules in
        record {
          rule_name = name;
          base_coefficient = base;
          current_coefficient = override_or (get_override t.policy name) base;
          boost_count = 0;
          decay_count = 0;
          last_observed = now;
        }
  ]

  unfoldable pub efficiency : F → F → F
  efficiency delivered_rate sla_min_rate =
      if lt (num 0) sla_min_rate
      then over (times (num 100) delivered_rate) sla_min_rate
      else num 100

  -- The adjusted state of the rule, but for the time of the observation.
  unfoldable pub adjust : ValueCoefficientTuner F → F → TunerState F → TunerState F
  adjust t eff s =
      if lt eff t.violation
      then record s {
        current_coefficient = min (times s.current_coefficient t.boost_factor) t.max_coeff;
        boost_count = s.boost_count + 1;
      }
      else if le t.perfection eff
      then record s {
        current_coefficient = max (times s.current_coefficient t.decay_factor) s.base_coefficient;
        decay_count = s.decay_count + 1;
      }
      else s

  -- The tuner, and the new coefficient. The clock is read once for a state that is created, and once
  -- for the observation.
  unfoldable pub observe :
      ValueCoefficientTuner F → F → F → Text → F → F → ValueCoefficientTuner F × F
  observe t created now name delivered_rate sla_min_rate =
      let s =
        adjust t (efficiency delivered_rate sla_min_rate) (get_or_create_state t created name) in
      let s' = record s { last_observed = now } in
      (
        record t {
          states = insert text_eq name s' t.states;
          policy = set_override t.policy name s.current_coefficient;
        },
        s.current_coefficient,
      )

  unfoldable pub observe_contract :
      ValueCoefficientTuner F → F → F → Text → F → ValueSlaContract F → ValueCoefficientTuner F × F
  observe_contract t created now name delivered_rate contract =
      observe t created now name delivered_rate contract.min_value_rate_per_sec

  abbrev at_base : TunerState F → TunerState F
  at_base s = record s {
    current_coefficient = s.base_coefficient;
    boost_count = 0;
    decay_count = 0;
  }

  unfoldable pub reset : ValueCoefficientTuner F → Text → ValueCoefficientTuner F
  reset t name = elim (lookup text_eq name t.states) [
    | none ↦ t
    | some s ↦ record t {
      states = insert text_eq name (at_base s) t.states;
      policy = clear_override t.policy name;
    }
  ]

  -- The loop of `reset_all` over the names.
  reset_states :
      List (Text × TunerState F)
      → FlowValuePolicy F
      → List (Text × TunerState F) × FlowValuePolicy F
  reset_states [] v = ([], v)
  reset_states ((name, s) ∷ rest) v =
      let (states, v') = reset_states rest (clear_override v name) in
      ((name, at_base s) ∷ states, v')

  unfoldable pub reset_all : ValueCoefficientTuner F → ValueCoefficientTuner F
  unfolding reset_states
  reset_all t =
      let (states, v) = reset_states t.states t.policy in record t { states = states; policy = v }
