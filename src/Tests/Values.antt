-- ===== src/Tests/Values.antt =====
-- The value policy, the tracker and the tuner on concrete inputs.
use smart_bandwidth_optimize.Base.{◌≡◌, refl, true, false, none, [], ◌∷◌, ◌++◌}
use smart_bandwidth_optimize.Base.Int.{pos}
use smart_bandwidth_optimize.Base.Text.{codes, text_eq, lower}
use smart_bandwidth_optimize.Base.Float.{num, lt}
use smart_bandwidth_optimize.Base.Fixed.{Fixed, fixed_float, Fixed-IsFloat, fixed_arithmetic}
use smart_bandwidth_optimize.Config.{high}
use smart_bandwidth_optimize.Classifier.{ports_match, protocols_match, has_port, has_text}
use smart_bandwidth_optimize.Policy.{PolicyRule}
use smart_bandwidth_optimize.Value.{FlowValuePolicy, rule_matches}
use smart_bandwidth_optimize.Value.Coefficients.{IsFirst, here}
use smart_bandwidth_optimize.Value.Losses.{
  ValueLossTracker, rate, record_delivered, record_dropped, value_delivered_per_sec,
  value_lost_per_sec, rates_after_record,
}
use smart_bandwidth_optimize.Value.Tuner.{TunerState, ValueCoefficientTuner, adjust}
use smart_bandwidth_optimize.Value.Tuner.Bounds.{IsTunable, adjust_bounds}
use smart_bandwidth_optimize.Tests.Fixtures.{web}

abbrev api : PolicyRule Fixed
api = record {
  name = codes "api";
  priority = high;
  ports = pos 443 ∷ [];
  protocols = codes "tcp" ∷ [];
  payload_pattern = none;
  bandwidth_min_pct = pos 0;
  description = [];
  value_coefficient = pos 50_000;
}

abbrev policy : FlowValuePolicy Fixed
policy = record { rules = api ∷ []; default = pos 1000; overrides = [] }

api_decides : IsFirst web policy.rules api
unfolding rule_matches ports_match protocols_match has_port has_text text_eq lower
api_decides = here refl

default_coefficient : web.value_coefficient ≡ num 1
unfolding fixed_arithmetic
default_coefficient = refl

abbrev losses : ValueLossTracker Fixed
losses = record {
  window = pos 5000;
  delivered = (pos 0, pos 1000) ∷ (pos 9000, pos 2000) ∷ [];
  dropped = (pos 0, pos 500) ∷ [];
  total_delivered = pos 3000;
  total_dropped = pos 500;
}

window_nonneg : fixed_float.le (num 0) losses.window ≡ true
unfolding fixed_arithmetic
window_nonneg = refl

rates_after_record_example :
    (value_delivered_per_sec (record_delivered losses (pos 12_000) (pos 700)) (pos 13_000)
      ≡ rate losses.window (pos 13_000) (losses.delivered ++ ((pos 12_000, pos 700) ∷ [])))
    × (value_lost_per_sec (record_delivered losses (pos 12_000) (pos 700)) (pos 13_000)
        ≡ value_lost_per_sec losses (pos 13_000))
    × (value_lost_per_sec (record_dropped losses (pos 12_000) (pos 700)) (pos 13_000)
        ≡ rate losses.window (pos 13_000) (losses.dropped ++ ((pos 12_000, pos 700) ∷ [])))
    × (value_delivered_per_sec (record_dropped losses (pos 12_000) (pos 700)) (pos 13_000)
        ≡ value_delivered_per_sec losses (pos 13_000))
rates_after_record_example =
    rates_after_record Fixed-IsFloat losses (pos 12_000) (pos 700) (pos 13_000) window_nonneg refl

abbrev tuner : ValueCoefficientTuner Fixed
tuner = record {
  policy = policy;
  boost_factor = pos 1200;
  decay_factor = pos 950;
  max_coeff = pos 10_000_000;
  perfection = pos 99_500;
  violation = pos 90_000;
  states = [];
}

abbrev tuned : TunerState Fixed
tuned = record {
  rule_name = codes "api";
  base_coefficient = pos 50_000;
  current_coefficient = pos 60_000;
  boost_count = 1;
  decay_count = 0;
  last_observed = pos 0;
}

tuned-IsTunable : IsTunable tuner tuned
unfolding fixed_arithmetic
tuned-IsTunable = record { boosts = refl; decays = refl; nonneg = refl; below = refl; above = refl }

adjust_bounds_example :
    IsTunable tuner (adjust tuner (pos 85_000) tuned)
    × (lt (pos 85_000) tuner.violation ≡ true
        → fixed_float.le tuned.current_coefficient
            (adjust tuner (pos 85_000) tuned).current_coefficient
          ≡ true)
    × (lt (pos 85_000) tuner.violation ≡ false
        → fixed_float.le
            (adjust tuner (pos 85_000) tuned).current_coefficient
            tuned.current_coefficient
          ≡ true)
adjust_bounds_example = adjust_bounds Fixed-IsFloat tuner (pos 85_000) tuned tuned-IsTunable
