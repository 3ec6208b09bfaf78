-- ===== src/Value/Key.antt =====
-- The key of `ValueScheduler`: its queue is that of `Scheduler` over the negated effective value.
use smart_bandwidth_optimize.Base.{◌-◌, ◌≡◌, arith, refl, leb}
use smart_bandwidth_optimize.Base.Float.{Float, IsFloat, num, max}
use smart_bandwidth_optimize.Config.{
  TrafficPriority, critical, high, medium, low, background, value, value-le,
}
use smart_bandwidth_optimize.Classifier.{Packet}
use smart_bandwidth_optimize.Scheduler.{priority_of}
use smart_bandwidth_optimize.Scheduler.Priority.{priority_key}

module _ {F : Type 0} ⦃d : Float F⦄ where
  open d use {minus, times, le}

  unfoldable pub priority_multiplier : TrafficPriority → F
  priority_multiplier critical = num 5
  priority_multiplier high = num 4
  priority_multiplier medium = num 3
  priority_multiplier low = num 2
  priority_multiplier background = num 1

  unfoldable pub effective_value : Packet F → F
  effective_value p = times (max (num 0) p.value_coefficient) (priority_multiplier (priority_of p))

  -- `-eff`. Zero minus a double is its negation, up to the sign of zero, which no comparison sees.
  unfoldable pub value_key : Packet F → F
  value_key p = minus (num 0) (effective_value p)

  module _ (laws : IsFloat F) where
    open laws use {one_times, le_num, minus_reverse}

    multiplier_lem : (q : TrafficPriority) → priority_multiplier q ≡ num (6 - value q)
    unfolding priority_multiplier value
    multiplier_lem critical = refl
    multiplier_lem _ = refl

    effective_value_default :
        (p : Packet F)
        → p.value_coefficient ≡ num 1
        → effective_value p ≡ num (6 - value (priority_of p))
    unfolding effective_value
    effective_value_default p h = ground (
      arith,
      h,
      le_num 1 0,
      multiplier_lem (priority_of p),
      one_times (6 - value (priority_of p)),
    )

    -- With the default coefficient of one, `ValueScheduler` orders two packets as
    -- `PriorityScheduler` does. The numbers obey the laws of `IsFloat`.
    value_key-priority_key :
        (p q : Packet F)
        → p.value_coefficient ≡ num 1
        → q.value_coefficient ≡ num 1
        → le (value_key p) (value_key q) ≡ leb (priority_key p) (priority_key q)
    unfolding value_key priority_key
    value_key-priority_key p q h k =
        rw
          (
            value_key,
            priority_key,
            effective_value_default p h,
            effective_value_default q k,
            minus_reverse (num (6 - value (priority_of p))) (num (6 - value (priority_of q))),
          )
          (rw
            (le_num (6 - value (priority_of q)) (6 - value (priority_of p)) (omega arith)
              (omega arith))
            (ground (arith, value-le (priority_of p), value-le (priority_of q))))
