-- ===== src/Flow/Hints.antt =====
-- The priority that a flow's scores suggest.
use smart_bandwidth_optimize.Base.{◌+◌, ◌-◌, ◌≡◌, arith, if◌then◌else◌, ltb, ◌&&◌}
use smart_bandwidth_optimize.Base.Float.{Float}
use smart_bandwidth_optimize.Config.{TrafficPriority, critical, value}
use smart_bandwidth_optimize.Flow.{FlowRecord, FlowTracker, priority_hint}

module _ {F : Type 0} ⦃d : Float F⦄ (t : FlowTracker F) (r : FlowRecord F) where
  open d use {le}

  -- The suggested priority is the next higher one for a latency score at the threshold, unless the base
  -- is CRITICAL; else the next lower one for a bandwidth score at the threshold, unless the base is
  -- BACKGROUND; else the base.
  value-priority_hint :
      (base : TrafficPriority)
      → value (priority_hint t base r) ≡ (
          if le t.boost_threshold r.latency_score && ltb 1 (value base)
          then value base - 1
          else if le t.demote_threshold r.bandwidth_score && ltb (value base) 5
          then value base + 1
          else value base)
  unfolding priority_hint value
  value-priority_hint critical = ground arith
  value-priority_hint _ = ground arith
