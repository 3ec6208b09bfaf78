-- ===== src/Tests/Guards.antt =====
-- The safety guard, the monitor and the back-pressure on concrete inputs.
use Prim.Native.Nat.{min}
use smart_bandwidth_optimize.Base.{
  ℕ, ◌+◌, ◌-◌, ◌≤◌, ◌<◌, ◌≡◌, ◌≢◌, refl, arith, false, Option, none, some, List, [], ◌∷◌, length,
}
use smart_bandwidth_optimize.Base.Int.{pos}
use smart_bandwidth_optimize.Base.Text.{codes}
use smart_bandwidth_optimize.Base.Fixed.{Fixed, fixed_float, Fixed-IsFloat, fixed_arithmetic}
use smart_bandwidth_optimize.Classifier.{Packet}
use smart_bandwidth_optimize.Outcome.{ProcessResult, no_reason, Exception, Outcome, raised}
use smart_bandwidth_optimize.Safety.{
  SafetyGuard, fail_closed, fail_open, healthy, degraded, bypassed, init,
}
use smart_bandwidth_optimize.Safety.Breaker.{IsConsistent, process_call, apply, apply-IsConsistent}
use smart_bandwidth_optimize.Safety.Trip.{feed, feed_trips}
use smart_bandwidth_optimize.Safety.Threads.{Threads, Steps, bypassed_escapes}
use smart_bandwidth_optimize.Sla.{Source, SlaMonitor, default_config}
use smart_bandwidth_optimize.Sla
use smart_bandwidth_optimize.Sla.Pressure.{BackpressureMonitor, no_pressure, IsConfigured}
use smart_bandwidth_optimize.Tests.Fixtures.{web}

abbrev boom : Exception
boom = record { type_name = codes "RuntimeError"; message = codes "boom" }

-- An optimizer without state that always raises.
abbrev failing : Unit {0} → Packet Fixed → Unit {0} × Packet Fixed × Outcome (ProcessResult Fixed)
failing s p = (s, p, raised boom)

abbrev guard : SafetyGuard (Unit {0}) Fixed
guard = record {
  optimizer = tt;
  fail_mode = fail_closed;
  circuit_threshold = 2;
  state = healthy;
  total_errors = 0;
  consecutive_errors = 0;
  last_error = none;
  last_error_time = none;
  start_time = pos 0;
  total_in = 0;
  bypass_count = 0;
}

guard-IsConsistent : IsConsistent guard
guard-IsConsistent = record {
  fits = refl;
  errors = omega arith;
  counted = omega arith;
  inside = omega arith;
}

apply-IsConsistent_example : IsConsistent (apply (process_call failing (pos 1) web) guard)
apply-IsConsistent_example =
    apply-IsConsistent (process_call failing (pos 1) web) guard guard-IsConsistent

abbrev tripped : SafetyGuard (Unit {0}) Fixed
tripped = record guard {
  state = bypassed;
  total_errors = 2;
  consecutive_errors = 2;
  total_in = 2;
  bypass_count = 2;
}

abbrev packets : List (Fixed × Packet Fixed)
packets = (pos 1, web) ∷ (pos 2, web) ∷ (pos 3, web) ∷ []

feed_trips_example :
    let g' = feed failing packets guard in
    (g'.total_errors
      ≡ guard.total_errors
        + min (length packets) (guard.circuit_threshold - guard.consecutive_errors))
    × (guard.circuit_threshold ≤ guard.consecutive_errors + length packets → g'.state ≡ bypassed)
    × (guard.consecutive_errors + length packets < guard.circuit_threshold → g'.state ≢ bypassed)
feed_trips_example =
    feed_trips failing packets guard (λ s p. (s, p, boom, refl)) (λ e. cc e) (omega arith)

bypassed_escapes_example :
    (t u : Threads (Unit {0}) Fixed) × Steps
      (record { guard = init tt fail_open 2 (pos 0); inside = 0 })
      t
    × (t.guard.state ≡ bypassed)
    × Steps t u
    × (u.guard.state ≡ degraded)
bypassed_escapes_example = bypassed_escapes tt fail_open 2 (pos 0) (pos 1) boom (omega arith)

-- A queue that hands out its packets in order.
abbrev pop : List (Packet Fixed) → List (Packet Fixed) × Option (Packet Fixed)
pop [] = ([], none)
pop (p ∷ ps) = (ps, some p)

abbrev line : Source (List (Packet Fixed)) Fixed
line = record {
  process_packet = λ s p. (
    p ∷ s,
    p,
    record {
      packet = p;
      dropped = false;
      drop_reason = no_reason;
      compressed = false;
      original_payload_size = 0;
      compressed_payload_size = 0;
      flow_record = none;
    },
  );
  dequeue_packet = pop;
  waiting = length;
}

abbrev Anything : List (Packet Fixed) → Type 0
Anything s = Unit

abbrev monitor : SlaMonitor (List (Packet Fixed)) Fixed
monitor = Sla.init (record web { enqueued_at = some (pos 0) } ∷ web ∷ []) default_config

abbrev seconds : ℕ → Fixed
seconds i = pos (i + 1)

abbrev pressure : BackpressureMonitor Fixed
pressure = record {
  soft_threshold = pos 600;
  hard_threshold = pos 850;
  window = pos 5000;
  samples = [];
  last_state = record {
    level = no_pressure;
    queue_fill_ratio = pos 0;
    arrival_rate_pps = pos 0;
    drain_rate_pps = pos 0;
    recommended_throttle_pct = pos 0;
  };
}

pressure-IsConfigured : IsConfigured Fixed-IsFloat pressure
unfolding fixed_arithmetic
pressure-IsConfigured = record { positive = refl; increasing = refl }
