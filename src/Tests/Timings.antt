-- ===== src/Tests/Timings.antt =====
-- The benchmark on concrete inputs.
use smart_bandwidth_optimize.Base.{
  ℕ, ◌+◌, ◌*◌, ◌/◌, ◌≡◌, refl, false, Option, none, some, List, [], ◌∷◌, or_else, if◌then◌else◌,
}
use smart_bandwidth_optimize.Base.Int.{pos}
use smart_bandwidth_optimize.Base.Fixed.{Fixed, fixed_float}
use smart_bandwidth_optimize.Base.Fixed.{fixed_arithmetic}
use smart_bandwidth_optimize.Config.{value}
use smart_bandwidth_optimize.Filter.{should_drop, consume, refill, red_check, adjusted_prob}
use smart_bandwidth_optimize.Flow.{
  priority_hint, update, evict_expired, update_record, refresh_scores, note_burst, new_record,
  make_room, ema, ipt_factor,
}
use smart_bandwidth_optimize.Base.Dict.{keep_entries, lookup}
use smart_bandwidth_optimize.Queueing.{queue_size}
use smart_bandwidth_optimize.Outcome.{ProcessResult, no_reason}
use smart_bandwidth_optimize.Optimizer.{Optimizer, process, classified, hinted}
use smart_bandwidth_optimize.Benchmark.{
  StageSamples, no_samples, total_sample, last_sample, process_with_stage_timing, timed_decision,
}
use smart_bandwidth_optimize.Benchmark.Timing.{
  untimed, early_time, late_time, process_with_stage_timing-process,
  process_with_stage_timing_total,
}
use smart_bandwidth_optimize.Tests.Fixtures.{web, empty}
use smart_bandwidth_optimize.Tests.Pipelines.{never, pack, optimizer, readings}

-- A clock that goes on by five.
abbrev ticks : ℕ → ℕ
ticks i = 5 * i

process_with_stage_timing-process_example :
    untimed never pack
      (process_with_stage_timing never pack ticks no_samples optimizer readings web)
    ≡ process never pack optimizer readings web
process_with_stage_timing-process_example =
    process_with_stage_timing-process never pack ticks no_samples optimizer empty readings web refl

-- The optimizer with empty buckets, which drops the packet.
abbrev starved : Optimizer Fixed
starved = record optimizer {
  packet_filter = record optimizer.packet_filter {
    buckets =
        λ p. record { refill_rate = pos 0; capacity = pos 0; tokens = pos 0; last_refill = pos 0 };
  };
}

-- The times of an earlier packet.
abbrev earlier : StageSamples
earlier = record {
  flow_track = 1 ∷ [];
  classify = 2 ∷ [];
  filter = 3 ∷ [];
  compress = 40 ∷ [];
  schedule = 50 ∷ [];
}

abbrev Timed : Type 0
Timed = Optimizer Fixed × ProcessResult Fixed × StageSamples

abbrev unused : ProcessResult Fixed
unused = record {
  packet = web;
  dropped = false;
  drop_reason = no_reason;
  compressed = false;
  original_payload_size = 0;
  compressed_payload_size = 0;
  flow_record = none;
}

abbrev attempt : Option Timed
attempt = process_with_stage_timing never pack ticks earlier starved readings web

abbrev dropped_run : Timed
dropped_run = or_else attempt (starved, unused, earlier)

drops : attempt ≡ some dropped_run
unfolding process_with_stage_timing timed_decision classified hinted priority_hint update
    evict_expired keep_entries lookup update_record refresh_scores note_burst new_record make_room
    ema ipt_factor should_drop consume refill red_check queue_size adjusted_prob value
    fixed_arithmetic
drops = refl

process_with_stage_timing_total_example :
    total_sample dropped_run.2
    ≡ early_time ticks
      + (if dropped_run.1.dropped
          then last_sample earlier.compress + last_sample earlier.schedule
          else late_time ticks)
process_with_stage_timing_total_example =
    process_with_stage_timing_total never pack ticks earlier starved readings web drops

abbrev mean : List Fixed → Fixed
mean xs = pos 1000

-- `int` of a number with three decimals.
abbrev trunc : Fixed → ℕ
trunc (pos n) = n / 1000
trunc _ = 0

abbrev samples : List Fixed
samples = pos 3000 ∷ pos 1000 ∷ pos 2000 ∷ pos 1000 ∷ []
