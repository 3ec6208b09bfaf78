-- ===== src/Benchmark.antt =====
-- bandwidth_optimizer/benchmark.py: the measured run. `perf_counter_ns` is an argument of each call: the
-- `i`-th reading of the clock, which never goes back. The packets of the factory are a list, and the
-- memory that the process has is no part of the model.
pub mod Timing
pub mod Latency
pub mod Report
use smart_bandwidth_optimize.Base.{
  ℕ, ◌+◌, ◌-◌, Bool, true, false, Option, none, some, List, [], ◌∷◌, ◌++◌, if◌then◌else◌, length,
  last_from,
}
use smart_bandwidth_optimize.Base.Int.{ℤ, pos, ◌+ℤ◌}
use smart_bandwidth_optimize.Base.Text.{Text, Bytes}
use smart_bandwidth_optimize.Base.Float.{Float}
use smart_bandwidth_optimize.Classifier.{Packet}
use smart_bandwidth_optimize.Compressor.{CompressionResult, space_saved_bytes}
use smart_bandwidth_optimize.Filter.{DropReason, DropDecision, keep, drop, should_drop}
use smart_bandwidth_optimize.Flow.{FlowRecord, update}
use smart_bandwidth_optimize.Queueing.{Scheduling, queue_size, schedule}
use smart_bandwidth_optimize.Outcome.{ProcessResult, no_reason, filtered}
use smart_bandwidth_optimize.Optimizer.{
  Optimizer, Readings, classified, hinted, compress_packet, process,
}

-- `stage_samples_ns`
pub record StageSamples : Type 0 where
  pub flow_track : List ℕ
  pub classify : List ℕ
  pub filter : List ℕ
  pub compress : List ℕ
  pub schedule : List ℕ

abbrev pub no_samples : StageSamples
no_samples = record { flow_track = []; classify = []; filter = []; compress = []; schedule = [] }

-- The time between two readings, at the end of a list of samples.
abbrev pub timed : (ℕ → ℕ) → ℕ → List ℕ → List ℕ
timed clock i samples = samples ++ ((clock (i + 1) - clock i) ∷ [])

-- The samples of the stages before the decision, and those of the stages after it.
abbrev pub early : (ℕ → ℕ) → StageSamples → StageSamples
early clock s = record s {
  flow_track = timed clock 0 s.flow_track;
  classify = timed clock 2 s.classify;
  filter = timed clock 4 s.filter;
}

abbrev pub late : (ℕ → ℕ) → StageSamples → StageSamples
late clock s = record s { compress = timed clock 6 s.compress; schedule = timed clock 8 s.schedule }

-- `samples[-1]` if there are any.
abbrev pub last_sample : List ℕ → ℕ
last_sample [] = 0
last_sample (n ∷ ns) = last_from n ns

-- What a packet counts for in the total: the last sample of every stage.
unfoldable pub total_sample : StageSamples → ℕ
total_sample s =
    last_sample s.flow_track
    + last_sample s.classify
    + last_sample s.filter
    + last_sample s.compress
    + last_sample s.schedule

-- The counters of a run.
pub record Run : Type 0 where
  pub total_samples : List ℕ
  pub stages : StageSamples
  pub packets_dropped : ℕ
  pub bytes_in : ℤ
  pub bytes_out : ℕ

abbrev pub no_run : Run
no_run = record {
  total_samples = [];
  stages = no_samples;
  packets_dropped = 0;
  bytes_in = pos 0;
  bytes_out = 0;
}

module _ {F : Type 0} ⦃d : Float F⦄ (search : Text → Text → Bool)
    (deflate : ℕ → Bytes → Bytes) where
  -- The stages after the filter kept the packet; `none` is an `IndexError` of the queue.
  unfoldable pub kept :
      (ℕ → ℕ)
      → StageSamples
      → Optimizer F
      → Readings F
      → FlowRecord F
      → Packet F
      → Option (Optimizer F × ProcessResult F × StageSamples)
  kept clock samples o env r p =
      let (p', result) = compress_packet deflate o.config p in
      let saved =
        if result.was_compressed
        then o.total_bytes_saved + space_saved_bytes result
        else o.total_bytes_saved in
      elim (schedule o.scheduling env.queue_now p') [
        | none ↦ none
        | some x ↦ some (
          record o { scheduling = x.0; total_in = o.total_in + 1; total_bytes_saved = saved },
          record {
            packet = x.1;
            dropped = false;
            drop_reason = no_reason;
            compressed = result.was_compressed;
            original_payload_size = length p.payload;
            compressed_payload_size = length x.1.payload;
            flow_record = some r;
          },
          late clock samples,
        )
      ]

  unfoldable pub timed_decision :
      (ℕ → ℕ)
      → StageSamples
      → Optimizer F
      → Readings F
      → FlowRecord F
      → Packet F
      → DropDecision F
      → Option (Optimizer F × ProcessResult F × StageSamples)
  timed_decision clock samples o env r p keep = kept clock samples o env r p
  timed_decision clock samples o env r p (drop reason) = some (
    record o { total_in = o.total_in + 1; total_dropped = o.total_dropped + 1 },
    record {
      packet = p;
      dropped = true;
      drop_reason = filtered reason;
      compressed = false;
      original_payload_size = 0;
      compressed_payload_size = 0;
      flow_record = some r;
    },
    samples,
  )

  unfoldable pub process_with_stage_timing :
      (ℕ → ℕ)
      → StageSamples
      → Optimizer F
      → Readings F
      → Packet F
      → Option (Optimizer F × ProcessResult F × StageSamples)
  process_with_stage_timing clock samples o env p =
      let (t, r) = update o.flow_tracker env.flow_clock p in
      let p' = hinted t r (classified search o.classifier p) in
      let (f, decision) =
        should_drop o.packet_filter (some (queue_size o.scheduling)) env.filter_now env.draw p' in
      timed_decision clock (early clock samples) (record o { flow_tracker = t; packet_filter = f })
        env r p' decision

  -- The counters after one packet.
  abbrev pub count_packet : Run → Packet F → ProcessResult F → List ℕ → StageSamples → Run
  count_packet run p result totals stages = record {
    total_samples = totals;
    stages = stages;
    packets_dropped = if result.dropped then run.packets_dropped + 1 else run.packets_dropped;
    bytes_in = run.bytes_in +ℤ p.size_bytes;
    bytes_out =
        if result.dropped then run.bytes_out else run.bytes_out + length result.packet.payload;
  }

  -- The loop over the packets, with the stages measured or not.
  unfoldable pub measure :
      Bool → Run → Optimizer F → List ((ℕ → ℕ) × Readings F × Packet F) → Option (Optimizer F × Run)
  measure measure_stages run o [] = some (o, run)
  measure true run o ((clock, env, p) ∷ rest) =
      elim (process_with_stage_timing clock run.stages o env p) [
        | none ↦ none
        | some x ↦
            measure true (count_packet run p x.1 (run.total_samples ++ (total_sample x.2 ∷ [])) x.2)
              x.0 rest
      ]
  measure false run o ((clock, env, p) ∷ rest) = elim (process search deflate o env p) [
    | none ↦ none
    | some x ↦
        measure false (count_packet run p x.1 (timed clock 0 run.total_samples) run.stages) x.0 rest
  ]
