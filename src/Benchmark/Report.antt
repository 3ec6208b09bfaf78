-- ===== src/Benchmark/Report.antt =====
-- `Benchmarker.run` of bandwidth_optimizer/benchmark.py: warm-up, measured run and result. The memory
-- before and after, and the clock around the run, are arguments.
use smart_bandwidth_optimize.Base.{
  ℕ, ◌-◌, Bool, Option, none, some, List, [], ◌∷◌, map, if◌then◌else◌, ◌==◌, length,
}
use smart_bandwidth_optimize.Base.Int.{ℤ}
use smart_bandwidth_optimize.Base.Text.{Text, Bytes, codes}
use smart_bandwidth_optimize.Base.Float.{Float, num, lt}
use smart_bandwidth_optimize.Classifier.{Packet, is_zero}
use smart_bandwidth_optimize.Optimizer.{Optimizer, Readings, process_batch, reset_stats}
use smart_bandwidth_optimize.Benchmark.{StageSamples, Run, no_run, measure}
use smart_bandwidth_optimize.Benchmark.Latency.{LatencyStats, from_samples}

pub record BenchmarkResult (F : Type 0) : Type 0 where
  pub packets_processed : ℕ
  pub duration_seconds : F
  pub packets_per_second : F
  pub total_latency : LatencyStats F
  pub stage_latency : List (Text × LatencyStats F)
  pub memory_rss_before_bytes : ℕ
  pub memory_rss_after_bytes : ℕ
  pub packets_dropped : ℕ
  pub bytes_in : ℤ
  pub bytes_out : ℕ

module _ {F : Type 0} where
  -- `max(0, after - before)`
  abbrev pub memory_delta_bytes : BenchmarkResult F → ℕ
  memory_delta_bytes r = r.memory_rss_after_bytes - r.memory_rss_before_bytes

module _ {F : Type 0} ⦃d : Float F⦄ where
  open d use {over, of_int}

  abbrev pub drop_rate : BenchmarkResult F → F
  drop_rate r =
      if r.packets_processed == 0
      then num 0
      else over (num r.packets_dropped) (num r.packets_processed)

  abbrev pub compression_ratio : BenchmarkResult F → F
  compression_ratio r =
      if is_zero r.bytes_in then num 1 else over (num r.bytes_out) (of_int r.bytes_in)

  -- `[ns / 1000.0 for ns in samples]`
  abbrev pub in_us : List ℕ → List F
  in_us = map (λ ns. over (num ns) (num 1000))

  module _ (mean : List F → F) (trunc : F → ℕ) where
    -- The statistics of a stage in front of those of the others, if it has samples.
    abbrev pub add_stage :
        Text
        → List ℕ
        → Option (List (Text × LatencyStats F))
        → Option (List (Text × LatencyStats F))
    add_stage name [] rest = rest
    add_stage name (n ∷ ns) rest = elim (from_samples mean trunc (in_us (n ∷ ns))) [
      | none ↦ none
      | some s ↦ elim rest [ none ↦ none | some others ↦ some ((name, s) ∷ others) ]
    ]

    unfoldable pub stage_latency : StageSamples → Option (List (Text × LatencyStats F))
    stage_latency s = add_stage (codes "flow_track") s.flow_track (
        add_stage (codes "classify") s.classify (
          add_stage (codes "filter") s.filter (
            add_stage (codes "compress") s.compress
              (add_stage (codes "schedule") s.schedule (some [])))))

    -- The result of a run, from the times in nanoseconds.
    unfoldable pub result_of : Bool → ℕ → Run → F → ℕ → ℕ → Option (BenchmarkResult F)
    result_of measure_stages n run duration_s rss_before rss_after =
        elim (from_samples mean trunc (in_us run.total_samples)) [
          | none ↦ none
          | some total ↦ elim (if measure_stages then stage_latency run.stages else some []) [
            | none ↦ none
            | some stages ↦ some (record {
              packets_processed = n;
              duration_seconds = duration_s;
              packets_per_second = if lt (num 0) duration_s then over (num n) duration_s else num 0;
              total_latency = total;
              stage_latency = stages;
              memory_rss_before_bytes = rss_before;
              memory_rss_after_bytes = rss_after;
              packets_dropped = run.packets_dropped;
              bytes_in = run.bytes_in;
              bytes_out = run.bytes_out;
            })
          ]
        ]

    -- `none` is an exception of the pipeline or an `IndexError` of the statistics.
    unfoldable pub run :
        (Text → Text → Bool)
        → (ℕ → Bytes → Bytes)
        → Bool
        → Optimizer F
        → List (Readings F × Packet F)
        → List ((ℕ → ℕ) × Readings F × Packet F)
        → F
        → ℕ
        → ℕ
        → Option (Optimizer F × BenchmarkResult F)
    run search deflate measure_stages o warmup packets duration_s rss_before rss_after =
        elim (process_batch search deflate o warmup) [
          | none ↦ none
          | some (warm, results) ↦
              elim (measure search deflate measure_stages no_run (reset_stats warm) packets) [
                | none ↦ none
                | some (last, totals) ↦
                    elim (result_of measure_stages (length packets) totals duration_s rss_before
                      rss_after) [ none ↦ none | some r ↦ some (last, r) ]
              ]
        ]
