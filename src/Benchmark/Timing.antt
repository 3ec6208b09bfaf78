-- ===== src/Benchmark/Timing.antt =====
-- The stages that the benchmark times one by one, against the optimizer's pipeline.
use smart_bandwidth_optimize.Base.{
  ℕ, ◌+◌, ◌-◌, ◌≡◌, arith, List, [], ◌∷◌, ◌++◌, last_from, Bool-cases, refl, ap, sym, ◌∙◌, Bool,
  false, Option, none, some, if◌then◌else◌, inl, inr, Option-cases, leb,
}
use smart_bandwidth_optimize.Base.Text.{Text, Bytes}
use smart_bandwidth_optimize.Base.Float.{Float}
use smart_bandwidth_optimize.Classifier.{Packet}
use smart_bandwidth_optimize.Filter.{DropDecision, keep, drop, should_drop}
use smart_bandwidth_optimize.Flow.{FlowRecord, FlowTracker, update}
use smart_bandwidth_optimize.Queueing.{
  by_priority, schedule, note_delivered, note_dropped, queue_size,
}
use smart_bandwidth_optimize.Scheduler.{Queue, enqueue}
use smart_bandwidth_optimize.Scheduler.Priority.{priority_key}
use smart_bandwidth_optimize.Outcome.{ProcessResult}
use smart_bandwidth_optimize.Optimizer.{
  Optimizer, Readings, assign_value, classified, hinted, prepare, compress_packet, drop_packet,
  delivered, deliver, decided, process,
}
use smart_bandwidth_optimize.Benchmark.{
  StageSamples, early, late, last_sample, total_sample, kept, timed_decision,
  process_with_stage_timing,
}

module _ {F : Type 0} ⦃d : Float F⦄ (search : Text → Text → Bool)
    (deflate : ℕ → Bytes → Bytes) where
  -- A result without the samples.
  abbrev pub untimed :
      Option (Optimizer F × ProcessResult F × StageSamples) → Option (Optimizer F × ProcessResult F)
  untimed none = none
  untimed (some x) = some (x.0, x.1)

  kept-deliver :
      (clock : ℕ → ℕ) (samples : StageSamples) (o : Optimizer F) (q : Queue ℕ F) (env : Readings F)
      (r : FlowRecord F) (p : Packet F)
      → o.scheduling ≡ by_priority q
      → untimed (kept search deflate clock samples o env r p)
        ≡ deliver deflate (record o { total_in = o.total_in + 1 }) env r p
  unfolding kept deliver delivered schedule note_delivered
  kept-deliver clock samples o q env r p h =
      elim (Option-cases
        (enqueue leb priority_key q env.queue_now (compress_packet deflate o.config p).0)) [
          | inl failure ↦ rw h (rw (untimed, kept, deliver, schedule, failure) refl)
          | inr (x, found) ↦ rw h (rw (untimed, kept, deliver, schedule, found) refl)
        ]

  timed_decision-decided :
      (clock : ℕ → ℕ) (samples : StageSamples) (o : Optimizer F) (q : Queue ℕ F) (env : Readings F)
      (r : FlowRecord F) (p : Packet F) (x : DropDecision F)
      → o.scheduling ≡ by_priority q
      → untimed (timed_decision search deflate clock samples o env r p x)
        ≡ decided deflate (record o { total_in = o.total_in + 1 }) env r p x
  unfolding timed_decision decided drop_packet note_dropped
  timed_decision-decided clock samples o q env r p keep h = kept-deliver clock samples o q env r p h
  timed_decision-decided clock samples o q env r p (drop reason) h = rw h refl

  prepare_plain :
      (o : Optimizer F) (q : Queue ℕ F) (env : Readings F) (p : Packet F)
      → o.scheduling ≡ by_priority q
      → let (t, r) = update o.flow_tracker env.flow_clock p in
        prepare search o env p ≡ (t, r, hinted t r (classified search o.classifier p))
  unfolding prepare assign_value
  prepare_plain o q env p h = rw (assign_value, h) refl

  -- Without a value policy, the benchmark's stages do what `process` does: the same optimizer and the same
  -- result, or the same exception.
  pub process_with_stage_timing-process :
      (clock : ℕ → ℕ) (samples : StageSamples) (o : Optimizer F) (q : Queue ℕ F) (env : Readings F)
      (p : Packet F)
      → o.scheduling ≡ by_priority q
      → untimed (process_with_stage_timing search deflate clock samples o env p)
        ≡ process search deflate o env p
  unfolding process_with_stage_timing process
  process_with_stage_timing-process clock samples o q env p h =
      let (t, r) = update o.flow_tracker env.flow_clock p in
      let p' = hinted t r (classified search o.classifier p) in
      let (f, decision) =
        should_drop o.packet_filter (some (queue_size o.scheduling)) env.filter_now env.draw p' in
      timed_decision-decided clock (early clock samples)
        (record o { flow_tracker = t; packet_filter = f }) q env r p' decision h
      ∙ ap
          (λ (x : FlowTracker F × FlowRecord F × Packet F).
            let (g, choice) =
              should_drop o.packet_filter (some (queue_size o.scheduling)) env.filter_now env.draw
                x.2 in
            decided deflate
              (record o { total_in = o.total_in + 1; flow_tracker = x.0; packet_filter = g }) env
              x.1 x.2 choice)
          (sym (prepare_plain o q env p h))

last_from-append : (m n : ℕ) (ns : List ℕ) → last_from m (ns ++ (n ∷ [])) ≡ n
last_from-append m n [] = refl
last_from-append m n (k ∷ ns) = last_from-append k n ns

last_sample-append : (ns : List ℕ) (n : ℕ) → last_sample (ns ++ (n ∷ [])) ≡ n
last_sample-append [] n = refl
last_sample-append (k ∷ ns) n = last_from-append k n ns

-- The time of the stages up to the filter.
abbrev pub early_time : (ℕ → ℕ) → ℕ
early_time clock = (clock 1 - clock 0) + (clock 3 - clock 2) + (clock 5 - clock 4)

-- The time of the stages after the filter.
abbrev pub late_time : (ℕ → ℕ) → ℕ
late_time clock = (clock 7 - clock 6) + (clock 9 - clock 8)

total-early :
    (clock : ℕ → ℕ) (s : StageSamples)
    → total_sample (early clock s)
      ≡ early_time clock + (last_sample s.compress + last_sample s.schedule)
unfolding total_sample
total-early clock s = omega (
  arith,
  last_sample-append s.flow_track (clock 1 - clock 0),
  last_sample-append s.classify (clock 3 - clock 2),
  last_sample-append s.filter (clock 5 - clock 4),
)

total-late :
    (clock : ℕ → ℕ) (s : StageSamples)
    → total_sample (late clock (early clock s)) ≡ early_time clock + late_time clock
unfolding total_sample
total-late clock s = omega (
  arith,
  last_sample-append s.flow_track (clock 1 - clock 0),
  last_sample-append s.classify (clock 3 - clock 2),
  last_sample-append s.filter (clock 5 - clock 4),
  last_sample-append s.compress (clock 7 - clock 6),
  last_sample-append s.schedule (clock 9 - clock 8),
)

module _ {F : Type 0} ⦃d : Float F⦄ (search : Text → Text → Bool)
    (deflate : ℕ → Bytes → Bytes) where
  kept_samples :
      (clock : ℕ → ℕ) (samples : StageSamples) (o : Optimizer F) (env : Readings F)
      (r : FlowRecord F) (p : Packet F) {x : Optimizer F × ProcessResult F × StageSamples}
      → kept search deflate clock samples o env r p ≡ some x
      → (x.1.dropped ≡ false) × (x.2 ≡ late clock samples)
  unfolding kept
  kept_samples clock samples o env r p h =
      elim (Option-cases
        (schedule o.scheduling env.queue_now (compress_packet deflate o.config p).0)) [
          | inl failure ↦ absurd (ground (arith, failure, h))
          | inr (y, found) ↦ (ground (arith, found, h), ground (arith, found, h))
        ]

  timed_decision_samples :
      (clock : ℕ → ℕ) (samples : StageSamples) (o : Optimizer F) (env : Readings F)
      (r : FlowRecord F) (p : Packet F) (choice : DropDecision F)
      {x : Optimizer F × ProcessResult F × StageSamples}
      → timed_decision search deflate clock samples o env r p choice ≡ some x
      → x.2 ≡ (if x.1.dropped then samples else late clock samples)
  unfolding timed_decision
  timed_decision_samples clock samples o env r p keep h =
      let (plain, same) = kept_samples clock samples o env r p h in rw plain same
  timed_decision_samples clock samples o env r p (drop reason) h = ground (arith, h)

  -- What a packet counts for in the total latency: the time of its five stages if it was kept; if it was
  -- dropped, the time of its three stages and the last times of compression and scheduling, which are
  -- those of an earlier packet.
  pub process_with_stage_timing_total :
      (clock : ℕ → ℕ) (samples : StageSamples) (o : Optimizer F) (env : Readings F) (p : Packet F)
      {x : Optimizer F × ProcessResult F × StageSamples}
      → process_with_stage_timing search deflate clock samples o env p ≡ some x
      → total_sample x.2
        ≡ early_time clock
          + (if x.1.dropped
              then last_sample samples.compress + last_sample samples.schedule
              else late_time clock)
  unfolding process_with_stage_timing
  process_with_stage_timing_total clock samples o env p {x} h =
      let (t, r) = update o.flow_tracker env.flow_clock p in
      let p' = hinted t r (classified search o.classifier p) in
      let (f, decision) =
        should_drop o.packet_filter (some (queue_size o.scheduling)) env.filter_now env.draw p' in
      let same =
        timed_decision_samples clock (early clock samples)
          (record o { flow_tracker = t; packet_filter = f }) env r p' decision h in
      elim (Bool-cases x.1.dropped) [
        | inl dropped ↦ rw (same, dropped) (total-early clock samples)
        | inr plain ↦ rw (same, plain) (total-late clock samples)
      ]
