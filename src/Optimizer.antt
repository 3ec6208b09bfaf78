-- ===== src/Optimizer.antt =====
-- bandwidth_optimizer/optimizer.py: the pipeline of flow tracking, classification, filter, compression
-- and queue. With a value policy the queue is `ValueScheduler` and a tracker of values is kept; without
-- one it is `PriorityScheduler`. `re.search` and `zlib` are arguments.
pub mod Pipeline
pub mod Accounts
pub mod Overflow
use smart_bandwidth_optimize.Base.{
  ℕ, ◌+◌, ◌-◌, Bool, true, false, Option, none, some, List, [], ◌∷◌, if◌then◌else◌, length, leb,
}
use smart_bandwidth_optimize.Base.Int.{ℤ, pos, ◌+ℤ◌, ◌-ℤ◌}
use smart_bandwidth_optimize.Base.Text.{Text, Bytes}
use smart_bandwidth_optimize.Base.Float.{Float, num, lit}
use smart_bandwidth_optimize.Base.Dict.{insert}
use smart_bandwidth_optimize.Config.{TrafficPriority, DeploymentMode, OptimizerConfig, Counts}
use smart_bandwidth_optimize.Classifier.{Packet, TrafficClassifier, classify}
use smart_bandwidth_optimize.Scheduler.{Queue, QueueStats, enqueue, dequeue, drain}
use smart_bandwidth_optimize.Scheduler
use smart_bandwidth_optimize.Scheduler.Priority.{priority_key}
use smart_bandwidth_optimize.Filter.{
  PacketFilter, DropReason, DropDecision, keep, drop, should_drop, reset_drop_counts,
}
use smart_bandwidth_optimize.Filter
use smart_bandwidth_optimize.Compressor.{CompressionResult, compress, space_saved_bytes}
use smart_bandwidth_optimize.Flow.{
  FlowTracker, FlowRecord, FlowKey, key_eq, update, priority_hint, flow_count, init_tracker,
}
use smart_bandwidth_optimize.Queueing.{
  Scheduling, by_priority, by_value, new_scheduling, queue_size, schedule, next_packet,
  next_packets, note_dropped, note_delivered, queue_stats, reset_scheduling,
}
use smart_bandwidth_optimize.Outcome.{ProcessResult, Reason, no_reason, filtered}
use smart_bandwidth_optimize.Value.{FlowValuePolicy, assign}
use smart_bandwidth_optimize.Value.Key.{value_key}
use smart_bandwidth_optimize.Value.Losses.{
  ValueLossTracker, LossReport, record_delivered, record_dropped, report,
}
use smart_bandwidth_optimize.Value.Losses
use smart_bandwidth_optimize.Classifier.Rules.{default_classifier}

pub record Optimizer (F : Type 0) : Type 0 where
  pub config : OptimizerConfig F
  pub classifier : TrafficClassifier
  pub scheduling : Scheduling F
  pub packet_filter : PacketFilter F
  pub flow_tracker : FlowTracker F
  pub total_in : ℕ
  pub total_dropped : ℕ
  pub total_bytes_saved : ℕ

-- What one call of `process` reads from outside: the clock in the flow tracker, the filter, the queue and
-- the tracker of values, and the random draw.
pub record Readings (F : Type 0) : Type 0 where
  pub flow_clock : ℕ → F
  pub filter_now : F
  pub draw : F
  pub queue_now : F
  pub value_now : F

pub record OptimizerStats (F : Type 0) : Type 0 where
  pub mode : DeploymentMode
  pub total_bandwidth_bps : ℕ
  pub packets_received : ℕ
  pub packets_dropped : ℕ
  pub drop_rate : F
  pub bytes_saved_compression : ℕ
  pub queue : QueueStats F
  pub drops_by_priority : Counts
  pub active_flows : ℕ
  pub value : Option (LossReport F)

module _ {F : Type 0} ⦃d : Float F⦄ where
  open d use {over, le}

  pub new_optimizer : OptimizerConfig F → Option (FlowValuePolicy F) → PacketFilter F → Optimizer F
  new_optimizer c policy f = record {
    config = c;
    classifier = default_classifier;
    scheduling = new_scheduling policy c.max_queue_size;
    packet_filter = f;
    flow_tracker = init_tracker;
    total_in = 0;
    total_dropped = 0;
    total_bytes_saved = 0;
  }

  -- The constructor; `none` is the `ValueError` of a bucket.
  unfoldable pub init :
      OptimizerConfig F → Option (FlowValuePolicy F) → (TrafficPriority → F) → Option (Optimizer F)
  unfolding new_optimizer
  init c policy clock = elim (Filter.init c clock) [
    | none ↦ none
    | some f ↦ some (new_optimizer c policy f)
  ]

  -- Stage 1c. The record of the flow is the one in the tracker's table.
  unfoldable pub assign_value :
      Scheduling F
      → FlowTracker F
      → FlowRecord F
      → Packet F
      → FlowTracker F × FlowRecord F × Packet F
  assign_value (by_priority s) t r p = (t, r, p)
  assign_value (by_value policy s losses) t r p =
      let (p', coeff) = assign policy p in
      let r' = record r { value_coefficient = coeff } in
      (record t { table = insert key_eq r.key r' t.table }, r', p')

  -- Stage 1: a packet that has a priority keeps it.
  unfoldable pub classified : (Text → Text → Bool) → TrafficClassifier → Packet F → Packet F
  classified search c p = elim p.priority [ none ↦ (classify search c p).0 | some q ↦ p ]

  -- Stage 1b.
  unfoldable pub hinted : FlowTracker F → FlowRecord F → Packet F → Packet F
  hinted t r p = elim p.priority [
    | none ↦ p
    | some q ↦ record p { priority = some (priority_hint t q r) }
  ]

  -- Stages 0 to 1c: the flow tracker, the flow's record and the packet.
  unfoldable pub prepare :
      (Text → Text → Bool)
      → Optimizer F
      → Readings F
      → Packet F
      → FlowTracker F × FlowRecord F × Packet F
  unfolding classified hinted assign_value
  prepare search o env p =
      let (t, r) = update o.flow_tracker env.flow_clock p in
      assign_value o.scheduling t r (hinted t r (classified search o.classifier p))

  -- Stage 3: the packet, with the result of the compression.
  unfoldable pub compress_packet :
      (ℕ → Bytes → Bytes) → OptimizerConfig F → Packet F → Packet F × CompressionResult
  compress_packet deflate c p =
      let r = compress deflate c p.payload none none in
      (
        if r.was_compressed
            then record p {
              payload = r.payload;
              size_bytes = p.size_bytes -ℤ pos (length p.payload) +ℤ pos (length r.payload);
            }
            else p,
        r,
      )

  -- A packet that the filter drops.
  unfoldable pub drop_packet :
      Optimizer F
      → Readings F
      → FlowRecord F
      → Packet F
      → DropReason F
      → Optimizer F × ProcessResult F
  drop_packet o env r p reason = (
    record o {
      total_dropped = o.total_dropped + 1;
      scheduling = note_dropped o.scheduling env.value_now p.value_coefficient;
    },
    record {
      packet = p;
      dropped = true;
      drop_reason = filtered reason;
      compressed = false;
      original_payload_size = 0;
      compressed_payload_size = 0;
      flow_record = some r;
    },
  )

  -- What is left of `process` after the queue took the packet.
  unfoldable pub delivered :
      Optimizer F
      → Readings F
      → FlowRecord F
      → ℕ
      → CompressionResult
      → Scheduling F
      → Packet F
      → Optimizer F × ProcessResult F
  delivered o env r original_size result s p = (
    record o {
      total_bytes_saved =
          if result.was_compressed
          then o.total_bytes_saved + space_saved_bytes result
          else o.total_bytes_saved;
      scheduling = note_delivered s env.value_now p.value_coefficient;
    },
    record {
      packet = p;
      dropped = false;
      drop_reason = no_reason;
      compressed = result.was_compressed;
      original_payload_size = original_size;
      compressed_payload_size = length p.payload;
      flow_record = some r;
    },
  )

  -- Stages 3 and 4. `none` is an `IndexError` of the queue.
  unfoldable pub deliver :
      (ℕ → Bytes → Bytes)
      → Optimizer F
      → Readings F
      → FlowRecord F
      → Packet F
      → Option (Optimizer F × ProcessResult F)
  deliver deflate o env r p =
      let (p', result) = compress_packet deflate o.config p in
      elim (schedule o.scheduling env.queue_now p') [
        | none ↦ none
        | some (s, p'') ↦ some (delivered o env r (length p.payload) result s p'')
      ]

  unfoldable pub decided :
      (ℕ → Bytes → Bytes)
      → Optimizer F
      → Readings F
      → FlowRecord F
      → Packet F
      → DropDecision F
      → Option (Optimizer F × ProcessResult F)
  unfolding drop_packet deliver delivered
  decided deflate o env r p keep = deliver deflate o env r p
  decided deflate o env r p (drop reason) = some (drop_packet o env r p reason)

  -- `none` is the `IndexError` of the queue; `re.search`, `zlib.compress` and the conversions to `float`,
  -- which are arguments, return here.
  unfoldable pub process :
      (Text → Text → Bool)
      → (ℕ → Bytes → Bytes)
      → Optimizer F
      → Readings F
      → Packet F
      → Option (Optimizer F × ProcessResult F)
  unfolding decided
  process search deflate o env p =
      let (t, r, p') = prepare search o env p in
      let (f, decision) =
        should_drop o.packet_filter (some (queue_size o.scheduling)) env.filter_now env.draw p' in
      decided deflate (record o { total_in = o.total_in + 1; flow_tracker = t; packet_filter = f })
        env r p' decision

  unfoldable pub process_batch :
      (Text → Text → Bool)
      → (ℕ → Bytes → Bytes)
      → Optimizer F
      → List (Readings F × Packet F)
      → Option (Optimizer F × List (ProcessResult F))
  process_batch search deflate o [] = some (o, [])
  process_batch search deflate o ((env, p) ∷ ps) = elim (process search deflate o env p) [
    | none ↦ none
    | some (o', r) ↦ elim (process_batch search deflate o' ps) [
      | none ↦ none
      | some (o'', rs) ↦ some (o'', r ∷ rs)
    ]
  ]

  unfoldable pub dequeue_packet : Optimizer F → Optimizer F × Option (Packet F)
  dequeue_packet o = let (s, p) = next_packet o.scheduling in (record o { scheduling = s }, p)

  unfoldable pub drain_packets : Optimizer F → Optimizer F × List (Packet F)
  drain_packets o = let (s, ps) = next_packets o.scheduling in (record o { scheduling = s }, ps)

  -- `value_clock` gives the readings of the clock for the report on values.
  unfoldable pub stats : Optimizer F → (ℕ → F) → OptimizerStats F
  stats o value_clock = record {
    mode = o.config.mode;
    total_bandwidth_bps = o.config.total_bandwidth_bps;
    packets_received = o.total_in;
    packets_dropped = o.total_dropped;
    drop_rate = if leb o.total_in 0 then num 0 else over (num o.total_dropped) (num o.total_in);
    bytes_saved_compression = o.total_bytes_saved;
    queue = queue_stats o.scheduling;
    drops_by_priority = o.packet_filter.drop_counts;
    active_flows = flow_count o.flow_tracker;
    value = elim o.scheduling [
      | by_priority s ↦ none
      | by_value v s t ↦ some (report t value_clock)
    ];
  }

  unfoldable pub reset_stats : Optimizer F → Optimizer F
  reset_stats o = record o {
    total_in = 0;
    total_dropped = 0;
    total_bytes_saved = 0;
    packet_filter = reset_drop_counts o.packet_filter;
    scheduling = reset_scheduling o.scheduling;
  }
