-- ===== src/Queueing.antt =====
-- The optimizer's queue of bandwidth_optimizer/optimizer.py in both modes: the calls of `_scheduler` and
-- of `_value_tracker`.
pub mod Laws
use smart_bandwidth_optimize.Base.{ℕ, ◌+◌, Bool, Option, none, some, List, length, leb}
use smart_bandwidth_optimize.Base.Float.{Float, num}
use smart_bandwidth_optimize.Classifier.{Packet}
use smart_bandwidth_optimize.Scheduler.{Queue, QueueStats, enqueue, dequeue, drain}
use smart_bandwidth_optimize.Scheduler
use smart_bandwidth_optimize.Scheduler.Priority.{priority_key}
use smart_bandwidth_optimize.Value.{FlowValuePolicy}
use smart_bandwidth_optimize.Value.ValueScheduler.{ValueQueue}
use smart_bandwidth_optimize.Value.ValueScheduler
use smart_bandwidth_optimize.Value.Losses.{ValueLossTracker, record_delivered, record_dropped}
use smart_bandwidth_optimize.Value.Losses

-- `_scheduler`, with `_flow_value_policy` and `_value_tracker`, which are there exactly in value mode.
pub data Scheduling (F : Type 0) : Type 0 where
  by_priority : Queue ℕ F → Scheduling F
  by_value : FlowValuePolicy F → ValueQueue F → ValueLossTracker F → Scheduling F

module _ {F : Type 0} where
  -- `len(self._scheduler)`
  unfoldable pub queue_size : Scheduling F → ℕ
  queue_size (by_priority s) = length s.heap
  queue_size (by_value v s t) = length s.heap

module _ {F : Type 0} ⦃d : Float F⦄ where
  open d use {le}

  -- The queue and the tracker that the constructor makes.
  unfoldable pub new_scheduling : Option (FlowValuePolicy F) → ℕ → Scheduling F
  new_scheduling none max_queue_size = by_priority (Scheduler.init max_queue_size)
  new_scheduling (some v) max_queue_size =
      by_value v (ValueScheduler.init max_queue_size) (Losses.init (num 5))

  -- `self._scheduler.enqueue(packet)`: the packet is stamped; what the call returns is not used.
  unfoldable pub schedule : Scheduling F → F → Packet F → Option (Scheduling F × Packet F)
  schedule (by_priority s) now p = elim (enqueue leb priority_key s now p) [
    | none ↦ none
    | some (s', p', accepted) ↦ some (by_priority s', p')
  ]
  schedule (by_value v s t) now p = elim (ValueScheduler.enqueue s now p) [
    | none ↦ none
    | some (s', p', accepted) ↦ some (by_value v s' t, p')
  ]

  unfoldable pub next_packet : Scheduling F → Scheduling F × Option (Packet F)
  next_packet (by_priority s) = let (s', p) = dequeue leb s in (by_priority s', p)
  next_packet (by_value v s t) = let (s', p) = ValueScheduler.dequeue s in (by_value v s' t, p)

  unfoldable pub next_packets : Scheduling F → Scheduling F × List (Packet F)
  next_packets (by_priority s) = let (s', ps) = drain leb s in (by_priority s', ps)
  next_packets (by_value v s t) = let (s', ps) = ValueScheduler.drain s in (by_value v s' t, ps)

  unfoldable pub note_dropped : Scheduling F → F → F → Scheduling F
  note_dropped (by_priority s) now v = by_priority s
  note_dropped (by_value policy s t) now v = by_value policy s (record_dropped t now v)

  unfoldable pub note_delivered : Scheduling F → F → F → Scheduling F
  note_delivered (by_priority s) now v = by_priority s
  note_delivered (by_value policy s t) now v = by_value policy s (record_delivered t now v)

  unfoldable pub queue_stats : Scheduling F → QueueStats F
  queue_stats (by_priority s) = Scheduler.stats s
  queue_stats (by_value v s t) = ValueScheduler.stats s

  unfoldable pub reset_scheduling : Scheduling F → Scheduling F
  reset_scheduling (by_priority s) = by_priority (Scheduler.reset_stats s)
  reset_scheduling (by_value v s t) = by_value v (ValueScheduler.reset_stats s) (Losses.reset t)
