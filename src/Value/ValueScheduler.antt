-- ===== src/Value/ValueScheduler.antt =====
-- `ValueScheduler` of bandwidth_optimizer/value.py. Its methods are those of `PriorityScheduler`, word for
-- word but for the key of an entry, so each is the operation of Scheduler at the negated value.
use smart_bandwidth_optimize.Base.{ℕ, Bool, Option, List}
use smart_bandwidth_optimize.Base.Float.{Float}
use smart_bandwidth_optimize.Classifier.{Packet}
use smart_bandwidth_optimize.Scheduler.{Entry, Queue, QueueStats}
use smart_bandwidth_optimize.Scheduler
use smart_bandwidth_optimize.Value.Key.{value_key}

-- `_ValueEntry`: sorted by the negated value, then by the sequence number.
abbrev pub ValueEntry : Type 0 → Type 0
ValueEntry F = Entry F F

abbrev pub ValueQueue : Type 0 → Type 0
ValueQueue F = Queue F F

module _ {F : Type 0} where
  abbrev pub init : ℕ → ValueQueue F
  init max_queue_size = Scheduler.init max_queue_size

  abbrev pub peek : ValueQueue F → Option (Packet F)
  peek s = Scheduler.peek s

  abbrev pub is_empty : ValueQueue F → Bool
  is_empty s = Scheduler.is_empty s

  abbrev pub is_full : ValueQueue F → Bool
  is_full s = Scheduler.is_full s

  abbrev pub reset_stats : ValueQueue F → ValueQueue F
  reset_stats s = Scheduler.reset_stats s

module _ {F : Type 0} ⦃d : Float F⦄ where
  abbrev pub find_worst_index : List (ValueEntry F) → ℕ
  find_worst_index heap = Scheduler.find_worst_index d.le heap

  abbrev pub enqueue : ValueQueue F → F → Packet F → Option (ValueQueue F × Packet F × Bool)
  enqueue s now p = Scheduler.enqueue d.le value_key s now p

  abbrev pub dequeue : ValueQueue F → ValueQueue F × Option (Packet F)
  dequeue s = Scheduler.dequeue d.le s

  abbrev pub drain : ValueQueue F → ValueQueue F × List (Packet F)
  drain s = Scheduler.drain d.le s

  abbrev pub stats : ValueQueue F → QueueStats F
  stats s = Scheduler.stats s
