-- ===== src/Sla/Wrapped.antt =====
-- The optimizer as the monitor's source.
use smart_bandwidth_optimize.Base.Float.{Float, IsOrder}
use smart_bandwidth_optimize.Classifier.{Packet}
use smart_bandwidth_optimize.Outcome.{ProcessResult}
use smart_bandwidth_optimize.Queueing.{queue_size}
use smart_bandwidth_optimize.Queueing.Laws.{IsReady, next_packet_lem}
use smart_bandwidth_optimize.Optimizer.{Optimizer, dequeue_packet}
use smart_bandwidth_optimize.Sla.{Source, IsSource}

module _ {F : Type 0} ⦃d : Float F⦄ where
  -- `process` needs readings of clocks, so it is left open.
  abbrev pub optimizer_source :
      (Optimizer F → Packet F → Optimizer F × Packet F × ProcessResult F) → Source (Optimizer F) F
  optimizer_source call = record {
    process_packet = call;
    dequeue_packet = dequeue_packet;
    waiting = λ o. queue_size o.scheduling;
  }

  abbrev pub HasReadyQueue : Optimizer F → Type 0
  HasReadyQueue o = IsReady o.scheduling

  -- An optimizer with a valid queue is what the monitor's `dequeue` relies on: each call hands out one of
  -- the packets that wait, if there is any, and leaves the queue valid.
  optimizer_source-IsSource :
      (call : Optimizer F → Packet F → Optimizer F × Packet F × ProcessResult F)
      → IsOrder d.le
      → IsSource (optimizer_source call) HasReadyQueue
  unfolding dequeue_packet
  optimizer_source-IsSource call order = record {
    fine = λ o h. (next_packet_lem order o.scheduling h).ready;
    progress = λ o h. (next_packet_lem order o.scheduling h).progress;
  }
