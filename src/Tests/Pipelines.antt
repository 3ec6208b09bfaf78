-- ===== src/Tests/Pipelines.antt =====
-- The optimizer on concrete inputs.
use smart_bandwidth_optimize.Base.{
  ℕ, ◌+◌, ◌≡◌, refl, arith, Bool, false, Option, some, [], ◌∷◌, leb,
}
use smart_bandwidth_optimize.Base.Int.{pos}
use smart_bandwidth_optimize.Base.Text.{Text, Bytes, text_eq}
use smart_bandwidth_optimize.Base.Fixed.{Fixed, fixed_float, Fixed-IsOrder, fixed_arithmetic}
use smart_bandwidth_optimize.Config.{critical, total, value}
use smart_bandwidth_optimize.Classifier.{Packet}
use smart_bandwidth_optimize.Classifier.Rules.{default_classifier}
use smart_bandwidth_optimize.Compressor.{is_compressed, compress}
use smart_bandwidth_optimize.Filter.{
  TokenBucket, keep, should_drop, consume, refill, red_check, adjusted_prob,
}
use smart_bandwidth_optimize.Flow.{
  priority_hint, update, evict_expired, update_record, refresh_scores, note_burst, new_record,
  make_room, ema, ipt_factor,
}
use smart_bandwidth_optimize.Base.Dict.{keep_entries, lookup}
use smart_bandwidth_optimize.Outcome.{ProcessResult}
use smart_bandwidth_optimize.Scheduler.{
  Queue, init, enqueue, find_worst_index, find_worst_from, is_worse,
}
use smart_bandwidth_optimize.Scheduler.Enqueue.{IsValid, init-IsValid}
use smart_bandwidth_optimize.Scheduler.Entries.{entry_le-IsOrder}
use smart_bandwidth_optimize.Heapq.{heapify}
use smart_bandwidth_optimize.Heapq.Laws.{heapify_lem}
use smart_bandwidth_optimize.Scheduler.Priority.{leb-IsOrder, priority_key}
use smart_bandwidth_optimize.Queueing.{by_priority, queue_size}
use smart_bandwidth_optimize.Queueing.Laws.{IsReady, capacity}
use smart_bandwidth_optimize.Optimizer.{Optimizer, Readings, prepare, compress_packet, process}
use smart_bandwidth_optimize.Optimizer.Accounts.{
  IsProcessed, process_lem, IsConserved, start, processed, Reaches-IsConserved,
}
use smart_bandwidth_optimize.Optimizer.Pipeline.{IsLossless, process-IsLossless}
use smart_bandwidth_optimize.Optimizer.Overflow.{process_rejected}
use smart_bandwidth_optimize.Tests.Fixtures.{web, settings, empty}

abbrev pub never : Text → Text → Bool
never pattern text = false

abbrev pub pack : ℕ → Bytes → Bytes
pack level bytes = bytes

abbrev unpack : Bytes → Option Bytes
unpack bytes = some bytes

abbrev bucket : TokenBucket Fixed
bucket = record {
  refill_rate = pos 100_000;
  capacity = pos 200_000;
  tokens = pos 50_000;
  last_refill = pos 0;
}

abbrev pub optimizer : Optimizer Fixed
optimizer = record {
  config = settings;
  classifier = default_classifier;
  scheduling = by_priority empty;
  packet_filter = record { config = settings; buckets = λ p. bucket; drop_counts = λ p. 0 };
  flow_tracker = record {
    ttl = pos 120_000;
    max_flows = 10;
    boost_threshold = pos 2000;
    demote_threshold = pos 2000;
    table = [];
  };
  total_in = 0;
  total_dropped = 0;
  total_bytes_saved = 0;
}

abbrev pub readings : Readings Fixed
readings = record {
  flow_clock = λ i. pos (i + 1);
  filter_now = pos 9;
  draw = pos 500;
  queue_now = pos 10;
  value_now = pos 11;
}

ready : IsReady optimizer.scheduling
ready = init-IsValid leb-IsOrder 2

process_lem_example :
    (o' : Optimizer Fixed) × (r : ProcessResult Fixed) × (process never pack optimizer readings web
      ≡ some (o', r))
    × IsProcessed (record optimizer { total_in = optimizer.total_in + 1 }) o' r
process_lem_example = process_lem Fixed-IsOrder never pack optimizer readings web ready

is_plain : is_compressed web.payload ≡ false
unfolding is_compressed text_eq
is_plain = refl

-- The optimizer after the packet, and the result.
abbrev after :
    (o' : Optimizer Fixed) × (r : ProcessResult Fixed) × (process never pack optimizer readings web
      ≡ some (o', r))
after =
    let (o', r, e, x) = process_lem Fixed-IsOrder never pack optimizer readings web ready in
    (o', r, e)

process-IsLossless_example : IsLossless Fixed-IsOrder unpack web after.1
process-IsLossless_example =
    process-IsLossless Fixed-IsOrder never pack unpack optimizer readings web (λ l b. refl) is_plain
      ready after.2

conserved : IsConserved optimizer
unfolding init queue_size total
conserved = refl

Reaches-IsConserved_example :
    IsReady after.0.scheduling
    × IsConserved after.0
    × (capacity after.0.scheduling ≡ capacity optimizer.scheduling)
Reaches-IsConserved_example =
    Reaches-IsConserved Fixed-IsOrder ready conserved (processed readings web start after.2)

abbrev urgent : Packet Fixed
urgent = record web { priority = some critical }

abbrev full : Queue ℕ Fixed
full = record empty {
  max_size = 1;
  heap = record { key = 1; sequence = 0; packet = urgent } ∷ [];
  counter = 1;
}

full-IsValid : IsValid leb full
unfolding heapify
full-IsValid = record {
  positive = omega arith;
  bounded = omega arith;
  ordered = (heapify_lem (entry_le-IsOrder leb-IsOrder) full.heap).0;
  fresh = (omega arith, tt);
}

abbrev busy : Optimizer Fixed
busy = record optimizer { scheduling = by_priority full }

abbrev prepared : Packet Fixed
prepared = (prepare never busy readings web).2

-- The flow's scores are below the thresholds, so the packet keeps its priority.
prepared_lem : prepared ≡ web
unfolding prepare priority_hint update evict_expired keep_entries lookup update_record
    refresh_scores note_burst new_record make_room ema ipt_factor fixed_arithmetic
prepared_lem = refl

kept_web :
    (should_drop busy.packet_filter
      (some (queue_size busy.scheduling))
      readings.filter_now
      readings.draw
      web).1
    ≡ keep
unfolding should_drop consume refill red_check queue_size adjusted_prob value fixed_arithmetic
kept_web = refl

kept :
    (should_drop busy.packet_filter
      (some (queue_size busy.scheduling))
      readings.filter_now
      readings.draw
      prepared).1
    ≡ keep
kept = rw prepared_lem kept_web

compressed : (compress_packet pack settings web).0 ≡ web
unfolding compress_packet compress is_compressed text_eq
compressed = refl

rejected_web :
    enqueue leb priority_key full (pos 10) web
    ≡ some (
      record full { counter = 2; dropped_overflow = 1 },
      record web { enqueued_at = some (pos 10) },
      false,
    )
unfolding enqueue priority_key value find_worst_index find_worst_from is_worse init
rejected_web = refl

rejection :
    enqueue leb priority_key full readings.queue_now (compress_packet pack settings prepared).0
    ≡ some (
      record full { counter = 2; dropped_overflow = 1 },
      record web { enqueued_at = some (pos 10) },
      false,
    )
rejection = rw (prepared_lem, compressed) rejected_web

process_rejected_example :
    (o' : Optimizer Fixed) × (r : ProcessResult Fixed) × (process never pack busy readings web
      ≡ some (o', r))
    × (r.dropped ≡ false)
    × (o'.total_dropped ≡ busy.total_dropped)
    × (o'.scheduling ≡ by_priority (record full { counter = 2; dropped_overflow = 1 }))
    × (full.heap ≡ full.heap)
process_rejected_example =
    process_rejected never pack busy readings web refl full-IsValid kept rejection
