-- ===== src/Tests/Queues.antt =====
-- The priority queue on concrete inputs.
use smart_bandwidth_optimize.Base.{
  ℕ, ◌+◌, length, ◌≡◌, ◌⊎◌, refl, arith, Bool, none, some, List, [], ◌∷◌, leb,
}
use smart_bandwidth_optimize.Base.Int.{pos}
use smart_bandwidth_optimize.Base.Fixed.{Fixed, fixed_float}
use smart_bandwidth_optimize.Config.{bump, high, no_counts, total}
use smart_bandwidth_optimize.Classifier.{Packet}
use smart_bandwidth_optimize.Heapq.{heappop, siftup, sink, rise, heapify, smaller_child, swap, less}
use smart_bandwidth_optimize.Heapq.Laws.{heapify_lem}
use smart_bandwidth_optimize.Scheduler.Entries.{entry_le-IsOrder}
use smart_bandwidth_optimize.Scheduler.{Entry, Queue, init, enqueue, dequeue, drain, entry_le}
use smart_bandwidth_optimize.Scheduler.Enqueue.{IsValid, IsEnqueue, enqueue_lem}
use smart_bandwidth_optimize.Scheduler.Dequeue.{IsDequeue, dequeue_lem}
use smart_bandwidth_optimize.Scheduler.Drain.{Drained, drain_lem}
use smart_bandwidth_optimize.Scheduler.Priority.{
  priority_key, leb-IsOrder, Call, enqueue_call, dequeue_call, run, arrivals, IsSound, run-IsSound,
}
use smart_bandwidth_optimize.Scheduler.Reference.Runs.{
  new_reference, replies, replies_reference, replies-Refines,
}
use smart_bandwidth_optimize.Tests.Fixtures.{web, empty}

abbrev calls : List (Call Fixed)
calls = enqueue_call (pos 1) web ∷ enqueue_call (pos 2) web ∷ dequeue_call ∷ []

run-IsSound_example :
    (s : Queue ℕ Fixed) × (run calls (init 2) ≡ some s)
    × IsSound s
    × (total s.dequeue_counts + length s.heap + s.dropped_overflow ≡ arrivals calls)
run-IsSound_example = run-IsSound 2 calls

entries : IsSet (Entry ℕ Fixed)
entries = hlevel

replies-Refines_example :
    replies leb priority_key calls (init 2)
    ≡ some (
        replies_reference leb priority_key calls
          (new_reference (init {K = ℕ} {F = Fixed} 2).max_size))
replies-Refines_example = replies-Refines leb-IsOrder entries priority_key 2 calls

abbrev waiting : Entry ℕ Fixed
waiting = record { key = 2; sequence = 0; packet = web }

abbrev later : Entry ℕ Fixed
later = record { key = 2; sequence = 1; packet = web }

-- A full queue of two packets of one priority.
abbrev full : Queue ℕ Fixed
full = record empty {
  max_size = 2;
  heap = waiting ∷ later ∷ [];
  counter = 2;
  enqueue_counts = bump high (bump high no_counts);
}

full-IsValid : IsValid leb full
unfolding entry_le heapify siftup sink rise smaller_child swap less
full-IsValid = record {
  positive = omega arith;
  bounded = omega arith;
  ordered = (heapify_lem (entry_le-IsOrder leb-IsOrder) (waiting ∷ later ∷ [])).0;
  fresh = (omega arith, (omega arith, tt));
}

abbrev Enqueue : Type 0
Enqueue =
    (s' : Queue ℕ Fixed) × (p' : Packet Fixed) × (accepted : Bool) × (enqueue leb priority_key full
        (pos 1) web
      ≡ some (s', p', accepted))
    × IsEnqueue leb-IsOrder priority_key full (pos 1) web s' p' accepted

enqueue_lem_example : Enqueue
enqueue_lem_example = enqueue_lem leb-IsOrder priority_key full (pos 1) web full-IsValid

dequeue_lem_example :
    ((full.heap ≡ []) × (dequeue leb full ≡ (full, none)))
    ⊎ ((s' : Queue ℕ Fixed) × (e : Entry ℕ Fixed) × (dequeue leb full ≡ (s', some e.packet))
        × IsDequeue leb full s' e)
dequeue_lem_example = dequeue_lem leb-IsOrder full full-IsValid

drain_lem_example : Drained leb-IsOrder full (drain leb full).0 (drain leb full).1
drain_lem_example = drain_lem leb-IsOrder full full-IsValid

-- The queue after its first packet.
abbrev rest : Queue ℕ Fixed
rest = record full { heap = later ∷ []; dequeue_counts = bump high no_counts }

first_packet : dequeue leb full ≡ (rest, some web)
unfolding dequeue heappop siftup sink rise entry_le init
first_packet = refl
