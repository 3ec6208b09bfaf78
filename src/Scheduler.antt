-- ===== src/Scheduler.antt =====
-- bandwidth_optimizer/scheduler.py: the queue on a heap, over the key that its entries are sorted by.
-- `PriorityScheduler` takes the priority's number; `ValueScheduler` of bandwidth_optimizer/value.py has
-- the same methods and takes the negated value. `now` is the reading of `time.monotonic()`.
pub mod Ages
pub mod Entries
pub mod Worst
pub mod Enqueue
pub mod Dequeue
pub mod Drain
pub mod Priority
pub mod Reference
use smart_bandwidth_optimize.Base.{
  ℕ, zero, suc, ◌+◌, Bool, true, false, not, ◌&&◌, ◌||◌, Option, none, some, List, [], ◌∷◌, ltb,
  leb, if◌then◌else◌, length, get_elem?, set, last_from, init_from, or_else,
}
use smart_bandwidth_optimize.Base.Float.{Float, num, lt_by, eq_by}
use smart_bandwidth_optimize.Config.{TrafficPriority, medium, Counts, no_counts, bump}
use smart_bandwidth_optimize.Classifier.{Packet}
use smart_bandwidth_optimize.Heapq.{heappush, heappop, heapify}

pub record Entry (K F : Type 0) : Type 0 where
  pub key : K
  pub sequence : ℕ
  pub packet : Packet F

pub record Queue (K F : Type 0) : Type 0 where
  pub max_size : ℕ
  pub heap : List (Entry K F)
  pub counter : ℕ
  pub enqueue_counts : Counts
  pub dequeue_counts : Counts
  pub dropped_overflow : ℕ

abbrev pub priority_of : {F : Type 0} → Packet F → TrafficPriority
priority_of p = or_else p.priority medium

-- The entry that a packet gets: its key is read when it is enqueued.
abbrev pub entry_of : {K F : Type 0} → (Packet F → K) → Queue K F → Packet F → Entry K F
entry_of key s p = record { key = key p; sequence = s.counter; packet = p }

-- `packet.enqueued_at = time.monotonic()`
abbrev pub stamp : {F : Type 0} → F → Packet F → Packet F
stamp now p = record p { enqueued_at = some now }

module _ {K F : Type 0} where
  unfoldable pub init : ℕ → Queue K F
  init max_queue_size = record {
    max_size = if ltb 1 max_queue_size then max_queue_size else 1;
    heap = [];
    counter = 0;
    enqueue_counts = no_counts;
    dequeue_counts = no_counts;
    dropped_overflow = 0;
  }

  -- `heap[i] = heap[-1]` and `heap.pop()`
  unfoldable pub take_out : List (Entry K F) → ℕ → List (Entry K F)
  take_out [] i = []
  take_out (x ∷ xs) i = elim (set (x ∷ xs) i (last_from x xs)) [ [] ↦ [] | y ∷ ys ↦ init_from y ys ]

module _ {K F : Type 0} (le : K → K → Bool) where
  -- The order of the entries: by key, and then by sequence number.
  unfoldable pub entry_le : Entry K F → Entry K F → Bool
  entry_le a b = if eq_by le a.key b.key then leb a.sequence b.sequence else lt_by le a.key b.key

  -- The test of `_find_worst_index`: a greater key, or the same key and older.
  unfoldable pub is_worse : Entry K F → Entry K F → Bool
  is_worse e worst =
      lt_by le worst.key e.key || (eq_by le e.key worst.key && ltb e.sequence worst.sequence)

  -- Its loop, at index `i`; `worst` is `heap[worst_idx]`.
  unfoldable pub find_worst_from : ℕ → ℕ → Entry K F → List (Entry K F) → ℕ
  find_worst_from i worst_idx worst [] = worst_idx
  find_worst_from i worst_idx worst (e ∷ es) =
      find_worst_from (i + 1) (if is_worse e worst then i else worst_idx)
        (if is_worse e worst then e else worst) es

  unfoldable pub find_worst_index : List (Entry K F) → ℕ
  find_worst_index [] = 0
  find_worst_index (e ∷ es) = find_worst_from 0 0 e (e ∷ es)

  pub push : Queue K F → Entry K F → Queue K F × Packet F × Bool
  push s entry = (
    record s {
      heap = heappush entry_le s.heap entry;
      enqueue_counts = bump (priority_of entry.packet) s.enqueue_counts;
    },
    entry.packet,
    true,
  )

  -- The queue, the stamped packet, and whether it was accepted. `none` is an `IndexError`.
  unfoldable pub enqueue :
      (Packet F → K) → Queue K F → F → Packet F → Option (Queue K F × Packet F × Bool)
  unfolding push
  enqueue key s now packet =
      let p = stamp now packet in
      let entry = entry_of key s p in
      let counted = record s { counter = s.counter + 1 } in
      if leb s.max_size (length s.heap)
      then (let at = find_worst_index s.heap in
          elim (get_elem? s.heap at) [
            | none ↦ none
            | some worst ↦
                if lt_by le worst.key entry.key
                then some (record counted { dropped_overflow = s.dropped_overflow + 1 }, p, false)
                else some (
                    push
                      (record counted {
                        heap = heapify entry_le (take_out s.heap at);
                        dropped_overflow = s.dropped_overflow + 1;
                      })
                      entry)
          ])
      else some (push counted entry)

  unfoldable pub dequeue : Queue K F → Queue K F × Option (Packet F)
  dequeue s = elim (heappop entry_le s.heap) [
    | none ↦ (s, none)
    | some (entry, rest) ↦ (
      record s { heap = rest; dequeue_counts = bump (priority_of entry.packet) s.dequeue_counts },
      some entry.packet,
    )
  ]

  -- One round of the generator: what `dequeue` gave, and the rest of the run.
  drain_next :
      (Queue K F → Queue K F × List (Packet F))
      → Queue K F × Option (Packet F)
      → Queue K F × List (Packet F)
  drain_next rest (s', none) = (s', [])
  drain_next rest (s', some p) = let (last, packets) = rest s' in (last, p ∷ packets)

  -- The packets that the generator yields, and the queue that it leaves. The fuel is the length.
  unfoldable pub drain_from : ℕ → Queue K F → Queue K F × List (Packet F)
  unfolding drain_next
  drain_from zero s = (s, [])
  drain_from (suc fuel) s = drain_next (drain_from fuel) (dequeue s)

  unfoldable pub drain : Queue K F → Queue K F × List (Packet F)
  drain s = drain_from (length s.heap) s

module _ {K F : Type 0} where
  unfoldable pub peek : Queue K F → Option (Packet F)
  peek s = elim s.heap [ [] ↦ none | e ∷ es ↦ some e.packet ]

  unfoldable pub is_empty : Queue K F → Bool
  is_empty s = leb (length s.heap) 0

  unfoldable pub is_full : Queue K F → Bool
  is_full s = leb s.max_size (length s.heap)

  unfoldable pub reset_stats : Queue K F → Queue K F
  reset_stats s = record s {
    enqueue_counts = no_counts;
    dequeue_counts = no_counts;
    dropped_overflow = 0;
  }

pub record QueueStats (F : Type 0) : Type 0 where
  pub current_queue_size : ℕ
  pub max_queue_size : ℕ
  pub fill_ratio : F
  pub enqueue_counts : Counts
  pub dequeue_counts : Counts
  pub dropped_overflow : ℕ

unfoldable pub stats : {K F : Type 0} ⦃d : Float F⦄ → Queue K F → QueueStats F
stats ⦃d⦄ s = record {
  current_queue_size = length s.heap;
  max_queue_size = s.max_size;
  fill_ratio = d.over (num (length s.heap)) (num s.max_size);
  enqueue_counts = s.enqueue_counts;
  dequeue_counts = s.dequeue_counts;
  dropped_overflow = s.dropped_overflow;
}
