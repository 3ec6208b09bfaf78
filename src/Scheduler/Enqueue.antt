-- ===== src/Scheduler/Enqueue.antt =====
-- `enqueue`: the invariant of the queue, and what a call does to the entries.
use smart_bandwidth_optimize.Base.{
  ℕ, ◌+◌, ◌≤◌, ◌<◌, ◌≡◌, refl, inl, inr, Bool, true, false, some, List, ◌∷◌, arith, leb,
  if◌then◌else◌, length, All, Perm, Bool-cases, length-perm,
}
use mathlib.Core.List.Perm
use native.Mathlib.Bridge.{le_prop}
use smart_bandwidth_optimize.Base.Float.{IsOrder, lt_by}
use smart_bandwidth_optimize.Config.{total, total-bump}
use smart_bandwidth_optimize.Classifier.{Packet}
use smart_bandwidth_optimize.Heapq.{heappush, heapify}
use smart_bandwidth_optimize.Heapq.Order.{IsHeap}
use smart_bandwidth_optimize.Heapq.Laws.{heappush_lem, heapify_lem}
use smart_bandwidth_optimize.Scheduler.{
  Entry, Queue, entry_of, stamp, take_out, entry_le, find_worst_index, push, enqueue, init,
}
use smart_bandwidth_optimize.Scheduler.Entries.{All-perm, All_map, entry_le-IsOrder, take_out-perm}
use smart_bandwidth_optimize.Scheduler.Worst.{IsWorst, find_worst_index_lem}

-- The queue fits its bound, its list is a heap, and no sequence number was used twice: all are below
-- the counter.
pub record IsValid {K F : Type 0} (le : K → K → Bool) (s : Queue K F) : Type 0 where
  pub positive : 0 < s.max_size
  pub bounded : length s.heap ≤ s.max_size
  pub ordered : IsHeap (entry_le le) s.heap
  pub fresh : All (λ e. e.sequence < s.counter) s.heap

-- Every packet that came in is waiting, was handed out, or was dropped.
abbrev pub IsAccounted : {K F : Type 0} → Queue K F → Type 0
IsAccounted s = total s.dequeue_counts + length s.heap + s.dropped_overflow ≡ s.counter

-- What a call of `enqueue` does to the waiting entries, and whether it accepts the new one.
pub data Enqueued {K F : Type 0} (le : K → K → Bool) (max : ℕ) (before : List (Entry K F))
    (e : Entry K F) (after : List (Entry K F)) (accepted : Bool) : Type 0 where
  -- There is room.
  room :
      length before < max
      → Perm after (e ∷ before)
      → accepted ≡ true
      → Enqueued le max before e after accepted
  -- The queue is full of better entries.
  rejected :
      (w : Entry K F) (others : List (Entry K F))
      → max ≤ length before
      → IsWorst le w before
      → Perm before (w ∷ others)
      → lt_by le w.key e.key ≡ true
      → after ≡ before
      → accepted ≡ false
      → Enqueued le max before e after accepted
  -- The worst entry makes room.
  evicted :
      (w : Entry K F) (others : List (Entry K F))
      → max ≤ length before
      → IsWorst le w before
      → lt_by le w.key e.key ≡ false
      → Perm before (w ∷ others)
      → Perm after (e ∷ others)
      → accepted ≡ true
      → Enqueued le max before e after accepted

module _ {K F : Type 0} {le : K → K → Bool} (order : IsOrder le) where
  pub init-IsValid : (n : ℕ) → IsValid le (init {K = K} {F = F} n)
  unfolding init
  init-IsValid n = record {
    positive = ground arith;
    bounded = ground arith;
    ordered = λ j h s. refl;
    fresh = tt;
  }

  -- The result of a call on a valid queue.
  pub record IsEnqueue (key : Packet F → K) (s : Queue K F) (now : F) (p : Packet F)
      (s' : Queue K F) (p' : Packet F) (accepted : Bool) : Type 0 where
    pub valid : IsValid le s'
    pub size : s'.max_size ≡ s.max_size
    pub stamped : p' ≡ stamp now p
    pub counted : s'.counter ≡ s.counter + 1
    pub dequeued : s'.dequeue_counts ≡ s.dequeue_counts
    pub contents : Enqueued le s.max_size s.heap (entry_of key s (stamp now p)) s'.heap accepted
    pub accounted : length s'.heap + s'.dropped_overflow ≡ length s.heap + s.dropped_overflow + 1
    pub enqueued :
        total s'.enqueue_counts
        ≡ (if accepted then total s.enqueue_counts + 1 else total s.enqueue_counts)

  module _ (key : Packet F → K) (s : Queue K F) (now : F) (p : Packet F) (v : IsValid le s) where
    e : Entry K F
    e = entry_of key s (stamp now p)

    later :
        (xs : List (Entry K F))
        → All (λ x. x.sequence < s.counter) xs
        → All (λ x. x.sequence < s.counter + 1) xs
    later = All_map (λ x. x.sequence < s.counter) (λ x h. omega arith)

    pushed :
        (others : List (Entry K F)) (heap : List (Entry K F)) (dropped : ℕ)
        → IsHeap (entry_le le) heap
        → Perm heap others
        → All (λ x. x.sequence < s.counter) others
        → length others < s.max_size
        → let after = heappush (entry_le le) heap e in
          IsHeap (entry_le le) after
          × Perm after (e ∷ others)
          × All (λ x. x.sequence < s.counter + 1) after
          × (length after ≡ length others + 1)
    unfolding e
    pushed others heap dropped h same fresh fits =
        let (heap', items) =
          heappush_lem (entry_le-IsOrder order) heap (entry_of key s (stamp now p)) h in
        let all = Perm.trans items (Perm.cons (entry_of key s (stamp now p)) same) in
        (
          heap',
          all,
          All-perm (λ x. x.sequence < s.counter + 1) (λ x. le_prop) (Perm.symm all)
              (omega arith, later others fresh),
          omega (arith, length-perm all),
        )

    abbrev counted : Queue K F
    counted = record s { counter = s.counter + 1 }

    abbrev evicting : Queue K F
    evicting = record counted {
      heap = heapify (entry_le le) (take_out s.heap (find_worst_index le s.heap));
      dropped_overflow = s.dropped_overflow + 1;
    }

    abbrev Outcome : Type 0
    Outcome =
        (s' : Queue K F) × (p' : Packet F) × (accepted : Bool) × (enqueue le key s now p
          ≡ some (s', p', accepted))
        × IsEnqueue key s now p s' p' accepted

    enqueue_room : leb s.max_size (length s.heap) ≡ false → Outcome
    unfolding enqueue push e
    enqueue_room roomy =
        let (heap, items, fresh, size) =
          pushed s.heap s.heap 0 v.ordered (Perm.refl s.heap) v.fresh (ground arith) in
        (
          (push le counted e).0,
          stamp now p,
          true,
          rw roomy,
          record {
            valid = record {
              positive = v.positive;
              bounded = ground arith;
              ordered = heap;
              fresh = fresh;
            };
            size = refl;
            stamped = refl;
            counted = refl;
            dequeued = refl;
            contents = room (ground arith) items refl;
            accounted = omega arith;
            enqueued = total-bump _ s.enqueue_counts;
          },
        )

    enqueue_full : leb s.max_size (length s.heap) ≡ true → Outcome
    unfolding enqueue push e
    enqueue_full full =
        let (w, at, worst) = find_worst_index_lem order s.heap (ground arith) in
        elim (Bool-cases (lt_by le w.key (key (stamp now p)))) [
          | inl lower ↦ (
            record counted { dropped_overflow = s.dropped_overflow + 1 },
            stamp now p,
            false,
            ground (arith, full, at, lower),
            record {
              valid = record {
                positive = v.positive;
                bounded = v.bounded;
                ordered = v.ordered;
                fresh = later s.heap v.fresh;
              };
              size = refl;
              stamped = refl;
              counted = refl;
              dequeued = refl;
              contents =
                  rejected w (take_out s.heap (find_worst_index le s.heap)) (ground arith) worst
                    (take_out-perm s.heap (find_worst_index le s.heap) at) lower refl refl;
              accounted = omega arith;
              enqueued = refl;
            },
          )
          | inr higher ↦
              let others = take_out s.heap (find_worst_index le s.heap) in
              let split = take_out-perm s.heap (find_worst_index le s.heap) at in
              let (heap, same) = heapify_lem (entry_le-IsOrder order) others in
              let fresh_all = All-perm (λ x. x.sequence < s.counter) (λ x. le_prop) split v.fresh in
              let (heap', items, fresh, size) =
                pushed others (heapify (entry_le le) others) 0 heap same fresh_all.1
                  (omega (arith, length-perm split, v.bounded)) in
              (
                (push le evicting e).0,
                stamp now p,
                true,
                ground (arith, full, at, higher),
                record {
                  valid = record {
                    positive = v.positive;
                    bounded = omega (arith, length-perm split, v.bounded);
                    ordered = heap';
                    fresh = fresh;
                  };
                  size = refl;
                  stamped = refl;
                  counted = refl;
                  dequeued = refl;
                  contents = evicted w others (ground arith) worst higher split items refl;
                  accounted = omega (arith, length-perm split);
                  enqueued = total-bump _ s.enqueue_counts;
                },
              )
        ]

  -- On a valid queue `enqueue` never raises `IndexError`. It keeps the invariant, stamps the
  -- packet, and, as `Enqueued` says: with room it adds the packet; on a full queue no waiting entry
  -- is worse than some waiting `w`, and the packet is rejected, with the waiting entries unchanged,
  -- exactly when its key is greater than that of `w`; else `w` leaves and the packet is added. Each
  -- call adds one to the waiting and dropped packets together, and counts the packet as enqueued if
  -- it is accepted. The order of the keys is total and transitive.
  pub enqueue_lem :
      (key : Packet F → K) (s : Queue K F) (now : F) (p : Packet F)
      → IsValid le s
      → (s' : Queue K F) × (p' : Packet F) × (accepted : Bool) × (enqueue le key s now p
          ≡ some (s', p', accepted))
        × IsEnqueue key s now p s' p' accepted
  enqueue_lem key s now p v = elim (Bool-cases (leb s.max_size (length s.heap))) [
    | inl full ↦ enqueue_full key s now p v full
    | inr roomy ↦ enqueue_room key s now p v roomy
  ]
