-- ===== src/Scheduler/Dequeue.antt =====
-- `dequeue` and `peek`: the entry at the top of the heap.
use smart_bandwidth_optimize.Base.{
  suc, ◌<◌, ◌≡◌, refl, ap, inl, inr, ◌⊎◌, Bool, true, none, some, List, [], ◌∷◌, arith, length, All,
  Perm, length-perm,
}
use mathlib.Core.List.Perm
use native.Mathlib.Bridge.{le_prop}
use smart_bandwidth_optimize.Base.Float.{IsOrder}
use smart_bandwidth_optimize.Config.{bump}
use smart_bandwidth_optimize.Heapq.Laws.{heappop_lem, heappop-nil, heappop-cons, IsHeap-least}
use smart_bandwidth_optimize.Heapq.Order.{IsHeap}
use smart_bandwidth_optimize.Scheduler.{Entry, Queue, priority_of, entry_le, dequeue, peek}
use smart_bandwidth_optimize.Scheduler.Entries.{All-perm, All_of_get_elem?, entry_le-IsOrder}
use smart_bandwidth_optimize.Scheduler.Enqueue.{IsValid}

-- What a call of `dequeue` on a queue with entries does: `e` leaves, and no other entry is before it.
pub record IsDequeue {K F : Type 0} (le : K → K → Bool) (s s' : Queue K F) (e : Entry K F)
    : Type 0 where
  pub valid : IsValid le s'
  pub size : s'.max_size ≡ s.max_size
  pub counter : s'.counter ≡ s.counter
  pub enqueued : s'.enqueue_counts ≡ s.enqueue_counts
  pub dropped : s'.dropped_overflow ≡ s.dropped_overflow
  pub counted : s'.dequeue_counts ≡ bump (priority_of e.packet) s.dequeue_counts
  pub items : Perm s.heap (e ∷ s'.heap)
  pub least : All (λ x. entry_le le e x ≡ true) s'.heap

module _ {K F : Type 0} {le : K → K → Bool} (order : IsOrder le) where
  least_first :
      (x : Entry K F) (xs ys : List (Entry K F))
      → IsHeap (entry_le le) (x ∷ xs)
      → Perm xs ys
      → All (λ y. entry_le le x y ≡ true) ys
  least_first x xs ys ordered p =
      All-perm (λ y. entry_le le x y ≡ true) (λ y. hlevel) p
        (All_of_get_elem? (λ y. entry_le le x y ≡ true) xs
          (λ j y h. IsHeap-least (entry_le-IsOrder order) x xs (suc j) ordered h))

  -- On a valid queue `dequeue` returns nothing and changes nothing if the queue is empty. Otherwise
  -- it returns the packet of an entry that no waiting entry precedes, in the order of the keys and,
  -- for equal keys, of arrival; the other entries stay, the invariant is kept, and the packet is
  -- counted. The order of the keys is total and transitive.
  pub dequeue_lem :
      (s : Queue K F)
      → IsValid le s
      → ((s.heap ≡ []) × (dequeue le s ≡ (s, none)))
        ⊎ ((s' : Queue K F) × (e : Entry K F) × (dequeue le s ≡ (s', some e.packet))
            × IsDequeue le s s' e)
  unfolding dequeue
  dequeue_lem s v = by_heap s.heap refl
    where
      by_heap :
          (h : List (Entry K F))
          → s.heap ≡ h
          → ((s.heap ≡ []) × (dequeue le s ≡ (s, none)))
            ⊎ ((s' : Queue K F) × (e : Entry K F) × (dequeue le s ≡ (s', some e.packet))
                × IsDequeue le s s' e)
      by_heap [] eq = inl (eq, ground (arith, eq, heappop-nil (entry_le-IsOrder {F = F} order)))
      by_heap (x ∷ xs) eq =
          let laws = entry_le-IsOrder {F = F} order in
          let (ys, popped) = heappop-cons laws x xs in
          let heap = rw eq at v.ordered in
          let (_, ordered, same) = heappop_lem laws x xs heap popped in
          let fresh = rw eq at v.fresh in
          inr (
            record s { heap = ys; dequeue_counts = bump (priority_of x.packet) s.dequeue_counts },
            x,
            ground (arith, eq, popped),
            record {
              valid = record {
                positive = v.positive;
                bounded = omega (arith, length-perm same, ap length eq, v.bounded);
                ordered = ordered;
                fresh =
                    All-perm (λ y. y.sequence < s.counter) (λ y. le_prop) (Perm.symm same) fresh.1;
              };
              size = refl;
              counter = refl;
              enqueued = refl;
              dropped = refl;
              counted = refl;
              items = rw eq (Perm.cons x (Perm.symm same));
              least = least_first x xs ys heap (Perm.symm same);
            },
          )

  -- `peek` shows the packet that `dequeue` would return.
  peek_lem : (s : Queue K F) → peek s ≡ (dequeue le s).1
  unfolding dequeue peek
  peek_lem s = by_heap s.heap refl
    where
      by_heap : (h : List (Entry K F)) → s.heap ≡ h → peek s ≡ (dequeue le s).1
      by_heap [] eq = ground (arith, eq, heappop-nil (entry_le-IsOrder {F = F} order))
      by_heap (x ∷ xs) eq =
          let (ys, popped) = heappop-cons (entry_le-IsOrder {F = F} order) x xs in
          ground (arith, eq, popped)
