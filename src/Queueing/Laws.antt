-- ===== src/Queueing/Laws.antt =====
-- The invariant of both queues of the optimizer, and what they count.
use smart_bandwidth_optimize.Base.{
  ℕ, ◌+◌, ◌≡◌, refl, ap, inl, inr, Bool, Option, none, some, arith, leb, ltb, length, length-perm,
  if◌then◌else◌,
}
use smart_bandwidth_optimize.Base.Float.{Float, IsOrder}
use smart_bandwidth_optimize.Config.{total, total-bump}
use smart_bandwidth_optimize.Classifier.{Packet}
use smart_bandwidth_optimize.Scheduler.{
  Queue, Entry, enqueue, dequeue, stamp, priority_of, entry_of,
}
use smart_bandwidth_optimize.Scheduler.Enqueue.{IsValid, init-IsValid, enqueue_lem}
use smart_bandwidth_optimize.Scheduler.Dequeue.{dequeue_lem, IsDequeue}
use smart_bandwidth_optimize.Scheduler.Priority.{leb-IsOrder, priority_key}
use smart_bandwidth_optimize.Value.Key.{value_key}
use smart_bandwidth_optimize.Value.{FlowValuePolicy}
use smart_bandwidth_optimize.Scheduler
use smart_bandwidth_optimize.Queueing.{
  Scheduling, by_priority, by_value, new_scheduling, queue_size, schedule, next_packet,
  note_dropped, note_delivered,
}

-- How many packets wait before and after a `dequeue` with this result.
abbrev pub Takes : {F : Type 0} → Option (Packet F) → ℕ → ℕ → Type 0
Takes none before after = (before ≡ 0) × (after ≡ 0)
Takes (some p) before after = before ≡ after + 1

module _ {F : Type 0} where
  abbrev pub forwarded : Scheduling F → ℕ
  forwarded (by_priority s) = total s.dequeue_counts
  forwarded (by_value v s t) = total s.dequeue_counts

  abbrev pub overflowed : Scheduling F → ℕ
  overflowed (by_priority s) = s.dropped_overflow
  overflowed (by_value v s t) = s.dropped_overflow

  abbrev pub capacity : Scheduling F → ℕ
  capacity (by_priority s) = s.max_size
  capacity (by_value v s t) = s.max_size

module _ {F : Type 0} ⦃d : Float F⦄ where
  open d use {le}

  abbrev pub IsReady : Scheduling F → Type 0
  IsReady (by_priority s) = IsValid leb s
  IsReady (by_value v s t) = IsValid le s

  -- What changes when a packet is scheduled: it is stamped, and waits, or it or another is dropped.
  pub record IsScheduled (s : Scheduling F) (now : F) (p : Packet F) (s' : Scheduling F)
      (p' : Packet F) : Type 0 where
    pub ready : IsReady s'
    pub stamped : p' ≡ stamp now p
    pub size : capacity s' ≡ capacity s
    pub forwards : forwarded s' ≡ forwarded s
    pub accounted : queue_size s' + overflowed s' ≡ queue_size s + overflowed s + 1

  pub record IsForwarded (s : Scheduling F) (s' : Scheduling F) (p : Option (Packet F))
      : Type 0 where
    pub ready : IsReady s'
    pub size : capacity s' ≡ capacity s
    pub drops : overflowed s' ≡ overflowed s
    pub accounted : queue_size s' + forwarded s' ≡ queue_size s + forwarded s
    pub progress : Takes p (queue_size s) (queue_size s')

  module _ (order : IsOrder le) where
    pub new_scheduling_lem :
        (policy : Option (FlowValuePolicy F)) (n : ℕ)
        → let s = new_scheduling policy n in
          IsReady s
          × (forwarded s + queue_size s + overflowed s ≡ 0)
          × (capacity s ≡ (if ltb 1 n then n else 1))
    unfolding new_scheduling queue_size Scheduler.init total
    new_scheduling_lem none n = (init-IsValid leb-IsOrder n, refl, refl)
    new_scheduling_lem (some v) n = (init-IsValid order n, refl, refl)

    -- Scheduling a packet on a ready queue never raises an exception.
    pub schedule_lem :
        (s : Scheduling F) (now : F) (p : Packet F)
        → IsReady s
        → (s' : Scheduling F) × (p' : Packet F) × (schedule s now p ≡ some (s', p'))
          × IsScheduled s now p s' p'
    unfolding schedule queue_size
    schedule_lem (by_priority s) now p h =
        let (s', p', b, called, r) = enqueue_lem leb-IsOrder priority_key s now p h in
        (
          by_priority s',
          p',
          rw (called, schedule) refl,
          record {
            ready = r.valid;
            stamped = r.stamped;
            size = r.size;
            forwards = ap total r.dequeued;
            accounted = r.accounted;
          },
        )
    schedule_lem (by_value v s t) now p h =
        let (s', p', b, called, r) = enqueue_lem order value_key s now p h in
        (
          by_value v s' t,
          p',
          rw (called, schedule) refl,
          record {
            ready = r.valid;
            stamped = r.stamped;
            size = r.size;
            forwards = ap total r.dequeued;
            accounted = r.accounted;
          },
        )

    taken :
        {K : Type 0} {le_K : K → K → Bool} (s s' : Queue K F) (e : Entry K F)
        → IsDequeue le_K s s' e
        → (length s'.heap + total s'.dequeue_counts ≡ length s.heap + total s.dequeue_counts)
          × (length s.heap ≡ length s'.heap + 1)
    taken s s' e r = (
      omega (
        arith,
        length-perm r.items,
        ap total r.counted,
        total-bump (priority_of e.packet) s.dequeue_counts,
      ),
      omega (arith, length-perm r.items),
    )

    pub next_packet_lem :
        (s : Scheduling F) → IsReady s → IsForwarded s (next_packet s).0 (next_packet s).1
    unfolding next_packet queue_size
    next_packet_lem (by_priority s) h = elim (dequeue_lem leb-IsOrder s h) [
      | inl (empty, done) ↦
          rw (done, next_packet)
            (record {
              ready = h;
              size = refl;
              drops = refl;
              accounted = refl;
              progress = (ap length empty, ap length empty);
            })
      | inr (s', e, done, r) ↦
          let (sums, shorter) = taken s s' e r in
          rw (done, next_packet)
            (record {
              ready = r.valid;
              size = r.size;
              drops = r.dropped;
              accounted = sums;
              progress = shorter;
            })
    ]
    next_packet_lem (by_value v s t) h = elim (dequeue_lem order s h) [
      | inl (empty, done) ↦
          rw (done, next_packet)
            (record {
              ready = h;
              size = refl;
              drops = refl;
              accounted = refl;
              progress = (ap length empty, ap length empty);
            })
      | inr (s', e, done, r) ↦
          let (sums, shorter) = taken s s' e r in
          rw (done, next_packet)
            (record {
              ready = r.valid;
              size = r.size;
              drops = r.dropped;
              accounted = sums;
              progress = shorter;
            })
    ]

  -- The tracker of values does not touch the queue.
  pub record IsNoted (s s' : Scheduling F) : Type 0 where
    pub ready : IsReady s'
    pub size : capacity s' ≡ capacity s
    pub forwards : forwarded s' ≡ forwarded s
    pub drops : overflowed s' ≡ overflowed s
    pub waiting : queue_size s' ≡ queue_size s

  pub note_dropped_lem :
      (s : Scheduling F) (now v : F) → IsReady s → IsNoted s (note_dropped s now v)
  unfolding note_dropped queue_size
  note_dropped_lem (by_priority s) now v h = record {
    ready = h;
    size = refl;
    forwards = refl;
    drops = refl;
    waiting = refl;
  }
  note_dropped_lem (by_value p s t) now v h = record {
    ready = h;
    size = refl;
    forwards = refl;
    drops = refl;
    waiting = refl;
  }

  pub note_delivered_lem :
      (s : Scheduling F) (now v : F) → IsReady s → IsNoted s (note_delivered s now v)
  unfolding note_delivered queue_size
  note_delivered_lem (by_priority s) now v h = record {
    ready = h;
    size = refl;
    forwards = refl;
    drops = refl;
    waiting = refl;
  }
  note_delivered_lem (by_value p s t) now v h = record {
    ready = h;
    size = refl;
    forwards = refl;
    drops = refl;
    waiting = refl;
  }
