-- ===== src/Optimizer/Accounts.antt =====
-- The counters of the optimizer, over one call of `process` and over sequences of calls.
use smart_bandwidth_optimize.Base.{
  ℕ, ◌+◌, ◌-◌, ◌≡◌, refl, ap, ◌∙◌, inl, inr, Bool, false, Option, none, some, Option-cases, arith,
  length, ltb, if◌then◌else◌,
}
use smart_bandwidth_optimize.Base.Text.{Text, Bytes}
use smart_bandwidth_optimize.Base.Float.{Float, IsOrder}
use smart_bandwidth_optimize.Classifier.{Packet}
use smart_bandwidth_optimize.Config.{TrafficPriority, OptimizerConfig}
use smart_bandwidth_optimize.Filter.{DropDecision, keep, drop, should_drop, DropReason}
use smart_bandwidth_optimize.Filter
use smart_bandwidth_optimize.Flow.{FlowRecord}
use smart_bandwidth_optimize.Outcome.{ProcessResult, bytes_saved}
use smart_bandwidth_optimize.Compressor.{space_saved_bytes}
use smart_bandwidth_optimize.Compressor.Laws.{compress_lem}
use smart_bandwidth_optimize.Scheduler.{stamp}
use smart_bandwidth_optimize.Queueing.{queue_size}
use smart_bandwidth_optimize.Queueing.Laws.{
  IsReady, new_scheduling_lem, schedule_lem, next_packet_lem, note_dropped_lem, note_delivered_lem,
  forwarded, overflowed, capacity,
}
use smart_bandwidth_optimize.Value.{FlowValuePolicy}
use smart_bandwidth_optimize.Optimizer.{
  Optimizer, Readings, new_optimizer, init, prepare, compress_packet, drop_packet, deliver,
  delivered, decided, process, dequeue_packet,
}

module _ {F : Type 0} ⦃d : Float F⦄ where
  open d use {le}

  -- What a call of `process` changes in the counters.
  pub record IsProcessed (o o' : Optimizer F) (r : ProcessResult F) : Type 0 where
    pub ready : IsReady o'.scheduling
    pub size : capacity o'.scheduling ≡ capacity o.scheduling
    pub received : o'.total_in ≡ o.total_in
    pub drops : o'.total_dropped ≡ (if r.dropped then o.total_dropped + 1 else o.total_dropped)
    pub forwards : forwarded o'.scheduling ≡ forwarded o.scheduling
    pub accounted : queue_size o'.scheduling + overflowed o'.scheduling ≡ (
        if r.dropped
        then queue_size o.scheduling + overflowed o.scheduling
        else queue_size o.scheduling + overflowed o.scheduling + 1)
    pub saved : o'.total_bytes_saved ≡ o.total_bytes_saved + bytes_saved r

  drop_packet_lem :
      (o : Optimizer F) (env : Readings F) (r : FlowRecord F) (p : Packet F) (reason : DropReason F)
      → IsReady o.scheduling
      → IsProcessed o (drop_packet o env r p reason).0 (drop_packet o env r p reason).1
  unfolding drop_packet bytes_saved
  drop_packet_lem o env r p reason h =
      let n = note_dropped_lem o.scheduling env.value_now p.value_coefficient h in
      record {
        ready = n.ready;
        size = n.size;
        received = refl;
        drops = refl;
        forwards = n.forwards;
        accounted = omega (arith, n.waiting, n.drops);
        saved = omega arith;
      }

  compress_packet_saved :
      (deflate : ℕ → Bytes → Bytes) (c : OptimizerConfig F) (p : Packet F)
      → let (p', result) = compress_packet deflate c p in
        (if result.was_compressed then space_saved_bytes result else 0)
        ≡ length p.payload - length p'.payload
  unfolding compress_packet space_saved_bytes
  compress_packet_saved deflate c p = ground (arith, compress_lem deflate c p.payload none none)

  module _ (order : IsOrder le) where
    pub deliver_lem :
        (deflate : ℕ → Bytes → Bytes) (o : Optimizer F) (env : Readings F) (r : FlowRecord F)
        (p : Packet F)
        → IsReady o.scheduling
        → (o' : Optimizer F) × (result : ProcessResult F) × (deliver deflate o env r p
            ≡ some (o', result))
          × IsProcessed o o' result
          × (result.dropped ≡ false)
          × (result.packet ≡ stamp env.queue_now (compress_packet deflate o.config p).0)
    unfolding deliver delivered bytes_saved
    deliver_lem deflate o env r p h =
        let p' = (compress_packet deflate o.config p).0 in
        let (s, p'', called, scheduled) = schedule_lem order o.scheduling env.queue_now p' h in
        let n = note_delivered_lem s env.value_now p''.value_coefficient scheduled.ready in
        let result = (compress_packet deflate o.config p).1 in
        let (o', r') = delivered o env r (length p.payload) result s p'' in
        (
          o',
          r',
          rw (called, deliver) refl,
          record {
            ready = n.ready;
            size = n.size ∙ scheduled.size;
            received = refl;
            drops = refl;
            forwards = n.forwards ∙ scheduled.forwards;
            accounted = omega (arith, n.waiting, n.drops, scheduled.accounted);
            saved = ground (
              arith,
              compress_packet_saved deflate o.config p,
              ap (λ (x : Packet F). length x.payload) scheduled.stamped,
            );
          },
          refl,
          scheduled.stamped,
        )

    decided_lem :
        (deflate : ℕ → Bytes → Bytes) (o : Optimizer F) (env : Readings F) (r : FlowRecord F)
        (p : Packet F) (decision : DropDecision F)
        → IsReady o.scheduling
        → (o' : Optimizer F) × (result : ProcessResult F) × (decided deflate o env r p decision
            ≡ some (o', result))
          × IsProcessed o o' result
    unfolding decided
    decided_lem deflate o env r p keep h =
        let (o', result, done, x, _, _) = deliver_lem deflate o env r p h in (o', result, done, x)
    decided_lem deflate o env r p (drop reason) h = (
      (drop_packet o env r p reason).0,
      (drop_packet o env r p reason).1,
      refl,
      drop_packet_lem o env r p reason h,
    )

    -- `process` on an optimizer with a valid queue returns, and the queue raises no `IndexError` in it,
    -- whatever the packet, the clock and the random draw, where `zlib.compress`, `re.search` and the
    -- conversions to `float` return. It counts the packet as received and keeps the queue valid. A
    -- packet that it reports as dropped is counted so and leaves the queue alone; any other adds
    -- one to the packets that wait or overflowed. The bytes saved that it adds up are those that
    -- its results report. The order of the numbers is total and transitive.
    pub process_lem :
        (search : Text → Text → Bool) (deflate : ℕ → Bytes → Bytes) (o : Optimizer F)
        (env : Readings F) (p : Packet F)
        → IsReady o.scheduling
        → (o' : Optimizer F) × (r : ProcessResult F) × (process search deflate o env p
            ≡ some (o', r))
          × IsProcessed (record o { total_in = o.total_in + 1 }) o' r
    unfolding process
    process_lem search deflate o env p h =
        let (t, r, p') = prepare search o env p in
        let (f, decision) =
          should_drop o.packet_filter (some (queue_size o.scheduling)) env.filter_now env.draw p' in
        let o1 = record o { total_in = o.total_in + 1; flow_tracker = t; packet_filter = f } in
        let (o', result, done, x) = decided_lem deflate o1 env r p' decision h in
        (
          o',
          result,
          done,
          record {
            ready = x.ready;
            size = x.size;
            received = x.received;
            drops = x.drops;
            forwards = x.forwards;
            accounted = x.accounted;
            saved = x.saved;
          },
        )

-- Every packet that came in was dropped by the filter, was handed out, waits, or overflowed.
abbrev pub IsConserved : {F : Type 0} → Optimizer F → Type 0
IsConserved o =
    o.total_in
    ≡ o.total_dropped + forwarded o.scheduling + queue_size o.scheduling + overflowed o.scheduling

-- What the users of an optimizer do between two resets: calls of `process` and `dequeue` in any order.
pub data Reaches {F : Type 0} ⦃d : Float F⦄ (search : Text → Text → Bool)
    (deflate : ℕ → Bytes → Bytes) (o : Optimizer F) : Optimizer F → Type 0 where
  start : Reaches search deflate o o
  processed :
      {o1 o2 : Optimizer F} {r : ProcessResult F} (env : Readings F) (p : Packet F)
      → Reaches search deflate o o1
      → process search deflate o1 env p ≡ some (o2, r)
      → Reaches search deflate o o2
  dequeued :
      {o1 : Optimizer F}
      → Reaches search deflate o o1
      → Reaches search deflate o (dequeue_packet o1).0

module _ {F : Type 0} ⦃d : Float F⦄ (order : IsOrder d.le) where
  -- From an optimizer with a valid queue whose counters account for every packet, every sequence of
  -- calls of `process` and `dequeue` leads to one with the same capacity, a valid queue, and such
  -- counters. The order of the numbers is total and transitive.
  pub Reaches-IsConserved :
      {search : Text → Text → Bool} {deflate : ℕ → Bytes → Bytes} {o o' : Optimizer F}
      → IsReady o.scheduling
      → IsConserved o
      → Reaches search deflate o o'
      → IsReady o'.scheduling × IsConserved o' × (capacity o'.scheduling ≡ capacity o.scheduling)
  unfolding dequeue_packet
  Reaches-IsConserved h c start = (h, c, refl)
  Reaches-IsConserved {search} {deflate} {o} h c (processed {o1} {o2 = next} env p before e) =
      let (h1, c1, size) = Reaches-IsConserved h c before in
      let (o2, r, done, x) = process_lem order search deflate o1 env p h1 in
      let same : next ≡ o2 = ground (arith, e, done) in
      let after : IsReady o2.scheduling
          × IsConserved o2
          × (capacity o2.scheduling ≡ capacity o.scheduling) =
        (
          x.ready,
          ground (arith, c1, x.received, x.drops, x.forwards, x.accounted),
          x.size ∙ size,
        ) in
      rw same after
  Reaches-IsConserved h c (dequeued {o1} before) =
      let (h1, c1, size) = Reaches-IsConserved h c before in
      let n = next_packet_lem order o1.scheduling h1 in
      (n.ready, omega (arith, c1, n.accounted, n.drops), n.size ∙ size)

  -- A new optimizer has a valid queue of the configured size, at least one, and counters at zero.
  init-IsConserved :
      (c : OptimizerConfig F) (policy : Option (FlowValuePolicy F)) (clock : TrafficPriority → F)
      {o : Optimizer F}
      → init c policy clock ≡ some o
      → IsReady o.scheduling
        × IsConserved o
        × (o.total_in ≡ 0)
        × (capacity o.scheduling ≡ (if ltb 1 c.max_queue_size then c.max_queue_size else 1))
  unfolding init new_optimizer
  init-IsConserved c policy clock {o} e = elim (Option-cases (Filter.init c clock)) [
    | inl bad ↦ absurd (ground (arith, bad, e))
    | inr (f, good) ↦
        let same : o ≡ new_optimizer c policy f = ground (arith, good, e) in
        let (ready, sums, size) = new_scheduling_lem order policy c.max_queue_size in
        rw same (ready, omega (arith, sums), refl, size)
  ]
