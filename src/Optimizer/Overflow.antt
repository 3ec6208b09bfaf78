-- ===== src/Optimizer/Overflow.antt =====
-- A packet that the full queue rejects.
use smart_bandwidth_optimize.Base.{
  ℕ, ◌+◌, ◌≡◌, refl, ap, ◌∙◌, arith, Bool, false, some, List, leb, length,
}
use smart_bandwidth_optimize.Base.Text.{Text, Bytes}
use smart_bandwidth_optimize.Base.Float.{Float}
use smart_bandwidth_optimize.Classifier.{Packet}
use smart_bandwidth_optimize.Filter.{keep, should_drop}
use smart_bandwidth_optimize.Flow.{FlowRecord}
use smart_bandwidth_optimize.Outcome.{ProcessResult}
use smart_bandwidth_optimize.Scheduler.{Queue, Entry, enqueue, entry_of, stamp}
use smart_bandwidth_optimize.Scheduler.Priority.{priority_key, leb-IsOrder}
use smart_bandwidth_optimize.Scheduler.Enqueue.{
  IsValid, Enqueued, room, rejected, evicted, enqueue_lem,
}
use smart_bandwidth_optimize.Queueing.{by_priority, schedule, note_delivered, queue_size}
use smart_bandwidth_optimize.Optimizer.{
  Optimizer, Readings, prepare, compress_packet, delivered, deliver, decided, process,
}

unchanged :
    {K F : Type 0} (le : K → K → Bool) (max : ℕ) (before : List (Entry K F)) (e : Entry K F)
    (after : List (Entry K F)) (accepted : Bool)
    → Enqueued le max before e after accepted
    → accepted ≡ false
    → after ≡ before
unchanged le max before e after accepted (room h p t) refused = absurd (ground (arith, t, refused))
unchanged le max before e after accepted (rejected w others h iw split l same t) refused = same
unchanged le max before e after accepted (evicted w others h iw l split p t) refused =
    absurd (ground (arith, t, refused))

-- A rejected packet leaves the waiting entries as they are.
rejected_heap :
    {F : Type 0} (s : Queue ℕ F) (now : F) (p : Packet F) {s' : Queue ℕ F} {q : Packet F}
    → IsValid leb s
    → enqueue leb priority_key s now p ≡ some (s', q, false)
    → s'.heap ≡ s.heap
rejected_heap s now p {s'} valid called =
    let (s1, q1, accepted, done, r) = enqueue_lem leb-IsOrder priority_key s now p valid in
    let same : s' ≡ s1 = ground (arith, done, called) in
    let refused : accepted ≡ false = ground (arith, done, called) in
    ap (λ (x : Queue ℕ _). x.heap) same
    ∙ unchanged leb s.max_size s.heap (entry_of priority_key s (stamp now p)) s1.heap accepted
        r.contents refused

module _ {F : Type 0} ⦃d : Float F⦄ where
  deliver_rejected :
      (deflate : ℕ → Bytes → Bytes) (o : Optimizer F) (env : Readings F) (r : FlowRecord F)
      (p : Packet F) {s s' : Queue ℕ F} {q : Packet F}
      → o.scheduling ≡ by_priority s
      → enqueue leb priority_key s env.queue_now (compress_packet deflate o.config p).0
        ≡ some (s', q, false)
      → (o' : Optimizer F) × (result : ProcessResult F) × (deliver deflate o env r p
          ≡ some (o', result))
        × (result.dropped ≡ false)
        × (o'.total_dropped ≡ o.total_dropped)
        × (o'.scheduling ≡ by_priority s')
  unfolding deliver delivered note_delivered schedule
  deliver_rejected deflate o env r p {s} {s'} {q} mode called =
      let (p', result) = compress_packet deflate o.config p in
      let (o', r') = delivered o env r (length p.payload) result (by_priority s') q in
      let scheduled : schedule o.scheduling env.queue_now p' ≡ some (by_priority s', q) =
        rw mode (rw (called, schedule) refl) in
      (o', r', rw (scheduled, deliver) refl, refl, refl, refl)

  -- If the filter keeps a packet and the full queue of a `PriorityScheduler` then rejects it, `process` still
  -- reports the packet as not dropped, and does not count it as dropped, although it is not among the
  -- packets that wait, which are the same as before.
  pub process_rejected :
      (search : Text → Text → Bool) (deflate : ℕ → Bytes → Bytes) (o : Optimizer F)
      (env : Readings F) (p : Packet F) {s s' : Queue ℕ F} {q : Packet F}
      → o.scheduling ≡ by_priority s
      → IsValid leb s
      → let prepared = (prepare search o env p).2 in
        (should_drop o.packet_filter
            (some (queue_size o.scheduling))
            env.filter_now
            env.draw
            prepared).1
          ≡ keep
        → enqueue leb priority_key s env.queue_now (compress_packet deflate o.config prepared).0
          ≡ some (s', q, false)
        → (o' : Optimizer F) × (r : ProcessResult F) × (process search deflate o env p
            ≡ some (o', r))
          × (r.dropped ≡ false)
          × (o'.total_dropped ≡ o.total_dropped)
          × (o'.scheduling ≡ by_priority s')
          × (s'.heap ≡ s.heap)
  unfolding process decided
  process_rejected search deflate o env p {s} {s'} {q} mode valid kept called =
      let (t, record0, p') = prepare search o env p in
      let (f, decision) =
        should_drop o.packet_filter (some (queue_size o.scheduling)) env.filter_now env.draw p' in
      let o1 = record o { total_in = o.total_in + 1; flow_tracker = t; packet_filter = f } in
      let (o', r, done, said, counted, after) =
        deliver_rejected deflate o1 env record0 p' mode called in
      (
        o',
        r,
        rw kept done,
        said,
        counted,
        after,
        rejected_heap s env.queue_now (compress_packet deflate o.config p').0 valid called,
      )
