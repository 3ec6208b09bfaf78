-- ===== src/Optimizer/Pipeline.antt =====
-- What `process` does to the packet: its payload, its size and its priority.
use smart_bandwidth_optimize.Base.{
  ℕ, ◌+◌, ◌≡◌, refl, sym, ap, ◌∙◌, inl, inr, Bool, false, Option, none, some, arith, length,
  if◌then◌else◌, Option-cases, Bool-cases,
}
use smart_bandwidth_optimize.Base.Int.{ℤ, pos, ◌+ℤ◌, ◌-ℤ◌, int_laws, eq_of_parts}
use smart_bandwidth_optimize.Base.Text.{Text, Bytes}
use smart_bandwidth_optimize.Base.Float.{Float, IsOrder}
use smart_bandwidth_optimize.Classifier.{Packet, TrafficClassifier, classify}
use smart_bandwidth_optimize.Config.{TrafficPriority, critical, OptimizerConfig}
use smart_bandwidth_optimize.Filter.{DropDecision, keep, drop, should_drop, PacketFilter}
use smart_bandwidth_optimize.Filter.Decisions.{should_drop_lem, is_drop}
use smart_bandwidth_optimize.Flow.{FlowRecord, FlowTracker, update, priority_hint}
use smart_bandwidth_optimize.Outcome.{ProcessResult}
use smart_bandwidth_optimize.Compressor.{compress, decompress, is_compressed}
use smart_bandwidth_optimize.Compressor.Laws.{compress_lem, decompress-compress}
use smart_bandwidth_optimize.Scheduler.{stamp}
use smart_bandwidth_optimize.Queueing.{queue_size, by_priority, by_value, Scheduling}
use smart_bandwidth_optimize.Queueing.Laws.{IsReady}
use smart_bandwidth_optimize.Value.{assign}
use smart_bandwidth_optimize.Optimizer.{
  Optimizer, Readings, classified, hinted, assign_value, prepare, compress_packet, drop_packet,
  decided, process,
}
use smart_bandwidth_optimize.Optimizer.Accounts.{deliver_lem}

-- The bytes of a packet beside its payload.
abbrev pub overhead : {F : Type 0} → Packet F → ℤ
overhead p = p.size_bytes -ℤ pos (length p.payload)

module _ {F : Type 0} ⦃d : Float F⦄ where
  open d use {le}

  -- The payload and the size are as before, and a priority is set.
  record IsPrepared (p p' : Packet F) : Type 0 where
    pub payload : p'.payload ≡ p.payload
    pub size : p'.size_bytes ≡ p.size_bytes
    pub priority : (q : TrafficPriority) × (p'.priority ≡ some q)

  classified_lem :
      (search : Text → Text → Bool) (c : TrafficClassifier) (p : Packet F)
      → IsPrepared p (classified search c p)
  unfolding classified classify
  classified_lem search c p = elim (Option-cases p.priority) [
    | inl e ↦ record {
      payload = ground (arith, e);
      size = ground (arith, e);
      priority = ((classify search c p).1, ground (arith, e));
    }
    | inr (q, e) ↦ record {
      payload = ground (arith, e);
      size = ground (arith, e);
      priority = (q, ground (arith, e));
    }
  ]

  hinted_lem :
      (t : FlowTracker F) (r : FlowRecord F) (p0 p : Packet F)
      → IsPrepared p0 p
      → IsPrepared p0 (hinted t r p)
  unfolding hinted
  hinted_lem t r p0 p h =
      let (q, e) = h.priority in
      rw e (record { payload = h.payload; size = h.size; priority = (priority_hint t q r, refl) })

  assign_value_lem :
      (s : Scheduling F) (t : FlowTracker F) (r : FlowRecord F) (p0 p : Packet F)
      → IsPrepared p0 p
      → IsPrepared p0 (assign_value s t r p).2
  unfolding assign_value assign
  assign_value_lem (by_priority s) t r p0 p h = h
  assign_value_lem (by_value v s l) t r p0 p h = record {
    payload = h.payload;
    size = h.size;
    priority = h.priority;
  }

  prepare_lem :
      (search : Text → Text → Bool) (o : Optimizer F) (env : Readings F) (p : Packet F)
      → IsPrepared p (prepare search o env p).2
  unfolding prepare
  prepare_lem search o env p =
      let (t, r) = update o.flow_tracker env.flow_clock p in
      assign_value_lem o.scheduling t r p (hinted t r (classified search o.classifier p))
        (hinted_lem t r p (classified search o.classifier p) (classified_lem search o.classifier p))

  compress_packet_lem :
      (deflate : ℕ → Bytes → Bytes) (c : OptimizerConfig F) (p : Packet F)
      → let p' = (compress_packet deflate c p).0 in
        (overhead p' ≡ overhead p)
        × (p'.payload ≡ (compress deflate c p.payload none none).payload)
        × (p'.priority ≡ p.priority)
  unfolding compress_packet
  compress_packet_lem deflate c p =
      elim (Bool-cases (compress deflate c p.payload none none).was_compressed) [
        | inl e ↦ rw e (
          move p.size_bytes (length p.payload)
              (length (compress deflate c p.payload none none).payload),
          refl,
          refl,
        )
        | inr e ↦ rw e (refl, sym ((compress_lem deflate c p.payload none none).4 e), refl)
      ]
    where
      move : (size : ℤ) (m n : ℕ) → size -ℤ pos m +ℤ pos n -ℤ pos n ≡ size -ℤ pos m
      move size m n = eq_of_parts (size -ℤ pos m +ℤ pos n -ℤ pos n) (size -ℤ pos m) (omega int_laws)

  -- A packet from which `p` can be had back.
  record IsCarried (inflate : Bytes → Option Bytes) (p x : Packet F) : Type 0 where
    pub payload : decompress inflate x.payload ≡ some p.payload
    pub size : overhead x ≡ overhead p
    pub priority : (q : TrafficPriority) × (x.priority ≡ some q)

  module _ (inflate : Bytes → Option Bytes) (p p' : Packet F)
      (plain : is_compressed p.payload ≡ false) (h : IsPrepared p p') where
    prepared-IsCarried : IsCarried inflate p p'
    unfolding decompress
    prepared-IsCarried = record {
      payload = ground (arith, plain, h.payload);
      size = ground (arith, h.payload, h.size);
      priority = h.priority;
    }

    compressed-IsCarried :
        (deflate : ℕ → Bytes → Bytes) (c : OptimizerConfig F)
        → ((level : ℕ) (b : Bytes) → inflate (deflate level b) ≡ some b)
        → IsCarried inflate p (compress_packet deflate c p').0
    compressed-IsCarried deflate c law =
        let (over, compressed, priority) = compress_packet_lem deflate c p' in
        let (q, e) = h.priority in
        record {
          payload =
              rw (compressed, h.payload)
                (decompress-compress deflate inflate c p.payload none none law plain);
          size = over ∙ prepared-IsCarried.size;
          priority = (q, priority ∙ e);
        }

  -- The filter does not drop a CRITICAL packet.
  critical_kept :
      (f : PacketFilter F) (queue_size : Option ℕ) (now draw : F) (p : Packet F)
      → p.priority ≡ some critical
      → is_drop (should_drop f queue_size now draw p).1 ≡ false
  critical_kept f queue_size now draw p e =
      ground (arith, e, (should_drop_lem f queue_size now draw p).0)

  module _ (order : IsOrder le) where
    -- The packet of a result is as it was prepared if the filter drops it, else compressed and stamped.
    decided_packet :
        (deflate : ℕ → Bytes → Bytes) (o : Optimizer F) (env : Readings F) (r : FlowRecord F)
        (p : Packet F) (decision : DropDecision F) {o' : Optimizer F} {result : ProcessResult F}
        → IsReady o.scheduling
        → decided deflate o env r p decision ≡ some (o', result)
        → (result.dropped ≡ is_drop decision)
          × (result.packet ≡ (
              if is_drop decision
              then p
              else stamp env.queue_now (compress_packet deflate o.config p).0))
    unfolding decided drop_packet
    decided_packet deflate o env r p keep {result} h e =
        let (o'', result', done, x, kept, packet) = deliver_lem order deflate o env r p h in
        let same : result ≡ result' = ground (arith, e, done) in rw same (kept, packet)
    decided_packet deflate o env r p (drop reason) {result} h e =
        let same : result ≡ (drop_packet o env r p reason).1 = ground (arith, e) in
        rw same (refl, refl)

    -- What a result says and carries, for the packet `p` that came in.
    pub record IsLossless (inflate : Bytes → Option Bytes) (p : Packet F) (r : ProcessResult F)
        : Type 0 where
      pub payload : decompress inflate r.packet.payload ≡ some p.payload
      pub size : overhead r.packet ≡ overhead p
      pub priority : (q : TrafficPriority) × (r.packet.priority ≡ some q)
      pub protected : r.packet.priority ≡ some critical → r.dropped ≡ false

    -- If `zlib` inflates what it deflates and the payload does not begin with the magic header,
    -- then the packet of every result of `process`, on an optimizer with a valid queue,
    -- decompresses to the payload that came in, and its size differs from its payload's length by
    -- as much as before. It has a priority, and if that is CRITICAL the packet is not reported as
    -- dropped. The order of the numbers is total and transitive.
    pub process-IsLossless :
        (search : Text → Text → Bool) (deflate : ℕ → Bytes → Bytes) (inflate : Bytes → Option Bytes)
        (o : Optimizer F) (env : Readings F) (p : Packet F) {o' : Optimizer F} {r : ProcessResult F}
        → ((level : ℕ) (b : Bytes) → inflate (deflate level b) ≡ some b)
        → is_compressed p.payload ≡ false
        → IsReady o.scheduling
        → process search deflate o env p ≡ some (o', r)
        → IsLossless inflate p r
    unfolding process
    process-IsLossless search deflate inflate o env p {o'} {r} law plain h e =
        let (t, record0, p') = prepare search o env p in
        let prepared = prepare_lem search o env p in
        let (f, decision) =
          should_drop o.packet_filter (some (queue_size o.scheduling)) env.filter_now env.draw p' in
        let o1 = record o { total_in = o.total_in + 1; flow_tracker = t; packet_filter = f } in
        let (dropped, packet) = decided_packet deflate o1 env record0 p' decision h e in
        elim (Bool-cases (is_drop decision)) [
          | inl drops ↦
              let same : r.packet ≡ p' = ground (arith, packet, drops) in
              let c = prepared-IsCarried inflate p p' plain prepared in
              record {
                payload = rw same c.payload;
                size = rw same c.size;
                priority = rw same c.priority;
                protected = λ high. absurd (
                    ground (
                      arith,
                      drops,
                      critical_kept o.packet_filter (some (queue_size o.scheduling)) env.filter_now
                          env.draw p' (ap (λ (x : Packet F). x.priority) (sym same) ∙ high),
                    ));
              }
          | inr keeps ↦
              let same : r.packet ≡ stamp env.queue_now (compress_packet deflate o.config p').0 =
                ground (arith, packet, keeps) in
              let c = compressed-IsCarried inflate p p' plain prepared deflate o.config law in
              record {
                payload = rw same c.payload;
                size = rw same c.size;
                priority = rw same c.priority;
                protected = λ high. dropped ∙ keeps;
              }
        ]
