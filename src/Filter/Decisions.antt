-- ===== src/Filter/Decisions.antt =====
-- What `should_drop` decides and counts.
use smart_bandwidth_optimize.Base.{
  ℕ, ◌+◌, ◌<◌, ◌≡◌, ◌≢◌, sym, Bool, true, false, Option, some, arith, if◌then◌else◌,
}
use smart_bandwidth_optimize.Base.Float.{Float, num, lt}
use smart_bandwidth_optimize.Config.{
  TrafficPriority, priority_eq, total, total-bump, OptimizerConfig, priority_eq_sound,
  priority_eq_refl, bump_ne,
}
use smart_bandwidth_optimize.Classifier.{Packet}
use smart_bandwidth_optimize.Scheduler.{priority_of}
use smart_bandwidth_optimize.Filter.{
  rate_limit, red_queue_full, DropDecision, keep, drop, is_critical, PacketFilter, consume,
  red_check, should_drop, set_bucket,
}

abbrev pub is_drop : {F : Type 0} → DropDecision F → Bool
is_drop keep = false
is_drop (drop r) = true

module _ {F : Type 0} ⦃d : Float F⦄ where
  open d use {over, le}

  -- `should_drop` never drops a CRITICAL packet, and still takes the tokens for it. It drops any other
  -- packet for the rate limit exactly when the bucket of its priority refuses its size, and otherwise
  -- decides as RED does.
  pub should_drop_lem :
      (f : PacketFilter F) (queue_size : Option ℕ) (now draw : F) (p : Packet F)
      → let q = priority_of p in
        let (bucket, allowed) = consume (f.buckets q) now p.size_bytes in
        ((should_drop f queue_size now draw p).1 ≡ (
          if is_critical q
          then keep
          else if allowed
          then red_check f.config q queue_size draw
          else drop (rate_limit q)))
        × ((should_drop f queue_size now draw p).0.buckets q ≡ bucket)
  unfolding should_drop set_bucket
  should_drop_lem f queue_size now draw p = ground (arith, priority_eq_refl (priority_of p))

  -- `should_drop` adds one to the drops of the packet's priority exactly when it drops the packet, and
  -- leaves the buckets and the counts of all other priorities alone.
  should_drop-counts :
      (f : PacketFilter F) (queue_size : Option ℕ) (now draw : F) (p : Packet F)
      → let after = should_drop f queue_size now draw p in
        (total after.0.drop_counts
          ≡ (if is_drop after.1 then total f.drop_counts + 1 else total f.drop_counts))
        × ((q : TrafficPriority)
            → q ≢ priority_of p
            → (after.0.drop_counts q ≡ f.drop_counts q) × (after.0.buckets q ≡ f.buckets q))
  unfolding should_drop set_bucket
  should_drop-counts f queue_size now draw p = (
    ground (arith, total-bump (priority_of p) f.drop_counts),
    λ q ne. (
      ground (arith, bump_ne (priority_of p) q f.drop_counts ne),
      ground (
        arith,
        λ (e : priority_eq (priority_of p) q ≡ true).
            ne (sym (priority_eq_sound (priority_of p) q e)),
      ),
    ),
  )

  -- RED lets every packet pass below the lower threshold and, where the queue is not below it, drops
  -- every packet from the upper threshold on.
  pub red_check_bounds :
      (c : OptimizerConfig F) (q : TrafficPriority) (current : ℕ) (draw : F)
      → 0 < c.max_queue_size
      → let fill = over (num current) (num c.max_queue_size) in
        (lt fill c.red_min_threshold ≡ true → red_check c q (some current) draw ≡ keep)
        × (lt fill c.red_min_threshold ≡ false
            → le c.red_max_threshold fill ≡ true
            → red_check c q (some current) draw ≡ drop (red_queue_full q))
  unfolding red_check
  red_check_bounds c q current draw h = ground arith
