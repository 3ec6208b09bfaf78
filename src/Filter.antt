-- ===== src/Filter.antt =====
-- bandwidth_optimizer/packet_filter.py: token buckets and random early detection. `now` is a reading of
-- `time.monotonic()`, `draw` one of `random.random()`, and the callable for the queue's size is its
-- answer, if there is one.
pub mod Buckets
pub mod Decisions
use smart_bandwidth_optimize.Base.{
  ℕ, ◌+◌, ◌-◌, Bool, true, false, not, ◌&&◌, Option, none, some, leb, ltb, if◌then◌else◌,
}
use smart_bandwidth_optimize.Base.Int.{ℤ}
use smart_bandwidth_optimize.Base.Float.{Float, num, lt, min}
use smart_bandwidth_optimize.Config.{
  TrafficPriority, critical, high, medium, low, background, value, priority_eq, Counts, no_counts,
  bump, OptimizerConfig, effective_refill_rate,
}
use smart_bandwidth_optimize.Classifier.{Packet}
use smart_bandwidth_optimize.Scheduler.{priority_of}

pub record TokenBucket (F : Type 0) : Type 0 where
  pub refill_rate : F
  pub capacity : F
  pub tokens : F
  pub last_refill : F

-- The reasons that `should_drop` gives.
pub data DropReason (F : Type 0) : Type 0 where
  rate_limit : TrafficPriority → DropReason F
  red_queue_full : TrafficPriority → DropReason F
  red_prob_drop : TrafficPriority → F → DropReason F

pub data DropDecision (F : Type 0) : Type 0 where
  keep : DropDecision F
  drop : DropReason F → DropDecision F

abbrev pub is_critical : TrafficPriority → Bool
is_critical p = priority_eq p critical

pub record PacketFilter (F : Type 0) : Type 0 where
  pub config : OptimizerConfig F
  pub buckets : TrafficPriority → TokenBucket F
  pub drop_counts : Counts

module _ {F : Type 0} ⦃d : Float F⦄ where
  open d use {of_int, plus, minus, times, over, le}

  -- `TokenBucket(refill_rate, capacity)`; `none` is `ValueError`.
  unfoldable pub new_bucket : F → F → F → Option (TokenBucket F)
  new_bucket refill_rate capacity now =
      if le refill_rate (num 0)
      then none
      else if le capacity (num 0)
      then none
      else some (record {
        refill_rate = refill_rate;
        capacity = capacity;
        tokens = capacity;
        last_refill = now;
      })

  unfoldable pub refill : TokenBucket F → F → TokenBucket F
  refill b now = record b {
    tokens = min b.capacity (plus b.tokens (times (minus now b.last_refill) b.refill_rate));
    last_refill = now;
  }

  unfoldable pub consume : TokenBucket F → F → ℤ → TokenBucket F × Bool
  consume b now nbytes =
      let b' = refill b now in
      if le (of_int nbytes) b'.tokens
      then (record b' { tokens = minus b'.tokens (of_int nbytes) }, true)
      else (b', false)

  unfoldable pub available : TokenBucket F → F → TokenBucket F × F
  available b now = let b' = refill b now in (b', b'.tokens)

  -- `_init_buckets`: the bucket of one priority, with a floor for its rate.
  unfoldable pub init_bucket : OptimizerConfig F → TrafficPriority → F → Option (TokenBucket F)
  init_bucket c p now =
      let rate =
        if le (effective_refill_rate c p) (num 0) then num 1 else effective_refill_rate c p in
      new_bucket rate (times rate c.token_bucket_capacity_multiplier) now

  by_priority :
      TokenBucket F
      → TokenBucket F
      → TokenBucket F
      → TokenBucket F
      → TokenBucket F
      → TrafficPriority
      → TokenBucket F
  by_priority a b c e f critical = a
  by_priority a b c e f high = b
  by_priority a b c e f medium = c
  by_priority a b c e f low = e
  by_priority a b c e f background = f

  infixl 5 ◌>>=◌
  abbrev ◌>>=◌ :
      Option (TokenBucket F) → (TokenBucket F → Option (PacketFilter F)) → Option (PacketFilter F)
  none >>= f = none
  some b >>= f = f b

  -- The constructor. `clock` gives the reading of the clock for each bucket; `none` is `ValueError`.
  unfoldable pub init : OptimizerConfig F → (TrafficPriority → F) → Option (PacketFilter F)
  unfolding by_priority
  init c clock = do
    b1 ← init_bucket c critical (clock critical)
    b2 ← init_bucket c high (clock high)
    b3 ← init_bucket c medium (clock medium)
    b4 ← init_bucket c low (clock low)
    b5 ← init_bucket c background (clock background)
    some (record { config = c; buckets = by_priority b1 b2 b3 b4 b5; drop_counts = no_counts })

  -- The probability of an early drop between the two thresholds.
  unfoldable pub adjusted_prob : OptimizerConfig F → TrafficPriority → F → F
  adjusted_prob c p fill =
      times (over (minus fill c.red_min_threshold) (minus c.red_max_threshold c.red_min_threshold))
        (over (num (value p)) (num 5))

  unfoldable pub red_check : OptimizerConfig F → TrafficPriority → Option ℕ → F → DropDecision F
  red_check c p none draw = keep
  red_check c p (some current) draw =
      if leb c.max_queue_size 0
      then keep
      else (let fill = over (num current) (num c.max_queue_size) in
          if lt fill c.red_min_threshold
          then keep
          else if le c.red_max_threshold fill
          then drop (red_queue_full p)
          else if lt draw (adjusted_prob c p fill)
          then drop (red_prob_drop p (adjusted_prob c p fill))
          else keep)

  unfoldable pub set_bucket :
      TrafficPriority
      → TokenBucket F
      → (TrafficPriority → TokenBucket F)
      → TrafficPriority
      → TokenBucket F
  set_bucket p b buckets q = if priority_eq p q then b else buckets q

  -- A drop is counted for its priority.
  count_drop : PacketFilter F → TrafficPriority → DropDecision F → PacketFilter F × DropDecision F
  count_drop f p keep = (f, keep)
  count_drop f p (drop reason) = (record f { drop_counts = bump p f.drop_counts }, drop reason)

  unfoldable pub should_drop :
      PacketFilter F → Option ℕ → F → F → Packet F → PacketFilter F × DropDecision F
  unfolding count_drop set_bucket
  should_drop f queue_size now draw packet =
      let p = priority_of packet in
      let (bucket, allowed) = consume (f.buckets p) now packet.size_bytes in
      let f' = record f { buckets = set_bucket p bucket f.buckets } in
      if not allowed && not (is_critical p)
      then count_drop f' p (drop (rate_limit p))
      else if not (is_critical p)
      then count_drop f' p (red_check f.config p queue_size draw)
      else (f', keep)

  unfoldable pub reset_drop_counts : PacketFilter F → PacketFilter F
  reset_drop_counts f = record f { drop_counts = no_counts }

  unfoldable pub bucket_available : PacketFilter F → TrafficPriority → F → PacketFilter F × F
  bucket_available f p now =
      let (b, tokens) = available (f.buckets p) now in
      (record f { buckets = set_bucket p b f.buckets }, tokens)
