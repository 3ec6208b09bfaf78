-- ===== src/Value/Losses.antt =====
-- `ValueLossTracker`: delivered and dropped value over a sliding window. Each deque is the list of its
-- events, the oldest first. `now` is a reading of `time.monotonic()`.
use smart_bandwidth_optimize.Base.{
  ℕ, ◌≡◌, refl, ap, arith, true, List, [], ◌∷◌, ◌++◌, if◌then◌else◌,
}
use smart_bandwidth_optimize.Base.Float.{Float, IsFloat, num, lit, lt, max}

pub record ValueLossTracker (F : Type 0) : Type 0 where
  pub window : F
  pub delivered : List (F × F)
  pub dropped : List (F × F)
  pub total_delivered : F
  pub total_dropped : F

pub record LossReport (F : Type 0) : Type 0 where
  pub delivered_total : F
  pub lost_total : F
  pub delivered_per_sec : F
  pub lost_per_sec : F
  pub efficiency_pct : F
  pub window_seconds : F

module _ {F : Type 0} ⦃d : Float F⦄ where
  open d use {plus, minus, times, over, le}

  unfoldable pub init : F → ValueLossTracker F
  init window_seconds = record {
    window = max (lit 1 10) window_seconds;
    delivered = [];
    dropped = [];
    total_delivered = num 0;
    total_dropped = num 0;
  }

  -- The loop of `_evict_old` on one deque.
  unfoldable pub evict_before : F → List (F × F) → List (F × F)
  evict_before cutoff [] = []
  evict_before cutoff ((ts, v) ∷ events) =
      if lt ts cutoff then evict_before cutoff events else (ts, v) ∷ events

  unfoldable pub evict_old : ValueLossTracker F → F → ValueLossTracker F
  evict_old t now =
      let cutoff = minus now (times (num 2) t.window) in
      record t {
        delivered = evict_before cutoff t.delivered;
        dropped = evict_before cutoff t.dropped;
      }

  unfoldable pub record_delivered : ValueLossTracker F → F → F → ValueLossTracker F
  record_delivered t now v =
      evict_old
        (record t {
          delivered = t.delivered ++ ((now, v) ∷ []);
          total_delivered = plus t.total_delivered v;
        })
        now

  unfoldable pub record_dropped : ValueLossTracker F → F → F → ValueLossTracker F
  record_dropped t now v =
      evict_old
        (record t {
          dropped = t.dropped ++ ((now, v) ∷ []);
          total_dropped = plus t.total_dropped v;
        })
        now

  -- The sum of the values from `cutoff` on, added to `acc` in order.
  unfoldable pub sum_since : F → F → List (F × F) → F
  sum_since cutoff acc [] = acc
  sum_since cutoff acc ((ts, v) ∷ events) =
      sum_since cutoff (if le cutoff ts then plus acc v else acc) events

  unfoldable pub rate : F → F → List (F × F) → F
  rate window now events = over (sum_since (minus now window) (num 0) events) window

  unfoldable pub value_delivered_per_sec : ValueLossTracker F → F → F
  value_delivered_per_sec t now = rate t.window now t.delivered

  unfoldable pub value_lost_per_sec : ValueLossTracker F → F → F
  value_lost_per_sec t now = rate t.window now t.dropped

  -- The clock is read for each of the two rates.
  unfoldable pub value_efficiency_pct : ValueLossTracker F → F → F → F
  value_efficiency_pct t now now' =
      let delivered = rate t.window now t.delivered in
      let total = plus delivered (rate t.window now' t.dropped) in
      if lt (num 0) total then over (times (num 100) delivered) total else num 100

  -- `to_dict`, which reads the clock four times.
  unfoldable pub report : ValueLossTracker F → (ℕ → F) → LossReport F
  report t clock = record {
    delivered_total = d.round t.total_delivered 4;
    lost_total = d.round t.total_dropped 4;
    delivered_per_sec = d.round (value_delivered_per_sec t (clock 0)) 4;
    lost_per_sec = d.round (value_lost_per_sec t (clock 1)) 4;
    efficiency_pct = d.round (value_efficiency_pct t (clock 2) (clock 3)) 2;
    window_seconds = t.window;
  }

  unfoldable pub reset : ValueLossTracker F → ValueLossTracker F
  reset t = record t {
    delivered = [];
    dropped = [];
    total_delivered = num 0;
    total_dropped = num 0;
  }

  module _ (laws : IsFloat F) where
    open laws use {order, minus_mono, times_comm, le-times, le-num}

    -- Evicting what is older than an earlier cutoff does not change a sum.
    sum_since-evict_before :
        (cutoff later acc : F) (events : List (F × F))
        → le cutoff later ≡ true
        → sum_since later acc (evict_before cutoff events) ≡ sum_since later acc events
    unfolding sum_since evict_before
    sum_since-evict_before cutoff later acc [] h = refl
    sum_since-evict_before cutoff later acc ((ts, v) ∷ events) h =
        ground
          (arith, sum_since-evict_before cutoff later acc events h, order.trans cutoff later ts h)

    -- Two windows reach back at least as far as one, from an earlier reading of the clock.
    cutoff_lem :
        (window now now' : F)
        → le (num 0) window ≡ true
        → le now now' ≡ true
        → le (minus now (times (num 2) window)) (minus now' window) ≡ true
    cutoff_lem window now now' w h =
        minus_mono now now' (times (num 2) window) window h
          (rw (times_comm (num 2) window) (le-times window (num 2) w (le-num 1 2 (omega arith))))

    rate-evict_before :
        (window now now' : F) (events : List (F × F))
        → le (num 0) window ≡ true
        → le now now' ≡ true
        → rate window now' (evict_before (minus now (times (num 2) window)) events)
          ≡ rate window now' events
    unfolding rate
    rate-evict_before window now now' events w h =
        ap (λ (sum : F). over sum window)
          (sum_since-evict_before (minus now (times (num 2) window)) (minus now' window) (num 0)
            events (cutoff_lem window now now' w h))

    -- If the window is not negative and the clock does not go back, recording a delivery or a drop
    -- loses nothing that a later rate counts: the rate of the recorded kind is that of all its
    -- events with the new one, and the rate of the other kind is as before. The numbers obey the
    -- laws of `IsFloat`.
    pub rates_after_record :
        (t : ValueLossTracker F) (now v now' : F)
        → le (num 0) t.window ≡ true
        → le now now' ≡ true
        → (value_delivered_per_sec (record_delivered t now v) now'
            ≡ rate t.window now' (t.delivered ++ ((now, v) ∷ [])))
          × (value_lost_per_sec (record_delivered t now v) now' ≡ value_lost_per_sec t now')
          × (value_lost_per_sec (record_dropped t now v) now'
              ≡ rate t.window now' (t.dropped ++ ((now, v) ∷ [])))
          × (value_delivered_per_sec (record_dropped t now v) now' ≡ value_delivered_per_sec t now')
    unfolding value_delivered_per_sec value_lost_per_sec record_delivered record_dropped evict_old
    rates_after_record t now v now' w h = (
      rate-evict_before t.window now now' (t.delivered ++ ((now, v) ∷ [])) w h,
      rate-evict_before t.window now now' t.dropped w h,
      rate-evict_before t.window now now' (t.dropped ++ ((now, v) ∷ [])) w h,
      rate-evict_before t.window now now' t.delivered w h,
    )
