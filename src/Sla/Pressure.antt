-- ===== src/Sla/Pressure.antt =====
-- `BackpressureMonitor`: the rolling samples of an optimizer's counters, and the signal to slow down.
use smart_bandwidth_optimize.Base.{
  ℕ, ◌≡◌, arith, true, false, ◌&&◌, Option, none, some, List, [], ◌∷◌, ◌++◌, if◌then◌else◌,
  last_from,
}
use smart_bandwidth_optimize.Base.Int.{pos, ◌-ℤ◌}
use smart_bandwidth_optimize.Base.Float.{Float, IsFloat, num, lt, max, le_refl_by}
use smart_bandwidth_optimize.Config.{total, Counts}

pub data BackpressureLevel : Type 0 where
  no_pressure soft hard : BackpressureLevel

pub record BackpressureState (F : Type 0) : Type 0 where
  pub level : BackpressureLevel
  pub queue_fill_ratio : F
  pub arrival_rate_pps : F
  pub drain_rate_pps : F
  pub recommended_throttle_pct : F

-- A sample: its time, the packets received, and the packets forwarded.
pub record BackpressureMonitor (F : Type 0) : Type 0 where
  pub soft_threshold : F
  pub hard_threshold : F
  pub window : F
  pub samples : List (F × ℕ × ℕ)
  pub last_state : BackpressureState F

module _ {F : Type 0} ⦃d : Float F⦄ where
  open d use {of_int, minus, times, over, round, le}

  -- `none` is `ValueError`.
  unfoldable pub init : F → F → F → Option (BackpressureMonitor F)
  init soft_threshold hard_threshold window_seconds =
      if lt (num 0) soft_threshold && lt soft_threshold hard_threshold && le hard_threshold (num 1)
      then some (record {
        soft_threshold = soft_threshold;
        hard_threshold = hard_threshold;
        window = window_seconds;
        samples = [];
        last_state = record {
          level = no_pressure;
          queue_fill_ratio = num 0;
          arrival_rate_pps = num 0;
          drain_rate_pps = num 0;
          recommended_throttle_pct = num 0;
        };
      })
      else none

  -- The loop that drops the samples before `cutoff`.
  unfoldable pub evict_before : F → List (F × ℕ × ℕ) → List (F × ℕ × ℕ)
  evict_before cutoff [] = []
  evict_before cutoff (x ∷ samples) =
      if lt x.0 cutoff then evict_before cutoff samples else x ∷ samples

  unfoldable pub compute_rates : List (F × ℕ × ℕ) → F × F
  compute_rates [] = (num 0, num 0)
  compute_rates (x ∷ []) = (num 0, num 0)
  compute_rates (oldest ∷ x ∷ xs) =
      let newest = last_from x xs in
      let dt = minus newest.0 oldest.0 in
      if le dt (num 0) then (num 0, num 0) else (
        max (num 0) (over (of_int (pos newest.1 -ℤ pos oldest.1)) dt),
        max (num 0) (over (of_int (pos newest.2 -ℤ pos oldest.2)) dt),
      )

  unfoldable pub compute_level : BackpressureMonitor F → F → BackpressureLevel × F
  compute_level b fill_ratio =
      if le b.hard_threshold fill_ratio
      then (hard, num 100)
      else if le b.soft_threshold fill_ratio
      then (
        soft,
        round
            (times
              (over (minus fill_ratio b.soft_threshold) (minus b.hard_threshold b.soft_threshold))
              (num 100))
            1,
      )
      else (no_pressure, num 0)

  -- `update`, from the statistics that it reads of the optimizer.
  unfoldable pub update :
      BackpressureMonitor F → F → ℕ → Counts → F → BackpressureMonitor F × BackpressureState F
  update b fill_ratio packets_received dequeue_counts now =
      let samples =
        evict_before (minus now b.window)
          (b.samples ++ ((now, packets_received, total dequeue_counts) ∷ [])) in
      let (arrival_pps, drain_pps) = compute_rates samples in
      let (level, throttle_pct) = compute_level b fill_ratio in
      let state : BackpressureState F = record {
        level = level;
        queue_fill_ratio = fill_ratio;
        arrival_rate_pps = arrival_pps;
        drain_rate_pps = drain_pps;
        recommended_throttle_pct = throttle_pct;
      } in
      (record b { samples = samples; last_state = state }, state)

  module _ (laws : IsFloat F) where
    open laws use {
      order, nonneg_minus, nonneg_over, nonneg_times, minus_mono, times_comm, times-le, le-num,
      minus_positive, over-le_one, round_nonneg, round-le,
    }

    -- The thresholds that the constructor accepts.
    pub record IsConfigured (b : BackpressureMonitor F) : Type 0 where
      pub positive : le b.soft_threshold (num 0) ≡ false
      pub increasing : le b.hard_threshold b.soft_threshold ≡ false

    -- The constructor accepts only such thresholds, and `update` keeps them.
    update-IsConfigured :
        (soft_threshold hard_threshold window_seconds : F) (b : BackpressureMonitor F)
        (fill_ratio : F) (packets_received : ℕ) (dequeue_counts : Counts) (now : F)
        → (init soft_threshold hard_threshold window_seconds ≡ some b → IsConfigured b)
          × (IsConfigured b
              → IsConfigured (update b fill_ratio packets_received dequeue_counts now).0)
    unfolding init update
    update-IsConfigured soft_threshold hard_threshold window_seconds b fill_ratio packets_received
          dequeue_counts now =
        (
          λ e. record { positive = ground (arith, e); increasing = ground (arith, e) },
          λ h. record { positive = h.positive; increasing = h.increasing },
        )

    throttle_lem :
        (low top x : F)
        → le (minus top low) (num 0) ≡ false
        → le low x ≡ true
        → le x top ≡ true
        → let pct = round (times (over (minus x low) (minus top low)) (num 100)) 1 in
          (le (num 0) pct ≡ true) × (le pct (num 100) ≡ true)
    throttle_lem low top x span h k =
        let part = nonneg_minus x low h in
        let whole : le (num 0) (minus top low) ≡ true =
          ground (arith, order.total (num 0) (minus top low), span) in
        let smaller = minus_mono x top low low k (le_refl_by order low) in
        let frac = over (minus x low) (minus top low) in
        let nonneg = nonneg_over (minus x low) (minus top low) part span in
        let one = over-le_one (minus x low) (minus top low) part smaller span in
        (
          round_nonneg (times frac (num 100)) 1
              (nonneg_times frac (num 100) nonneg (le-num 0 100 (omega arith))),
          round-le (times frac (num 100)) 1 100 (
              rw (times_comm frac (num 100))
                (times-le (num 100) frac (le-num 0 100 (omega arith)) one)),
        )

    -- With thresholds that the constructor accepts the throttle is between 0 and 100 percent: 100
    -- exactly with the HARD level, from the upper threshold on, and 0 below the lower threshold,
    -- where the level is NONE. The numbers obey the laws of `IsFloat`.
    compute_level_lem :
        (b : BackpressureMonitor F) (fill_ratio : F)
        → IsConfigured b
        → let (level, throttle_pct) = compute_level b fill_ratio in
          (le (num 0) throttle_pct ≡ true)
          × (le throttle_pct (num 100) ≡ true)
          × (le b.hard_threshold fill_ratio ≡ true → (level ≡ hard) × (throttle_pct ≡ num 100))
          × (lt fill_ratio b.soft_threshold ≡ true → (level ≡ no_pressure) × (throttle_pct ≡ num 0))
          × (le b.soft_threshold fill_ratio ≡ true
              → le b.hard_threshold fill_ratio ≡ false
              → level ≡ soft)
    unfolding compute_level
    compute_level_lem b fill_ratio h =
        let top = b.hard_threshold in
        let span = minus_positive top b.soft_threshold h.increasing in
        let within = throttle_lem b.soft_threshold top fill_ratio span in
        let above = order.trans top fill_ratio b.soft_threshold in
        let some_room = le-num 0 100 (omega arith) in
        let none_left = le_refl_by order (num 100) in
        let none_needed = le_refl_by order (num 0) in
        (
          ground (arith, within, order.total top fill_ratio, some_room, none_needed),
          ground (arith, within, order.total top fill_ratio, some_room, none_left),
          λ full. ground (arith, full),
          λ free.
              ground (arith, free, above, h.increasing, order.total b.soft_threshold fill_ratio),
          λ filling short. ground (arith, filling, short),
        )
