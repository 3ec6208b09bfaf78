-- ===== src/Flow/Scores.antt =====
-- The range of a flow's scores.
use smart_bandwidth_optimize.Base.{ℕ, ◌<◌, ◌≤◌, ◌≡◌, refl, true, false, arith, Bool-cases, inl, inr}
use smart_bandwidth_optimize.Base.Int.{◌+ℤ◌}
use smart_bandwidth_optimize.Base.Float.{
  Float, IsFloat, num, lit, lt, max, min, min-le_left, le-max_left, le_refl_by,
}
use smart_bandwidth_optimize.Classifier.{Packet}
use smart_bandwidth_optimize.Flow.{
  FlowKey, FlowRecord, new_record, ipt_factor, refresh_scores, note_burst, update_record,
}

module _ {F : Type 0} ⦃d : Float F⦄ where
  open d use {of_int, plus, minus, times, over, le}

  abbrev pub IsScore : F → Type 0
  IsScore x = (le (num 0) x ≡ true) × (le x (num 1) ≡ true)

  pub record IsScored (r : FlowRecord F) : Type 0 where
    pub latency : IsScore r.latency_score
    pub bandwidth : IsScore r.bandwidth_score
    pub burst : IsScore r.burst_score
    pub rate : le (num 0) r.max_burst_rate ≡ true

  module _ (laws : IsFloat F) where
    open laws use {order, nonneg_plus, nonneg_times, nonneg_over, le-num, le_num, milli_positive}

    num_positive : (n : ℕ) → 0 < n → n ≤ 16_777_216 → le (num n) (num 0) ≡ false
    num_positive n h k = ground (arith, le_num n 0 k (omega arith), h)

    nonneg_lit : (p q : ℕ) → 0 < q → q ≤ 1000 → le (num 0) (lit p q) ≡ true
    nonneg_lit p q h k =
        nonneg_over (num p) (num q) (le-num 0 p (omega arith)) (num_positive q h (omega (arith, k)))

    -- A maximum with a positive number is positive.
    positive_max : (x y : F) → le x (num 0) ≡ false → le (max x y) (num 0) ≡ false
    positive_max x y h = elim (Bool-cases (le (max x y) (num 0))) [
      | inl low ↦
          absurd (ground (arith, order.trans x (max x y) (num 0) (le-max_left order x y) low, h))
      | inr high ↦ high
    ]

    min_one : (x : F) → le (num 0) x ≡ true → IsScore (min (num 1) x)
    min_one x h = (ground (arith, le-num 0 1 (omega arith)), min-le_left order (num 1) x)

    nonneg_max : (x y : F) → le (num 0) x ≡ true → le (num 0) (max x y) ≡ true
    nonneg_max x y h = order.trans (num 0) x (max x y) h (le-max_left order x y)

    nonneg_ipt_factor : (x : F) → le (num 0) (ipt_factor x) ≡ true
    unfolding ipt_factor
    nonneg_ipt_factor x = elim (Bool-cases (lt (num 0) x)) [
      | inl e ↦
          rw e
            (min_one (max (num 0) (minus (num 1) (over (minus x (lit 1 100)) (lit 49 100)))) (
              nonneg_max (num 0) (minus (num 1) (over (minus x (lit 1 100)) (lit 49 100)))
                (le_refl_by order (num 0)))).0
      | inr e ↦ rw e (le_refl_by order (num 0))
    ]

    refresh_scores-IsScored :
        (r : FlowRecord F)
        → le (num 0) (of_int r.byte_count) ≡ true
        → le (num 0) r.max_burst_rate ≡ true
        → IsScored (refresh_scores r)
    unfolding refresh_scores
    refresh_scores-IsScored r bytes rate =
        let size = max (num 0) (minus (num 1) (over r.ema_pkt_size (num 1500))) in
        let duration = max (lit 1 1000) (minus r.last_seen r.first_seen) in
        record {
          latency = min_one _ (
              nonneg_plus _ _
                (nonneg_times (lit 3 5) size (nonneg_lit 3 5 (omega arith) (omega arith))
                  (nonneg_max (num 0) _ (le_refl_by order (num 0))))
                (nonneg_times (lit 2 5) _ (nonneg_lit 2 5 (omega arith) (omega arith))
                  (nonneg_ipt_factor r.ema_ipt)));
          bandwidth = min_one _ (
              nonneg_over (over (of_int r.byte_count) duration) (num 10_485_760)
                (nonneg_over (of_int r.byte_count) duration bytes
                  (positive_max (lit 1 1000) _ milli_positive))
                (num_positive 10_485_760 (omega arith) (omega arith)));
          burst = min_one _ (
              nonneg_over r.max_burst_rate (num 1000) rate
                (num_positive 1000 (omega arith) (omega arith)));
          rate = rate;
        }

    note_burst-rate :
        (r : FlowRecord F) (now : F)
        → le (num 0) r.max_burst_rate ≡ true
        → (le (num 0) (note_burst r now).max_burst_rate ≡ true)
          × ((note_burst r now).byte_count ≡ r.byte_count)
    unfolding note_burst
    note_burst-rate r now h =
        let kept = nonneg_max r.max_burst_rate (over (num r.burst_window_pkts) (lit 1 10)) h in
        elim (Bool-cases (lt (lit 1 10) (minus now r.burst_window_start))) [
          | inl e ↦ rw (e, note_burst) (kept, refl)
          | inr e ↦ rw (e, note_burst) (h, refl)
        ]

    new_record-IsScored : (k : FlowKey) (first last : F) → IsScored (new_record k first last)
    unfolding new_record
    new_record-IsScored k first last =
        let zero = le_refl_by order (num 0) in
        let one = le-num 0 1 (omega arith) in
        record { latency = (zero, one); bandwidth = (zero, one); burst = (zero, one); rate = zero }

    -- Counting a packet keeps the three scores of a flow between zero and one and the highest burst
    -- rate from being negative, as long as the bytes counted in all are not negative, whatever the
    -- clock says. The numbers obey the laws of `IsFloat`.
    pub update_record-IsScored :
        (r : FlowRecord F) (now : F) (p : Packet F)
        → le (num 0) (of_int (r.byte_count +ℤ p.size_bytes)) ≡ true
        → IsScored r
        → IsScored (update_record r now p)
    unfolding update_record
    update_record-IsScored r now p bytes v =
        let (rate, same) = note_burst-rate _ now v.rate in
        refresh_scores-IsScored _ (rw same bytes) rate
