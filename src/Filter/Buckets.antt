-- ===== src/Filter/Buckets.antt =====
-- The token buckets, and the bounds of what they hold.
use smart_bandwidth_optimize.Base.{◌≡◌, refl, true, arith, if◌then◌else◌, inl, inr, Bool-cases}
use smart_bandwidth_optimize.Base.Int.{ℤ}
use smart_bandwidth_optimize.Base.Float.{Float, IsFloat, num, min-le_left}
use smart_bandwidth_optimize.Filter.{TokenBucket, refill, consume}

module _ {F : Type 0} ⦃d : Float F⦄ where
  open d use {of_int, plus, minus, times, le}

  -- The tokens are between zero and the capacity, and the rate is not negative.
  pub record IsFilled (b : TokenBucket F) : Type 0 where
    pub rate_nonneg : le (num 0) b.refill_rate ≡ true
    pub tokens_nonneg : le (num 0) b.tokens ≡ true
    pub tokens_le : le b.tokens b.capacity ≡ true
    pub capacity_nonneg : le (num 0) b.capacity ≡ true

  module _ (laws : IsFloat F) where
    open laws use {order, nonneg_plus, nonneg_times, nonneg_minus, minus-le}

    refill-IsFilled :
        (b : TokenBucket F) (now : F)
        → le b.last_refill now ≡ true
        → IsFilled b
        → IsFilled (refill b now)
    unfolding refill
    refill-IsFilled b now h v =
        let added = times (minus now b.last_refill) b.refill_rate in
        let gain =
          nonneg_times (minus now b.last_refill) b.refill_rate (nonneg_minus now b.last_refill h)
            v.rate_nonneg in
        let sum = nonneg_plus b.tokens added v.tokens_nonneg gain in
        record {
          rate_nonneg = v.rate_nonneg;
          tokens_nonneg = ground (arith, sum, v.capacity_nonneg);
          tokens_le = min-le_left order b.capacity (plus b.tokens added);
          capacity_nonneg = v.capacity_nonneg;
        }

    -- `consume`, called no earlier than the last call and for a size that is not negative, keeps
    -- the tokens between zero and the capacity. It succeeds exactly when the refilled bucket holds
    -- enough, and then takes that much; otherwise it takes nothing. The numbers obey the laws of
    -- `IsFloat`.
    pub consume_lem :
        (b : TokenBucket F) (now : F) (nbytes : ℤ)
        → le b.last_refill now ≡ true
        → le (num 0) (of_int nbytes) ≡ true
        → IsFilled b
        → IsFilled (consume b now nbytes).0
          × ((consume b now nbytes).1 ≡ le (of_int nbytes) (refill b now).tokens)
          × ((consume b now nbytes).0.tokens ≡ (
              if (consume b now nbytes).1
              then minus (refill b now).tokens (of_int nbytes)
              else (refill b now).tokens))
    unfolding consume
    consume_lem b now nbytes h n v =
        let r = refill-IsFilled b now h v in
        elim (Bool-cases (le (of_int nbytes) (refill b now).tokens)) [
          | inl enough ↦
              rw (enough, consume)
                (
                  record {
                    rate_nonneg = r.rate_nonneg;
                    tokens_nonneg = nonneg_minus (refill b now).tokens (of_int nbytes) enough;
                    tokens_le =
                        order.trans (minus (refill b now).tokens (of_int nbytes))
                          (refill b now).tokens (refill b now).capacity
                          (minus-le (refill b now).tokens (of_int nbytes) n) r.tokens_le;
                    capacity_nonneg = r.capacity_nonneg;
                  },
                  refl,
                  refl,
                )
          | inr short ↦ rw (short, consume) (r, refl, refl)
        ]
