-- ===== src/Base/Fixed.antt =====
-- Fixed-point numbers with three decimals: a concrete instance of `Float`, on which the definitions
-- run, and which meets the laws that theorems take as hypotheses.
use smart_bandwidth_optimize.Base.Int.{
  one_times_ℤ, ℤ, pos, ◌+ℤ◌, ◌-ℤ◌, ◌*ℤ◌, ◌/ℤ◌, leb_ℤ, leb_ℤ-trans, leb_ℤ-total, nonneg_add,
  nonneg_sub, nonneg_mul, nonneg_div, sub-le, minus_mono_ℤ, times_comm_ℤ, le-scaled, scaled-le,
  minus_reverse_ℤ, ratio-le_one, minus_positive_ℤ, minus_reverse_ℤ, ratio-le_one, minus_positive_ℤ,
}
use mathlib.Core.Path.{◌≡◌, refl, ap}
use mathlib.Core.Bool.{true, false}
use native.Mathlib.Omega.{arith}
use smart_bandwidth_optimize.Base.Float.{Float, IsOrder, IsFloat}

abbrev pub Fixed : Type 0
Fixed = ℤ

instance abbrev pub fixed_float : Float Fixed
fixed_float = record {
  of_int = λ a. a *ℤ pos 1000;
  plus = ◌+ℤ◌;
  minus = ◌-ℤ◌;
  times = λ a b. (a *ℤ b) /ℤ pos 1000;
  over = λ a b. (a *ℤ pos 1000) /ℤ b;
  round = λ a n. a;
  le = leb_ℤ;
}

pub Fixed-IsOrder : IsOrder leb_ℤ
Fixed-IsOrder = record { trans = leb_ℤ-trans; total = leb_ℤ-total }

pub Fixed-IsFloat : IsFloat Fixed
unfolding ◌*ℤ◌ ◌/ℤ◌
Fixed-IsFloat = record {
  order = Fixed-IsOrder;
  nonneg_plus = nonneg_add;
  nonneg_times = λ a b h k. nonneg_div (a *ℤ b) (pos 1000) (nonneg_mul a b h k) refl;
  nonneg_over =
      λ a b h k. nonneg_div (a *ℤ pos 1000) b (nonneg_mul a (pos 1000) h refl) (positive b k);
  milli_positive = refl;
  minus-le = sub-le;
  le-num = λ m n h. ground arith;
  nonneg_minus = nonneg_sub;
  minus_mono = minus_mono_ℤ;
  times_comm = λ a b. ap (λ (x : ℤ). x /ℤ pos 1000) (times_comm_ℤ a b);
  le-times = le-scaled;
  times-le = scaled-le;
  minus_reverse = minus_reverse_ℤ;
  minus_positive = minus_positive_ℤ;
  over-le_one = ratio-le_one;
  round_nonneg = λ a n h. h;
  round-le = λ a n k h. h;
  one_times = λ n h. one_times_ℤ n;
  le_num = λ m n h k. ground arith;
}
  where
    positive : (b : ℤ) → leb_ℤ b (pos 0 *ℤ pos 1000) ≡ false → leb_ℤ (pos 0) b ≡ true
    positive b h = ground (arith, h)

-- Unfolding this lets a test compute with the fixed-point operations.
unfoldable pub fixed_arithmetic : Unit {0}
unfolding ◌+ℤ◌ ◌-ℤ◌ ◌*ℤ◌ ◌/ℤ◌
fixed_arithmetic = tt
