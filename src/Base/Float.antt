-- ===== src/Base/Float.antt =====
-- Python's `float` as the code uses it: the literals and conversions, the four operations, `round`,
-- and the order. The comparisons of doubles that are not NaN follow from `<=`, so `<`, `==`, `max` and
-- `min` are defined from it. A literal p/q is the quotient of two integers, which the division of
-- doubles rounds correctly.
use smart_bandwidth_optimize.Base.Tests.{leb, if◌then◌else◌}
use smart_bandwidth_optimize.Base.Int.{ℤ, pos}
use Prim.Native.Nat.{ℕ, ◌≤◌}
use mathlib.Core.Path.{◌≡◌}
use mathlib.Core.Logic.{◌⊎◌, inl, inr}
use mathlib.Core.Bool.{Bool, true, false, not, ◌&&◌}
use native.Mathlib.Omega.{arith}

pub record Float (F : Type 0) : Type 0 where
  pub of_int : ℤ → F
  pub plus : F → F → F
  pub minus : F → F → F
  pub times : F → F → F
  pub over : F → F → F
  pub round : F → ℕ → F
  pub le : F → F → Bool

-- Orders given by a test `<=`.
module _ {ℓ} {K : Type ℓ} (le : K → K → Bool) where
  abbrev pub lt_by : K → K → Bool
  lt_by a b = not (le b a)

  abbrev pub eq_by : K → K → Bool
  eq_by a b = le a b && le b a

-- The order of a test is total and transitive.
pub record IsOrder {ℓ} {K : Type ℓ} (le : K → K → Bool) : Type ℓ where
  pub trans : (a b c : K) → le a b ≡ true → le b c ≡ true → le a c ≡ true
  pub total : (a b : K) → (le a b ≡ true) ⊎ (le b a ≡ true)

pub le_refl_by {ℓ} : {K : Type ℓ} {le : K → K → Bool} → IsOrder le → (a : K) → le a a ≡ true
le_refl_by o a = elim (o.total a a) [ inl h ↦ h | inr h ↦ h ]

module _ {F : Type 0} ⦃d : Float F⦄ where
  abbrev pub lt : F → F → Bool
  lt = lt_by d.le

  abbrev pub num : ℕ → F
  num n = d.of_int (pos n)

  -- The literal p/q.
  abbrev pub lit : ℕ → ℕ → F
  lit p q = d.over (num p) (num q)

  -- Python's `max` and `min` keep the first of two equal values.
  abbrev pub max : F → F → F
  max a b = if lt a b then b else a

  abbrev pub min : F → F → F
  min a b = if lt b a then b else a

-- What the operations of doubles keep of the order of the numbers: rounding is monotone, so sums,
-- products and quotients of numbers that are not negative are not negative, and so on. Negation and the
-- integers up to 2 ^ 24 are exact, one times an integer up to a thousand is it, 1/1000 is positive, and rounding to decimals keeps an order with an integer.
pub record IsFloat (F : Type 0) ⦃d : Float F⦄ : Type 0 where
  pub order : IsOrder d.le
  pub nonneg_plus :
      (a b : F) → d.le (num 0) a ≡ true → d.le (num 0) b ≡ true → d.le (num 0) (d.plus a b) ≡ true
  pub nonneg_times :
      (a b : F) → d.le (num 0) a ≡ true → d.le (num 0) b ≡ true → d.le (num 0) (d.times a b) ≡ true
  pub nonneg_over :
      (a b : F) → d.le (num 0) a ≡ true → d.le b (num 0) ≡ false → d.le (num 0) (d.over a b) ≡ true
  pub milli_positive : d.le (lit 1 1000) (num 0) ≡ false
  pub minus-le : (a b : F) → d.le (num 0) b ≡ true → d.le (d.minus a b) a ≡ true
  pub le-num : (m n : ℕ) → m ≤ n → d.le (num m) (num n) ≡ true
  pub nonneg_minus : (a b : F) → d.le b a ≡ true → d.le (num 0) (d.minus a b) ≡ true
  pub minus_mono :
      (a b c e : F) → d.le a b ≡ true → d.le e c ≡ true → d.le (d.minus a c) (d.minus b e) ≡ true
  pub times_comm : (a b : F) → d.times a b ≡ d.times b a
  pub le-times :
      (a b : F) → d.le (num 0) a ≡ true → d.le (num 1) b ≡ true → d.le a (d.times a b) ≡ true
  pub minus_positive : (a b : F) → d.le a b ≡ false → d.le (d.minus a b) (num 0) ≡ false
  pub over-le_one :
      (a b : F)
      → d.le (num 0) a ≡ true
      → d.le a b ≡ true
      → d.le b (num 0) ≡ false
      → d.le (d.over a b) (num 1) ≡ true
  pub round_nonneg : (a : F) (n : ℕ) → d.le (num 0) a ≡ true → d.le (num 0) (d.round a n) ≡ true
  pub round-le : (a : F) (n k : ℕ) → d.le a (num k) ≡ true → d.le (d.round a n) (num k) ≡ true
  pub minus_reverse : (a b : F) → d.le (d.minus (num 0) a) (d.minus (num 0) b) ≡ d.le b a
  pub one_times : (n : ℕ) → n ≤ 1000 → d.times (num 1) (num n) ≡ num n
  pub le_num : (m n : ℕ) → m ≤ 16_777_216 → n ≤ 16_777_216 → d.le (num m) (num n) ≡ leb m n
  pub times-le :
      (a b : F) → d.le (num 0) a ≡ true → d.le b (num 1) ≡ true → d.le (d.times a b) a ≡ true

module _ {F : Type 0} ⦃d : Float F⦄ (o : IsOrder d.le) where
  pub min-le_left : (a b : F) → d.le (min a b) a ≡ true
  min-le_left a b = ground (arith, o.total a b, le_refl_by o a)

  pub min-le_right : (a b : F) → d.le (min a b) b ≡ true
  min-le_right a b = ground (arith, o.total a b, le_refl_by o b)

  pub le-max_left : (a b : F) → d.le a (max a b) ≡ true
  le-max_left a b = ground (arith, o.total a b, le_refl_by o a)

  pub le-max_right : (a b : F) → d.le b (max a b) ≡ true
  le-max_right a b = ground (arith, o.total a b, le_refl_by o b)
