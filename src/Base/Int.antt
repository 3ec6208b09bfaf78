-- ===== src/Base/Int.antt =====
-- Signed integers over the native numbers, under the library's names (its ℤ stands on the unary ℕ).
-- The sizes of packets, the scores' fixed-point numbers and Python's list indices are such integers.
use smart_bandwidth_optimize.Base.Tests.{ltb, leb, if◌then◌else◌}
use Prim.Native.Nat.{ℕ, suc, ◌+◌, ◌-◌, ◌*◌, ◌/◌, ◌≤◌}
use mathlib.Core.Path.{◌≡◌, refl, ap, subst}
use mathlib.Core.Bool.{Bool, true, false}
use mathlib.Core.Logic.{◌⊎◌}
use native.Mathlib.Omega.{arith}
use native.Mathlib.Nat.{div-le_of_le-mul}

-- `negsuc n` is -(n + 1).
pub data ℤ : Type 0 where
  pos : ℕ → ℤ
  negsuc : ℕ → ℤ

abbrev pub pos_part : ℤ → ℕ
pos_part (pos n) = n
pos_part (negsuc n) = 0

abbrev pub neg_part : ℤ → ℕ
neg_part (pos n) = 0
neg_part (negsuc n) = suc n

-- a - b, as an integer.
abbrev pub sub_ℕ : ℕ → ℕ → ℤ
sub_ℕ a b = if leb b a then pos (a - b) else negsuc (b - a - 1)

infixl 65 ◌+ℤ◌ ◌-ℤ◌
infixl 70 ◌*ℤ◌ ◌/ℤ◌
infix 50 ◌≤ℤ◌
unfoldable pub ◌+ℤ◌ : ℤ → ℤ → ℤ
a +ℤ b = sub_ℕ (pos_part a + pos_part b) (neg_part a + neg_part b)

unfoldable pub ◌-ℤ◌ : ℤ → ℤ → ℤ
a -ℤ b = sub_ℕ (pos_part a + neg_part b) (neg_part a + pos_part b)

unfoldable pub ◌*ℤ◌ : ℤ → ℤ → ℤ
a *ℤ b =
    sub_ℕ (pos_part a * pos_part b + neg_part a * neg_part b)
      (pos_part a * neg_part b + neg_part a * pos_part b)

-- Division that truncates towards zero; by zero it is zero.
unfoldable pub ◌/ℤ◌ : ℤ → ℤ → ℤ
a /ℤ b =
    sub_ℕ (pos_part a / pos_part b + neg_part a / neg_part b)
      (pos_part a / neg_part b + neg_part a / pos_part b)

abbrev pub ◌≤ℤ◌ : ℤ → ℤ → Type 0
a ≤ℤ b = pos_part a + neg_part b ≤ pos_part b + neg_part a

abbrev pub leb_ℤ : ℤ → ℤ → Bool
leb_ℤ a b = leb (pos_part a + neg_part b) (pos_part b + neg_part a)

abbrev pub ltb_ℤ : ℤ → ℤ → Bool
ltb_ℤ a b = ltb (pos_part a + neg_part b) (pos_part b + neg_part a)

-- One lemma for each operation lets `omega` work with the operations shut, at any depth.
pub +ℤ_parts :
    (a b : ℤ)
    → pos_part (a +ℤ b) + neg_part a + neg_part b ≡ neg_part (a +ℤ b) + pos_part a + pos_part b
unfolding ◌+ℤ◌
+ℤ_parts a b = ground arith

pub -ℤ_parts :
    (a b : ℤ)
    → pos_part (a -ℤ b) + neg_part a + pos_part b ≡ neg_part (a -ℤ b) + pos_part a + neg_part b
unfolding ◌-ℤ◌
-ℤ_parts a b = ground arith

pub eq_of_parts : (a b : ℤ) → pos_part a + neg_part b ≡ pos_part b + neg_part a → a ≡ b
eq_of_parts a b h = ground arith

pub ruleset int_laws = (arith, +ℤ_parts, -ℤ_parts, eq_of_parts)

pub leb_ℤ-trans : (a b c : ℤ) → leb_ℤ a b ≡ true → leb_ℤ b c ≡ true → leb_ℤ a c ≡ true
leb_ℤ-trans a b c h k = ground arith

pub leb_ℤ-total : (a b : ℤ) → (leb_ℤ a b ≡ true) ⊎ (leb_ℤ b a ≡ true)
leb_ℤ-total a b = ground arith

pub nonneg_add :
    (a b : ℤ) → leb_ℤ (pos 0) a ≡ true → leb_ℤ (pos 0) b ≡ true → leb_ℤ (pos 0) (a +ℤ b) ≡ true
unfolding ◌+ℤ◌
nonneg_add a b h k = ground arith

pub nonneg_sub : (a b : ℤ) → leb_ℤ b a ≡ true → leb_ℤ (pos 0) (a -ℤ b) ≡ true
unfolding ◌-ℤ◌
nonneg_sub a b h = ground arith

pub nonneg_mul :
    (a b : ℤ) → leb_ℤ (pos 0) a ≡ true → leb_ℤ (pos 0) b ≡ true → leb_ℤ (pos 0) (a *ℤ b) ≡ true
unfolding ◌*ℤ◌
nonneg_mul (pos m) (pos n) h k = ground arith
nonneg_mul (pos m) (negsuc n) h k = absurd (ground arith)
nonneg_mul (negsuc m) b h k = absurd (ground arith)

pub nonneg_div :
    (a b : ℤ) → leb_ℤ (pos 0) a ≡ true → leb_ℤ (pos 0) b ≡ true → leb_ℤ (pos 0) (a /ℤ b) ≡ true
unfolding ◌/ℤ◌
nonneg_div (pos m) (pos n) h k = ground arith
nonneg_div (pos m) (negsuc n) h k = absurd (ground arith)
nonneg_div (negsuc m) b h k = absurd (ground arith)

pub sub-le : (a b : ℤ) → leb_ℤ (pos 0) b ≡ true → leb_ℤ (a -ℤ b) a ≡ true
unfolding ◌-ℤ◌
sub-le a b h = ground arith

pub minus_mono_ℤ :
    (a b c e : ℤ) → leb_ℤ a b ≡ true → leb_ℤ e c ≡ true → leb_ℤ (a -ℤ c) (b -ℤ e) ≡ true
unfolding ◌-ℤ◌
minus_mono_ℤ a b c e h k = ground arith

pub times_comm_ℤ : (a b : ℤ) → a *ℤ b ≡ b *ℤ a
unfolding ◌*ℤ◌
times_comm_ℤ a b =
    let positive : pos_part a * pos_part b + neg_part a * neg_part b
        ≡ pos_part b * pos_part a + neg_part b * neg_part a =
      omega arith in
    let negative : pos_part a * neg_part b + neg_part a * pos_part b
        ≡ pos_part b * neg_part a + neg_part b * pos_part a =
      omega arith in
    rw (positive, negative) refl

le-scaled_nat : (m n : ℕ) → 1000 ≤ n → m ≤ (m * n) / 1000
le-scaled_nat m n h =
    let same : 1000 + (n - 1000) ≡ n = omega arith in
    subst (λ k. m ≤ (m * k) / 1000) same (omega arith)

-- Scaling up by a fraction of thousandths that is at least one.
pub le-scaled :
    (a b : ℤ)
    → leb_ℤ (pos 0) a ≡ true
    → leb_ℤ (pos 1 *ℤ pos 1000) b ≡ true
    → leb_ℤ a ((a *ℤ b) /ℤ pos 1000) ≡ true
unfolding ◌*ℤ◌ ◌/ℤ◌
le-scaled (pos m) (pos n) h k = ground (arith, le-scaled_nat m n)
le-scaled (pos m) (negsuc n) h k = absurd (ground arith)
le-scaled (negsuc m) b h k = absurd (ground arith)

scaled-le_nat : (m n : ℕ) → n ≤ 1000 → (m * n) / 1000 ≤ m
scaled-le_nat m n h =
    let whole : n + (1000 - n) ≡ 1000 = omega arith in
    let product : m * n + m * (1000 - n) ≡ m * 1000 = omega (arith, ap (λ k. m * k) whole) in
    omega (arith, product)

pub scaled-le :
    (a b : ℤ)
    → leb_ℤ (pos 0) a ≡ true
    → leb_ℤ b (pos 1 *ℤ pos 1000) ≡ true
    → leb_ℤ ((a *ℤ b) /ℤ pos 1000) a ≡ true
unfolding ◌*ℤ◌ ◌/ℤ◌
scaled-le (pos m) (pos n) h k = ground (arith, scaled-le_nat m n)
scaled-le (pos m) (negsuc n) h k = ground arith
scaled-le (negsuc m) b h k = absurd (ground arith)

pub minus_reverse_ℤ :
    (a b : ℤ) → leb_ℤ (pos 0 *ℤ pos 1000 -ℤ a) (pos 0 *ℤ pos 1000 -ℤ b) ≡ leb_ℤ b a
unfolding ◌-ℤ◌ ◌*ℤ◌
minus_reverse_ℤ a b = ground arith

pub one_times_ℤ :
    (n : ℕ) → (pos 1 *ℤ pos 1000) *ℤ (pos n *ℤ pos 1000) /ℤ pos 1000 ≡ pos n *ℤ pos 1000
unfolding ◌*ℤ◌ ◌/ℤ◌
one_times_ℤ n = ground arith

-- A fraction in thousandths of a number by one that is not smaller.
pub ratio-le_one :
    (a b : ℤ)
    → leb_ℤ (pos 0 *ℤ pos 1000) a ≡ true
    → leb_ℤ a b ≡ true
    → leb_ℤ b (pos 0 *ℤ pos 1000) ≡ false
    → leb_ℤ ((a *ℤ pos 1000) /ℤ b) (pos 1 *ℤ pos 1000) ≡ true
unfolding ◌*ℤ◌ ◌/ℤ◌
ratio-le_one (pos m) (pos n) h k l =
    let below : m ≤ n = ground (arith, k) in
    let scaled : m * 1000 ≤ n * 1000 = omega (arith, below) in
    ground (arith, div-le_of_le-mul n scaled, l)
ratio-le_one (pos m) (negsuc n) h k l = absurd (ground arith)
ratio-le_one (negsuc m) b h k l = absurd (ground arith)

pub minus_positive_ℤ : (a b : ℤ) → leb_ℤ a b ≡ false → leb_ℤ (a -ℤ b) (pos 0 *ℤ pos 1000) ≡ false
unfolding ◌-ℤ◌ ◌*ℤ◌
minus_positive_ℤ a b h = ground arith
