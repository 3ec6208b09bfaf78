-- ===== src/Heapq/Sift.antt =====
-- The loops of the heap: rising and sinking mend the heap order and only rearrange the list.
use smart_bandwidth_optimize.Base.{
  ℕ, zero, suc, ◌+◌, ◌*◌, ◌≤◌, ◌<◌, ◌≡◌, refl, inl, inr, ◌⊎◌, Bool, true, false, ◌&&◌, Option, none,
  some, List, arith, ltb, ◌==◌, if◌then◌else◌, length, get_elem?, Bool-cases, Perm, sym,
}
use mathlib.Core.List.Perm
use native.Mathlib.Decide.{ℕ_discrete}
use smart_bandwidth_optimize.Base.Float.{lt_by, IsOrder, le_refl_by}
use smart_bandwidth_optimize.Heapq.{parent, swap, less, rise, smaller_child, sink, siftup}
use smart_bandwidth_optimize.Heapq.Order.{
  le_at, Holds, IsHeapFrom, IsBroken, FitsBelow, Under, here, child, Under-le, Under-parent,
}
use smart_bandwidth_optimize.Heapq.Swap.{
  get_elem?_lt, get_elem?_ge, length-swap, get_elem?-swap, swap-perm,
}

children : (pos j : ℕ) → 0 < j → parent j ≡ pos → (j ≡ 2 * pos + 1) ⊎ (j ≡ 2 * pos + 2)
children pos j h e = omega arith

module _ {ℓ} {A : Type ℓ} {le : A → A → Bool} (order : IsOrder le) where
  open order use {trans, total}

  -- Transitivity through a place that is not empty.
  pub le_at_trans :
      (x y z : Option A) {b : A}
      → y ≡ some b
      → le_at le x y ≡ true
      → le_at le y z ≡ true
      → le_at le x z ≡ true
  le_at_trans none y z e h k = refl
  le_at_trans (some a) y none e h k = refl
  le_at_trans (some a) y (some c) {b} e h k = ground (arith, trans a b c)

  pub le_at_refl : (x : Option A) → le_at le x x ≡ true
  le_at_refl none = refl
  le_at_refl (some a) = le_refl_by order a

  pub le_at-none : (x : Option A) → le_at le x none ≡ true
  le_at-none none = refl
  le_at-none (some a) = refl

  less-true :
      (xs : List A) (i j : ℕ)
      → less le xs i j ≡ true
      → le_at le (get_elem? xs i) (get_elem? xs j) ≡ true
  unfolding less
  less-true xs i j h = go (get_elem? xs i) (get_elem? xs j) h
    where
      go :
          (x y : Option A)
          → elim x [ none ↦ false | some a ↦ elim y [ none ↦ false | some b ↦ lt_by le a b ] ]
            ≡ true
          → le_at le x y ≡ true
      go none y h = refl
      go (some a) none h = refl
      go (some a) (some b) h = ground (arith, total a b)

  less-false :
      (xs : List A) (i j : ℕ)
      → i < length xs
      → j < length xs
      → less le xs i j ≡ false
      → le_at le (get_elem? xs j) (get_elem? xs i) ≡ true
  unfolding less
  less-false xs i j hi hj h =
      let (a, ea) = get_elem?_lt xs i hi in
      let (b, eb) = get_elem?_lt xs j hj in ground (arith, ea, eb)

  -- One step up: the item at `pos` is less than its parent, and the two are swapped.
  module _ (start pos : ℕ) (xs : List A) (hs : start ≤ parent pos) (h0 : 0 < pos)
      (hp : pos < length xs) (b : IsBroken le start pos xs) (fits : FitsBelow le pos xs)
      (lower : le_at le (get_elem? xs pos) (get_elem? xs (parent pos)) ≡ true) where
    at_swap :
        (k : ℕ)
        → get_elem? (swap xs pos (parent pos)) k ≡ (
            if k == parent pos
            then get_elem? xs pos
            else if k == pos
            then get_elem? xs (parent pos)
            else get_elem? xs k)
    at_swap = get_elem?-swap xs pos (parent pos) hp (omega arith)

    rise_step-IsBroken : IsBroken le start (parent pos) (swap xs pos (parent pos))
    rise_step-IsBroken =
        let (p, ep) = get_elem?_lt xs (parent pos) (omega arith) in
        record {
          edges = λ j h s ne pe.
              rw (at_swap j, at_swap (parent j)) (ground (arith, b.edges j h s, b.bridge j h));
          bridge = λ j h e s z.
              rw (at_swap j, at_swap (parent (parent pos)))
                (ground (
                  arith,
                  b.edges (parent pos),
                  b.edges j h,
                  le_at_trans (get_elem? xs (parent (parent pos))) (get_elem? xs (parent pos))
                      (get_elem? xs j) ep,
                ));
        }

    rise_step-FitsBelow : FitsBelow le (parent pos) (swap xs pos (parent pos))
    rise_step-FitsBelow j h e =
        let (p, ep) = get_elem?_lt xs (parent pos) (omega arith) in
        rw (at_swap j, at_swap (parent j))
          (ground (
            arith,
            b.edges j h,
            le_at_trans (get_elem? xs pos) (get_elem? xs (parent pos)) (get_elem? xs j) ep,
          ))

  -- With the item in order with its children and its parent, the heap order holds everywhere.
  mended :
      (start pos : ℕ) (xs : List A)
      → IsBroken le start pos xs
      → FitsBelow le pos xs
      → (0 < pos → start ≤ parent pos → Holds le xs pos)
      → IsHeapFrom le start xs
  mended start pos xs b fits above j h s = elim (ℕ_discrete j pos) [
    | yes e ↦ rw e (above (omega arith) (omega arith))
    | no ne ↦ elim (ℕ_discrete (parent j) pos) [
      | yes e ↦ fits j h e
      | no ne' ↦ b.edges j h s ne ne'
    ]
  ]

  pub rise_lem :
      (fuel start pos : ℕ) (xs : List A)
      → pos ≤ fuel
      → pos < length xs
      → Under start pos
      → IsBroken le start pos xs
      → FitsBelow le pos xs
      → IsHeapFrom le start (rise le fuel start pos xs) × Perm (rise le fuel start pos xs) xs
  unfolding rise
  rise_lem zero start pos xs hf hp u b fits =
      (mended start pos xs b fits (λ h s. absurd (omega arith)), Perm.refl xs)
  rise_lem (suc fuel) start pos xs hf hp u b fits =
      elim (Bool-cases (ltb start pos && less le xs pos (parent pos))) [
        | inl go ↦
            let above : start < pos = ground arith in
            let lower = less-true xs pos (parent pos) (ground arith) in
            let up = Under-parent u above in
            let hs = Under-le up in
            let h0 : 0 < pos = omega arith in
            let same = length-swap xs pos (parent pos) hp (omega arith) in
            let (heap, same_items) =
              rise_lem fuel start (parent pos) (swap xs pos (parent pos)) (omega arith)
                (omega (arith, same)) up (rise_step-IsBroken start pos xs hs h0 hp b fits lower)
                (rise_step-FitsBelow start pos xs hs h0 hp b fits lower) in
            rw go (
              heap,
              Perm.trans same_items (swap-perm xs pos (parent pos) hp (omega arith) (omega arith)),
            )
        | inr stop ↦ rw stop (
          mended start pos xs b fits
              (λ h s. less-false xs pos (parent pos) hp (omega arith) (ground arith)),
          Perm.refl xs,
        )
      ]

  -- One step down: the smaller child of `pos` moves up.
  module _ (start pos : ℕ) (xs : List A) (hc : 2 * pos + 1 < length xs) (u : start ≤ pos)
      (b : IsBroken le start pos xs) where
    smaller_child-range :
        (smaller_child le xs pos < length xs)
        × (0 < smaller_child le xs pos)
        × (parent (smaller_child le xs pos) ≡ pos)
    unfolding smaller_child
    smaller_child-range = ground arith

    -- The smaller child is in order with every child of `pos`.
    smaller_child_least :
        (j : ℕ)
        → 0 < j
        → parent j ≡ pos
        → le_at le (get_elem? xs (smaller_child le xs pos)) (get_elem? xs j) ≡ true
    unfolding smaller_child
    smaller_child_least j h e = ground (
      arith,
      less-true xs (2 * pos + 1) (2 * pos + 2),
      less-false xs (2 * pos + 1) (2 * pos + 2) hc,
      le_at_refl (get_elem? xs j),
      get_elem?_ge xs (2 * pos + 2),
      le_at-none (get_elem? xs (2 * pos + 1)),
      children pos j h e,
    )

    child_swap :
        (k : ℕ)
        → get_elem? (swap xs pos (smaller_child le xs pos)) k ≡ (
            if k == smaller_child le xs pos
            then get_elem? xs pos
            else if k == pos
            then get_elem? xs (smaller_child le xs pos)
            else get_elem? xs k)
    child_swap = get_elem?-swap xs pos (smaller_child le xs pos) (omega arith) smaller_child-range.0

    sink_step-IsBroken :
        IsBroken le start (smaller_child le xs pos) (swap xs pos (smaller_child le xs pos))
    sink_step-IsBroken =
        let (range, positive, up) = smaller_child-range in
        let c = smaller_child le xs pos in
        record {
          edges = λ j h s ne pe.
              rw (child_swap j, child_swap (parent j))
                (ground (arith, b.edges j h s, b.bridge c positive, smaller_child_least j h));
          bridge =
              λ j h e s z. rw (child_swap j, child_swap (parent c)) (ground (arith, b.edges j h));
        }

  -- What the loop of `_siftup` leaves: the item at a leaf, and the rest in order.
  abbrev Sunk : ℕ → List A → ℕ × List A → Type ℓ
  Sunk start xs (leaf, ys) =
      IsBroken le start leaf ys
      × FitsBelow le leaf ys
      × Under start leaf
      × (leaf < length ys)
      × Perm ys xs

  sink_lem :
      (fuel start pos : ℕ) (xs : List A)
      → length xs ≤ pos + fuel
      → pos < length xs
      → Under start pos
      → IsBroken le start pos xs
      → Sunk start xs (sink le fuel pos xs)
  unfolding sink
  sink_lem zero start pos xs hf hp u b = absurd (omega arith)
  sink_lem (suc fuel) start pos xs hf hp u b = elim (Bool-cases (ltb (2 * pos + 1) (length xs))) [
    | inl go ↦
        let hc : 2 * pos + 1 < length xs = ground arith in
        let c = smaller_child le xs pos in
        let (range, positive, up) = smaller_child-range start pos xs hc (Under-le u) b in
        let same = length-swap xs pos c hp range in
        let (b', f', u', l', p') =
          sink_lem fuel start c (swap xs pos c) (omega (arith, same)) (omega (arith, same))
            (child c u (sym up) positive) (sink_step-IsBroken start pos xs hc (Under-le u) b) in
        rw go (b', f', u', l', Perm.trans p' (swap-perm xs pos c hp range (omega arith)))
    | inr stop ↦ rw stop (
      b,
      (λ j h e. rw (get_elem?_ge xs j (ground (arith, children pos j h e))) (le_at-none _)),
      u,
      hp,
      Perm.refl xs,
    )
  ]

  -- `_siftup` mends the heap order at `start` and below, if the places below `start` are in order.
  pub siftup_lem :
      (start : ℕ) (xs : List A)
      → start < length xs
      → IsBroken le start start xs
      → IsHeapFrom le start (siftup le start xs) × Perm (siftup le start xs) xs
  unfolding siftup
  siftup_lem start xs hs b =
      let (broken, fits, under, bound, items) =
        sink_lem (length xs) start start xs (omega arith) hs here b in
      let (leaf, ys) = sink le (length xs) start xs in
      let (heap, items') = rise_lem leaf start leaf ys (omega arith) bound under broken fits in
      (heap, Perm.trans items' items)
