-- ===== src/Heapq.antt =====
-- Python's `heapq` on a list, over the test `<` of the entries: the binary heap that the schedulers
-- keep. The item that sinks or rises stands in the list, where the library keeps a hole for it.
pub mod Order
pub mod Swap
pub mod Sift
pub mod Laws
use smart_bandwidth_optimize.Base.{
  ℕ, zero, suc, ◌+◌, ◌-◌, ◌*◌, ◌/◌, Bool, true, false, not, ◌&&◌, Option, none, some, List, [], ◌∷◌,
  ◌++◌, ltb, if◌then◌else◌, length, get_elem?, set, last_from, init_from,
}
use smart_bandwidth_optimize.Base.Float.{lt_by}

abbrev pub parent : ℕ → ℕ
parent j = (j - 1) / 2

unfoldable pub swap {ℓ} : {A : Type ℓ} → List A → ℕ → ℕ → List A
swap xs i j = elim (get_elem? xs i) [
  | none ↦ xs
  | some a ↦ elim (get_elem? xs j) [ none ↦ xs | some b ↦ set (set xs i b) j a ]
]

module _ {ℓ} {A : Type ℓ} (le : A → A → Bool) where
  -- `xs[i] < xs[j]`, for indices in range.
  unfoldable pub less : List A → ℕ → ℕ → Bool
  less xs i j = elim (get_elem? xs i) [
    | none ↦ false
    | some a ↦ elim (get_elem? xs j) [ none ↦ false | some b ↦ lt_by le a b ]
  ]

  -- `_siftdown`: the item at `pos` rises while it is less than its parent, up to `start`. The fuel is
  -- the position, which falls.
  unfoldable pub rise : ℕ → ℕ → ℕ → List A → List A
  rise zero start pos xs = xs
  rise (suc fuel) start pos xs =
      let rest = rise fuel start (parent pos) (swap xs pos (parent pos)) in
      if ltb start pos && less xs pos (parent pos) then rest else xs

  unfoldable pub smaller_child : List A → ℕ → ℕ
  smaller_child xs pos =
      if ltb (2 * pos + 2) (length xs) && not (less xs (2 * pos + 1) (2 * pos + 2))
      then 2 * pos + 2
      else 2 * pos + 1

  -- The loop of `_siftup`: the smaller child moves up until the item is at a leaf. The fuel is the
  -- length, above what is left of the list after the position.
  unfoldable pub sink : ℕ → ℕ → List A → ℕ × List A
  sink zero pos xs = (pos, xs)
  sink (suc fuel) pos xs =
      let child = smaller_child xs pos in
      let rest = sink fuel child (swap xs pos child) in
      if ltb (2 * pos + 1) (length xs) then rest else (pos, xs)

  unfoldable pub siftup : ℕ → List A → List A
  siftup start xs = let (leaf, ys) = sink (length xs) start xs in rise leaf start leaf ys

  unfoldable pub heappush : List A → A → List A
  heappush xs x = rise (length xs) 0 (length xs) (xs ++ (x ∷ []))

  -- `none` is the `IndexError` of an empty heap.
  unfoldable pub heappop : List A → Option (A × List A)
  heappop [] = none
  heappop (x ∷ []) = some (x, [])
  heappop (x ∷ y ∷ rest) = some (x, siftup 0 (last_from y rest ∷ init_from y rest))

  heapify_below : ℕ → List A → List A
  heapify_below zero xs = xs
  heapify_below (suc i) xs = heapify_below i (siftup i xs)

  unfoldable pub heapify : List A → List A
  unfolding heapify_below
  heapify xs = heapify_below (length xs / 2) xs
