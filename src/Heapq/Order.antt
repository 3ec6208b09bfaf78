-- ===== src/Heapq/Order.antt =====
-- The heap order: what an entry of the list satisfies against its parent.
use smart_bandwidth_optimize.Base.{
  ℕ, suc, ◌≤◌, ◌<◌, ◌≡◌, ◌≢◌, refl, Bool, true, Option, none, some, List, arith, get_elem?,
}
use smart_bandwidth_optimize.Heapq.{parent}

module _ {ℓ} {A : Type ℓ} (le : A → A → Bool) where
  -- `<=` on the contents of two places; an empty place is in order with anything.
  abbrev pub le_at : Option A → Option A → Bool
  le_at none y = true
  le_at (some a) none = true
  le_at (some a) (some b) = le a b

  -- The place `j` and its parent are in order.
  abbrev pub Holds : List A → ℕ → Type 0
  Holds xs j = le_at (get_elem? xs (parent j)) (get_elem? xs j) ≡ true

  -- The heap order at every place whose parent is not before `start`.
  abbrev pub IsHeapFrom : ℕ → List A → Type 0
  IsHeapFrom start xs = (j : ℕ) → 0 < j → start ≤ parent j → Holds xs j

  abbrev pub IsHeap : List A → Type 0
  IsHeap = IsHeapFrom 0

  -- The heap order but for the item at `pos`: its parent is in order with its children.
  pub record IsBroken (start pos : ℕ) (xs : List A) : Type 0 where
    pub edges : (j : ℕ) → 0 < j → start ≤ parent j → j ≢ pos → parent j ≢ pos → Holds xs j
    pub bridge :
        (j : ℕ)
        → 0 < j
        → parent j ≡ pos
        → start ≤ parent pos
        → 0 < pos
        → le_at (get_elem? xs (parent pos)) (get_elem? xs j) ≡ true

  -- The item at `pos` is in order with its children.
  abbrev pub FitsBelow : ℕ → List A → Type 0
  FitsBelow pos xs = (j : ℕ) → 0 < j → parent j ≡ pos → Holds xs j

-- The places from which `start` is reached through parents.
pub data Under (start : ℕ) : ℕ → Type 0 where
  here : Under start start
  child : {i : ℕ} (j : ℕ) → Under start i → i ≡ parent j → 0 < j → Under start j

pub Under-le : {start pos : ℕ} → Under start pos → start ≤ pos
Under-le here = omega arith
Under-le (child j u e h) = omega (arith, Under-le u)

pub Under-parent : {start pos : ℕ} → Under start pos → start < pos → Under start (parent pos)
Under-parent here h = absurd (omega arith)
Under-parent {start} (child j u e k) h = rw e at u

pub Under-zero : (fuel pos : ℕ) → pos ≤ fuel → Under 0 pos
Under-zero ℕ.zero ℕ.zero h = here
Under-zero ℕ.zero (suc pos) h = absurd (omega arith)
Under-zero (suc fuel) ℕ.zero h = here
Under-zero (suc fuel) (suc pos) h =
    child (suc pos) (Under-zero fuel (parent (suc pos)) (omega arith)) refl (omega arith)
