-- ===== src/Scheduler/Reference.antt =====
-- The abstract view of a scheduler: a list of the waiting entries in the order in which they leave.
-- What is left of the heap is what its clients rely on.

pub mod Order
pub mod Refinement
pub mod Arrive
pub mod Runs
use smart_bandwidth_optimize.Base.{
  ℕ, ◌+◌, Bool, true, false, Option, none, some, List, [], ◌∷◌, length, ltb, ◌==◌, if◌then◌else◌,
}
use smart_bandwidth_optimize.Base.Float.{lt_by}
use smart_bandwidth_optimize.Classifier.{Packet}
use smart_bandwidth_optimize.Scheduler.{Entry, entry_le, stamp}

pub record Reference (K F : Type 0) : Type 0 where
  pub max_size : ℕ
  pub entries : List (Entry K F)
  pub counter : ℕ

module _ {K F : Type 0} where
  -- The list without the entry of this sequence number.
  unfoldable pub without : ℕ → List (Entry K F) → List (Entry K F)
  without n [] = []
  without n (x ∷ xs) = if x.sequence == n then xs else x ∷ without n xs

  unfoldable pub leave : Reference K F → Reference K F × Option (Packet F)
  leave r = elim r.entries [ [] ↦ (r, none) | x ∷ xs ↦ (record r { entries = xs }, some x.packet) ]

module _ {K F : Type 0} (le : K → K → Bool) where
  -- A new entry goes behind all that it does not precede.
  unfoldable pub insert_entry : Entry K F → List (Entry K F) → List (Entry K F)
  insert_entry e [] = e ∷ []
  insert_entry e (x ∷ xs) = if entry_le le x e then x ∷ insert_entry e xs else e ∷ x ∷ xs

  -- The first of the entries with the greatest key: the oldest of the least important ones.
  unfoldable pub last_class : Entry K F → List (Entry K F) → Entry K F
  last_class w [] = w
  last_class w (x ∷ xs) = last_class (if lt_by le w.key x.key then x else w) xs

  unfoldable pub arrive : Reference K F → Entry K F → Reference K F × Bool
  arrive r e = elim r.entries [
    | [] ↦ (record r { entries = e ∷ []; counter = r.counter + 1 }, true)
    | x ∷ xs ↦
        let w = last_class x xs in
        if ltb (length (x ∷ xs)) r.max_size
        then (record r { entries = insert_entry e (x ∷ xs); counter = r.counter + 1 }, true)
        else if lt_by le w.key e.key
        then (record r { counter = r.counter + 1 }, false)
        else (
          record r {
            entries = insert_entry e (without w.sequence (x ∷ xs));
            counter = r.counter + 1;
          },
          true,
        )
  ]
