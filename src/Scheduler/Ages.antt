-- ===== src/Scheduler/Ages.antt =====
-- The sequence numbers of the waiting entries: no two are the same.
use smart_bandwidth_optimize.Base.{ℕ, ◌<◌, ◌≢◌, sym, subst, Bool, List, [], ◌∷◌, arith, All, Perm}
use mathlib.Core.HLevel.{¬_prop}
use mathlib.Core.Logic.{∥∥₁_elim}
use mathlib.Core.List.{Memᴰ, Pairwise}
use mathlib.Core.List.Perm
use smart_bandwidth_optimize.Scheduler.{Entry}
use smart_bandwidth_optimize.Scheduler.Entries.{All-perm}
use native.Mathlib.Bridge.{le_prop}
use smart_bandwidth_optimize.Scheduler.Enqueue.{Enqueued, room, rejected, evicted}

module _ {K F : Type 0} where
  -- No two entries have the same sequence number.
  abbrev pub AreApart : List (Entry K F) → Type 0
  AreApart = Pairwise (λ (a b : Entry K F). a.sequence ≢ b.sequence)

  pub AreApart-perm : {xs ys : List (Entry K F)} → Perm xs ys → AreApart xs → AreApart ys
  AreApart-perm = Perm.pairwise (λ a b. ¬_prop) (λ a b differ same. differ (sym same))

  pub AreApart-tail : {e : Entry K F} {xs : List (Entry K F)} → AreApart (e ∷ xs) → AreApart xs
  AreApart-tail (Pairwise.cons h p) = p

  below :
      (n : ℕ) (xs : List (Entry K F)) {a : Entry K F}
      → All (λ x. x.sequence < n) xs
      → Memᴰ a xs
      → a.sequence < n
  below n [] h m = elim m [ ]
  below n (x ∷ xs) h (Memᴰ.head e) = subst (λ y. y.sequence < n) (sym e) h.0
  below n (x ∷ xs) h (Memᴰ.tail m) = below n xs h.1 m

  -- An entry with a number above all others is apart from them.
  AreApart-cons :
      (e : Entry K F) (xs : List (Entry K F))
      → All (λ x. x.sequence < e.sequence) xs
      → AreApart xs
      → AreApart (e ∷ xs)
  AreApart-cons e xs h apart =
      Pairwise.cons
        (λ a m. ∥∥₁_elim m ¬_prop (λ d same. ground (arith, below e.sequence xs h d, same))) apart

  pub Enqueued-AreApart :
      {le : K → K → Bool} {max : ℕ} {before : List (Entry K F)} {e : Entry K F}
      {after : List (Entry K F)} {b : Bool}
      → Enqueued le max before e after b
      → All (λ x. x.sequence < e.sequence) before
      → AreApart before
      → AreApart after
  Enqueued-AreApart {before = before} {e = e} (room h p t) low apart =
      AreApart-perm (Perm.symm p) (AreApart-cons e before low apart)
  Enqueued-AreApart (rejected w others h iw split l same t) low apart =
      subst AreApart (sym same) apart
  Enqueued-AreApart {e = e} (evicted w others h iw l split p t) low apart =
      AreApart-perm (Perm.symm p) (
        AreApart-cons e others (All-perm (λ x. x.sequence < e.sequence) (λ x. le_prop) split low).1
          (AreApart-tail (AreApart-perm split apart)))
