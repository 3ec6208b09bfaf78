-- ===== src/Scheduler/Reference/Refinement.antt =====
-- What it is for a queue on a heap to implement the abstract scheduler, and `dequeue`.
use smart_bandwidth_optimize.Base.{
  ◌≡◌, refl, ap, sym, ◌∙◌, inl, inr, Bool, true, none, some, List, [], ◌∷◌, arith, length, All,
  Perm, length-perm,
}
use mathlib.Core.List.Perm
use smart_bandwidth_optimize.Base.Float.{IsOrder, le_refl_by}
use smart_bandwidth_optimize.Scheduler.{Entry, Queue, dequeue, entry_le}
use smart_bandwidth_optimize.Scheduler.Entries.{All-perm, entry_le-IsOrder}
use smart_bandwidth_optimize.Scheduler.Enqueue.{IsValid}
use smart_bandwidth_optimize.Scheduler.Dequeue.{dequeue_lem}
use smart_bandwidth_optimize.Scheduler.Reference.{Reference, leave}
use smart_bandwidth_optimize.Scheduler.Reference.Order.{IsBefore, IsLine, same_entry}

-- The queue is valid, and the abstract scheduler has its entries in line.
pub record Refines {K F : Type 0} (le : K → K → Bool) (s : Queue K F) (r : Reference K F)
    : Type 0 where
  pub valid : IsValid le s
  pub line : IsLine le r.entries
  pub contents : Perm s.heap r.entries
  pub size : s.max_size ≡ r.max_size
  pub counter : s.counter ≡ r.counter

module _ {K F : Type 0} where
  leave_nil : (r : Reference K F) → r.entries ≡ [] → leave r ≡ (r, none)
  unfolding leave
  leave_nil r h = ground (arith, h)

  leave_cons :
      (r : Reference K F) (x : Entry K F) (xs : List (Entry K F))
      → r.entries ≡ x ∷ xs
      → leave r ≡ (record r { entries = xs }, some x.packet)
  unfolding leave
  leave_cons r x xs h = ground (arith, h)

  nothing : (l : List (Entry K F)) → length l ≡ 0 → l ≡ []
  nothing [] h = refl
  nothing (x ∷ xs) h = absurd (omega (arith, h))

module _ {K F : Type 0} {le : K → K → Bool} (order : IsOrder le) where
  open order use {trans, total}

  both_before :
      (e x : Entry K F) → entry_le le e x ≡ true → entry_le le x e ≡ true → e.sequence ≡ x.sequence
  unfolding entry_le
  both_before e x h k = ground (arith, total e.key x.key)

  module _ (entries : IsSet (Entry K F)) where
    leave_at :
        (s s' : Queue K F) (e : Entry K F) (l : List (Entry K F))
        → IsLine le l
        → Perm s.heap l
        → Perm s.heap (e ∷ s'.heap)
        → All (λ x. entry_le le e x ≡ true) s'.heap
        → (xs : List (Entry K F)) × (l ≡ e ∷ xs) × Perm s'.heap xs × IsLine le xs
    leave_at s s' e [] line same split least =
        absurd (omega (arith, length-perm same, length-perm split))
    leave_at s s' e (x ∷ xs) line same split least =
        let here = Perm.trans (Perm.symm same) split in
        let below : All (λ y. entry_le le x y ≡ true) (e ∷ s'.heap) =
          All-perm (λ y. entry_le le x y ≡ true) (λ y. hlevel) here
            (refl_le x, firsts x xs line.0) in
        let above : All (λ y. entry_le le e y ≡ true) (x ∷ xs) =
          All-perm (λ y. entry_le le e y ≡ true) (λ y. hlevel) (Perm.symm here)
            (refl_le e, least) in
        let found : e ≡ x =
          same_entry le entries (x ∷ xs) line here (Perm.refl (x ∷ xs))
            (both_before e x above.0 below.0) in
        (xs, ap (λ y. y ∷ xs) (sym found), Perm.cons_inv (Perm.symm (rw found at here)), line.1)
      where
        refl_le : (y : Entry K F) → entry_le le y y ≡ true
        refl_le y = le_refl_by (entry_le-IsOrder order) y

        firsts :
            (x : Entry K F) (xs : List (Entry K F))
            → All (IsBefore le x) xs
            → All (λ y. entry_le le x y ≡ true) xs
        firsts x [] h = tt
        firsts x (y ∷ ys) h = (h.0.0, firsts x ys h.1)

    pub dequeue-leave :
        (s : Queue K F) (r : Reference K F)
        → Refines le s r
        → ((dequeue le s).1 ≡ (leave r).1) × Refines le (dequeue le s).0 (leave r).0
    dequeue-leave s r h = elim (dequeue_lem order s h.valid) [
      | inl (empty, done) ↦
          let none_left : r.entries ≡ [] =
            nothing r.entries (omega (arith, length-perm h.contents, ap length empty)) in
          rw (done, leave_nil r none_left) (refl, h)
      | inr (s', e, done, d) ↦
          let (xs, at, same, line) = leave_at s s' e r.entries h.line h.contents d.items d.least in
          rw (done, leave_cons r e xs at)
            (
              refl,
              record {
                valid = d.valid;
                line = line;
                contents = same;
                size = d.size ∙ h.size;
                counter = d.counter ∙ h.counter;
              },
            )
    ]
