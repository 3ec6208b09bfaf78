-- ===== src/Scheduler/Entries.antt =====
-- The order of the entries, and lists of entries up to order.
use smart_bandwidth_optimize.Base.{
  ℕ, zero, suc, ◌≡◌, refl, Bool, some, List, [], ◌∷◌, arith, get_elem?, set, last_from, init_from,
  Perm, All, subst,
}
use mathlib.Core.List.{Permᴰ}
use mathlib.Core.List.Perm
use mathlib.Core.Logic.{∥∥₁_elim}
use smart_bandwidth_optimize.Base.Float.{IsOrder}
use smart_bandwidth_optimize.Scheduler.{Entry, entry_le, take_out}
use smart_bandwidth_optimize.Heapq.Swap.{set-perm}
use smart_bandwidth_optimize.Heapq.Laws.{init_from-perm}

module _ {A : Type 0} (P : A → Type 0) where
  All_permᴰ : {xs ys : List A} → Permᴰ xs ys → All P xs → All P ys
  All_permᴰ Permᴰ.nil h = h
  All_permᴰ (Permᴰ.cons e p) h = (subst P e h.0, All_permᴰ p h.1)
  All_permᴰ (Permᴰ.swap e f) h = (subst P f h.1.0, (subst P e h.0, h.1.1))
  All_permᴰ (Permᴰ.trans p q) h = All_permᴰ q (All_permᴰ p h)

  pub All-prop : ((x : A) → IsProp (P x)) → (xs : List A) → IsProp (All P xs)
  All-prop prop [] = hlevel
  All-prop prop (x ∷ xs) = hlevel (prop x, All-prop prop xs)

  -- What holds of every element holds of a rearranged list.
  pub All-perm : ((x : A) → IsProp (P x)) → {xs ys : List A} → Perm xs ys → All P xs → All P ys
  All-perm prop {xs} {ys} p h = ∥∥₁_elim p (All-prop prop ys) (λ q. All_permᴰ q h)

  pub All_of_get_elem? :
      (xs : List A) → ((j : ℕ) (x : A) → get_elem? xs j ≡ some x → P x) → All P xs
  All_of_get_elem? [] h = tt
  All_of_get_elem? (x ∷ xs) h = (h 0 x refl, All_of_get_elem? xs (λ j. h (suc j)))

  pub All_map : {Q : A → Type 0} → ((x : A) → P x → Q x) → (xs : List A) → All P xs → All Q xs
  All_map f [] h = tt
  All_map f (x ∷ xs) h = (f x h.0, All_map f xs h.1)

module _ {K F : Type 0} {le : K → K → Bool} (order : IsOrder le) where
  open order use {trans, total}

  pub entry_le-IsOrder : IsOrder (entry_le {K = K} {F = F} le)
  unfolding entry_le
  entry_le-IsOrder = record {
    trans = λ a b c h k. ground (
      arith,
      trans a.key b.key c.key,
      trans b.key c.key a.key,
      trans c.key a.key b.key,
      trans c.key b.key a.key,
      trans b.key a.key c.key,
      trans a.key c.key b.key,
      total a.key b.key,
      total b.key c.key,
      total a.key c.key,
    );
    total = λ a b. ground (arith, total a.key b.key);
  }

module _ {A : Type 0} where
  last_from_self : (x : A) (xs : List A) → last_from (last_from x xs) xs ≡ last_from x xs
  last_from_self x [] = refl
  last_from_self x (y ∷ ys) = refl

  last_from-set :
      (x : A) (xs : List A) (i : ℕ) → last_from x (set xs i (last_from x xs)) ≡ last_from x xs
  last_from-set x [] i = refl
  last_from-set x (y ∷ ys) zero = last_from_self y ys
  last_from-set x (y ∷ ys) (suc i) = last_from-set y ys i

  take_out_perm_at :
      (y : A) (ys xs : List A) (l e : A)
      → last_from y ys ≡ l
      → Perm (l ∷ xs) (e ∷ y ∷ ys)
      → Perm xs (e ∷ init_from y ys)
  take_out_perm_at y ys xs l e last p = Perm.cons_inv (
      Perm.trans p (
        Perm.trans (Perm.cons e (Perm.symm (rw last at (init_from-perm y ys))))
          (Perm.swap l e (init_from y ys))))

-- The entry at an index, taken out as the source does: the last entry takes its place.
pub take_out-perm :
    {K F : Type 0} (xs : List (Entry K F)) (i : ℕ) {e : Entry K F}
    → get_elem? xs i ≡ some e
    → Perm xs (e ∷ take_out xs i)
unfolding take_out
take_out-perm [] i h = absurd (ground arith)
take_out-perm (x ∷ xs) zero {e} h =
    let l = last_from x xs in
    take_out_perm_at l xs (x ∷ xs) l e (last_from_self x xs) (set-perm (x ∷ xs) zero l e h)
take_out-perm (x ∷ xs) (suc i) {e} h =
    let l = last_from x xs in
    take_out_perm_at x (set xs i l) (x ∷ xs) l e (last_from-set x xs i)
      (set-perm (x ∷ xs) (suc i) l e h)
