-- ===== src/Scheduler/Reference/Order.antt =====
-- Lines of entries: what the operations of the abstract scheduler do to them.
use smart_bandwidth_optimize.Base.{
  ℕ, ◌<◌, ◌≡◌, ◌≢◌, refl, inl, inr, ◌⊎◌, Bool, true, false, List, [], ◌∷◌, arith, All, Perm,
  Bool-cases, ==_iff, ◌==◌, subst, sym,
}
use mathlib.Core.List.Perm
use smart_bandwidth_optimize.Base.Float.{IsOrder, lt_by}
use smart_bandwidth_optimize.Scheduler.{Entry, entry_le, is_worse}
use smart_bandwidth_optimize.Scheduler.Entries.{All-perm, All-prop, entry_le-IsOrder}
use smart_bandwidth_optimize.Scheduler.Worst.{IsWorst, is_worse_irrefl}
use smart_bandwidth_optimize.Scheduler.Reference.{insert_entry, last_class, without}

module _ {K F : Type 0} (le : K → K → Bool) where
  abbrev pub IsBefore : Entry K F → Entry K F → Type 0
  IsBefore e x = (entry_le le e x ≡ true) × (e.sequence ≢ x.sequence)

  -- Each entry is before all that follow it, and has a sequence number of its own.
  abbrev pub IsLine : List (Entry K F) → Type 0
  IsLine [] = Unit
  IsLine (e ∷ es) = All (IsBefore e) es × IsLine es

module _ {K F : Type 0} {le : K → K → Bool} (order : IsOrder le) where
  open order use {trans, total}

  pub insert_entry-perm :
      (e : Entry K F) (xs : List (Entry K F)) → Perm (insert_entry le e xs) (e ∷ xs)
  unfolding insert_entry
  insert_entry-perm e [] = Perm.refl _
  insert_entry-perm e (x ∷ xs) = elim (Bool-cases (entry_le le x e)) [
    | inl after ↦ rw after (Perm.trans (Perm.cons x (insert_entry-perm e xs)) (Perm.swap e x xs))
    | inr before ↦ rw before (Perm.refl _)
  ]

  ahead :
      (e x : Entry K F) (xs : List (Entry K F))
      → entry_le le e x ≡ true
      → All (IsBefore le x) xs
      → All (λ y. y.sequence < e.sequence) xs
      → All (IsBefore le e) xs
  ahead e x [] h b s = tt
  ahead e x (y ∷ ys) h b s =
      (((entry_le-IsOrder order).trans e x y h b.0.0, λ p. omega arith), ahead e x ys h b.1 s.1)

  pub insert_entry-IsLine :
      (e : Entry K F) (xs : List (Entry K F))
      → All (λ x. x.sequence < e.sequence) xs
      → IsLine le xs
      → IsLine le (insert_entry le e xs)
  unfolding insert_entry
  insert_entry-IsLine e [] fresh line = (tt, tt)
  insert_entry-IsLine e (x ∷ xs) fresh line = elim (Bool-cases (entry_le le x e)) [
    | inl after ↦ rw after (
      All-perm (IsBefore le x) (λ y. hlevel) (Perm.symm (insert_entry-perm e xs))
          ((after, λ p. omega arith), line.0),
      insert_entry-IsLine e xs fresh.1 line.1,
    )
    | inr before ↦
        let first : entry_le le e x ≡ true =
          ground (arith, (entry_le-IsOrder {F = F} order).total e x, before) in
        rw before (((first, λ p. omega arith), ahead e x xs first line.0 fresh.1), line)
  ]

  -- An entry that is not worse than the first of a class is not worse than a later one of a higher
  -- class.
  worse_step :
      (w x v : Entry K F)
      → lt_by le w.key x.key ≡ true
      → is_worse le x v ≡ false
      → is_worse le w v ≡ false
  unfolding is_worse
  worse_step w x v h k = ground (
    arith,
    trans x.key w.key v.key,
    trans w.key x.key v.key,
    trans v.key w.key x.key,
    trans x.key v.key w.key,
    trans v.key x.key w.key,
    trans w.key v.key x.key,
    total w.key x.key,
    total x.key v.key,
    total w.key v.key,
  )

  worse_skip :
      (w x v : Entry K F)
      → lt_by le w.key x.key ≡ false
      → entry_le le w x ≡ true
      → is_worse le w v ≡ false
      → is_worse le x v ≡ false
  unfolding is_worse entry_le
  worse_skip w x v h b k = ground (
    arith,
    trans x.key w.key v.key,
    trans w.key x.key v.key,
    trans v.key w.key x.key,
    trans x.key v.key w.key,
    trans v.key x.key w.key,
    trans w.key v.key x.key,
    total w.key x.key,
    total x.key v.key,
    total w.key v.key,
  )

  last_class_nil : (w : Entry K F) → last_class le w [] ≡ w
  unfolding last_class
  last_class_nil w = refl

  last_class_step :
      (w x : Entry K F) (xs : List (Entry K F))
      → (lt_by le w.key x.key ≡ true → last_class le w (x ∷ xs) ≡ last_class le x xs)
        × (lt_by le w.key x.key ≡ false → last_class le w (x ∷ xs) ≡ last_class le w xs)
  unfolding last_class
  last_class_step w x xs = (λ h. rw h refl, λ h. rw h refl)

  -- The entry stands in the list, and no entry of the list is worse.
  abbrev Worst : List (Entry K F) → Entry K F → Type 0
  Worst l v = IsWorst le v l × ((others : List (Entry K F)) × Perm l (v ∷ others))

  pub last_class_lem :
      (w : Entry K F) (xs : List (Entry K F))
      → IsLine le (w ∷ xs)
      → Worst (w ∷ xs) (last_class le w xs)
  last_class_lem w [] line =
      subst (Worst (w ∷ [])) (sym (last_class_nil w))
        ((is_worse_irrefl order w, tt), ([], Perm.refl (w ∷ [])))
  last_class_lem w (x ∷ xs) line = elim (Bool-cases (lt_by le w.key x.key)) [
    | inl higher ↦
        let (worst, (others, split)) = last_class_lem x xs line.1 in
        subst (Worst (w ∷ x ∷ xs)) (sym ((last_class_step w x xs).0 higher)) (
          (worse_step w x (last_class le x xs) higher worst.0, worst),
          (w ∷ others, Perm.trans (Perm.cons w split) (Perm.swap (last_class le x xs) w others)),
        )
    | inr same ↦
        let (worst, (others, split)) = last_class_lem w xs (line.0.1, line.1.1) in
        subst (Worst (w ∷ x ∷ xs)) (sym ((last_class_step w x xs).1 same)) (
          (worst.0, (worse_skip w x (last_class le w xs) same line.0.0.0 worst.0, worst.1)),
          (
            x ∷ others,
            Perm.trans (Perm.swap x w xs)
                (Perm.trans (Perm.cons x split) (Perm.swap (last_class le w xs) x others)),
          ),
        )
  ]

module _ {K F : Type 0} where
  pub without-All :
      (P : Entry K F → Type 0) (n : ℕ) (xs : List (Entry K F)) → All P xs → All P (without n xs)
  unfolding without
  without-All P n [] h = tt
  without-All P n (x ∷ xs) h = elim (Bool-cases (x.sequence == n)) [
    | inl found ↦ rw found h.1
    | inr other ↦ rw other (h.0, without-All P n xs h.1)
  ]

  without_cases :
      (n : ℕ) (xs : List (Entry K F))
      → All (λ x. x.sequence ≢ n) xs
        ⊎ ((y : Entry K F) × (y.sequence ≡ n) × Perm xs (y ∷ without n xs))
  unfolding without
  without_cases n [] = inl tt
  without_cases n (x ∷ xs) = elim (Bool-cases (x.sequence == n)) [
    | inl found ↦ inr (x, (==_iff _ _).0 found, rw found (Perm.refl _))
    | inr other ↦ elim (without_cases n xs) [
      | inl none_of ↦ inl ((λ p. ground (arith, p, other)), none_of)
      | inr (y, at, split) ↦
          inr (y, at, rw other (Perm.trans (Perm.cons x split) (Perm.swap y x (without n xs))))
    ]
  ]

  -- Two entries of a line with one sequence number are one.
  abbrev Same : Entry K F → Entry K F → Type 0
  Same y z = z.sequence ≡ y.sequence → z ≡ y

module _ {K F : Type 0} (le : K → K → Bool) where
  pub without-IsLine : (n : ℕ) (xs : List (Entry K F)) → IsLine le xs → IsLine le (without n xs)
  unfolding without
  without-IsLine n [] h = tt
  without-IsLine n (x ∷ xs) h = elim (Bool-cases (x.sequence == n)) [
    | inl found ↦ rw found h.1
    | inr other ↦ rw other (without-All (IsBefore le x) n xs h.0, without-IsLine n xs h.1)
  ]

  apart :
      (x : Entry K F) (xs : List (Entry K F))
      → All (IsBefore le x) xs
      → All (Same x) xs × All (λ y. Same y x) xs
  apart x [] h = (tt, tt)
  apart x (y ∷ ys) h =
      let (a, b) = apart x ys h.1 in
      (((λ p. absurd (h.0.1 (sym p))), a), ((λ p. absurd (h.0.1 p)), b))

  joined :
      (x : Entry K F) (xs ys : List (Entry K F))
      → All (λ y. Same y x) ys
      → All (λ y. All (Same y) xs) ys
      → All (λ y. All (Same y) (x ∷ xs)) ys
  joined x xs [] a b = tt
  joined x xs (y ∷ ys) a b = ((a.0, b.0), joined x xs ys a.1 b.1)

  IsLine-Same : (xs : List (Entry K F)) → IsLine le xs → All (λ y. All (Same y) xs) xs
  IsLine-Same [] line = tt
  IsLine-Same (x ∷ xs) line =
      let (a, b) = apart x xs line.0 in (((λ p. refl), a), joined x xs xs b (IsLine-Same xs line.1))

  module _ (entries : IsSet (Entry K F)) where
    pub same_entry :
        (xs : List (Entry K F)) {e x : Entry K F} {es rest : List (Entry K F)}
        → IsLine le xs
        → Perm xs (e ∷ es)
        → Perm xs (x ∷ rest)
        → e.sequence ≡ x.sequence
        → e ≡ x
    same_entry xs {e} {x} line p q s =
        let all =
          All-perm (λ y. All (Same y) xs) (λ y. All-prop (Same y) (λ z. hlevel (entries z y)) xs) q
            (IsLine-Same xs line) in
        (All-perm (Same x) (λ z. hlevel (entries z x)) p all.0).0 s

    pub without-perm :
        (xs : List (Entry K F)) (w : Entry K F) {others : List (Entry K F)}
        → IsLine le xs
        → Perm xs (w ∷ others)
        → Perm (without w.sequence xs) others
    without-perm xs w line split = elim (without_cases w.sequence xs) [
      | inl none_of ↦
          absurd ((All-perm (λ x. x.sequence ≢ w.sequence) (λ x. hlevel) split none_of).0 refl)
      | inr (y, at, split') ↦
          let e : y ≡ w = same_entry xs line split' split at in
          Perm.cons_inv (Perm.trans (Perm.symm (rw e at split')) split)
    ]
