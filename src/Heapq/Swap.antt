-- ===== src/Heapq/Swap.antt =====
-- Swapping two entries of a list: what is read after it, and that the entries stay the same.
use smart_bandwidth_optimize.Base.{
  ℕ, zero, suc, ◌≤◌, ◌<◌, ◌≡◌, ◌≢◌, refl, ap, ◌∙◌, none, some, List, [], ◌∷◌, arith, ◌==◌,
  if◌then◌else◌, length, get_elem?, set, Perm,
}
use mathlib.Core.List.Perm
use smart_bandwidth_optimize.Heapq.{swap}

module _ {ℓ} {A : Type ℓ} where
  pub get_elem?_lt : (xs : List A) (i : ℕ) → i < length xs → (a : A) × (get_elem? xs i ≡ some a)
  get_elem?_lt [] i h = absurd (omega arith)
  get_elem?_lt (x ∷ xs) zero h = (x, refl)
  get_elem?_lt (x ∷ xs) (suc i) h = get_elem?_lt xs i (omega arith)

  pub get_elem?_ge : (xs : List A) (i : ℕ) → length xs ≤ i → get_elem? xs i ≡ none
  get_elem?_ge [] i h = refl
  get_elem?_ge (x ∷ xs) zero h = absurd (omega arith)
  get_elem?_ge (x ∷ xs) (suc i) h = get_elem?_ge xs i (omega arith)

  get_elem?-some_lt : (xs : List A) (i : ℕ) {a : A} → get_elem? xs i ≡ some a → i < length xs
  get_elem?-some_lt [] i h = absurd (ground arith)
  get_elem?-some_lt (x ∷ xs) zero h = omega arith
  get_elem?-some_lt (x ∷ xs) (suc i) h = omega (arith, get_elem?-some_lt xs i h)

  get_elem?-set :
      (xs : List A) (i k : ℕ) (v : A)
      → i < length xs
      → get_elem? (set xs i v) k ≡ (if k == i then some v else get_elem? xs k)
  get_elem?-set [] i k v h = absurd (omega arith)
  get_elem?-set (x ∷ xs) zero zero v h = refl
  get_elem?-set (x ∷ xs) zero (suc k) v h = ground arith
  get_elem?-set (x ∷ xs) (suc i) zero v h = ground arith
  get_elem?-set (x ∷ xs) (suc i) (suc k) v h = ground (arith, get_elem?-set xs i k v)

  length-set : (xs : List A) (i : ℕ) (v : A) → length (set xs i v) ≡ length xs
  length-set [] i v = refl
  length-set (x ∷ xs) zero v = refl
  length-set (x ∷ xs) (suc i) v = ap suc (length-set xs i v)

  pub set-perm :
      (xs : List A) (i : ℕ) (v a : A) → get_elem? xs i ≡ some a → Perm (v ∷ xs) (a ∷ set xs i v)
  set-perm [] i v a h = absurd (ground arith)
  set-perm (x ∷ xs) zero v a h = let e : x ≡ a = ground arith in rw e (Perm.swap a v xs)
  set-perm (x ∷ xs) (suc i) v a h =
      Perm.trans (Perm.swap x v xs)
        (Perm.trans (Perm.cons x (set-perm xs i v a h)) (Perm.swap a x (set xs i v)))

  module _ (xs : List A) (i j : ℕ) (a b : A) (ea : get_elem? xs i ≡ some a)
      (eb : get_elem? xs j ≡ some b) where
    swap_lem : swap xs i j ≡ set (set xs i b) j a
    unfolding swap
    swap_lem = ground arith

    swap-perm_at : i ≢ j → Perm (swap xs i j) xs
    swap-perm_at ne =
        let read : get_elem? (set xs i b) j ≡ some b =
          ground (arith, get_elem?-set xs i j b (get_elem?-some_lt xs i ea), eb) in
        rw swap_lem (
          Perm.cons_inv (
            Perm.trans (Perm.symm (set-perm (set xs i b) j a b read))
              (Perm.symm (set-perm xs i b a ea))))

  module _ (xs : List A) (i j : ℕ) (hi : i < length xs) (hj : j < length xs) where
    pub length-swap : length (swap xs i j) ≡ length xs
    length-swap =
        let (a, ea) = get_elem?_lt xs i hi in
        let (b, eb) = get_elem?_lt xs j hj in
        rw (swap_lem xs i j a b ea eb) (length-set (set xs i b) j a ∙ length-set xs i b)

    pub get_elem?-swap :
        (k : ℕ)
        → get_elem? (swap xs i j) k
          ≡ (if k == j then get_elem? xs i else if k == i then get_elem? xs j else get_elem? xs k)
    get_elem?-swap k =
        let (a, ea) = get_elem?_lt xs i hi in
        let (b, eb) = get_elem?_lt xs j hj in
        rw (swap_lem xs i j a b ea eb) (
          ground (
            arith,
            get_elem?-set (set xs i b) j k a,
            get_elem?-set xs i k b hi,
            length-set xs i b,
            ea,
            eb,
          ))

    pub swap-perm : i ≢ j → Perm (swap xs i j) xs
    swap-perm ne =
        let (a, ea) = get_elem?_lt xs i hi in
        let (b, eb) = get_elem?_lt xs j hj in swap-perm_at xs i j a b ea eb ne
