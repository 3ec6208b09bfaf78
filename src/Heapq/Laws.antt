-- ===== src/Heapq/Laws.antt =====
-- The laws of the heap: the first entry is a least one, and pushing, popping and `heapify` keep the
-- heap order and the entries.
use smart_bandwidth_optimize.Base.{
  ℕ, zero, suc, ◌+◌, ◌/◌, ◌≤◌, ◌<◌, ◌≡◌, refl, ap, Bool, true, Option, none, some, List, [], ◌∷◌,
  ◌++◌, arith, length, get_elem?, last_from, init_from, Perm, length-perm, length-append, ◌∙◌,
}
use native.Mathlib.Decide.{dec_lt}
use mathlib.Core.List.{perm_append_comm}
use mathlib.Core.List.Perm
use smart_bandwidth_optimize.Base.Float.{IsOrder}
use smart_bandwidth_optimize.Heapq.{parent, siftup, heappush, heappop, heapify_below, heapify}
use smart_bandwidth_optimize.Heapq.Order.{le_at, IsHeapFrom, IsHeap, Under-zero}
use smart_bandwidth_optimize.Heapq.Swap.{get_elem?_lt, get_elem?_ge}
use smart_bandwidth_optimize.Heapq.Sift.{rise_lem, siftup_lem, le_at-none, le_at_trans, le_at_refl}

module _ {ℓ} {A : Type ℓ} where
  get_elem?-append_left :
      (xs ys : List A) (i : ℕ) → i < length xs → get_elem? (xs ++ ys) i ≡ get_elem? xs i
  get_elem?-append_left [] ys i h = absurd (omega arith)
  get_elem?-append_left (x ∷ xs) ys zero h = refl
  get_elem?-append_left (x ∷ xs) ys (suc i) h = get_elem?-append_left xs ys i (omega arith)

  get_elem?-init_from :
      (x : A) (xs : List A) (i : ℕ)
      → i < length xs
      → get_elem? (init_from x xs) i ≡ get_elem? (x ∷ xs) i
  get_elem?-init_from x [] i h = absurd (omega arith)
  get_elem?-init_from x (y ∷ ys) zero h = refl
  get_elem?-init_from x (y ∷ ys) (suc i) h = get_elem?-init_from y ys i (omega arith)

  length-init_from : (x : A) (xs : List A) → length (init_from x xs) ≡ length xs
  length-init_from x [] = refl
  length-init_from x (y ∷ ys) = ap suc (length-init_from y ys)

  pub init_from-perm : (x : A) (xs : List A) → Perm (last_from x xs ∷ init_from x xs) (x ∷ xs)
  init_from-perm x [] = Perm.refl _
  init_from-perm x (y ∷ ys) =
      Perm.trans (Perm.swap x (last_from y ys) (init_from y ys)) (Perm.cons x (init_from-perm y ys))

  get_elem?-cons :
      (x y : A) (xs : List A) (i : ℕ) → 0 < i → get_elem? (x ∷ xs) i ≡ get_elem? (y ∷ xs) i
  get_elem?-cons x y xs zero h = absurd (omega arith)
  get_elem?-cons x y xs (suc i) h = refl

module _ {ℓ} {A : Type ℓ} {le : A → A → Bool} (order : IsOrder le) where
  -- The first place is in order with every other.
  root_least :
      (fuel j : ℕ) (x : A) (xs : List A)
      → j ≤ fuel
      → IsHeap le (x ∷ xs)
      → le_at le (some x) (get_elem? (x ∷ xs) j) ≡ true
  root_least fuel zero x xs h heap = le_at_refl order (some x)
  root_least zero (suc j) x xs h heap = absurd (omega arith)
  root_least (suc fuel) (suc j) x xs h heap =
      let prev = root_least fuel (parent (suc j)) x xs (omega arith) heap in
      elim (dec_lt (suc j) (length (x ∷ xs))) [
        | yes inside ↦
            let (p, ep) = get_elem?_lt (x ∷ xs) (parent (suc j)) (omega arith) in
            le_at_trans order (some x) (get_elem? (x ∷ xs) (parent (suc j)))
              (get_elem? (x ∷ xs) (suc j)) ep prev (heap (suc j) (omega arith) (omega arith))
        | no outside ↦ rw (get_elem?_ge (x ∷ xs) (suc j) (omega arith))
      ]

  pub IsHeap-least :
      (x : A) (xs : List A) (j : ℕ) {y : A}
      → IsHeap le (x ∷ xs)
      → get_elem? (x ∷ xs) j ≡ some y
      → le x y ≡ true
  IsHeap-least x xs j heap e = rw e at (root_least j j x xs (omega arith) heap)

  absent : (xs : List A) (j : ℕ) (x : Option A) → length xs ≤ j → le_at le x (get_elem? xs j) ≡ true
  absent xs j x h = rw (get_elem?_ge xs j h) (le_at-none order x)

  IsHeap-nil : IsHeap le []
  IsHeap-nil j h s = refl

  pub heappush_lem :
      (xs : List A) (x : A)
      → IsHeap le xs
      → IsHeap le (heappush le xs x) × Perm (heappush le xs x) (x ∷ xs)
  unfolding heappush
  heappush_lem xs x heap =
      let n = length xs in
      let size : length (xs ++ (x ∷ [])) ≡ n + 1 = length-append xs (x ∷ []) in
      let (h, p) =
        rise_lem order n 0 n (xs ++ (x ∷ [])) (omega arith) (omega (arith, size))
          (Under-zero n n (omega arith))
          (record {
            edges = λ j h s ne pe. elim (dec_lt j n) [
              | yes inside ↦
                  rw
                    (
                      get_elem?-append_left xs (x ∷ []) j inside,
                      get_elem?-append_left xs (x ∷ []) (parent j) (omega arith),
                    )
                    (heap j h s)
              | no outside ↦ absent (xs ++ (x ∷ [])) j _ (omega (arith, size))
            ];
            bridge = λ j h e s z. absent (xs ++ (x ∷ [])) j _ (omega (arith, size));
          })
          (λ j h e. absent (xs ++ (x ∷ [])) j _ (omega (arith, size))) in
      (h, Perm.trans p (perm_append_comm xs (x ∷ [])))

  pub heappop-nil : heappop le [] ≡ none
  unfolding heappop
  heappop-nil = refl

  pub heappop-cons : (x : A) (xs : List A) → (ys : List A) × (heappop le (x ∷ xs) ≡ some (x, ys))
  unfolding heappop
  heappop-cons x [] = ([], refl)
  heappop-cons x (y ∷ rest) = (siftup le 0 (last_from y rest ∷ init_from y rest), refl)

  pub heappop_lem :
      (x : A) (xs : List A) {e : A} {ys : List A}
      → IsHeap le (x ∷ xs)
      → heappop le (x ∷ xs) ≡ some (e, ys)
      → (e ≡ x) × IsHeap le ys × Perm ys xs
  unfolding heappop
  heappop_lem x [] heap eq =
      (ground arith, rw (nothing eq) IsHeap-nil, rw (nothing eq) (Perm.refl []))
    where
      nothing :
          {e : A} {ys : List A}
          → ◌≡◌ {A = Option (A × List A)} (some (x, [])) (some (e, ys))
          → ys ≡ []
      nothing eq = ground arith
  heappop_lem x (y ∷ rest) heap eq =
      let zs = last_from y rest ∷ init_from y rest in
      let size = length-init_from y rest in
      let (heap', items) = siftup_lem order 0 zs (omega arith) (record {
        edges = λ j h s ne pe. elim (dec_lt j (length zs)) [
          | yes inside ↦
              rw
                (
                  popped j h (omega (arith, size)),
                  popped (parent j) (omega arith) (omega (arith, size)),
                )
                (heap j h s)
          | no outside ↦ absent zs j _ (omega arith)
        ];
        bridge = λ j h e s z. absurd (omega arith);
      }) in
      (
        ground arith,
        rw (result eq) heap',
        rw (result eq) (Perm.trans items (init_from-perm y rest)),
      )
    where
      result :
          {e : A} {ys : List A}
          → ◌≡◌ {A = Option (A × List A)}
              (some (x, siftup le 0 (last_from y rest ∷ init_from y rest)))
              (some (e, ys))
          → ys ≡ siftup le 0 (last_from y rest ∷ init_from y rest)
      result eq = ground arith

      popped :
          (k : ℕ)
          → 0 < k
          → k < suc (length rest)
          → get_elem? (last_from y rest ∷ init_from y rest) k ≡ get_elem? (x ∷ y ∷ rest) k
      popped k h b =
          get_elem?-cons (last_from y rest) x (init_from y rest) k h
          ∙ get_elem?-init_from x (y ∷ rest) k b

  heapify_below_lem :
      (i : ℕ) (xs : List A)
      → i ≤ length xs / 2
      → IsHeapFrom le i xs
      → IsHeap le (heapify_below le i xs) × Perm (heapify_below le i xs) xs
  unfolding heapify_below
  heapify_below_lem zero xs h heap = (heap, Perm.refl xs)
  heapify_below_lem (suc i) xs h heap =
      let (heap', items) = siftup_lem order i xs (omega arith) (record {
        edges = λ j h s ne pe. heap j h (omega arith);
        bridge = λ j h e s z. absurd (omega arith);
      }) in
      let (done, items') =
        heapify_below_lem i (siftup le i xs) (omega (arith, length-perm items)) heap' in
      (done, Perm.trans items' items)

  pub heapify_lem : (xs : List A) → IsHeap le (heapify le xs) × Perm (heapify le xs) xs
  unfolding heapify
  heapify_lem xs =
      heapify_below_lem (length xs / 2) xs (omega arith) (λ j h s. absent xs j _ (omega arith))
