-- ===== src/Scheduler/Worst.antt =====
-- `_find_worst_index`: the entry to evict.
use smart_bandwidth_optimize.Base.{
  ℕ, suc, ◌+◌, ◌<◌, ◌≡◌, refl, sym, ap, ◌∙◌, ◌-◌, inl, inr, Bool, true, false, some, List, [], ◌∷◌,
  arith, length, get_elem?, All, Bool-cases,
}
use mathlib.Core.Option.{some-injective}
use native.Mathlib.Decide.{dec_lt}
use smart_bandwidth_optimize.Base.Float.{IsOrder, le_refl_by}
use smart_bandwidth_optimize.Scheduler.{Entry, is_worse, find_worst_from, find_worst_index}
use smart_bandwidth_optimize.Scheduler.Entries.{All_of_get_elem?}

module _ {K F : Type 0} (le : K → K → Bool) where
  -- No entry of the list is worse than `w`.
  abbrev pub IsWorst : Entry K F → List (Entry K F) → Type 0
  IsWorst w = All (λ e. is_worse le e w ≡ false)

  abbrev WorstBelow : ℕ → Entry K F → List (Entry K F) → Type 0
  WorstBelow i w heap =
      (j : ℕ) → j < i → (e : Entry K F) → get_elem? heap j ≡ some e → is_worse le e w ≡ false

module _ {K F : Type 0} {le : K → K → Bool} (order : IsOrder le) where
  open order use {trans, total}

  -- A worse entry than the worst so far is the worst so far.
  is_worse_trans :
      (x e w : Entry K F)
      → is_worse le x w ≡ false
      → is_worse le e w ≡ true
      → is_worse le x e ≡ false
  unfolding is_worse
  is_worse_trans x e w h k = ground (
    arith,
    trans x.key w.key e.key,
    trans w.key e.key x.key,
    trans e.key x.key w.key,
    trans x.key e.key w.key,
    trans e.key w.key x.key,
    total x.key w.key,
    total w.key e.key,
    total x.key e.key,
  )

  pub is_worse_irrefl : (e : Entry K F) → is_worse le e e ≡ false
  unfolding is_worse
  is_worse_irrefl e = ground (arith, le_refl_by order e.key)

  find_worst_from_lem :
      (heap : List (Entry K F)) (i at : ℕ) (w : Entry K F) (es : List (Entry K F))
      → ((k j : ℕ) → j ≡ i + k → get_elem? es k ≡ get_elem? heap j)
      → get_elem? heap at ≡ some w
      → WorstBelow le i w heap
      → (w' : Entry K F) × (get_elem? heap (find_worst_from le i at w es) ≡ some w')
        × ((j : ℕ) (e : Entry K F) → get_elem? heap j ≡ some e → is_worse le e w' ≡ false)
  unfolding find_worst_from
  find_worst_from_lem heap i at w [] rest here below = (
    w,
    here,
    λ j e h. elim (dec_lt j i) [
      | yes b ↦ below j b e h
      | no b ↦ absurd (ground (arith, rest (j - i) j (omega arith), h))
    ],
  )
  find_worst_from_lem heap i at w (x ∷ es) rest here below =
      let head : get_elem? heap i ≡ some x = sym (rest 0 i (omega arith)) in
      let tail = λ (k j : ℕ) (e : j ≡ i + 1 + k). rest (suc k) j (omega arith) in
      elim (Bool-cases (is_worse le x w)) [
        | inl worse ↦ rw worse (
            find_worst_from_lem heap (i + 1) i x es tail head (λ j b e h. elim (dec_lt j i) [
              | yes before ↦ is_worse_trans e x w (below j before e h) worse
              | no after ↦ at_next i j x x e head h (omega arith) (is_worse_irrefl x)
            ]))
        | inr better ↦ rw better (
            find_worst_from_lem heap (i + 1) at w es tail here (λ j b e h. elim (dec_lt j i) [
              | yes before ↦ below j before e h
              | no after ↦ at_next i j w x e head h (omega arith) better
            ]))
      ]
    where
      at_next :
          (i j : ℕ) (w x e : Entry K F)
          → get_elem? heap i ≡ some x
          → get_elem? heap j ≡ some e
          → i ≡ j
          → is_worse le x w ≡ false
          → is_worse le e w ≡ false
      at_next i j w x e head h same better =
          let p : x ≡ e = some-injective x e (sym head ∙ ap (get_elem? heap) same ∙ h) in
          rw p at better

  -- In a queue that is not empty the index is that of an entry than which none is worse. The order
  -- of the keys is total and transitive.
  pub find_worst_index_lem :
      (heap : List (Entry K F))
      → 0 < length heap
      → (w : Entry K F) × (get_elem? heap (find_worst_index le heap) ≡ some w) × IsWorst le w heap
  unfolding find_worst_index
  find_worst_index_lem [] h = absurd (omega arith)
  find_worst_index_lem (e ∷ es) h =
      let (w, at, least) =
        find_worst_from_lem (e ∷ es) 0 0 e (e ∷ es) (λ k j h. ap (get_elem? (e ∷ es)) (omega arith))
          refl (λ j h. absurd (omega arith)) in
      (w, at, All_of_get_elem? (λ x. is_worse le x w ≡ false) (e ∷ es) least)
