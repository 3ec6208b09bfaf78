-- ===== src/Flow/Oldest.antt =====
-- The flow that is evicted when the table is full.
use smart_bandwidth_optimize.Base.{
  ℕ, ◌+◌, ◌<◌, ◌≡◌, refl, true, false, List, [], ◌∷◌, arith, if◌then◌else◌, length, none, All,
  Bool-cases, inl, inr,
}
use mathlib.Core.List.{Memᴰ}
use mathlib.Core.List.Memᴰ
use smart_bandwidth_optimize.Base.Float.{Float, IsOrder, lt, le_refl_by}
use smart_bandwidth_optimize.Base.Dict.{lookup, IsDistinct, lookup-remove}
use smart_bandwidth_optimize.Flow.{FlowKey, FlowRecord, key_eq, oldest_from, evict_oldest}
use smart_bandwidth_optimize.Flow.Keys.{key_eq-IsEq}

module _ {F : Type 0} ⦃d : Float F⦄ (order : IsOrder d.le) where
  open d use {le, minus}

  -- The record stands in the table under the key, and no flow of the table was idle for longer.
  pub record IsOldest (now : F) (k : FlowKey) (m : List (FlowKey × FlowRecord F)) : Type 0 where
    pub flow : FlowRecord F
    pub stands : Memᴰ (k, flow) m
    pub longest : All (λ x. le (minus now x.1.last_seen) (minus now flow.last_seen) ≡ true) m

  oldest_from_step :
      (now : F) (i : ℕ) (k j : FlowKey) (r s : FlowRecord F) (m : List (FlowKey × FlowRecord F))
      → (lt (minus now r.last_seen) (minus now s.last_seen) ≡ true
          → oldest_from (λ n. now) i k (minus now r.last_seen) ((j, s) ∷ m)
            ≡ oldest_from (λ n. now) (i + 1) j (minus now s.last_seen) m)
        × (lt (minus now r.last_seen) (minus now s.last_seen) ≡ false
            → oldest_from (λ n. now) i k (minus now r.last_seen) ((j, s) ∷ m)
              ≡ oldest_from (λ n. now) (i + 1) k (minus now r.last_seen) m)
  unfolding oldest_from
  oldest_from_step now i k j r s m = (λ h. rw h refl, λ h. rw h refl)

  oldest_from_nil :
      (now : F) (i : ℕ) (k : FlowKey) (idle : F) → oldest_from (λ n. now) i k idle [] ≡ k
  unfolding oldest_from
  oldest_from_nil now i k idle = refl

  skipped :
      (now : F) (k j o : FlowKey) (r s : FlowRecord F) (m : List (FlowKey × FlowRecord F))
      → le (minus now s.last_seen) (minus now r.last_seen) ≡ true
      → IsOldest now o ((k, r) ∷ m)
      → IsOldest now o ((k, r) ∷ (j, s) ∷ m)
  skipped now k j o r s m falls h = record {
    flow = h.flow;
    stands = elim (Memᴰ.cases_cons h.stands) [
      | inl e ↦ Memᴰ.head e
      | inr t ↦ Memᴰ.tail (Memᴰ.tail t)
    ];
    longest = (h.longest.0, (order.trans _ _ _ falls h.longest.0, h.longest.1));
  }

  oldest_from_lem :
      (now : F) (i : ℕ) (k : FlowKey) (r : FlowRecord F) (m : List (FlowKey × FlowRecord F))
      → IsOldest now (oldest_from (λ n. now) i k (minus now r.last_seen) m) ((k, r) ∷ m)
  oldest_from_lem now i k r [] = rw (oldest_from_nil now i k (minus now r.last_seen)) (record {
    flow = r;
    stands = Memᴰ.head refl;
    longest = (le_refl_by order (minus now r.last_seen), tt);
  })
  oldest_from_lem now i k r ((j, s) ∷ m) =
      elim (Bool-cases (lt (minus now r.last_seen) (minus now s.last_seen))) [
        | inl longer ↦
            let rest = oldest_from_lem now (i + 1) j s m in
            let rises : le (minus now r.last_seen) (minus now s.last_seen) ≡ true =
              ground (arith, order.total (minus now r.last_seen) (minus now s.last_seen), longer) in
            rw ((oldest_from_step now i k j r s m).0 longer) (record {
              flow = rest.flow;
              stands = Memᴰ.tail rest.stands;
              longest = (order.trans _ _ _ rises rest.longest.0, rest.longest);
            })
        | inr shorter ↦ rw ((oldest_from_step now i k j r s m).1 shorter) (
            skipped now k j (oldest_from (λ n. now) (i + 1) k (minus now r.last_seen) m) r s m
              (ground (arith, shorter)) (oldest_from_lem now (i + 1) k r m))
      ]

  -- If the clock stands still while the flows are compared, a table without duplicates that is not
  -- empty loses exactly one flow, and no flow of the table was idle for longer than that one. The
  -- order of the numbers is total and transitive.
  pub evict_oldest_lem :
      (now : F) (m : List (FlowKey × FlowRecord F))
      → 0 < length m
      → IsDistinct key_eq m
      → (k : FlowKey) × IsOldest now k m
        × ((j : FlowKey)
            → lookup key_eq j (evict_oldest (λ n. now) m)
              ≡ (if key_eq k j then none else lookup key_eq j m))
  unfolding evict_oldest
  evict_oldest_lem now [] h distinct = absurd (omega arith)
  evict_oldest_lem now ((k, r) ∷ m) h distinct = (
    oldest_from (λ n. now) 1 k (minus now r.last_seen) m,
    oldest_from_lem now 1 k r m,
    λ j.
        lookup-remove key_eq-IsEq (oldest_from (λ n. now) 1 k (minus now r.last_seen) m) j
          ((k, r) ∷ m) distinct,
  )
