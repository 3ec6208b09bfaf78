-- ===== src/Scheduler/Drain.antt =====
-- `drain`: the run of the generator to its end.
use smart_bandwidth_optimize.Base.{
  ℕ, zero, suc, ◌≤◌, ◌≡◌, refl, ap, inl, inr, Bool, true, List, [], ◌∷◌, map, arith, length, All,
  Perm, length-perm,
}
use mathlib.Core.List.Perm
use smart_bandwidth_optimize.Base.Float.{IsOrder}
use smart_bandwidth_optimize.Classifier.{Packet}
use smart_bandwidth_optimize.Scheduler.{Entry, Queue, entry_le, drain_from, drain}
use smart_bandwidth_optimize.Scheduler.Entries.{All-perm}
use smart_bandwidth_optimize.Scheduler.Enqueue.{IsValid}
use smart_bandwidth_optimize.Scheduler.Dequeue.{dequeue_lem}

-- Every entry is before all that follow it: by key, and by arrival among equal keys.
abbrev pub IsSorted : {K F : Type 0} → (K → K → Bool) → List (Entry K F) → Type 0
IsSorted le [] = Unit
IsSorted le (e ∷ es) = All (λ x. entry_le le e x ≡ true) es × IsSorted le es

module _ {K F : Type 0} {le : K → K → Bool} (order : IsOrder le) where
  abbrev pub Drained : Queue K F → Queue K F → List (Packet F) → Type 0
  Drained s last packets =
      (last.heap ≡ [])
      × IsValid le last
      × ((es : List (Entry K F)) × Perm es s.heap
          × IsSorted le es
          × (packets ≡ map (λ e. e.packet) es))

  drain_from_lem :
      (fuel : ℕ) (s : Queue K F)
      → length s.heap ≤ fuel
      → IsValid le s
      → Drained s (drain_from le fuel s).0 (drain_from le fuel s).1
  unfolding drain_from
  drain_from_lem zero s h v =
      let e = empty s.heap (omega arith) in (e, v, ([], rw e (Perm.refl []), tt, refl))
    where
      empty : (xs : List (Entry K F)) → length xs ≤ 0 → xs ≡ []
      empty [] h = refl
      empty (x ∷ xs) h = absurd (omega arith)
  drain_from_lem (suc fuel) s h v = elim (dequeue_lem order s v) [
    | inl (empty, done) ↦ rw (done, drain_from) (empty, v, ([], rw empty (Perm.refl []), tt, refl))
    | inr (s', e, step, d) ↦
        let (last, valid, (es, items, sorted, packets)) =
          drain_from_lem fuel s' (omega (arith, length-perm d.items)) d.valid in
        rw (step, drain_from)
          (
            last,
            valid,
            (
              e ∷ es,
              Perm.trans (Perm.cons e items) (Perm.symm d.items),
              (
                All-perm (λ x. entry_le le e x ≡ true) (λ x. hlevel) (Perm.symm items) d.least,
                sorted,
              ),
              ap (◌∷◌ e.packet) packets,
            ),
          )
  ]

  -- Draining a valid queue ends with it empty and valid, and yields the packets of exactly the
  -- entries that were waiting, sorted by key and, among equal keys, by arrival. The order of the
  -- keys is total and transitive.
  pub drain_lem : (s : Queue K F) → IsValid le s → Drained s (drain le s).0 (drain le s).1
  unfolding drain
  drain_lem s v = drain_from_lem (length s.heap) s (omega arith) v
