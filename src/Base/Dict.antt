-- ===== src/Base/Dict.antt =====
-- Python's `dict` as an association list in the order of insertion, over the test for equal keys:
-- `d.get(k)`, `d[k] = v`, `del d[k]`, and the entries that a comprehension keeps.
use smart_bandwidth_optimize.Base.Tests.{if◌then◌else◌, Bool-cases}
use smart_bandwidth_optimize.Base.Lists.{length}
use smart_bandwidth_optimize.Base.Text.{text_eq, text_eq_sound, text_eq_refl}
use Prim.Native.Nat.{◌+◌, ◌≤◌}
use mathlib.Core.Path.{◌≡◌, refl, sym, ap}
use mathlib.Core.Logic.{inl, inr, ◌≢◌}
use mathlib.Core.Bool.{Bool, true}
use mathlib.Core.Option.{Option, none, some}
use mathlib.Core.List.{List, [], ◌∷◌}
use native.Mathlib.Omega.{arith}

-- A test that decides whether two keys are equal.
pub record IsEq {ℓ} {K : Type ℓ} (eq : K → K → Bool) : Type ℓ where
  pub sound : (a b : K) → eq a b ≡ true → a ≡ b
  pub same : (a : K) → eq a a ≡ true

pub text_eq-IsEq : IsEq text_eq
text_eq-IsEq = record { sound = text_eq_sound; same = text_eq_refl }

module _ {K V : Type 0} (eq : K → K → Bool) where
  unfoldable pub lookup : K → List (K × V) → Option V
  lookup k [] = none
  lookup k ((j, v) ∷ m) = if eq j k then some v else lookup k m

  unfoldable pub insert : K → V → List (K × V) → List (K × V)
  insert k v [] = (k, v) ∷ []
  insert k v ((j, w) ∷ m) = if eq j k then (j, v) ∷ m else (j, w) ∷ insert k v m

  unfoldable pub remove : K → List (K × V) → List (K × V)
  remove k [] = []
  remove k ((j, w) ∷ m) = if eq j k then m else (j, w) ∷ remove k m

  -- No key stands twice.
  abbrev pub IsDistinct : List (K × V) → Type 0
  IsDistinct [] = Unit
  IsDistinct ((k, v) ∷ m) = (lookup k m ≡ none) × IsDistinct m

module _ {K V : Type 0} (keep_entry : K → V → Bool) where
  unfoldable pub keep_entries : List (K × V) → List (K × V)
  keep_entries [] = []
  keep_entries ((k, v) ∷ m) = if keep_entry k v then (k, v) ∷ keep_entries m else keep_entries m

module _ {K V : Type 0} {eq : K → K → Bool} (laws : IsEq eq) where
  open laws use {sound, same}

  pub lookup-insert :
      (k j : K) (v : V) (m : List (K × V))
      → lookup eq j (insert eq k v m) ≡ (if eq k j then some v else lookup eq j m)
  unfolding lookup insert
  lookup-insert k j v [] = refl
  lookup-insert k j v ((i, w) ∷ m) =
      ground (arith, sound i k, sound i j, sound k j, same k, same i, same j, lookup-insert k j v m)

  pub lookup-insert_self :
      (k : K) (v : V) (m : List (K × V)) → lookup eq k (insert eq k v m) ≡ some v
  lookup-insert_self k v m = ground (arith, lookup-insert k k v m, same k)

  pub lookup-insert_other :
      (k j : K) (v : V) (m : List (K × V)) → j ≢ k → lookup eq j (insert eq k v m) ≡ lookup eq j m
  lookup-insert_other k j v m ne =
      ground (arith, lookup-insert k j v m, λ (e : eq k j ≡ true). ne (sym (sound k j e)))

  pub lookup-remove :
      (k j : K) (m : List (K × V))
      → IsDistinct eq m
      → lookup eq j (remove eq k m) ≡ (if eq k j then none else lookup eq j m)
  unfolding lookup remove
  lookup-remove k j [] d = ground arith
  lookup-remove k j ((i, w) ∷ m) d =
      ground
        (arith, sound i k, sound i j, sound k j, same k, same i, same j, lookup-remove k j m d.1)

  pub insert-IsDistinct :
      (k : K) (v : V) (m : List (K × V)) → IsDistinct eq m → IsDistinct eq (insert eq k v m)
  unfolding insert lookup
  insert-IsDistinct k v [] d = (refl, tt)
  insert-IsDistinct k v ((i, w) ∷ m) d = elim (Bool-cases (eq i k)) [
    | inl e ↦ rw e d
    | inr e ↦ rw e (
      ground (arith, lookup-insert k i v m, sound k i, same k, same i),
      insert-IsDistinct k v m d.1,
    )
  ]

  pub remove-IsDistinct :
      (k : K) (m : List (K × V)) → IsDistinct eq m → IsDistinct eq (remove eq k m)
  unfolding remove lookup
  remove-IsDistinct k [] d = tt
  remove-IsDistinct k ((i, w) ∷ m) d = elim (Bool-cases (eq i k)) [
    | inl e ↦ rw e d.1
    | inr e ↦ rw e (
      ground (arith, lookup-remove k i m d.1, sound k i, same k, same i),
      remove-IsDistinct k m d.1,
    )
  ]

  pub length-insert :
      (k : K) (v : V) (m : List (K × V))
      → length (insert eq k v m)
        ≡ (elim (lookup eq k m) [ none ↦ length m + 1 | some w ↦ length m ])
  unfolding insert lookup
  length-insert k v [] = refl
  length-insert k v ((i, w) ∷ m) = ground (arith, length-insert k v m)

  pub length-remove :
      (k : K) (m : List (K × V)) (v : V)
      → lookup eq k m ≡ some v
      → length (remove eq k m) + 1 ≡ length m
  unfolding remove lookup
  length-remove k [] v h = absurd (ground arith)
  length-remove k ((i, w) ∷ m) v h = ground (arith, length-remove k m v)

module _ {K V : Type 0} {eq : K → K → Bool} (laws : IsEq eq) (keep_entry : K → V → Bool) where
  open laws use {sound, same}

  keep_entries-none :
      (j : K) (m : List (K × V))
      → lookup eq j m ≡ none
      → lookup eq j (keep_entries keep_entry m) ≡ none
  unfolding lookup keep_entries
  keep_entries-none j [] h = refl
  keep_entries-none j ((i, w) ∷ m) h = ground (arith, keep_entries-none j m)

  -- An entry stays exactly when the test keeps it.
  pub lookup-keep_entries :
      (j : K) (m : List (K × V))
      → IsDistinct eq m
      → lookup eq j (keep_entries keep_entry m)
        ≡ (elim (lookup eq j m) [ none ↦ none | some v ↦ if keep_entry j v then some v else none ])
  unfolding lookup keep_entries
  lookup-keep_entries j [] d = refl
  lookup-keep_entries j ((i, w) ∷ m) d = elim (Bool-cases (eq i j)) [
    | inl e ↦
        let p = sound i j e in
        let absent : lookup eq j m ≡ none = rw p at d.0 in
        let kept : keep_entry i w ≡ keep_entry j w = ap (λ (x : K). keep_entry x w) p in
        ground (arith, e, kept, keep_entries-none j m absent)
    | inr e ↦ ground (arith, e, lookup-keep_entries j m d.1)
  ]

  pub keep_entries-IsDistinct :
      (m : List (K × V)) → IsDistinct eq m → IsDistinct eq (keep_entries keep_entry m)
  unfolding keep_entries
  keep_entries-IsDistinct [] d = tt
  keep_entries-IsDistinct ((i, w) ∷ m) d = elim (Bool-cases (keep_entry i w)) [
    | inl e ↦ rw e (keep_entries-none i m d.0, keep_entries-IsDistinct m d.1)
    | inr e ↦ rw e (keep_entries-IsDistinct m d.1)
  ]

  pub length-keep_entries-le : (m : List (K × V)) → length (keep_entries keep_entry m) ≤ length m
  unfolding keep_entries
  length-keep_entries-le [] = omega arith
  length-keep_entries-le ((i, w) ∷ m) = ground (arith, length-keep_entries-le m)
