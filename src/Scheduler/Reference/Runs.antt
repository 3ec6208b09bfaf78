-- ===== src/Scheduler/Reference/Runs.antt =====
-- Runs of the heap and of the abstract scheduler side by side.
use smart_bandwidth_optimize.Base.{ℕ, ◌≡◌, refl, Bool, Option, none, some, List, [], ◌∷◌}
use mathlib.Core.List.Perm
use smart_bandwidth_optimize.Base.Float.{IsOrder}
use smart_bandwidth_optimize.Classifier.{Packet}
use smart_bandwidth_optimize.Scheduler.{Entry, Queue, init, enqueue, dequeue, stamp}
use smart_bandwidth_optimize.Scheduler.Enqueue.{init-IsValid}
use smart_bandwidth_optimize.Scheduler.Priority.{Call, enqueue_call, dequeue_call}
use smart_bandwidth_optimize.Scheduler.Reference.{Reference, arrive, leave}
use smart_bandwidth_optimize.Scheduler.Reference.Refinement.{Refines, dequeue-leave}
use smart_bandwidth_optimize.Scheduler.Reference.Arrive.{enqueue-arrive}

-- What a caller sees of one call.
pub data Reply (F : Type 0) : Type 0 where
  accepted : Bool → Reply F
  handed : Option (Packet F) → Reply F

module _ {K F : Type 0} (le : K → K → Bool) (key : Packet F → K) where
  -- One call on the heap; `none` is an exception.
  unfoldable pub answer : Call F → Queue K F → Option (Queue K F × Reply F)
  answer (enqueue_call now p) s = elim (enqueue le key s now p) [
    | none ↦ none
    | some (s', p', b) ↦ some (s', accepted b)
  ]
  answer dequeue_call s = let (s', p) = dequeue le s in some (s', handed p)

  unfoldable pub replies : List (Call F) → Queue K F → Option (List (Reply F))
  replies [] s = some []
  replies (c ∷ cs) s = elim (answer c s) [
    | none ↦ none
    | some (s', r) ↦ elim (replies cs s') [ none ↦ none | some rs ↦ some (r ∷ rs) ]
  ]

  -- The same calls on the abstract scheduler.
  unfoldable pub answer_reference : Call F → Reference K F → Reference K F × Reply F
  answer_reference (enqueue_call now p) r =
      let (r', b) =
        arrive le r
          (record { key = key (stamp now p); sequence = r.counter; packet = stamp now p }) in
      (r', accepted b)
  answer_reference dequeue_call r = let (r', p) = leave r in (r', handed p)

  unfoldable pub replies_reference : List (Call F) → Reference K F → List (Reply F)
  replies_reference [] r = []
  replies_reference (c ∷ cs) r =
      let (r', reply) = answer_reference c r in reply ∷ replies_reference cs r'

module _ {K F : Type 0} where
  unfoldable pub new_reference : ℕ → Reference K F
  new_reference n = record { max_size = n; entries = []; counter = 0 }

module _ {K F : Type 0} {le : K → K → Bool} (order : IsOrder le) (entries : IsSet (Entry K F))
    (key : Packet F → K) where
  init-Refines :
      (n : ℕ)
      → Refines {K = K} {F = F} le (init n) (new_reference (init {K = K} {F = F} n).max_size)
  unfolding init new_reference
  init-Refines n = record {
    valid = init-IsValid order n;
    line = tt;
    contents = Perm.refl [];
    size = refl;
    counter = refl;
  }

  answer_lem :
      (c : Call F) (s : Queue K F) (r : Reference K F)
      → Refines le s r
      → (s' : Queue K F) × (answer le key c s ≡ some (s', (answer_reference le key c r).1))
        × Refines le s' (answer_reference le key c r).0
  unfolding answer answer_reference
  answer_lem (enqueue_call now p) s r h =
      let (s', p', b, called, (same, refines)) = enqueue-arrive order entries key s r now p h in
      (s', rw (called, answer, same) refl, refines)
  answer_lem dequeue_call s r h =
      let (same, refines) = dequeue-leave order entries s r h in
      ((dequeue le s).0, rw same refl, refines)

  replies_lem :
      (cs : List (Call F)) (s : Queue K F) (r : Reference K F)
      → Refines le s r
      → replies le key cs s ≡ some (replies_reference le key cs r)
  unfolding replies replies_reference
  replies_lem [] s r h = refl
  replies_lem (c ∷ cs) s r h =
      let (s', called, h') = answer_lem c s r h in
      rw (called, replies) (rw (replies_lem cs s' (answer_reference le key c r).0 h') refl)

  -- A new scheduler on a heap answers every sequence of calls of `enqueue` and `dequeue` exactly as the
  -- abstract scheduler: it never raises an exception, accepts and rejects the same packets, and hands
  -- out the same packets in the same order. The order of the keys is total and transitive, and the
  -- entries form a set.
  pub replies-Refines :
      (n : ℕ) (cs : List (Call F))
      → replies le key cs (init n)
        ≡ some (replies_reference le key cs (new_reference (init {K = K} {F = F} n).max_size))
  replies-Refines n cs =
      replies_lem cs (init n) (new_reference (init {K = K} {F = F} n).max_size) (init-Refines n)
