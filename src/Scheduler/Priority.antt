-- ===== src/Scheduler/Priority.antt =====
-- `PriorityScheduler` of bandwidth_optimizer/scheduler.py over whole runs: calls of `enqueue` and
-- `dequeue` in any order, from a new queue.
use smart_bandwidth_optimize.Base.{
  ℕ, suc, ◌+◌, length, ◌≤◌, ◌≡◌, refl, ap, inl, inr, Bool, true, Option, none, some, List, [], ◌∷◌,
  arith, leb, All, length-perm,
}
use native.Mathlib.Nat.{ℕ_set}
use smart_bandwidth_optimize.Base.Float.{IsOrder}
use smart_bandwidth_optimize.Config.{value, total, total-bump}
use smart_bandwidth_optimize.Classifier.{Packet}
use smart_bandwidth_optimize.Scheduler.{
  Entry, Queue, init, enqueue, dequeue, entry_of, entry_le, stamp, priority_of,
}
use smart_bandwidth_optimize.Scheduler.Entries.{All-perm}
use smart_bandwidth_optimize.Scheduler.Ages.{
  AreApart, AreApart-perm, AreApart-tail, Enqueued-AreApart,
}
use smart_bandwidth_optimize.Scheduler.Enqueue.{
  IsValid, IsAccounted, Enqueued, room, rejected, evicted, init-IsValid, enqueue_lem,
}
use smart_bandwidth_optimize.Scheduler.Dequeue.{dequeue_lem}
use mathlib.Core.List.{Pairwise}
use mathlib.Core.List.Perm

-- The key of `PriorityScheduler`: the number of the priority.
unfoldable pub priority_key : {F : Type 0} → Packet F → ℕ
unfolding value
priority_key p = value (priority_of p)

pub leb-IsOrder : IsOrder leb
leb-IsOrder = record { trans = λ a b c h k. ground arith; total = λ a b. ground arith }

pub data Call (F : Type 0) : Type 0 where
  enqueue_call : F → Packet F → Call F
  dequeue_call : Call F

-- Every waiting entry is sorted by the priority of its packet.
abbrev pub IsKeyed : {F : Type 0} → Queue ℕ F → Type 0
IsKeyed s = All (λ e. e.key ≡ priority_key e.packet) s.heap

pub record IsSound {F : Type 0} (s : Queue ℕ F) : Type 0 where
  pub valid : IsValid leb s
  pub keyed : IsKeyed s
  pub apart : AreApart s.heap
  pub accounted : IsAccounted s

module _ {F : Type 0} where
  -- One call: the queue after it, and the packet that it hands out. `none` is an exception.
  step : Call F → Queue ℕ F → Option (Queue ℕ F × Option (Packet F))
  step (enqueue_call now p) s = elim (enqueue leb priority_key s now p) [
    | none ↦ none
    | some (s', p', accepted) ↦ some (s', none)
  ]
  step dequeue_call s = some (dequeue leb s)

  -- How many packets the calls bring.
  unfoldable pub arrivals : List (Call F) → ℕ
  arrivals [] = 0
  arrivals (enqueue_call now p ∷ calls) = suc (arrivals calls)
  arrivals (dequeue_call ∷ calls) = arrivals calls

  -- The packets that wait, were handed out, or were counted as dropped.
  abbrev pub accounted_for : Queue ℕ F → ℕ
  accounted_for s = total s.dequeue_counts + length s.heap + s.dropped_overflow

  pub run : List (Call F) → Queue ℕ F → Option (Queue ℕ F)
  run [] s = some s
  run (c ∷ cs) s = elim (step c s) [ none ↦ none | some (s', p) ↦ run cs s' ]

  Enqueued-IsKeyed :
      (max : ℕ) (before : List (Entry ℕ F)) (e : Entry ℕ F) (after : List (Entry ℕ F)) (b : Bool)
      → e.key ≡ priority_key e.packet
      → Enqueued leb max before e after b
      → All (λ x. x.key ≡ priority_key x.packet) before
      → All (λ x. x.key ≡ priority_key x.packet) after
  Enqueued-IsKeyed max before e after b k (room h p t) all =
      All-perm (λ x. x.key ≡ priority_key x.packet) (λ x. ℕ_set _ _) (Perm.symm p) (k, all)
  Enqueued-IsKeyed max before e after b k (rejected w others h iw split l same t) all = rw same all
  Enqueued-IsKeyed max before e after b k (evicted w others h iw l split p t) all =
      All-perm (λ x. x.key ≡ priority_key x.packet) (λ x. ℕ_set _ _) (Perm.symm p)
        (k, (All-perm (λ x. x.key ≡ priority_key x.packet) (λ x. ℕ_set _ _) split all).1)

  init-IsSound : (n : ℕ) → IsSound (init {K = ℕ} {F = F} n)
  unfolding init total
  init-IsSound n = record {
    valid = init-IsValid leb-IsOrder n;
    keyed = tt;
    apart = Pairwise.nil;
    accounted = refl;
  }

  step-IsSound :
      (c : Call F) (s : Queue ℕ F)
      → IsSound s
      → (s' : Queue ℕ F) × (p : Option (Packet F)) × (step c s ≡ some (s', p))
        × IsSound s'
        × (accounted_for s' ≡ accounted_for s + arrivals (c ∷ []))
  unfolding step arrivals
  step-IsSound (enqueue_call now p) s h =
      let (s', p', b, called, r) = enqueue_lem leb-IsOrder priority_key s now p h.valid in
      (
        s',
        none,
        rw (called, step),
        record {
          valid = r.valid;
          keyed =
              Enqueued-IsKeyed s.max_size s.heap (entry_of priority_key s (stamp now p)) s'.heap b
                refl r.contents h.keyed;
          apart = Enqueued-AreApart r.contents h.valid.fresh h.apart;
          accounted = omega (arith, ap total r.dequeued, r.accounted, r.counted, h.accounted);
        },
        omega (arith, ap total r.dequeued, r.accounted),
      )
  step-IsSound dequeue_call s h = elim (dequeue_lem leb-IsOrder s h.valid) [
    | inl (empty, done) ↦ (s, none, ap some done, h, omega arith)
    | inr (s', e, done, d) ↦ (
      s',
      some e.packet,
      ap some done,
      record {
        valid = d.valid;
        keyed = (All-perm (λ x. x.key ≡ priority_key x.packet) (λ x. ℕ_set _ _) d.items h.keyed).1;
        apart = AreApart-tail (AreApart-perm d.items h.apart);
        accounted = omega (
          arith,
          ap total d.counted,
          total-bump (priority_of e.packet) s.dequeue_counts,
          length-perm d.items,
          d.dropped,
          d.counter,
          h.accounted,
        );
      },
      omega (
        arith,
        ap total d.counted,
        total-bump (priority_of e.packet) s.dequeue_counts,
        length-perm d.items,
        d.dropped,
      ),
    )
  ]

  arrivals-cons :
      (c : Call F) (cs : List (Call F)) → arrivals (c ∷ cs) ≡ arrivals (c ∷ []) + arrivals cs
  unfolding arrivals
  arrivals-cons (enqueue_call now p) cs = omega arith
  arrivals-cons dequeue_call cs = omega arith

  run-IsSound_from :
      (calls : List (Call F)) (s : Queue ℕ F)
      → IsSound s
      → (s' : Queue ℕ F) × (run calls s ≡ some s')
        × IsSound s'
        × (accounted_for s' ≡ accounted_for s + arrivals calls)
  unfolding run arrivals
  run-IsSound_from [] s h = (s, refl, h, omega arith)
  run-IsSound_from (c ∷ cs) s h =
      let (s', p, done, h', one) = step-IsSound c s h in
      let (s'', ran, h'', more) = run-IsSound_from cs s' h' in
      (s'', rw (done, run) ran, h'', omega (arith, one, more, arrivals-cons c cs))

init-accounted_for : (F : Type 0) (n : ℕ) → accounted_for (init {K = ℕ} {F = F} n) ≡ 0
unfolding init total
init-accounted_for F n = refl

-- No sequence of calls of `enqueue` and `dequeue` on a new `PriorityScheduler` raises an exception.
-- After it the queue fits its bound and is a heap of entries, no two with the same sequence number, keyed
-- by their packets' priorities, and the packets that wait, were handed out, or were counted as dropped
-- are together as many as the calls of `enqueue`.
pub run-IsSound :
    {F : Type 0} (n : ℕ) (calls : List (Call F))
    → (s : Queue ℕ F) × (run calls (init n) ≡ some s)
      × IsSound s
      × (total s.dequeue_counts + length s.heap + s.dropped_overflow ≡ arrivals calls)
run-IsSound {F} n calls =
    let (s, ran, sound, count) = run-IsSound_from calls (init n) (init-IsSound n) in
    (s, ran, sound, omega (arith, count, init-accounted_for F n))

entry_le-key :
    {F : Type 0} (x y : Entry ℕ F)
    → x.key ≡ priority_key x.packet
    → y.key ≡ priority_key y.packet
    → entry_le leb x y ≡ true
    → value (priority_of x.packet) ≤ value (priority_of y.packet)
unfolding entry_le priority_key
entry_le-key x y h k e = ground (arith, h, k)

-- With priorities as keys `dequeue` on a sound queue returns a packet whose priority no waiting packet
-- beats.
dequeue-least_priority :
    {F : Type 0} (s : Queue ℕ F) {s' : Queue ℕ F} {p : Packet F}
    → IsSound s
    → dequeue leb s ≡ (s', some p)
    → All (λ x. value (priority_of p) ≤ value (priority_of x.packet)) s'.heap
unfolding priority_key
dequeue-least_priority {F} s {s'} {p} h e = elim (dequeue_lem leb-IsOrder s h.valid) [
  | inl (empty, done) ↦ absurd (ground (arith, done, e))
  | inr (t, x, done, d) ↦
      let keyed = All-perm (λ y. y.key ≡ priority_key y.packet) (λ y. ℕ_set _ _) d.items h.keyed in
      let same : s' ≡ t = ground (arith, done, e) in
      let packet : p ≡ x.packet = ground (arith, done, e) in
      rw (same, packet) (below x keyed.0 t.heap keyed.1 d.least)
]
  where
    below :
        (x : Entry ℕ F)
        → x.key ≡ priority_key x.packet
        → (xs : List (Entry ℕ F)) → All (λ y. y.key ≡ priority_key y.packet) xs
        → All (λ y. entry_le leb x y ≡ true) xs
        → All (λ y. value (priority_of x.packet) ≤ value (priority_of y.packet)) xs
    below x k [] ks ls = tt
    below x k (y ∷ ys) ks ls = (entry_le-key x y k ks.0 ls.0, below x k ys ks.1 ls.1)
