-- ===== src/Scheduler/Reference/Arrive.antt =====
-- `enqueue` on a heap against the arrival of an entry in the abstract scheduler.
use smart_bandwidth_optimize.Base.{
  ◌+◌, ◌≤◌, ◌<◌, ◌≡◌, refl, ap, ◌∙◌, Bool, true, false, some, List, [], ◌∷◌, arith, length, All,
  Perm, length-perm, subst,
}
use mathlib.Core.List.Perm
use native.Mathlib.Bridge.{le_prop}
use smart_bandwidth_optimize.Base.Float.{IsOrder, lt_by}
use smart_bandwidth_optimize.Classifier.{Packet}
use smart_bandwidth_optimize.Scheduler.{Entry, Queue, enqueue, entry_of, is_worse, stamp}
use smart_bandwidth_optimize.Scheduler.Entries.{All-perm}
use smart_bandwidth_optimize.Scheduler.Worst.{IsWorst}
use smart_bandwidth_optimize.Scheduler.Enqueue.{
  IsValid, Enqueued, room, rejected, evicted, enqueue_lem,
}
use smart_bandwidth_optimize.Scheduler.Reference.{
  Reference, insert_entry, last_class, without, arrive,
}
use smart_bandwidth_optimize.Scheduler.Reference.Order.{
  IsLine, insert_entry-perm, insert_entry-IsLine, last_class_lem, without-All, without-IsLine,
  same_entry, without-perm,
}
use smart_bandwidth_optimize.Scheduler.Reference.Refinement.{Refines}

module _ {K F : Type 0} where
  pub arrive_room :
      (le : K → K → Bool) (r : Reference K F) (e : Entry K F)
      → length r.entries < r.max_size
      → arrive le r e
        ≡ (record r { entries = insert_entry le e r.entries; counter = r.counter + 1 }, true)
  unfolding arrive insert_entry
  arrive_room le r e h = by_list r.entries refl
    where
      by_list :
          (l : List (Entry K F))
          → r.entries ≡ l
          → arrive le r e
            ≡ (record r { entries = insert_entry le e r.entries; counter = r.counter + 1 }, true)
      by_list [] eq = ground (arith, eq)
      by_list (x ∷ xs) eq = ground (arith, eq, ap length eq)

  pub arrive_full :
      (le : K → K → Bool) (r : Reference K F) (e x : Entry K F) (xs : List (Entry K F))
      → r.entries ≡ x ∷ xs
      → r.max_size ≤ length (x ∷ xs)
      → (lt_by le (last_class le x xs).key e.key ≡ true
          → arrive le r e ≡ (record r { counter = r.counter + 1 }, false))
        × (lt_by le (last_class le x xs).key e.key ≡ false
            → arrive le r e ≡ (
              record r {
                entries = insert_entry le e (without (last_class le x xs).sequence (x ∷ xs));
                counter = r.counter + 1;
              },
              true,
            ))
  unfolding arrive
  arrive_full le r e x xs eq full = (λ h. ground (arith, eq, h), λ h. ground (arith, eq, h))

module _ {K F : Type 0} {le : K → K → Bool} (order : IsOrder le) where
  open order use {trans, total}

  both_worst :
      (e x : Entry K F)
      → is_worse le e x ≡ false
      → is_worse le x e ≡ false
      → (e.sequence ≡ x.sequence) × (le e.key x.key ≡ true) × (le x.key e.key ≡ true)
  unfolding is_worse
  both_worst e x h k = ground (arith, total e.key x.key)

  module _ (entries : IsSet (Entry K F)) where
    abbrev pub Arrived : Queue K F → Reference K F → Entry K F → Bool → Type 0
    Arrived s' r e accepted = (accepted ≡ (arrive le r e).1) × Refines le s' (arrive le r e).0

    module _ (s s' : Queue K F) (r : Reference K F) (e : Entry K F) (valid : IsValid le s')
        (size : s'.max_size ≡ s.max_size) (counted : s'.counter ≡ s.counter + 1)
        (age : e.sequence ≡ s.counter) (h : Refines le s r) where
      fresh : All (λ x. x.sequence < e.sequence) r.entries
      fresh =
          All-perm (λ x. x.sequence < e.sequence) (λ x. le_prop) h.contents (rw age h.valid.fresh)

      arrived :
          (l : List (Entry K F))
          → IsLine le l
          → All (λ x. x.sequence < e.sequence) l
          → Perm s'.heap (e ∷ l)
          → Refines le s' (record r { entries = insert_entry le e l; counter = r.counter + 1 })
      arrived l line new same = record {
        valid = valid;
        line = insert_entry-IsLine order e l new line;
        contents = Perm.trans same (Perm.symm (insert_entry-perm order e l));
        size = size ∙ h.size;
        counter = omega (arith, counted, h.counter);
      }

      arrive_at_room : length s.heap < s.max_size → Perm s'.heap (e ∷ s.heap) → Arrived s' r e true
      arrive_at_room roomy same =
          rw (arrive_room le r e (omega (arith, roomy, h.size, length-perm h.contents)))
            (refl, arrived r.entries h.line fresh (Perm.trans same (Perm.cons e h.contents)))

      module _ (x : Entry K F) (xs : List (Entry K F)) (eq : r.entries ≡ x ∷ xs)
          (full : s.max_size ≤ length s.heap) (w : Entry K F) (others : List (Entry K F))
          (worst : IsWorst le w s.heap) (split : Perm s.heap (w ∷ others)) where
        here : Perm (x ∷ xs) (w ∷ others)
        here = Perm.trans (Perm.symm (rw eq at h.contents)) split

        in_line : IsLine le (x ∷ xs)
        in_line = rw eq at h.line

        full_line : r.max_size ≤ length (x ∷ xs)
        full_line = omega (arith, h.size, full, length-perm split, length-perm here)

        last_lem :
            let v = last_class le x xs in
            ((w.sequence ≡ v.sequence) × (le w.key v.key ≡ true) × (le v.key w.key ≡ true))
            × (w ≡ v)
        last_lem =
            let (least, (rest, stands)) = last_class_lem order x xs in_line in
            let v = last_class le x xs in
            let a : is_worse le w v ≡ false =
              (All-perm (λ y. is_worse le y v ≡ false) (λ y. hlevel) here least).0 in
            let b : is_worse le v w ≡ false =
              (All-perm (λ y. is_worse le y w ≡ false) (λ y. hlevel)
                (Perm.trans (rw eq at h.contents) stands) worst).0 in
            let both = both_worst w v a b in
            (both, same_entry le entries (x ∷ xs) in_line here stands both.0)

        arrive_rejected : lt_by le w.key e.key ≡ true → s'.heap ≡ s.heap → Arrived s' r e false
        arrive_rejected lower same =
            let lower' : lt_by le (last_class le x xs).key e.key ≡ true = rw last_lem.1 at lower in
            rw ((arrive_full le r e x xs eq full_line).0 lower') (
              refl,
              record {
                valid = valid;
                line = h.line;
                contents = rw same h.contents;
                size = size ∙ h.size;
                counter = omega (arith, counted, h.counter);
              },
            )

        arrive_evicted :
            lt_by le w.key e.key ≡ false → Perm s'.heap (e ∷ others) → Arrived s' r e true
        arrive_evicted higher same =
            let v = last_class le x xs in
            let higher' : lt_by le v.key e.key ≡ false = rw last_lem.1 at higher in
            let here' : Perm (x ∷ xs) (v ∷ others) = rw last_lem.1 at here in
            let left = without v.sequence (x ∷ xs) in
            let gone = without-perm le entries (x ∷ xs) v in_line here' in
            rw ((arrive_full le r e x xs eq full_line).1 higher') (
              refl,
              arrived left (without-IsLine le v.sequence (x ∷ xs) in_line)
                  (without-All (λ y. y.sequence < e.sequence) v.sequence (x ∷ xs) (rw eq at fresh))
                  (Perm.trans same (Perm.cons e (Perm.symm gone))),
            )

      by_contents :
          (accepted : Bool)
          → 0 < s.max_size
          → Enqueued le s.max_size s.heap e s'.heap accepted
          → Arrived s' r e accepted
      by_contents accepted pos (room roomy same yes_) = rw yes_ (arrive_at_room roomy same)
      by_contents accepted pos (rejected w others full worst split lower same not_) =
          rw not_ (with_entries r.entries refl)
        where
          with_entries : (l : List (Entry K F)) → r.entries ≡ l → Arrived s' r e false
          with_entries [] eq =
              absurd (omega (arith, pos, full, length-perm h.contents, ap length eq))
          with_entries (x ∷ xs) eq = arrive_rejected x xs eq full w others worst split lower same
      by_contents accepted pos (evicted w others full worst higher split same yes_) =
          rw yes_ (with_entries r.entries refl)
        where
          with_entries : (l : List (Entry K F)) → r.entries ≡ l → Arrived s' r e true
          with_entries [] eq =
              absurd (omega (arith, pos, full, length-perm h.contents, ap length eq))
          with_entries (x ∷ xs) eq = arrive_evicted x xs eq full w others worst split higher same

    pub enqueue-arrive :
        (key : Packet F → K) (s : Queue K F) (r : Reference K F) (now : F) (p : Packet F)
        → Refines le s r
        → (s' : Queue K F) × (p' : Packet F) × (accepted : Bool) × (enqueue le key s now p
            ≡ some (s', p', accepted))
          × Arrived s' r
              (record { key = key (stamp now p); sequence = r.counter; packet = stamp now p })
              accepted
    enqueue-arrive key s r now p h =
        let (s', p', accepted, called, d) = enqueue_lem order key s now p h.valid in
        (
          s',
          p',
          accepted,
          called,
          subst
              (λ n.
                Arrived s' r
                  (record { key = key (stamp now p); sequence = n; packet = stamp now p }) accepted)
              h.counter
              (by_contents s s' r (entry_of key s (stamp now p)) d.valid d.size d.counted refl h
                accepted h.valid.positive d.contents),
        )
