-- ===== src/Flow/Table.antt =====
-- The table of flows: its invariant, and what an update changes.
use smart_bandwidth_optimize.Base.{
  ℕ, ◌+◌, ◌-◌, ◌≤◌, ◌<◌, ◌≡◌, ◌⊎◌, refl, Option, none, some, List, [], ◌∷◌, arith, if◌then◌else◌,
  leb, length, Bool-cases, Option-cases, inl, inr,
}
use smart_bandwidth_optimize.Base.Float.{Float, lt}
use smart_bandwidth_optimize.Base.Dict.{
  lookup, insert, IsDistinct, lookup-insert_self, insert-IsDistinct, remove-IsDistinct,
  length-insert, length-remove, keep_entries-IsDistinct, length-keep_entries-le,
  lookup-keep_entries,
}
use smart_bandwidth_optimize.Classifier.{Packet}
use smart_bandwidth_optimize.Flow.{
  FlowKey, FlowRecord, FlowTracker, from_packet, key_eq, oldest_from, evict_oldest, make_room,
  evict_expired, is_live, update, get, update_record, new_record,
}
use smart_bandwidth_optimize.Flow.Keys.{key_eq-IsEq}

-- At most `max_flows` flows, and no flow twice.
pub record IsTracked {F : Type 0} (t : FlowTracker F) : Type 0 where
  pub distinct : IsDistinct key_eq t.table
  pub bounded : length t.table ≤ t.max_flows

first_absent :
    {F : Type 0} (k : FlowKey) (r : FlowRecord F) (m : List (FlowKey × FlowRecord F)) (o : FlowKey)
    → (lookup key_eq o m ≡ none → o ≡ k)
    → lookup key_eq o ((k, r) ∷ m) ≡ none
    → ⊥
unfolding lookup
first_absent k r m o first h = ground (arith, key_eq-IsEq.same k)

module _ {F : Type 0} ⦃d : Float F⦄ where
  open d use {minus}

  -- The flow that is evicted is the first of the table, or found in the rest.
  oldest_from-found :
      (clock : ℕ → F) (i : ℕ) (best : FlowKey) (idle : F) (m : List (FlowKey × FlowRecord F))
      → lookup key_eq (oldest_from clock i best idle m) m ≡ none
      → oldest_from clock i best idle m ≡ best
  unfolding oldest_from lookup
  oldest_from-found clock i best idle [] h = refl
  oldest_from-found clock i best idle ((k, r) ∷ m) h =
      let idle' = minus (clock i) r.last_seen in
      elim (Bool-cases (lt idle idle')) [
        | inl e ↦
            absurd
              (ground (arith, e, h, oldest_from-found clock (i + 1) k idle' m, key_eq-IsEq.same k))
        | inr e ↦ ground (arith, e, h, oldest_from-found clock (i + 1) best idle m)
      ]

  evict_oldest_lem :
      (clock : ℕ → F) (m : List (FlowKey × FlowRecord F))
      → IsDistinct key_eq m
      → IsDistinct key_eq (evict_oldest clock m) × (length (evict_oldest clock m) ≡ length m - 1)
  unfolding evict_oldest
  evict_oldest_lem clock [] h = (tt, refl)
  evict_oldest_lem clock ((k, r) ∷ m) h =
      let o = oldest_from clock 1 k (minus (clock 0) r.last_seen) m in
      (
        remove-IsDistinct key_eq-IsEq o ((k, r) ∷ m) h,
        elim (Option-cases (lookup key_eq o ((k, r) ∷ m))) [
          | inl absent ↦ absurd (
              first_absent k r m o (oldest_from-found clock 1 k (minus (clock 0) r.last_seen) m)
                absent)
          | inr (v, found) ↦ omega (arith, length-remove key_eq-IsEq o ((k, r) ∷ m) v found)
        ],
      )

  make_room_lem :
      (clock : ℕ → F) (max : ℕ) (m : List (FlowKey × FlowRecord F))
      → 0 < max
      → IsDistinct key_eq m
      → length m ≤ max
      → IsDistinct key_eq (make_room clock max m).0 × (length (make_room clock max m).0 < max)
  unfolding make_room
  make_room_lem clock max m h d b = elim (Bool-cases (leb max (length m))) [
    | inl e ↦
        let (d', size) = evict_oldest_lem clock m d in rw (e, make_room) (d', omega (arith, size))
    | inr e ↦ rw (e, make_room) (d, ground arith)
  ]

  evict_expired-IsTracked :
      (t : FlowTracker F) (now : F) → IsTracked t → IsTracked (evict_expired t now)
  unfolding evict_expired
  evict_expired-IsTracked t now h = record {
    distinct = keep_entries-IsDistinct key_eq-IsEq (is_live t.ttl now) t.table h.distinct;
    bounded =
        omega (arith, length-keep_entries-le key_eq-IsEq (is_live t.ttl now) t.table, h.bounded);
  }

  -- An expired flow is gone, and every other stays as it is.
  lookup-evict_expired :
      (t : FlowTracker F) (now : F) (k : FlowKey)
      → IsTracked t
      → lookup key_eq k (evict_expired t now).table ≡ (elim (lookup key_eq k t.table) [
        | none ↦ none
        | some r ↦ if lt t.ttl (minus now r.last_seen) then none else some r
      ])
  unfolding evict_expired is_live
  lookup-evict_expired t now k h =
      ground (arith, lookup-keep_entries key_eq-IsEq (is_live t.ttl now) k t.table h.distinct)

  stored :
      (t : FlowTracker F) (k : FlowKey) (r : FlowRecord F) (m : List (FlowKey × FlowRecord F))
      → IsDistinct key_eq m
      → (length m < t.max_flows)
        ⊎ ((v : FlowRecord F) × (lookup key_eq k m ≡ some v) × (length m ≤ t.max_flows))
      → IsTracked (record t { table = insert key_eq k r m })
        × (lookup key_eq k (insert key_eq k r m) ≡ some r)
  stored t k r m d room = (
    record {
      distinct = insert-IsDistinct key_eq-IsEq k r m d;
      bounded = elim room [
        | inl h ↦ ground (arith, length-insert key_eq-IsEq k r m, h)
        | inr (v, found, h) ↦ ground (arith, length-insert key_eq-IsEq k r m, found, h)
      ];
    },
    lookup-insert_self key_eq-IsEq k r m,
  )

  -- After an update the table still holds no flow twice and at most `max_flows` of them, if that is not
  -- zero, and `get` of the packet finds the record that the update returned.
  pub update-IsTracked :
      (t : FlowTracker F) (clock : ℕ → F) (p : Packet F)
      → 0 < t.max_flows
      → IsTracked t
      → IsTracked (update t clock p).0 × (get (update t clock p).0 p ≡ some (update t clock p).1)
  unfolding update get evict_expired
  update-IsTracked t clock p pos h = by_flow (lookup key_eq key live) refl
    where
      key : FlowKey
      key = from_packet p

      live : List (FlowKey × FlowRecord F)
      live = (evict_expired t (clock 0)).table

      live-IsTracked : IsTracked (evict_expired t (clock 0))
      live-IsTracked = evict_expired-IsTracked t (clock 0) h

      later : ℕ → F
      later i = clock (i + 1)

      fresh : FlowRecord F
      fresh =
          let read = (make_room later t.max_flows live).1 in
          update_record (new_record key (clock (read + 1)) (clock (read + 2))) (clock (read + 3)) p

      by_flow :
          (o : Option (FlowRecord F))
          → lookup key_eq key live ≡ o
          → IsTracked (update t clock p).0
            × (get (update t clock p).0 p ≡ some (update t clock p).1)
      by_flow (some r) e =
          rw (e, update)
            (stored t key (update_record r (clock 1) p) live live-IsTracked.distinct
              (inr (r, e, live-IsTracked.bounded)))
      by_flow none e =
          rw (e, update)
            (let (distinct, room) =
                make_room_lem later t.max_flows live pos live-IsTracked.distinct
                  live-IsTracked.bounded in
              stored t key fresh (make_room later t.max_flows live).0 distinct (inl room))
