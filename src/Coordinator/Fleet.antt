-- ===== src/Coordinator/Fleet.antt =====
-- The summary of a fleet, and its best and worst node.
use smart_bandwidth_optimize.Base.{
  ◌+◌, ◌≡◌, ◌⊎◌, refl, arith, true, false, Option, some, List, [], ◌∷◌, length, All, Bool-cases,
  inl, inr,
}
use smart_bandwidth_optimize.Base.Text.{Text}
use smart_bandwidth_optimize.Base.Float.{Float, IsOrder, lt, le_refl_by}
use smart_bandwidth_optimize.Coordinator.{
  Agent, AgentCoordinator, ValueMetrics, with_value, without_value, efficiency, best_from,
  worst_from, summary, evict_stale, fleet_value_summary,
}

module _ {Stats F : Type 0} ⦃d : Float F⦄ (value_of : Stats → Option (ValueMetrics F)) where
  partition_length :
      (agents : List (Text × Agent Stats F))
      → length (with_value value_of agents) + length (without_value value_of agents) ≡ length agents
  unfolding with_value without_value
  partition_length [] = refl
  partition_length ((node_id, a) ∷ agents) = ground (arith, partition_length agents)

  -- The summary counts every live agent exactly once: as a node with value metrics, or by name as one
  -- without.
  pub fleet_value_summary_counts :
      (c : AgentCoordinator Stats F) (now : F)
      → let (c', s) = fleet_value_summary value_of c now in
        (s.pvm_node_count + length s.non_pvm_nodes ≡ length c'.registry) × (c' ≡ evict_stale c now)
  unfolding fleet_value_summary summary
  fleet_value_summary_counts c now =
      (counts (with_value value_of live) (partition_length live), refl)
    where
      live : List (Text × Agent Stats F)
      live = (evict_stale c now).registry

      counts :
          (nodes : List (Text × ValueMetrics F))
          → length nodes + length (without_value value_of live) ≡ length live
          → (summary nodes (without_value value_of live)).pvm_node_count
              + length (summary nodes (without_value value_of live)).non_pvm_nodes
            ≡ length live
      counts [] h = h
      counts (x ∷ xs) h = h

module _ {F : Type 0} ⦃d : Float F⦄ (order : IsOrder d.le) where
  open d use {le}

  -- The name stands in the list with this efficiency.
  pub data IsNode (name : Text) (e : F) : List (Text × ValueMetrics F) → Type 0 where
    first :
        {x : Text × ValueMetrics F} {xs : List (Text × ValueMetrics F)}
        → name ≡ x.0
        → e ≡ efficiency x.1
        → IsNode name e (x ∷ xs)
    later :
        {x : Text × ValueMetrics F} {xs : List (Text × ValueMetrics F)}
        → IsNode name e xs
        → IsNode name e (x ∷ xs)

  joined :
      (node_id : Text) (v : ValueMetrics F) (nodes : List (Text × ValueMetrics F)) (b : Text)
      (e : F)
      → ((b ≡ node_id) × (e ≡ efficiency v)) ⊎ IsNode b e nodes
      → IsNode b e ((node_id, v) ∷ nodes)
  joined node_id v nodes b e (inl (p, q)) = first p q
  joined node_id v nodes b e (inr n) = later n

  kept :
      (name : Text) (most : F) (node_id : Text) (v : ValueMetrics F)
      (nodes : List (Text × ValueMetrics F)) (b : Text) (e : F)
      → ((b ≡ name) × (e ≡ most)) ⊎ IsNode b e nodes
      → ((b ≡ name) × (e ≡ most)) ⊎ IsNode b e ((node_id, v) ∷ nodes)
  kept name most node_id v nodes b e (inl h) = inl h
  kept name most node_id v nodes b e (inr h) = inr (later h)

  best_from_nil : (best : Text) (most : F) → best_from best most [] ≡ best
  unfolding best_from
  best_from_nil best most = refl

  best_from_step :
      (best : Text) (most : F) (node_id : Text) (v : ValueMetrics F)
      (nodes : List (Text × ValueMetrics F))
      → (lt most (efficiency v) ≡ true
          → best_from best most ((node_id, v) ∷ nodes) ≡ best_from node_id (efficiency v) nodes)
        × (lt most (efficiency v) ≡ false
            → best_from best most ((node_id, v) ∷ nodes) ≡ best_from best most nodes)
  unfolding best_from
  best_from_step best most node_id v nodes = (λ h. rw h refl, λ h. rw h refl)

  best_from_lem :
      (best : Text) (most : F) (nodes : List (Text × ValueMetrics F))
      → (e : F) × (((best_from best most nodes ≡ best) × (e ≡ most))
          ⊎ IsNode (best_from best most nodes) e nodes)
        × (le most e ≡ true)
        × All (λ x. le (efficiency x.1) e ≡ true) nodes
  best_from_lem best most [] =
      (most, inl (best_from_nil best most, refl), le_refl_by order most, tt)
  best_from_lem best most ((node_id, v) ∷ nodes) = elim (Bool-cases (lt most (efficiency v))) [
    | inl better ↦
        let (e, from, above, all) = best_from_lem node_id (efficiency v) nodes in
        let rises : le most (efficiency v) ≡ true =
          ground (arith, order.total most (efficiency v), better) in
        rw ((best_from_step best most node_id v nodes).0 better) (
          e,
          inr (joined node_id v nodes (best_from node_id (efficiency v) nodes) e from),
          order.trans most (efficiency v) e rises above,
          (above, all),
        )
    | inr worse ↦
        let (e, from, above, all) = best_from_lem best most nodes in
        let falls : le (efficiency v) most ≡ true = ground (arith, worse) in
        rw ((best_from_step best most node_id v nodes).1 worse) (
          e,
          kept best most node_id v nodes (best_from best most nodes) e from,
          above,
          (order.trans (efficiency v) most e falls above, all),
        )
  ]

  worst_from_nil : (worst : Text) (least : F) → worst_from worst least [] ≡ worst
  unfolding worst_from
  worst_from_nil worst least = refl

  worst_from_step :
      (worst : Text) (least : F) (node_id : Text) (v : ValueMetrics F)
      (nodes : List (Text × ValueMetrics F))
      → (lt (efficiency v) least ≡ true
          → worst_from worst least ((node_id, v) ∷ nodes) ≡ worst_from node_id (efficiency v) nodes)
        × (lt (efficiency v) least ≡ false
            → worst_from worst least ((node_id, v) ∷ nodes) ≡ worst_from worst least nodes)
  unfolding worst_from
  worst_from_step worst least node_id v nodes = (λ h. rw h refl, λ h. rw h refl)

  worst_from_lem :
      (worst : Text) (least : F) (nodes : List (Text × ValueMetrics F))
      → (e : F) × (((worst_from worst least nodes ≡ worst) × (e ≡ least))
          ⊎ IsNode (worst_from worst least nodes) e nodes)
        × (le e least ≡ true)
        × All (λ x. le e (efficiency x.1) ≡ true) nodes
  worst_from_lem worst least [] =
      (least, inl (worst_from_nil worst least, refl), le_refl_by order least, tt)
  worst_from_lem worst least ((node_id, v) ∷ nodes) = elim (Bool-cases (lt (efficiency v) least)) [
    | inl worse ↦
        let (e, from, below, all) = worst_from_lem node_id (efficiency v) nodes in
        let falls : le (efficiency v) least ≡ true =
          ground (arith, order.total (efficiency v) least, worse) in
        rw ((worst_from_step worst least node_id v nodes).0 worse) (
          e,
          inr (joined node_id v nodes (worst_from node_id (efficiency v) nodes) e from),
          order.trans e (efficiency v) least below falls,
          (below, all),
        )
    | inr better ↦
        let (e, from, below, all) = worst_from_lem worst least nodes in
        let rises : le least (efficiency v) ≡ true = ground (arith, better) in
        rw ((worst_from_step worst least node_id v nodes).1 better) (
          e,
          kept worst least node_id v nodes (worst_from worst least nodes) e from,
          below,
          (order.trans e least (efficiency v) below rises, all),
        )
  ]

  -- The best and the worst node of a summary are nodes of it, with an efficiency that no node
  -- exceeds, or falls below. The order of the numbers is total and transitive.
  pub summary_extremes :
      (node_id : Text) (v : ValueMetrics F) (rest : List (Text × ValueMetrics F))
      (non_pvm : List Text)
      → let s = summary ((node_id, v) ∷ rest) non_pvm in
        ((b : Text) × (e : F) × (s.best_node ≡ some b)
          × IsNode b e ((node_id, v) ∷ rest)
          × All (λ x. le (efficiency x.1) e ≡ true) ((node_id, v) ∷ rest))
        × ((w : Text) × (e : F) × (s.worst_node ≡ some w)
            × IsNode w e ((node_id, v) ∷ rest)
            × All (λ x. le e (efficiency x.1) ≡ true) ((node_id, v) ∷ rest))
  unfolding summary
  summary_extremes node_id v rest non_pvm =
      let (e, from, above, all) = best_from_lem node_id (efficiency v) rest in
      let (e', from', below, all') = worst_from_lem node_id (efficiency v) rest in
      (
        (
          best_from node_id (efficiency v) rest,
          e,
          refl,
          joined node_id v rest (best_from node_id (efficiency v) rest) e from,
          (above, all),
        ),
        (
          worst_from node_id (efficiency v) rest,
          e',
          refl,
          joined node_id v rest (worst_from node_id (efficiency v) rest) e' from',
          (below, all'),
        ),
      )
