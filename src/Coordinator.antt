-- ===== src/Coordinator.antt =====
-- bandwidth_optimizer/coordinator.py, with the signatures of bandwidth_optimizer/trust.py: the registry of
-- agents. What an agent sends is a parameter `Stats`, of which the coordinator reads the value metrics.
-- `hmac.new(...).hexdigest()` is the argument `hmac`, on the secret and the bytes; `now` is `time.time()`.
pub mod Registry
pub mod Fleet
use smart_bandwidth_optimize.Base.{
  ℕ, ◌+◌, Bool, true, false, not, ◌&&◌, Option, none, some, List, [], ◌∷◌, map, if◌then◌else◌,
  length, or_else, leb,
}
use smart_bandwidth_optimize.Base.Text.{Text, Bytes, text_eq, lower}
use smart_bandwidth_optimize.Base.Float.{Float, num, lt}
use smart_bandwidth_optimize.Base.Dict.{lookup, insert, remove, keep_entries}

unfoldable pub sign_payload : (Text → Bytes → Text) → Text → Bytes → Text
sign_payload hmac secret payload = hmac secret payload

-- `compare_digest` refuses text that is not ASCII with a `TypeError`, which counts as a failure.
unfoldable pub is_ascii : Text → Bool
is_ascii [] = true
is_ascii (c ∷ cs) = leb c 127 && is_ascii cs

unfoldable pub verify_payload : (Text → Bytes → Text) → Text → Bytes → Text → Bool
verify_payload hmac secret payload signature =
    let expected = sign_payload hmac secret payload in
    let given = lower signature in
    if is_ascii expected && is_ascii given then text_eq expected given else false

pub record Agent (Stats F : Type 0) : Type 0 where
  pub stats : Stats
  pub last_seen : F

pub record AgentCoordinator (Stats F : Type 0) : Type 0 where
  pub ttl : F
  pub require_auth : Bool
  pub auth_secret : Text
  pub registry : List (Text × Agent Stats F)

-- The `value` entry of an agent's statistics. A key may be missing.
pub record ValueMetrics (F : Type 0) : Type 0 where
  pub delivered_per_sec : Option F
  pub lost_per_sec : Option F
  pub efficiency_pct : Option F

pub record FleetSummary (F : Type 0) : Type 0 where
  pub efficiency_pct : Option F
  pub delivered_per_sec : F
  pub lost_per_sec : F
  pub best_node : Option Text
  pub worst_node : Option Text
  pub pvm_node_count : ℕ
  pub non_pvm_nodes : List Text
  pub nodes : List (Text × F × F × F)

module _ {F : Type 0} ⦃d : Float F⦄ where
  open d use {plus, times, over, round}

  -- `sum` of a metric, with zero for one that is missing.
  unfoldable pub sum_metric : (ValueMetrics F → Option F) → F → List (Text × ValueMetrics F) → F
  sum_metric metric acc [] = acc
  sum_metric metric acc ((node_id, v) ∷ nodes) =
      sum_metric metric (plus acc (or_else (metric v) (num 0))) nodes

  abbrev pub efficiency : ValueMetrics F → F
  efficiency v = or_else v.efficiency_pct (num 100)

  -- `max` and `min` over the nodes: the first of the best and the first of the worst.
  unfoldable pub best_from : Text → F → List (Text × ValueMetrics F) → Text
  best_from best most [] = best
  best_from best most ((node_id, v) ∷ nodes) =
      best_from (if lt most (efficiency v) then node_id else best)
        (if lt most (efficiency v) then efficiency v else most) nodes

  unfoldable pub worst_from : Text → F → List (Text × ValueMetrics F) → Text
  worst_from worst least [] = worst
  worst_from worst least ((node_id, v) ∷ nodes) =
      worst_from (if lt (efficiency v) least then node_id else worst)
        (if lt (efficiency v) least then efficiency v else least) nodes

  -- The summary of the nodes with value metrics.
  unfoldable pub summary : List (Text × ValueMetrics F) → List Text → FleetSummary F
  summary [] non_pvm = record {
    efficiency_pct = none;
    delivered_per_sec = num 0;
    lost_per_sec = num 0;
    best_node = none;
    worst_node = none;
    pvm_node_count = 0;
    non_pvm_nodes = non_pvm;
    nodes = [];
  }
  summary ((node_id, v) ∷ rest) non_pvm =
      let nodes = (node_id, v) ∷ rest in
      let delivered = sum_metric (λ x. x.delivered_per_sec) (num 0) nodes in
      let lost = sum_metric (λ x. x.lost_per_sec) (num 0) nodes in
      let flow = plus delivered lost in
      let fleet_efficiency =
        if lt (num 0) flow then over (times (num 100) delivered) flow else num 100 in
      record {
        efficiency_pct = some (round fleet_efficiency 2);
        delivered_per_sec = round delivered 4;
        lost_per_sec = round lost 4;
        best_node = some (best_from node_id (efficiency v) rest);
        worst_node = some (worst_from node_id (efficiency v) rest);
        pvm_node_count = length nodes;
        non_pvm_nodes = non_pvm;
        nodes =
            map
              (λ x. (
                x.0,
                round (efficiency x.1) 2,
                round (or_else x.1.delivered_per_sec (num 0)) 4,
                round (or_else x.1.lost_per_sec (num 0)) 4,
              ))
              nodes;
      }

module _ {Stats F : Type 0} ⦃d : Float F⦄ where
  open d use {minus}

  unfoldable pub init : F → Bool → Text → AgentCoordinator Stats F
  init agent_ttl require_auth auth_secret = record {
    ttl = agent_ttl;
    require_auth = require_auth;
    auth_secret = auth_secret;
    registry = [];
  }

  unfoldable pub ingest : AgentCoordinator Stats F → F → Text → Stats → AgentCoordinator Stats F
  ingest c now node_id stats = record c {
    registry = insert text_eq node_id (record { stats = stats; last_seen = now }) c.registry;
  }

  -- Whether the signature is checked: an empty secret switches the check off.
  unfoldable pub is_checked : AgentCoordinator Stats F → Bool
  is_checked c = c.require_auth && not (text_eq c.auth_secret [])

  unfoldable pub ingest_authenticated :
      (Text → Bytes → Text)
      → AgentCoordinator Stats F
      → F
      → Text
      → Bytes
      → Text
      → Stats
      → AgentCoordinator Stats F × Bool
  ingest_authenticated hmac c now node_id raw_body signature stats =
      if is_checked c && not (verify_payload hmac c.auth_secret raw_body signature)
      then (c, false)
      else (ingest c now node_id stats, true)

  unfoldable pub is_live : F → Text → Agent Stats F → Bool
  is_live cutoff node_id a = not (lt a.last_seen cutoff)

  unfoldable pub evict_stale : AgentCoordinator Stats F → F → AgentCoordinator Stats F
  evict_stale c now = record c { registry = keep_entries (is_live (minus now c.ttl)) c.registry }

  unfoldable pub all_agents :
      AgentCoordinator Stats F → F → AgentCoordinator Stats F × List (Text × Agent Stats F)
  all_agents c now = let c' = evict_stale c now in (c', c'.registry)

  unfoldable pub get_agent : AgentCoordinator Stats F → Text → Option Stats
  get_agent c node_id = elim (lookup text_eq node_id c.registry) [
    | none ↦ none
    | some a ↦ some a.stats
  ]

  unfoldable pub agent_count : AgentCoordinator Stats F → F → AgentCoordinator Stats F × ℕ
  agent_count c now = let c' = evict_stale c now in (c', length c'.registry)

  unfoldable pub remove_agent : AgentCoordinator Stats F → Text → AgentCoordinator Stats F
  remove_agent c node_id = record c { registry = remove text_eq node_id c.registry }

  module _ (value_of : Stats → Option (ValueMetrics F)) where
    -- The agents with value metrics, in order.
    unfoldable pub with_value : List (Text × Agent Stats F) → List (Text × ValueMetrics F)
    with_value [] = []
    with_value ((node_id, a) ∷ agents) = elim (value_of a.stats) [
      | none ↦ with_value agents
      | some v ↦ (node_id, v) ∷ with_value agents
    ]

    -- The names of the others.
    unfoldable pub without_value : List (Text × Agent Stats F) → List Text
    without_value [] = []
    without_value ((node_id, a) ∷ agents) = elim (value_of a.stats) [
      | none ↦ node_id ∷ without_value agents
      | some v ↦ without_value agents
    ]

  unfoldable pub fleet_value_summary :
      (Stats → Option (ValueMetrics F))
      → AgentCoordinator Stats F
      → F
      → AgentCoordinator Stats F × FleetSummary F
  fleet_value_summary value_of c now =
      let c' = evict_stale c now in
      (c', summary (with_value value_of c'.registry) (without_value value_of c'.registry))
