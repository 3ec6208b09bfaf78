-- ===== src/Tests/Agents.antt =====
-- The coordinator on concrete inputs.
use smart_bandwidth_optimize.Base.{ℕ, ◌≡◌, refl, true, none, some, List, [], ◌∷◌, All}
use smart_bandwidth_optimize.Base.Int.{pos}
use smart_bandwidth_optimize.Base.Text.{Text, Bytes, codes, text_eq, lower}
use smart_bandwidth_optimize.Base.Dict.{lookup, IsDistinct}
use smart_bandwidth_optimize.Base.Fixed.{Fixed, fixed_float, Fixed-IsOrder}
use smart_bandwidth_optimize.Coordinator.{
  is_ascii, AgentCoordinator, ValueMetrics, summary, efficiency,
}
use smart_bandwidth_optimize.Coordinator.Fleet.{IsNode, summary_extremes}

-- A digest that is one digit for every input.
abbrev digest : Text → Bytes → Text
digest secret payload = codes "7"

digest_lem :
    (s : Text) (b : Bytes) → (is_ascii (digest s b) ≡ true) × (lower (digest s b) ≡ digest s b)
unfolding is_ascii lower
digest_lem s b = (refl, refl)

abbrev edge : Text
edge = codes "edge-01"

-- The statistics of an agent are a number here.
abbrev coordinator : AgentCoordinator ℕ Fixed
coordinator = record {
  ttl = pos 60_000;
  require_auth = true;
  auth_secret = codes "key";
  registry = (edge, record { stats = 1; last_seen = pos 0 }) ∷ [];
}

registry-IsDistinct : IsDistinct text_eq coordinator.registry
unfolding lookup
registry-IsDistinct = (refl, tt)

abbrev good : ValueMetrics Fixed
good = record {
  delivered_per_sec = some (pos 9000);
  lost_per_sec = some (pos 1000);
  efficiency_pct = some (pos 90_000);
}

abbrev bad : ValueMetrics Fixed
bad = record {
  delivered_per_sec = some (pos 1000);
  lost_per_sec = none;
  efficiency_pct = some (pos 40_000);
}

abbrev nodes : List (Text × ValueMetrics Fixed)
nodes = (edge, good) ∷ (codes "edge-02", bad) ∷ []

summary_extremes_example :
    let s = summary nodes [] in
    ((b : Text) × (e : Fixed) × (s.best_node ≡ some b)
      × IsNode Fixed-IsOrder b e nodes
      × All (λ x. fixed_float.le (efficiency x.1) e ≡ true) nodes)
    × ((w : Text) × (e : Fixed) × (s.worst_node ≡ some w)
        × IsNode Fixed-IsOrder w e nodes
        × All (λ x. fixed_float.le e (efficiency x.1) ≡ true) nodes)
summary_extremes_example = summary_extremes Fixed-IsOrder edge good ((codes "edge-02", bad) ∷ []) []
