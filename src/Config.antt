-- ===== src/Config.antt =====
-- bandwidth_optimizer/config.py: deployment modes, traffic priorities and the tuneable parameters.
use smart_bandwidth_optimize.Base.{
  ℕ, ◌≤◌, ◌+◌, ◌≡◌, Bool, true, false, Option, none, some, List, [], ◌∷◌, arith, or_else, refl,
  if◌then◌else◌, sym, ◌≢◌,
}
use smart_bandwidth_optimize.Base.Float.{Float, num, lit}

pub data DeploymentMode : Type 0 where
  router local_server isp_edge : DeploymentMode

pub data TrafficPriority : Type 0 where
  critical high medium low background : TrafficPriority

-- The numeric value: a lower number is a higher priority.
unfoldable pub value : TrafficPriority → ℕ
value critical = 1
value high = 2
value medium = 3
value low = 4
value background = 5

pub value-le : (p : TrafficPriority) → value p ≤ 5
unfolding value
value-le critical = omega arith
value-le _ = omega arith

-- `list(TrafficPriority)`
abbrev pub priorities : List TrafficPriority
priorities = critical ∷ high ∷ medium ∷ low ∷ background ∷ []

abbrev pub priority_eq : TrafficPriority → TrafficPriority → Bool
priority_eq critical critical = true
priority_eq high high = true
priority_eq medium medium = true
priority_eq low low = true
priority_eq background background = true
priority_eq _ _ = false

pub priority_eq_sound : (p q : TrafficPriority) → priority_eq p q ≡ true → p ≡ q
priority_eq_sound p q h = ground arith

-- A dictionary with one counter for each priority, and `counts[p] += 1`.
abbrev pub Counts : Type 0
Counts = TrafficPriority → ℕ

abbrev pub no_counts : Counts
no_counts p = 0

unfoldable pub bump : TrafficPriority → Counts → Counts
bump p counts q = if priority_eq p q then counts q + 1 else counts q

unfoldable pub total : Counts → ℕ
total counts = counts critical + counts high + counts medium + counts low + counts background

pub total-bump : (p : TrafficPriority) (counts : Counts) → total (bump p counts) ≡ total counts + 1
unfolding total bump
total-bump critical counts = omega arith
total-bump _ counts = omega arith

pub bump_self : (p : TrafficPriority) (counts : Counts) → bump p counts p ≡ counts p + 1
unfolding bump
bump_self critical counts = refl
bump_self _ counts = refl

-- A dictionary of fractions or rates by priority, in which a key may be missing.
abbrev pub ByPriority : Type 0 → Type 0
ByPriority A = TrafficPriority → Option A

pub record OptimizerConfig (F : Type 0) : Type 0 where
  pub mode : DeploymentMode
  pub total_bandwidth_bps : ℕ
  pub bandwidth_budget : ByPriority F
  pub max_queue_size : ℕ
  pub compression_threshold_bytes : ℕ
  pub compression_level : ℕ
  pub token_refill_rate : ByPriority F
  pub token_bucket_capacity_multiplier : F
  pub red_min_threshold : F
  pub red_max_threshold : F

module _ {F : Type 0} ⦃d : Float F⦄ where
  open d use {times}

  unfoldable pub default_bandwidth_budget : ByPriority F
  default_bandwidth_budget critical = some (lit 30 100)
  default_bandwidth_budget high = some (lit 30 100)
  default_bandwidth_budget medium = some (lit 20 100)
  default_bandwidth_budget low = some (lit 10 100)
  default_bandwidth_budget background = some (lit 5 100)

  -- The dataclass defaults.
  unfoldable pub default_config : OptimizerConfig F
  default_config = record {
    mode = local_server;
    total_bandwidth_bps = 10_485_760;
    bandwidth_budget = default_bandwidth_budget;
    max_queue_size = 1024;
    compression_threshold_bytes = 256;
    compression_level = 6;
    token_refill_rate = λ p. none;
    token_bucket_capacity_multiplier = num 2;
    red_min_threshold = lit 1 2;
    red_max_threshold = lit 9 10;
  }

  unfoldable pub effective_refill_rate : OptimizerConfig F → TrafficPriority → F
  effective_refill_rate c p = elim (c.token_refill_rate p) [
    | some rate ↦ rate
    | none ↦ times (or_else (c.bandwidth_budget p) (num 0)) (num c.total_bandwidth_bps)
  ]

pub priority_eq_refl : (p : TrafficPriority) → priority_eq p p ≡ true
priority_eq_refl critical = refl
priority_eq_refl _ = refl

pub bump_ne : (p q : TrafficPriority) (counts : Counts) → q ≢ p → bump p counts q ≡ counts q
unfolding bump
bump_ne p q counts h =
    ground (arith, λ (e : priority_eq p q ≡ true). h (sym (priority_eq_sound p q e)))
