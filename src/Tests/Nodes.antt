-- ===== src/Tests/Nodes.antt =====
-- The agent of a node on concrete inputs.
use smart_bandwidth_optimize.Base.{
  ℕ, suc, ◌+◌, ◌*◌, ◌≤◌, ◌≡◌, ◌≢◌, ◌⊎◌, refl, true, false, none, [], ◌∷◌, ◌++◌, length, All,
}
use smart_bandwidth_optimize.Base.Int.{pos}
use smart_bandwidth_optimize.Base.Text.{Text, Bytes, codes}
use smart_bandwidth_optimize.Base.Fixed.{Fixed, fixed_float}
use smart_bandwidth_optimize.Coordinator.{AgentCoordinator}
use smart_bandwidth_optimize.Agent.{
  AgentConfig, NodeAgent, AgentStats, sleeping, ended, waking, refused, World, init, start, stop,
  next_phase, after_phase, ThreadStep, thread_step, ThreadSteps, still, advance, starts, Steps,
  sending, here, then_step,
}
use smart_bandwidth_optimize.Agent.Stopping.{sent, in_flight, total, stop-ThreadSteps}
use smart_bandwidth_optimize.Agent.Starting.{stop_count, start-Steps}
use smart_bandwidth_optimize.Agent.Restarting.{all_sending, restart-Steps}
use smart_bandwidth_optimize.Agent.Crashing.{after_crash, start-ended}

abbrev config : AgentConfig Fixed
config = record {
  node_id = codes "edge-01";
  coordinator_url = codes "http://hub";
  heartbeat_interval = pos 5000;
  tags = [];
  auth_secret = codes "key";
}

-- An agent that runs; the optimizer is a number here.
abbrev node : NodeAgent ℕ Fixed
node = record {
  optimizer = 7;
  config = config;
  running = true;
  heartbeat_count = 3;
  heartbeat_errors = 1;
  last_heartbeat_time = none;
}

abbrev one_asleep : World ℕ Fixed
one_asleep = record { agent = node; threads = sleeping ∷ [] }

abbrev one_awake : World ℕ Fixed
one_awake = record { agent = record node { running = false }; threads = waking ∷ [] }

woken : ThreadSteps (stop one_asleep) 1 one_awake
unfolding stop after_phase next_phase
woken =
    advance still (thread_step (record node { running = false }) [] [] sleeping refused (λ e. cc))

stop-ThreadSteps_example :
    (1 ≤ 2 * length one_asleep.threads)
    × (All (λ p. p ≡ ended) one_awake.threads ⊎ ((v : World ℕ Fixed) × ThreadStep one_awake v))
    × (sent one_awake ≤ sent one_asleep + total in_flight one_asleep.threads)
stop-ThreadSteps_example = stop-ThreadSteps one_asleep woken

has_url : config.coordinator_url ≢ []
has_url e = cc

restart-Steps_example :
    (steps : Steps {O = ℕ}
      (record { agent = init 7 config; threads = [] })
      (record { agent = record (init 7 config) { running = true }; threads = all_sending (suc 2) }))
    × (stop_count steps ≡ 2)
restart-Steps_example = restart-Steps 7 config has_url 2

start-Steps_example :
    let steps = (restart-Steps {O = ℕ} 7 config has_url 2).0 in
    (length (all_sending (suc 2)) ≤ stop_count steps + 1)
    × (config.coordinator_url ≡ [] → all_sending (suc 2) ≡ [])
start-Steps_example = start-Steps 7 config (restart-Steps {O = ℕ} 7 config has_url 2).0

start-ended_example :
    ThreadStep
      (record { agent = node; threads = (ended ∷ []) ++ (sending ∷ []) })
      (after_crash node (ended ∷ []) [])
    × ((after_crash node (ended ∷ []) []).agent ≡ node)
    × (start (after_crash node (ended ∷ []) []) ≡ after_crash node (ended ∷ []) [])
unfolding stop_count
start-ended_example =
    start-ended node (ended ∷ []) [] refl (refl, tt) tt (then_step here (starts _)) refl

-- A digest that is one digit for every input.
abbrev digest : Text → Bytes → Text
digest secret body = codes "7"

abbrev hub : AgentCoordinator (AgentStats ℕ Fixed) Fixed
hub = record { ttl = pos 60_000; require_auth = true; auth_secret = codes "key"; registry = [] }
