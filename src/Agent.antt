-- ===== src/Agent.antt =====
-- bandwidth_optimizer/agent.py: the node agent, its heartbeat, and the threads that run `_heartbeat_loop`
-- as a step relation: each step is one locked region, one sleep or one request, and the calls of `start`
-- and `stop` come anywhere between. `_thread`, which nothing reads, is the list of all threads that were
-- made. The optimizer is a parameter `O`, its statistics `S`; `dumps` is `json.dumps` of the statistics
-- made serialisable, encoded, and `hmac` the hex digest.
pub mod Stopping
pub mod Starting
pub mod Restarting
pub mod Crashing
pub mod Heartbeat
use smart_bandwidth_optimize.Base.{
  ℕ, suc, ◌+◌, Bool, true, false, not, Option, none, some, List, [], ◌∷◌, ◌++◌, if◌then◌else◌, ◌==◌,
  ◌≡◌, ◌≢◌,
}
use smart_bandwidth_optimize.Base.Text.{Text, Bytes, codes, text_eq}
use smart_bandwidth_optimize.License.{rstrip}
use smart_bandwidth_optimize.Coordinator.{sign_payload}

pub record AgentConfig (F : Type 0) : Type 0 where
  pub node_id : Text
  pub coordinator_url : Text
  pub heartbeat_interval : F
  pub tags : List (Text × Text)
  pub auth_secret : Text

pub record NodeAgent (O F : Type 0) : Type 0 where
  pub optimizer : O
  pub config : AgentConfig F
  pub running : Bool
  pub heartbeat_count : ℕ
  pub heartbeat_errors : ℕ
  pub last_heartbeat_time : Option F

-- Where a heartbeat thread is: made but not begun, before the first test of `_running`, asleep, before the
-- second test, in `_send_heartbeat`, or at its end.
pub data Phase : Type 0 where
  created checking sleeping waking sending ended : Phase

-- How a heartbeat ends: with its time, with a `URLError` or `OSError`, or with another exception, which
-- ends the thread.
pub data Reply (F : Type 0) : Type 0 where
  accepted : F → Reply F
  refused crashed : Reply F

-- The statistics of an agent.
pub record AgentStats (S F : Type 0) : Type 0 where
  pub base : S
  pub node_id : Text
  pub tags : List (Text × Text)
  pub coordinator_url : Option Text
  pub count : ℕ
  pub errors : ℕ
  pub last_sent : Option F

pub record HeartbeatRequest : Type 0 where
  pub url : Text
  pub body : Bytes
  pub signature : Option Text

pub record World (O F : Type 0) : Type 0 where
  pub agent : NodeAgent O F
  pub threads : List Phase

-- One step of `_heartbeat_loop`: the phase after it.
unfoldable pub next_phase : {F : Type 0} → Bool → Reply F → Phase → Phase
next_phase running reply created = checking
next_phase running reply checking = if running then sleeping else ended
next_phase running reply sleeping = waking
next_phase running reply waking = if running then sending else ended
next_phase running (accepted time) sending = checking
next_phase running refused sending = checking
next_phase running crashed sending = ended
next_phase running reply ended = ended

module _ {O F : Type 0} where
  unfoldable pub init : O → AgentConfig F → NodeAgent O F
  init optimizer config = record {
    optimizer = optimizer;
    config = config;
    running = false;
    heartbeat_count = 0;
    heartbeat_errors = 0;
    last_heartbeat_time = none;
  }

  -- `if self._config.coordinator_url`
  abbrev pub has_coordinator : NodeAgent O F → Bool
  has_coordinator a = not (text_eq a.config.coordinator_url [])

  unfoldable pub start : World O F → World O F
  start w = if w.agent.running then w else record {
    agent = record w.agent { running = true };
    threads = if has_coordinator w.agent then w.threads ++ (created ∷ []) else w.threads;
  }

  unfoldable pub stop : World O F → World O F
  stop w = record w { agent = record w.agent { running = false } }

  unfoldable pub stats : {S : Type 0} → (O → S) → NodeAgent O F → AgentStats S F
  stats optimizer_stats a = record {
    base = optimizer_stats a.optimizer;
    node_id = a.config.node_id;
    tags = a.config.tags;
    coordinator_url = if has_coordinator a then some a.config.coordinator_url else none;
    count = a.heartbeat_count;
    errors = a.heartbeat_errors;
    last_sent = a.last_heartbeat_time;
  }

  -- What `_send_heartbeat` posts.
  unfoldable pub heartbeat_request :
      {S : Type 0}
      → (O → S)
      → (AgentStats S F → Bytes)
      → (Text → Bytes → Text)
      → NodeAgent O F
      → HeartbeatRequest
  heartbeat_request optimizer_stats dumps hmac a =
      let payload = dumps (stats optimizer_stats a) in
      record {
        url =
            rstrip (λ c. c == b'/') a.config.coordinator_url
            ++ (codes "/agent/" ++ (a.config.node_id ++ codes "/stats"));
        body = payload;
        signature =
            if text_eq a.config.auth_secret []
            then none
            else some (sign_payload hmac a.config.auth_secret payload);
      }

  -- The counters after the request of `_send_heartbeat`.
  unfoldable pub record_reply : Reply F → NodeAgent O F → NodeAgent O F
  record_reply (accepted time) a = record a {
    heartbeat_count = a.heartbeat_count + 1;
    last_heartbeat_time = some time;
  }
  record_reply refused a = record a { heartbeat_errors = a.heartbeat_errors + 1 }
  record_reply crashed a = a

  -- What becomes of the agent in that step.
  unfoldable pub after_phase : Reply F → Phase → NodeAgent O F → NodeAgent O F
  after_phase reply created a = a
  after_phase reply checking a = a
  after_phase reply sleeping a = a
  after_phase reply waking a = a
  after_phase reply sending a = record_reply reply a
  after_phase reply ended a = a

  -- A step of a thread that has not ended.
  pub data ThreadStep : World O F → World O F → Type 0 where
    thread_step :
        (a : NodeAgent O F) (before after : List Phase) (p : Phase) (reply : Reply F)
        → p ≢ ended
        → ThreadStep
            (record { agent = a; threads = before ++ (p ∷ after) })
            (record {
              agent = after_phase reply p a;
              threads = before ++ (next_phase a.running reply p ∷ after);
            })

  -- A run of the threads alone, by its length.
  pub data ThreadSteps (w : World O F) : ℕ → World O F → Type 0 where
    still : ThreadSteps w 0 w
    advance :
        {n : ℕ} {u v : World O F} → ThreadSteps w n u → ThreadStep u v → ThreadSteps w (suc n) v

  -- A step of the whole: a call of `start` or of `stop`, or a step of a thread.
  pub data Step : World O F → World O F → Type 0 where
    starts : (w : World O F) → Step w (start w)
    stops : (w : World O F) → Step w (stop w)
    runs : {w u : World O F} → ThreadStep w u → Step w u

  pub data Steps (w : World O F) : World O F → Type 0 where
    here : Steps w w
    then_step : {u v : World O F} → Steps w u → Step u v → Steps w v
