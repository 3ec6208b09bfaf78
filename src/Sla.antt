-- ===== src/Sla.antt =====
-- bandwidth_optimizer/sla.py: latency ceilings around an optimizer, and back-pressure from its
-- statistics. The optimizer is a parameter: a state with `process`, `dequeue` and the number of packets
-- that wait, which bounds the loop of the monitor's `dequeue`.
pub mod Sojourn
pub mod Violations
pub mod Pressure
pub mod Wrapped
use smart_bandwidth_optimize.Base.{
  ℕ, zero, suc, ◌+◌, ◌-◌, ◌≡◌, Bool, true, false, Option, none, some, List, [], ◌∷◌, ◌++◌,
  if◌then◌else◌, length, drop,
}
use smart_bandwidth_optimize.Base.Float.{Float, num, lt, eq_by, max}
use smart_bandwidth_optimize.Config.{
  TrafficPriority, critical, high, medium, low, background, ByPriority, Counts, no_counts, bump,
}
use smart_bandwidth_optimize.Classifier.{Packet}
use smart_bandwidth_optimize.Outcome.{ProcessResult}
use smart_bandwidth_optimize.Queueing.Laws.{Takes}

pub record SlaConfig (F : Type 0) : Type 0 where
  pub pipeline_ceiling_us : ByPriority F
  pub sojourn_ceiling_ms : ByPriority F
  pub max_violations_tracked : ℕ

pub data ViolationType : Type 0 where
  pipeline sojourn : ViolationType

pub record SlaViolation (F : Type 0) : Type 0 where
  pub violation_type : ViolationType
  pub priority : TrafficPriority
  pub ceiling : F
  pub actual : F
  pub timestamp : F

-- `SLAStats`, which is also the monitor's own state.
pub record SlaStats (F : Type 0) : Type 0 where
  pub pipeline_violations : Counts
  pub sojourn_violations : Counts
  pub packets_expired : ℕ
  pub total_violations : ℕ
  pub recent_violations : List (SlaViolation F)

pub record SlaMonitor (S F : Type 0) : Type 0 where
  pub optimizer : S
  pub config : SlaConfig F
  pub counters : SlaStats F

-- What the monitor calls of the optimizer.
pub record Source (S F : Type 0) : Type 0 where
  pub process_packet : S → Packet F → S × Packet F × ProcessResult F
  pub dequeue_packet : S → S × Option (Packet F)
  pub waiting : S → ℕ

-- Each packet that is handed out waits no more, and an empty queue hands out nothing.
pub record IsSource {S F : Type 0} (source : Source S F) (IsFine : S → Type 0) : Type 0 where
  pub fine : (s : S) → IsFine s → IsFine (source.dequeue_packet s).0
  pub progress :
      (s : S)
      → IsFine s
      → Takes
          (source.dequeue_packet s).1
          (source.waiting s)
          (source.waiting (source.dequeue_packet s).0)

module _ {F : Type 0} where
  unfoldable pub no_violations : SlaStats F
  no_violations = record {
    pipeline_violations = no_counts;
    sojourn_violations = no_counts;
    packets_expired = 0;
    total_violations = 0;
    recent_violations = [];
  }

  -- `append` on a deque of at most `maxlen` elements.
  unfoldable pub append_bounded : ℕ → List (SlaViolation F) → SlaViolation F → List (SlaViolation F)
  append_bounded maxlen recent v = let all = recent ++ (v ∷ []) in drop (length all - maxlen) all

  unfoldable pub record_violation : ℕ → SlaStats F → SlaViolation F → SlaStats F
  record_violation maxlen c v =
      let counted = record c {
        total_violations = c.total_violations + 1;
        recent_violations = append_bounded maxlen c.recent_violations v;
      } in
      elim v.violation_type [
        | pipeline ↦ record counted { pipeline_violations = bump v.priority c.pipeline_violations }
        | sojourn ↦ record counted { sojourn_violations = bump v.priority c.sojourn_violations }
      ]

module _ {F : Type 0} ⦃d : Float F⦄ where
  open d use {minus, times, over, le}

  -- The ceilings of `SLAConfig()`.
  unfoldable pub default_pipeline_ceiling_us : ByPriority F
  default_pipeline_ceiling_us critical = some (num 500)
  default_pipeline_ceiling_us high = some (num 1000)
  default_pipeline_ceiling_us medium = some (num 2000)
  default_pipeline_ceiling_us low = some (num 5000)
  default_pipeline_ceiling_us background = some (num 10_000)

  unfoldable pub default_sojourn_ceiling_ms : ByPriority F
  default_sojourn_ceiling_ms critical = some (num 50)
  default_sojourn_ceiling_ms high = some (num 100)
  default_sojourn_ceiling_ms medium = some (num 500)
  default_sojourn_ceiling_ms low = some (num 2000)
  default_sojourn_ceiling_ms background = some (num 5000)

  unfoldable pub default_config : SlaConfig F
  default_config = record {
    pipeline_ceiling_us = default_pipeline_ceiling_us;
    sojourn_ceiling_ms = default_sojourn_ceiling_ms;
    max_violations_tracked = 200;
  }

  unfoldable pub overage_pct : SlaViolation F → F
  overage_pct v =
      if eq_by le v.ceiling (num 0) then num 0 else over (minus v.actual v.ceiling) v.ceiling

  unfoldable pub init : {S : Type 0} → S → SlaConfig F → SlaMonitor S F
  init s config = record { optimizer = s; config = config; counters = no_violations }

  -- The violation, if there is one, of a call that took `elapsed_us` and left the packet as `p`.
  unfoldable pub pipeline_violation : SlaConfig F → F → F → Packet F → Option (SlaViolation F)
  pipeline_violation c elapsed_us time p = elim p.priority [
    | none ↦ none
    | some q ↦ elim (c.pipeline_ceiling_us q) [
      | none ↦ none
      | some ceiling ↦
          if lt ceiling elapsed_us
          then some (record {
            violation_type = pipeline;
            priority = q;
            ceiling = ceiling;
            actual = elapsed_us;
            timestamp = time;
          })
          else none
    ]
  ]

  -- The time in the queue, and the violation of its ceiling, if there is one.
  unfoldable pub sojourn_violation : SlaConfig F → F → F → Packet F → Option (SlaViolation F)
  sojourn_violation c now time p = elim p.priority [
    | none ↦ none
    | some q ↦ elim p.enqueued_at [
      | none ↦ none
      | some at ↦ elim (c.sojourn_ceiling_ms q) [
        | none ↦ none
        | some ceiling ↦
            let sojourn_ms = times (minus now at) (num 1000) in
            if lt ceiling sojourn_ms
            then some (record {
              violation_type = sojourn;
              priority = q;
              ceiling = ceiling;
              actual = sojourn_ms;
              timestamp = time;
            })
            else none
      ]
    ]
  ]

  module _ {S : Type 0} (source : Source S F) where
    pub note_violation : SlaMonitor S F → Option (SlaViolation F) → SlaMonitor S F
    note_violation m none = m
    note_violation m (some v) = record m {
      counters = record_violation m.config.max_violations_tracked m.counters v;
    }

    -- `start` and `stop` are the readings of the performance counter in nanoseconds.
    unfoldable pub process :
        SlaMonitor S F → F → F → F → Packet F → SlaMonitor S F × ProcessResult F
    unfolding note_violation
    process m start stop time p =
        let (s, p', r) = source.process_packet m.optimizer p in
        let elapsed_us = over (minus stop start) (num 1000) in
        (
          note_violation (record m { optimizer = s })
              (pipeline_violation m.config elapsed_us time p'),
          r,
        )

    -- An expired packet: the violation is recorded and the packet discarded.
    unfoldable pub expire : SlaMonitor S F → SlaViolation F → SlaMonitor S F
    expire m v =
        let c = record_violation m.config.max_violations_tracked m.counters v in
        record m { counters = record c { packets_expired = c.packets_expired + 1 } }

    -- One round of the loop, with what the optimizer handed out.
    unfoldable pub dequeue_round :
        (SlaMonitor S F → SlaMonitor S F × Option (Packet F))
        → SlaMonitor S F
        → F
        → F
        → S × Option (Packet F)
        → SlaMonitor S F × Option (Packet F)
    dequeue_round rest m now time (s, none) = (record m { optimizer = s }, none)
    dequeue_round rest m now time (s, some p) = elim (sojourn_violation m.config now time p) [
      | none ↦ (record m { optimizer = s }, some p)
      | some v ↦ rest (expire (record m { optimizer = s }) v)
    ]

    -- The loop on fuel; round `i` reads the clock as `now i` and the time of day as `time i`.
    unfoldable pub dequeue_from :
        ℕ → ℕ → (ℕ → F) → (ℕ → F) → SlaMonitor S F → SlaMonitor S F × Option (Packet F)
    dequeue_from zero i now time m = (m, none)
    dequeue_from (suc fuel) i now time m =
        dequeue_round (dequeue_from fuel (i + 1) now time) m (now i) (time i)
          (source.dequeue_packet m.optimizer)

    -- One round for each packet that waits, and one that finds the queue empty.
    unfoldable pub dequeue : (ℕ → F) → (ℕ → F) → SlaMonitor S F → SlaMonitor S F × Option (Packet F)
    dequeue now time m = dequeue_from (source.waiting m.optimizer + 1) 0 now time m

  unfoldable pub reset_sla_stats : {S : Type 0} → SlaMonitor S F → SlaMonitor S F
  reset_sla_stats m = record m { counters = no_violations }

  pub sla_stats : {S : Type 0} → SlaMonitor S F → SlaStats F
  sla_stats m = m.counters

  -- `reset_stats` resets the optimizer's counters with its own.
  pub reset_stats : {S : Type 0} → (S → S) → SlaMonitor S F → SlaMonitor S F
  reset_stats reset m = reset_sla_stats (record m { optimizer = reset m.optimizer })
