-- ===== src/Sla/Violations.antt =====
-- The counters of violations, and the list of recent ones.
use smart_bandwidth_optimize.Base.{
  ℕ, ◌+◌, ◌-◌, ◌≤◌, ◌≡◌, refl, arith, Option, none, some, List, [], ◌∷◌, ◌++◌, length, length-drop,
}
use smart_bandwidth_optimize.Base.Float.{Float, num}
use smart_bandwidth_optimize.Config.{total, total-bump}
use smart_bandwidth_optimize.Classifier.{Packet}
use smart_bandwidth_optimize.Sla.{
  SlaConfig, SlaViolation, pipeline, sojourn, SlaStats, SlaMonitor, Source, no_violations,
  append_bounded, record_violation, pipeline_violation, sojourn_violation, note_violation, process,
  expire,
}

-- Each violation is counted once, each packet that was discarded was a violation of the sojourn ceiling
-- and the other way round, and at most `maxlen` violations are kept.
pub record IsTallied {F : Type 0} (maxlen : ℕ) (c : SlaStats F) : Type 0 where
  pub sums : c.total_violations ≡ total c.pipeline_violations + total c.sojourn_violations
  pub expired : c.packets_expired ≡ total c.sojourn_violations
  pub bounded : length c.recent_violations ≤ maxlen

module _ {F : Type 0} where
  length-append_bounded :
      (maxlen : ℕ) (recent : List (SlaViolation F)) (v : SlaViolation F)
      → length (append_bounded maxlen recent v) ≤ maxlen
  unfolding append_bounded
  length-append_bounded maxlen recent v =
      omega (arith, length-drop (length (recent ++ (v ∷ [])) - maxlen) (recent ++ (v ∷ [])))

  no_violations-IsTallied : (maxlen : ℕ) → IsTallied {F = F} maxlen no_violations
  unfolding no_violations total
  no_violations-IsTallied maxlen = record { sums = refl; expired = refl; bounded = omega arith }

module _ {F : Type 0} ⦃d : Float F⦄ where
  open d use {minus, over}

  pipeline_violation-type :
      (c : SlaConfig F) (elapsed time : F) (p : Packet F) (v : SlaViolation F)
      → pipeline_violation c elapsed time p ≡ some v
      → v.violation_type ≡ pipeline
  unfolding pipeline_violation
  pipeline_violation-type c elapsed time p v h = ground arith

  pub sojourn_violation-type :
      (c : SlaConfig F) (now time : F) (p : Packet F) (v : SlaViolation F)
      → sojourn_violation c now time p ≡ some v
      → v.violation_type ≡ sojourn
  unfolding sojourn_violation
  sojourn_violation-type c now time p v h = ground arith

  module _ {S : Type 0} (source : Source S F) where
    abbrev pub IsCounted : SlaMonitor S F → Type 0
    IsCounted m = IsTallied m.config.max_violations_tracked m.counters

    pub expire-IsCounted :
        (m : SlaMonitor S F) (v : SlaViolation F)
        → v.violation_type ≡ sojourn
        → IsCounted m
        → IsCounted (expire source m v)
    unfolding expire record_violation
    expire-IsCounted m v k h = record {
      sums = ground (arith, k, h.sums, total-bump v.priority m.counters.sojourn_violations);
      expired = ground (arith, k, h.expired, total-bump v.priority m.counters.sojourn_violations);
      bounded = ground (
        arith,
        k,
        length-append_bounded m.config.max_violations_tracked m.counters.recent_violations v,
      );
    }

    note_violation-IsCounted :
        (m : SlaMonitor S F) (o : Option (SlaViolation F))
        → ((v : SlaViolation F) → o ≡ some v → v.violation_type ≡ pipeline)
        → IsCounted m
        → IsCounted (note_violation source m o)
    unfolding note_violation record_violation
    note_violation-IsCounted m none k h = h
    note_violation-IsCounted m (some v) k h = record {
      sums = ground (arith, k v refl, h.sums, total-bump v.priority m.counters.pipeline_violations);
      expired = ground (arith, k v refl, h.expired);
      bounded = ground (
        arith,
        k v refl,
        length-append_bounded m.config.max_violations_tracked m.counters.recent_violations v,
      );
    }

    -- `process` of the monitor passes the optimizer's result on, and keeps the counters in agreement.
    process-IsCounted :
        (m : SlaMonitor S F) (start stop time : F) (p : Packet F)
        → IsCounted m
        → IsCounted (process source m start stop time p).0
          × ((process source m start stop time p).1 ≡ (source.process_packet m.optimizer p).2)
    unfolding process
    process-IsCounted m start stop time p h =
        let (s, p', r) = source.process_packet m.optimizer p in
        let elapsed_us = over (minus stop start) (num 1000) in
        (
          note_violation-IsCounted (record m { optimizer = s })
              (pipeline_violation m.config elapsed_us time p')
              (pipeline_violation-type m.config elapsed_us time p')
              record { sums = h.sums; expired = h.expired; bounded = h.bounded },
          refl,
        )
