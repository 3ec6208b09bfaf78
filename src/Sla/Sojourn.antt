-- ===== src/Sla/Sojourn.antt =====
-- The monitor's `dequeue`: which packets come out, and what is counted.
use smart_bandwidth_optimize.Base.{ℕ, ◌+◌, ◌≡◌, Option, none, some}
use smart_bandwidth_optimize.Base.Float.{Float}
use smart_bandwidth_optimize.Classifier.{Packet}
use smart_bandwidth_optimize.Sla.{SlaMonitor, Source, IsSource, sojourn_violation}
use smart_bandwidth_optimize.Sla.Violations.{IsCounted}

module _ {S F : Type 0} ⦃d : Float F⦄ (source : Source S F) (IsFine : S → Type 0)
    (laws : IsSource source IsFine) where
  abbrev handed : Option (Packet F) → ℕ
  handed none = 0
  handed (some p) = 1

  -- The result of the monitor's `dequeue` from round `i` on: a packet that is returned was tested with
  -- the reading of its round, which comes as many rounds later as packets expired before.
  pub record IsDequeued (now time : ℕ → F) (i : ℕ) (m m' : SlaMonitor S F)
      (result : Option (Packet F)) : Type 0 where
    pub fine : IsFine m'.optimizer
    pub counted : IsCounted source m → IsCounted source m'
    pub fresh :
        (p : Packet F)
        → result ≡ some p
        → (k : ℕ) × (m'.counters.packets_expired ≡ m.counters.packets_expired + k)
          × (sojourn_violation m.config (now (i + k)) (time (i + k)) p ≡ none)
    pub exhausted : result ≡ none → source.waiting m'.optimizer ≡ 0
    pub accounted :
        m'.counters.packets_expired + source.waiting m'.optimizer + handed result
        ≡ m.counters.packets_expired + source.waiting m.optimizer
    pub same_config : m'.config ≡ m.config

  abbrev after : S → SlaMonitor S F → SlaMonitor S F
  after s m = record m { optimizer = s }
