-- ===== src/Capture/Simulated.antt =====
-- bandwidth_optimizer/capture/simulated.py: packets from an iterable or from a callable.
pub mod Yields
use smart_bandwidth_optimize.Base.{
  ℕ, zero, suc, ◌+◌, Bool, true, false, Option, none, some, List, [], ◌∷◌, if◌then◌else◌,
}
use smart_bandwidth_optimize.Base.Text.{Text}
use smart_bandwidth_optimize.Classifier.{Packet}
use smart_bandwidth_optimize.Capture.{CapturedPacket, CaptureStats, record_captured}

module _ {H F : Type 0} (interface : Text) (running : ℕ → Bool) (clock : ℕ → F) where
  abbrev pub captured : ℕ → Packet F → CapturedPacket H F
  captured i p = record {
    packet = p;
    timestamp = clock i;
    interface = interface;
    raw_frame = none;
    nfqueue_handle = none;
  }

  -- What the generator yields, and the counters at its end.
  unfoldable pub from_iterable :
      ℕ → List (Packet F) → CaptureStats → List (CapturedPacket H F) × CaptureStats
  from_iterable i [] stats = ([], stats)
  from_iterable i (p ∷ ps) stats =
      let (yielded, final) = from_iterable (i + 1) ps (record_captured p stats) in
      if running i then (captured i p ∷ yielded, final) else ([], stats)

  -- The source is a function of a state. `none` is that the fuel ran out.
  module _ {S : Type 0} (source : S → Option (Packet F) × S) where
    unfoldable pub from_callable :
        ℕ → ℕ → S → CaptureStats → Option (List (CapturedPacket H F) × CaptureStats)
    from_callable zero i s stats = none
    from_callable (suc fuel) i s stats =
        if running i
        then (let (next, s') = source s in
            elim next [
              | none ↦ some ([], stats)
              | some p ↦ elim (from_callable fuel (i + 1) s' (record_captured p stats)) [
                | none ↦ none
                | some result ↦ some (captured i p ∷ result.0, result.1)
              ]
            ])
        else some ([], stats)
