-- ===== src/Safety/Trip.antt =====
-- The breaker around an optimizer that raises on every packet.
use smart_bandwidth_optimize.Base.{
  ℕ, ◌+◌, ◌-◌, ◌≤◌, ◌<◌, ◌≡◌, ◌≢◌, refl, sym, ◌∙◌, List, [], ◌∷◌, arith, length,
}
use Prim.Native.Nat.{min}
use native.Mathlib.Decide.{dec_le}
use smart_bandwidth_optimize.Classifier.{Packet}
use smart_bandwidth_optimize.Outcome.{ProcessResult, Exception, Outcome, raised}
use smart_bandwidth_optimize.Safety.{
  bypassed, SafetyGuard, process, handle_error, bypass_result, record_error, state_after_error,
}
use smart_bandwidth_optimize.Safety.Breaker.{process_bypassed}

trips_at : (k n : ℕ) → 0 < k → k ≤ n → state_after_error k n ≡ bypassed
unfolding state_after_error
trips_at k n h le = ground arith

holds_below : (k n : ℕ) → ¬ (k ≤ n) → state_after_error k n ≢ bypassed
unfolding state_after_error
holds_below k n h = ground arith

module _ {S F : Type 0} (call : S → Packet F → S × Packet F × Outcome (ProcessResult F)) where
  -- The packets of a list, with the clock's readings, go through the guard one after the other.
  pub feed : List (F × Packet F) → SafetyGuard S F → SafetyGuard S F
  feed [] g = g
  feed ((time, p) ∷ ps) g = feed ps (process call g time p).0

  -- The optimizer raises on every packet, in every state.
  abbrev pub Fails : Type 0
  Fails =
      (s : S) (p : Packet F)
      → (s' : S) × (p' : Packet F) × (x : Exception) × (call s p ≡ (s', p', raised x))

  feed_bypassed :
      (ps : List (F × Packet F)) (g : SafetyGuard S F)
      → g.state ≡ bypassed
      → ((feed ps g).state ≡ bypassed) × ((feed ps g).total_errors ≡ g.total_errors)
  unfolding feed
  feed_bypassed [] g h = (h, refl)
  feed_bypassed ((time, p) ∷ ps) g h =
      let (stays, _, errors, _, _, _) = process_bypassed call g time p h in
      let (state, total) = feed_bypassed ps (process call g time p).0 stays in (state, omega arith)

  step_failing :
      (g : SafetyGuard S F) (time : F) (p : Packet F)
      → Fails
      → g.state ≢ bypassed
      → let g' = (process call g time p).0 in
        (g'.state ≡ state_after_error g.circuit_threshold (g.consecutive_errors + 1))
        × (g'.consecutive_errors ≡ g.consecutive_errors + 1)
        × (g'.total_errors ≡ g.total_errors + 1)
        × (g'.circuit_threshold ≡ g.circuit_threshold)
  unfolding process handle_error bypass_result record_error
  step_failing g time p fails h = let (s, q, x, e) = fails g.optimizer p in ground arith

  -- If the optimizer raises on every packet, a guard that is not BYPASSED, with threshold `k` and fewer
  -- than `k` consecutive errors, is BYPASSED as soon as the consecutive errors reach `k` and not before,
  -- and from then on the optimizer is not called: no more errors are counted.
  pub feed_trips :
      (ps : List (F × Packet F)) (g : SafetyGuard S F)
      → Fails
      → g.state ≢ bypassed
      → g.consecutive_errors < g.circuit_threshold
      → let g' = feed ps g in
        (g'.total_errors
          ≡ g.total_errors + min (length ps) (g.circuit_threshold - g.consecutive_errors))
        × (g.circuit_threshold ≤ g.consecutive_errors + length ps → g'.state ≡ bypassed)
        × (g.consecutive_errors + length ps < g.circuit_threshold → g'.state ≢ bypassed)
  unfolding feed
  feed_trips [] g fails active room = (omega arith, (λ h. absurd (omega arith)), λ h. active)
  feed_trips ((time, p) ∷ ps) g fails active room =
      let g' = (process call g time p).0 in
      let (state, consecutive, total, threshold) = step_failing g time p fails active in
      elim (dec_le g.circuit_threshold (g.consecutive_errors + 1)) [
        | yes trips ↦
            let tripped : g'.state ≡ bypassed = trip g time p state trips room in
            let (stays, errors) = feed_bypassed ps g' tripped in
            (omega arith, (λ _. stays), λ h. absurd (omega arith))
        | no below ↦
            let (errors, trips, holds) =
              feed_trips ps g' fails (kept g time p state below) (omega arith) in
            (omega arith, (λ h. trips (omega arith)), λ h. holds (omega arith))
      ]
    where
      trip :
          (g : SafetyGuard S F) (time : F) (p : Packet F)
          → (process call g time p).0.state
            ≡ state_after_error g.circuit_threshold (g.consecutive_errors + 1)
          → g.circuit_threshold ≤ g.consecutive_errors + 1
          → g.consecutive_errors < g.circuit_threshold
          → (process call g time p).0.state ≡ bypassed
      trip g time p e h room =
          e ∙ trips_at g.circuit_threshold (g.consecutive_errors + 1) (omega arith) h

      kept :
          (g : SafetyGuard S F) (time : F) (p : Packet F)
          → (process call g time p).0.state
            ≡ state_after_error g.circuit_threshold (g.consecutive_errors + 1)
          → ¬ (g.circuit_threshold ≤ g.consecutive_errors + 1)
          → (process call g time p).0.state ≢ bypassed
      kept g time p e h b = holds_below g.circuit_threshold (g.consecutive_errors + 1) h (sym e ∙ b)
