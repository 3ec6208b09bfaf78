-- ===== src/Safety/Breaker.antt =====
-- The circuit-breaker's invariant, and what `process` does on every branch.
use smart_bandwidth_optimize.Base.{ℕ, ◌+◌, ◌≤◌, ◌<◌, ◌≡◌, ◌⊎◌, refl, false, arith, Option}
use smart_bandwidth_optimize.Classifier.{Packet}
use smart_bandwidth_optimize.Outcome.{ProcessResult, Outcome}
use smart_bandwidth_optimize.Safety.{
  FailMode, CircuitState, healthy, degraded, bypassed, SafetyGuard, init, bypass_result,
  state_after_error, record_error, handle_error, record_success, process, reset, dequeue,
  set_fail_mode,
}

-- What the consecutive errors say of a state.
abbrev Fits : CircuitState → ℕ → ℕ → Type 0
Fits healthy threshold n = n ≡ 0
Fits degraded threshold n = (0 < n) × (threshold ≡ 0 ⊎ n < threshold)
Fits bypassed threshold n = (0 < threshold) × (threshold ≤ n)

-- The guard is healthy without, degraded with, and bypassed at the threshold of consecutive errors, and
-- every error was bypassed.
pub record IsConsistent {S F : Type 0} (g : SafetyGuard S F) : Type 0 where
  pub fits : Fits g.state g.circuit_threshold g.consecutive_errors
  pub errors : g.consecutive_errors ≤ g.total_errors
  pub counted : g.total_errors ≤ g.bypass_count
  pub inside : g.bypass_count ≤ g.total_in

-- The calls of a guard that change it, one after the other.
pub data GuardCall (S F : Type 0) : Type 0 where
  process_call :
      (call : S → Packet F → S × Packet F × Outcome (ProcessResult F)) (time : F) (p : Packet F)
      → GuardCall S F
  dequeue_call : (S → S × Option (Packet F)) → GuardCall S F
  reset_call : GuardCall S F
  mode_call : FailMode → GuardCall S F

module _ {S F : Type 0} where
  init-IsConsistent :
      (s : S) (mode : FailMode) (threshold : ℕ) (now : F) → IsConsistent (init s mode threshold now)
  unfolding init
  init-IsConsistent s mode threshold now = record {
    fits = refl;
    errors = omega arith;
    counted = omega arith;
    inside = omega arith;
  }

  pub apply : GuardCall S F → SafetyGuard S F → SafetyGuard S F
  apply (process_call call time p) g = (process call g time p).0
  apply (dequeue_call call) g = (dequeue call g).0
  apply reset_call g = reset g
  apply (mode_call m) g = set_fail_mode g m

  -- Each call of a guard, whatever the optimizer does in it, keeps the guard consistent: the state is
  -- HEALTHY without consecutive errors, DEGRADED with some but below a threshold that is not zero, and
  -- BYPASSED only at a threshold that is not zero.
  pub apply-IsConsistent :
      (c : GuardCall S F) (g : SafetyGuard S F) → IsConsistent g → IsConsistent (apply c g)
  unfolding apply process handle_error bypass_result record_error record_success state_after_error
      reset set_fail_mode dequeue
  apply-IsConsistent (process_call call time p) g h = record {
    fits = ground arith;
    errors = ground arith;
    counted = ground arith;
    inside = ground arith;
  }
  apply-IsConsistent (dequeue_call call) g h = record {
    fits = h.fits;
    errors = h.errors;
    counted = h.counted;
    inside = h.inside;
  }
  apply-IsConsistent reset_call g h = record {
    fits = refl;
    errors = omega arith;
    counted = omega arith;
    inside = omega arith;
  }
  apply-IsConsistent (mode_call m) g h = record {
    fits = h.fits;
    errors = h.errors;
    counted = h.counted;
    inside = h.inside;
  }

  -- While the guard is BYPASSED, `process` leaves the optimizer alone and forwards the packet as it is,
  -- in either fail mode; it stays BYPASSED.
  pub process_bypassed :
      (call : S → Packet F → S × Packet F × Outcome (ProcessResult F)) (g : SafetyGuard S F)
      (time : F) (p : Packet F)
      → g.state ≡ bypassed
      → let (g', r) = process call g time p in
        (g'.state ≡ bypassed)
        × (g'.optimizer ≡ g.optimizer)
        × (g'.total_errors ≡ g.total_errors)
        × (r.packet ≡ p)
        × (r.dropped ≡ false)
        × (g'.bypass_count ≡ g.bypass_count + 1)
  unfolding process bypass_result
  process_bypassed call g time p h = ground arith
