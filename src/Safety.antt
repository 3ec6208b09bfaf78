-- ===== src/Safety.antt =====
-- bandwidth_optimizer/safety.py: the fail-safe wrapper and its circuit-breaker, round an optimizer of
-- any state. A call of the optimizer gives its new state, the packet as it left it, and its outcome.
pub mod Breaker
pub mod Trip
pub mod Threads
use smart_bandwidth_optimize.Base.{
  ℕ, ◌+◌, ◌-◌, Bool, true, false, ◌&&◌, Option, none, some, List, [], ◌∷◌, leb, ltb, if◌then◌else◌,
}
use smart_bandwidth_optimize.Base.Float.{Float}
use smart_bandwidth_optimize.Classifier.{Packet}
use smart_bandwidth_optimize.Outcome.{
  Reason, no_reason, circuit_open, error, ProcessResult, Exception, Outcome, returned, raised,
}

pub data FailMode : Type 0 where
  fail_open fail_closed : FailMode

pub data CircuitState : Type 0 where
  healthy degraded bypassed : CircuitState

abbrev pub is_bypassed : CircuitState → Bool
is_bypassed bypassed = true
is_bypassed _ = false

abbrev pub is_fail_closed : FailMode → Bool
is_fail_closed fail_open = false
is_fail_closed fail_closed = true

pub record SafetyGuard (S F : Type 0) : Type 0 where
  pub optimizer : S
  pub fail_mode : FailMode
  pub circuit_threshold : ℕ
  pub state : CircuitState
  pub total_errors : ℕ
  pub consecutive_errors : ℕ
  pub last_error : Option Exception
  pub last_error_time : Option F
  pub start_time : F
  pub total_in : ℕ
  pub bypass_count : ℕ

pub record HealthStatus (F : Type 0) : Type 0 where
  pub state : CircuitState
  pub fail_mode : FailMode
  pub total_errors : ℕ
  pub consecutive_errors : ℕ
  pub circuit_threshold : ℕ
  pub last_error : Option Exception
  pub last_error_time : Option F
  pub uptime_seconds : F

unfoldable pub is_healthy : {F : Type 0} → HealthStatus F → Bool
is_healthy h = elim h.state [ healthy ↦ true | _ ↦ false ]

-- The state after an error that makes the consecutive errors `n`.
unfoldable pub state_after_error : ℕ → ℕ → CircuitState
state_after_error threshold n = if ltb 0 threshold && leb threshold n then bypassed else degraded

module _ {S F : Type 0} where
  unfoldable pub init : S → FailMode → ℕ → F → SafetyGuard S F
  init optimizer mode threshold now = record {
    optimizer = optimizer;
    fail_mode = mode;
    circuit_threshold = threshold;
    state = healthy;
    total_errors = 0;
    consecutive_errors = 0;
    last_error = none;
    last_error_time = none;
    start_time = now;
    total_in = 0;
    bypass_count = 0;
  }

  -- The result of a packet that the optimizer did not handle.
  unfoldable pub bypass_result :
      SafetyGuard S F → Packet F → Reason F → Bool → SafetyGuard S F × ProcessResult F
  bypass_result g p reason force_drop = (
    record g { bypass_count = g.bypass_count + 1 },
    record {
      packet = p;
      dropped = force_drop;
      drop_reason = if force_drop then reason else no_reason;
      compressed = false;
      original_payload_size = 0;
      compressed_payload_size = 0;
      flow_record = none;
    },
  )

  -- The part of `_handle_error` under the lock.
  unfoldable pub record_error : SafetyGuard S F → F → Exception → SafetyGuard S F
  record_error g time exc = record g {
    total_errors = g.total_errors + 1;
    consecutive_errors = g.consecutive_errors + 1;
    last_error = some exc;
    last_error_time = some time;
    state = state_after_error g.circuit_threshold (g.consecutive_errors + 1);
  }

  unfoldable pub handle_error :
      SafetyGuard S F → F → Packet F → Exception → SafetyGuard S F × ProcessResult F
  handle_error g time p exc =
      bypass_result (record_error g time exc) p (error exc.type_name) (is_fail_closed g.fail_mode)

  -- The part of `process` under the lock after a call that returned.
  unfoldable pub record_success : SafetyGuard S F → SafetyGuard S F
  record_success g = record g {
    consecutive_errors = 0;
    state = elim g.state [ degraded ↦ healthy | s ↦ s ];
  }

  -- What is left of `process` once the optimizer's call is over.
  finish :
      SafetyGuard S F
      → F
      → S × Packet F × Outcome (ProcessResult F)
      → SafetyGuard S F × ProcessResult F
  finish g time (s, p, returned r) = (record_success (record g { optimizer = s }), r)
  finish g time (s, p, raised exc) = handle_error (record g { optimizer = s }) time p exc

  unfoldable pub process :
      (S → Packet F → S × Packet F × Outcome (ProcessResult F))
      → SafetyGuard S F
      → F
      → Packet F
      → SafetyGuard S F × ProcessResult F
  unfolding finish
  process call g time p =
      let counted = record g { total_in = g.total_in + 1 } in
      if is_bypassed g.state
      then bypass_result counted p circuit_open false
      else finish counted time (call g.optimizer p)

  unfoldable pub reset : SafetyGuard S F → SafetyGuard S F
  reset g = record g {
    state = healthy;
    total_errors = 0;
    consecutive_errors = 0;
    last_error = none;
    last_error_time = none;
    bypass_count = 0;
  }

  unfoldable pub set_fail_mode : SafetyGuard S F → FailMode → SafetyGuard S F
  set_fail_mode g mode = record g { fail_mode = mode }

  -- `dequeue` passes the call of the wrapped optimizer on.
  unfoldable pub dequeue :
      (S → S × Option (Packet F)) → SafetyGuard S F → SafetyGuard S F × Option (Packet F)
  dequeue call g = let (s, p) = call g.optimizer in (record g { optimizer = s }, p)

  unfoldable pub health : ⦃d : Float F⦄ → SafetyGuard S F → F → HealthStatus F
  health ⦃d⦄ g now = record {
    state = g.state;
    fail_mode = g.fail_mode;
    total_errors = g.total_errors;
    consecutive_errors = g.consecutive_errors;
    circuit_threshold = g.circuit_threshold;
    last_error = g.last_error;
    last_error_time = g.last_error_time;
    uptime_seconds = d.minus now g.start_time;
  }
