-- ===== src/Safety/Threads.antt =====
-- `SafetyGuard.process` from several threads: the lock is free while the optimizer runs, so the two
-- locked regions of one call may stand apart.
use smart_bandwidth_optimize.Base.{ℕ, zero, suc, ◌+◌, ◌≤◌, ◌<◌, ◌≡◌, ◌≢◌, refl, sym, ◌∙◌, arith}
use smart_bandwidth_optimize.Outcome.{Exception}
use smart_bandwidth_optimize.Safety.{
  degraded, bypassed, SafetyGuard, FailMode, record_error, record_success, state_after_error, init,
}

-- The guard, and how many threads are inside the optimizer.
pub record Threads (S F : Type 0) : Type 0 where
  pub guard : SafetyGuard S F
  pub inside : ℕ

module _ {S F : Type 0} where
  -- The locked regions of `process`. No step is a `reset`.
  pub data Step : Threads S F → Threads S F → Type 0 where
    enter :
        (g : SafetyGuard S F) (n : ℕ)
        → g.state ≢ bypassed
        → Step
            (record { guard = g; inside = n })
            (record { guard = record g { total_in = g.total_in + 1 }; inside = suc n })
    skip :
        (g : SafetyGuard S F) (n : ℕ)
        → g.state ≡ bypassed
        → Step
            (record { guard = g; inside = n })
            (record {
              guard = record g { total_in = g.total_in + 1; bypass_count = g.bypass_count + 1 };
              inside = n;
            })
    succeed :
        (g : SafetyGuard S F) (n : ℕ)
        → Step
            (record { guard = g; inside = suc n })
            (record { guard = record_success g; inside = n })
    fail :
        (g : SafetyGuard S F) (n : ℕ) (time : F) (x : Exception)
        → Step
            (record { guard = g; inside = suc n })
            (record {
              guard = record (record_error g time x) { bypass_count = g.bypass_count + 1 };
              inside = n;
            })

  pub data Steps (s : Threads S F) : Threads S F → Type 0 where
    here : Steps s s
    next : {t u : Threads S F} → Steps s t → Step t u → Steps s u

  then-Steps : {s t u : Threads S F} → Steps s t → Steps t u → Steps s u
  then-Steps a here = a
  then-Steps a (next b st) = next (then-Steps a b) st

  -- `n` threads enter, one after the other.
  entered : ℕ → SafetyGuard S F → SafetyGuard S F
  entered zero g = g
  entered (suc n) g = let g' = entered n g in record g' { total_in = g'.total_in + 1 }

  entered_keeps :
      (n : ℕ) (g : SafetyGuard S F)
      → ((entered n g).state ≡ g.state)
        × ((entered n g).consecutive_errors ≡ g.consecutive_errors)
        × ((entered n g).circuit_threshold ≡ g.circuit_threshold)
  unfolding entered
  entered_keeps zero g = (refl, refl, refl)
  entered_keeps (suc n) g = entered_keeps n g

  enter_all :
      (n : ℕ) (g : SafetyGuard S F)
      → g.state ≢ bypassed
      → Steps (record { guard = g; inside = 0 }) (record { guard = entered n g; inside = n })
  unfolding entered
  enter_all zero g h = here
  enter_all (suc n) g h =
      next (enter_all n g h) (enter (entered n g) n (λ e. h (sym (entered_keeps n g).0 ∙ e)))

  -- `n` of the threads inside fail, one after the other.
  failed : ℕ → F → Exception → SafetyGuard S F → SafetyGuard S F
  failed zero time x g = g
  failed (suc n) time x g =
      let g' = failed n time x g in
      record (record_error g' time x) { bypass_count = g'.bypass_count + 1 }

  failed_counts :
      (n : ℕ) (time : F) (x : Exception) (g : SafetyGuard S F)
      → ((failed n time x g).consecutive_errors ≡ g.consecutive_errors + n)
        × ((failed n time x g).circuit_threshold ≡ g.circuit_threshold)
  unfolding failed record_error
  failed_counts zero time x g = (omega arith, refl)
  failed_counts (suc n) time x g = let (c, t) = failed_counts n time x g in (omega (arith, c), t)

  fail_all :
      (n m : ℕ) (time : F) (x : Exception) (g : SafetyGuard S F)
      → Steps
          (record { guard = g; inside = n + m })
          (record { guard = failed n time x g; inside = m })
  unfolding failed
  fail_all zero m time x g = rw (zero_add m) here
    where
      zero_add : (m : ℕ) → 0 + m ≡ m
      zero_add m = omega arith
  fail_all (suc n) m time x g =
      next (rw (suc_add n m) (fail_all n (suc m) time x g)) (fail (failed n time x g) m time x)
    where
      suc_add : (n m : ℕ) → suc n + m ≡ n + suc m
      suc_add n m = omega arith

  failed_trips :
      (n : ℕ) (time : F) (x : Exception) (g : SafetyGuard S F)
      → 0 < g.circuit_threshold
      → g.circuit_threshold ≤ g.consecutive_errors + suc n
      → (failed (suc n) time x g).state ≡ bypassed
  unfolding failed record_error state_after_error
  failed_trips n time x g h k = let (c, t) = failed_counts n time x g in ground (arith, c, t)

  -- A success and then a failure of threads that were inside before the trip.
  reopened : F → Exception → SafetyGuard S F → SafetyGuard S F
  reopened time x g =
      let g' = record_success g in
      record (record_error g' time x) { bypass_count = g'.bypass_count + 1 }

  reopened_lem :
      (time : F) (x : Exception) (g : SafetyGuard S F)
      → 1 < g.circuit_threshold
      → (reopened time x g).state ≡ degraded
  unfolding reopened record_success record_error state_after_error
  reopened_lem time x g h = ground arith

  -- With a threshold of at least two, threads can leave BYPASSED without a `reset`: from a new guard some
  -- interleaving of calls trips the breaker, and then two calls that were inside the optimizer when it
  -- tripped, one returning and one raising, set the state back to DEGRADED.
  pub bypassed_escapes :
      (s : S) (mode : FailMode) (threshold : ℕ) (now time : F) (x : Exception)
      → 1 < threshold
      → (t u : Threads S F) × Steps (record { guard = init s mode threshold now; inside = 0 }) t
        × (t.guard.state ≡ bypassed)
        × Steps t u
        × (u.guard.state ≡ degraded)
  unfolding reopened init
  bypassed_escapes s mode zero now time x h = absurd (omega arith)
  bypassed_escapes s mode (suc k) now time x h =
      let g0 = init s mode (suc k) now in
      let many = suc k + 2 in
      let (state, errors, threshold) = entered_keeps many g0 in
      let tripped = failed (suc k) time x (entered many g0) in
      let (_, same) = failed_counts (suc k) time x (entered many g0) in
      (
        record { guard = tripped; inside = 2 },
        record { guard = reopened time x tripped; inside = 0 },
        then-Steps (enter_all many g0 (λ e. cc e)) (fail_all (suc k) 2 time x (entered many g0)),
        failed_trips k time x (entered many g0) (omega (arith, threshold))
            (omega (arith, threshold)),
        next (next here (succeed tripped 1)) (fail (record_success tripped) 0 time x),
        reopened_lem time x tripped (omega (arith, same, threshold)),
      )
