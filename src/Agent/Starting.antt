-- ===== src/Agent/Starting.antt =====
-- How many heartbeat threads `start` makes.
use smart_bandwidth_optimize.Base.{
  ℕ, suc, ◌+◌, ◌≤◌, ◌≡◌, ◌≢◌, refl, sym, ◌∙◌, List, [], ◌∷◌, ◌++◌, arith, length, length-append,
  inl, inr, if◌then◌else◌, Bool-cases,
}
use smart_bandwidth_optimize.Base.Text.{text_eq}
use smart_bandwidth_optimize.Agent.{
  AgentConfig, NodeAgent, Phase, created, checking, sleeping, waking, sending, ended, Reply,
  accepted, refused, crashed, World, init, start, stop, next_phase, after_phase, record_reply,
  ThreadStep, thread_step, Step, starts, stops, runs, Steps, here, then_step,
}

append_nonempty : (xs : List Phase) (y : Phase) (ys : List Phase) → xs ++ (y ∷ ys) ≢ []
append_nonempty [] y ys h = cc
append_nonempty (x ∷ xs) y ys h = cc

module _ {O F : Type 0} where
  -- How often `stop` was called.
  unfoldable pub stop_count : {w u : World O F} → Steps w u → ℕ
  stop_count here = 0
  stop_count (then_step steps (starts w)) = stop_count steps
  stop_count (then_step steps (stops w)) = suc (stop_count steps)
  stop_count (then_step steps (runs step)) = stop_count steps

  after_phase-running :
      (reply : Reply F) (p : Phase) (a : NodeAgent O F)
      → (after_phase reply p a).running ≡ a.running
  unfolding after_phase record_reply
  after_phase-running reply created a = refl
  after_phase-running reply checking a = refl
  after_phase-running reply sleeping a = refl
  after_phase-running reply waking a = refl
  after_phase-running (accepted time) sending a = refl
  after_phase-running refused sending a = refl
  after_phase-running crashed sending a = refl
  after_phase-running reply ended a = refl

  ThreadStep-keeps :
      {w u : World O F}
      → ThreadStep w u
      → (u.agent.running ≡ w.agent.running) × (length u.threads ≡ length w.threads)
  ThreadStep-keeps (thread_step a before after p reply live) = (
    after_phase-running reply p a,
    length-append before (next_phase a.running reply p ∷ after)
        ∙ sym (length-append before (p ∷ after)),
  )

  -- The threads, and one more that may come while the agent does not run.
  abbrev allowed : World O F → ℕ
  allowed w = length w.threads + (if w.agent.running then 0 else 1)

  start-allowed : (w : World O F) → allowed (start w) ≤ allowed w
  unfolding start
  start-allowed w = ground (arith, length-append w.threads (created ∷ []))

  stop-allowed : (w : World O F) → allowed (stop w) ≤ allowed w + 1
  unfolding stop
  stop-allowed w = ground arith

  Steps-allowed : {w u : World O F} (steps : Steps w u) → allowed u ≤ allowed w + stop_count steps
  unfolding stop_count
  Steps-allowed here = omega arith
  Steps-allowed (then_step steps (starts u)) = omega (arith, Steps-allowed steps, start-allowed u)
  Steps-allowed (then_step steps (stops u)) = omega (arith, Steps-allowed steps, stop-allowed u)
  Steps-allowed (then_step steps (runs {w = u} {u = v} step)) =
      let (same, count) = ThreadStep-keeps step in
      let equal : allowed v ≡ allowed u = rw (same, count) refl in
      omega (arith, Steps-allowed steps, equal)

  IsStandalone : World O F → Type 0
  IsStandalone w = (w.agent.config.coordinator_url ≡ []) × (w.threads ≡ [])

  after_phase-config :
      (reply : Reply F) (p : Phase) (a : NodeAgent O F) → (after_phase reply p a).config ≡ a.config
  unfolding after_phase record_reply
  after_phase-config reply created a = refl
  after_phase-config reply checking a = refl
  after_phase-config reply sleeping a = refl
  after_phase-config reply waking a = refl
  after_phase-config (accepted time) sending a = refl
  after_phase-config refused sending a = refl
  after_phase-config crashed sending a = refl
  after_phase-config reply ended a = refl

  Step-IsStandalone : {w u : World O F} → Step w u → IsStandalone w → IsStandalone u
  unfolding IsStandalone start stop text_eq
  Step-IsStandalone (starts w) (url, empty) = elim (Bool-cases w.agent.running) [
    | inl on ↦ rw on (url, empty)
    | inr quiet ↦ rw (quiet, url) (refl, empty)
  ]
  Step-IsStandalone (stops w) h = h
  Step-IsStandalone (runs (thread_step a before after p reply live)) (url, empty) =
      absurd (append_nonempty before p after empty)

  Steps-IsStandalone : {w u : World O F} → Steps w u → IsStandalone w → IsStandalone u
  Steps-IsStandalone here h = h
  Steps-IsStandalone (then_step steps step) h = Step-IsStandalone step (Steps-IsStandalone steps h)

  -- The heartbeat threads that an agent ever makes are at most one more than its calls of `stop`; without a
  -- coordinator it makes none.
  pub start-Steps :
      (optimizer : O) (config : AgentConfig F) {u : World O F}
      (steps : Steps (record { agent = init optimizer config; threads = [] }) u)
      → (length u.threads ≤ stop_count steps + 1) × (config.coordinator_url ≡ [] → u.threads ≡ [])
  unfolding init IsStandalone
  start-Steps optimizer config steps =
      (omega (arith, Steps-allowed steps, first), λ url. (Steps-IsStandalone steps (url, refl)).1)
    where
      first : allowed (record { agent = init optimizer config; threads = [] }) ≡ 1
      first = refl
