-- ===== src/Agent/Crashing.antt =====
-- What a heartbeat thread that died leaves behind.
use smart_bandwidth_optimize.Base.{
  ◌≡◌, refl, ap, sym, subst, ◌∙◌, true, List, [], ◌∷◌, ◌++◌, arith, All,
}
use smart_bandwidth_optimize.Agent.{
  NodeAgent, Phase, sending, ended, crashed, World, start, next_phase, after_phase, record_reply,
  ThreadStep, thread_step, starts, stops, runs, Steps, here, then_step,
}
use smart_bandwidth_optimize.Agent.Starting.{stop_count}

All-middle :
    (P : Phase → Type 0) (before : List Phase) (p : Phase) (after : List Phase)
    → All P (before ++ (p ∷ after))
    → P p
All-middle P [] p after h = h.0
All-middle P (x ∷ before) p after h = All-middle P before p after h.1

All-append :
    (P : Phase → Type 0) (before after : List Phase)
    → All P before
    → All P after
    → All P (before ++ after)
All-append P [] after h k = k
All-append P (x ∷ before) after h k = (h.0, All-append P before after h.1 k)

module _ {O F : Type 0} where
  -- The agent and its threads after a heartbeat that raised another exception than `URLError` or `OSError`.
  abbrev pub after_crash : NodeAgent O F → List Phase → List Phase → World O F
  after_crash a before after = record {
    agent = after_phase crashed sending a;
    threads = before ++ (next_phase {F = F} a.running crashed sending ∷ after);
  }

  unchanged :
      (w : World O F) {u : World O F}
      → w.agent.running ≡ true
      → All (λ p. p ≡ ended) w.threads
      → (steps : Steps w u) → stop_count steps ≡ 0
      → u ≡ w
  unfolding stop_count start
  unchanged w h over here none_stops = refl
  unchanged w h over (then_step steps (starts v)) none_stops =
      let same = unchanged w h over steps none_stops in
      let kept : start w ≡ w = rw h refl in ap start same ∙ kept
  unchanged w h over (then_step steps (stops v)) none_stops = absurd (omega (arith, none_stops))
  unchanged w h over (then_step steps (runs step)) none_stops =
      let same = unchanged w h over steps none_stops in
      absurd (none_left (subst (λ v. All (λ p. p ≡ ended) v.threads) (sym same) over) step)
    where
      none_left : {v u : World O F} → All (λ p. p ≡ ended) v.threads → ¬ ThreadStep v u
      none_left over (thread_step a before after p reply live) =
          live (All-middle (λ q. q ≡ ended) before p after over)

  -- If the heartbeat of the last thread that has not ended raises another exception than `URLError` or
  -- `OSError` while the agent runs, the agent is as before and still runs, but no thread is left: whatever
  -- follows without a call of `stop`, calls of `start` included, changes nothing, so that no heartbeat comes.
  pub start-ended :
      (a : NodeAgent O F) (before after : List Phase)
      → a.running ≡ true
      → All (λ p. p ≡ ended) before
      → All (λ p. p ≡ ended) after
      → {u : World O F} (steps : Steps (after_crash a before after) u) → stop_count steps ≡ 0
      → ThreadStep
          (record { agent = a; threads = before ++ (sending ∷ after) })
          (after_crash a before after)
        × ((after_crash a before after).agent ≡ a)
        × (u ≡ after_crash a before after)
  unfolding after_phase next_phase record_reply
  start-ended a before after h first last steps none_stops = (
    thread_step a before after sending crashed (λ e. cc),
    refl,
    unchanged (after_crash a before after) h
        (All-append (λ p. p ≡ ended) before (ended ∷ after) first (refl, last)) steps none_stops,
  )
