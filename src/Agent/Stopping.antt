-- ===== src/Agent/Stopping.antt =====
-- After `stop`: the heartbeat threads end.
use smart_bandwidth_optimize.Base.{
  ℕ, ◌+◌, ◌*◌, ◌≤◌, ◌≡◌, ◌≢◌, refl, ap, sym, subst, false, List, [], ◌∷◌, ◌++◌, arith, length, All,
  ◌∙◌, ◌⊎◌, inl, inr,
}
use smart_bandwidth_optimize.Agent.{
  NodeAgent, Phase, created, checking, sleeping, waking, sending, ended, Reply, accepted, refused,
  crashed, World, record_reply, next_phase, after_phase, ThreadStep, thread_step, ThreadSteps,
  still, advance, stop,
}

-- How many steps a thread still makes once the agent does not run.
abbrev remaining : Phase → ℕ
remaining created = 2
remaining checking = 1
remaining sleeping = 2
remaining waking = 1
remaining sending = 2
remaining ended = 0

-- How many heartbeats it still sends.
abbrev pub in_flight : Phase → ℕ
in_flight sending = 1
in_flight created = 0
in_flight checking = 0
in_flight sleeping = 0
in_flight waking = 0
in_flight ended = 0

unfoldable pub total : (Phase → ℕ) → List Phase → ℕ
total f [] = 0
total f (p ∷ ps) = f p + total f ps

total-append :
    (f : Phase → ℕ) (before after : List Phase)
    → total f (before ++ after) ≡ total f before + total f after
unfolding total
total-append f [] after = omega arith
total-append f (p ∷ before) after = omega (arith, total-append f before after)

remaining_bound : (ps : List Phase) → total remaining ps ≤ 2 * length ps
unfolding total
remaining_bound [] = omega arith
remaining_bound (p ∷ ps) = omega (arith, remaining_bound ps, one p)
  where
    one : (p : Phase) → remaining p ≤ 2
    one created = omega arith
    one checking = omega arith
    one sleeping = omega arith
    one waking = omega arith
    one sending = omega arith
    one ended = omega arith

remaining-next_phase :
    {F : Type 0} (reply : Reply F) (p : Phase)
    → p ≢ ended
    → remaining (next_phase false reply p) + 1 ≤ remaining p
unfolding next_phase
remaining-next_phase reply created h = omega arith
remaining-next_phase reply checking h = omega arith
remaining-next_phase reply sleeping h = omega arith
remaining-next_phase reply waking h = omega arith
remaining-next_phase (accepted time) sending h = omega arith
remaining-next_phase refused sending h = omega arith
remaining-next_phase crashed sending h = omega arith
remaining-next_phase reply ended h = absurd (h refl)

live_thread :
    (ps : List Phase)
    → All (λ p. p ≡ ended) ps
      ⊎ ((before : List Phase) × (after : List Phase) × (p : Phase) × (ps ≡ before ++ (p ∷ after))
          × (p ≢ ended))
live_thread [] = inl tt
live_thread (p ∷ ps) = elim (ended_or_not p) [
  | inr live ↦ inr ([], ps, p, refl, live)
  | inl over ↦ elim (live_thread ps) [
    | inl all ↦ inl (over, all)
    | inr (before, after, q, split, live) ↦ inr (p ∷ before, after, q, ap (◌∷◌ p) split, live)
  ]
]
  where
    ended_or_not : (q : Phase) → (q ≡ ended) ⊎ (q ≢ ended)
    ended_or_not created = inr (λ e. cc)
    ended_or_not checking = inr (λ e. cc)
    ended_or_not sleeping = inr (λ e. cc)
    ended_or_not waking = inr (λ e. cc)
    ended_or_not sending = inr (λ e. cc)
    ended_or_not ended = inl refl

module _ {O F : Type 0} where
  -- The heartbeats that were answered or refused.
  abbrev pub sent : World O F → ℕ
  sent w = w.agent.heartbeat_count + w.agent.heartbeat_errors

  after_phase-in_flight :
      (a : NodeAgent O F) (reply : Reply F) (p : Phase)
      → let b = after_phase reply p a in
        (b.running ≡ a.running)
        × (b.heartbeat_count + b.heartbeat_errors + in_flight (next_phase false reply p)
            ≤ a.heartbeat_count + a.heartbeat_errors + in_flight p)
  unfolding after_phase next_phase record_reply
  after_phase-in_flight a reply created = (refl, omega arith)
  after_phase-in_flight a reply checking = (refl, omega arith)
  after_phase-in_flight a reply sleeping = (refl, omega arith)
  after_phase-in_flight a reply waking = (refl, omega arith)
  after_phase-in_flight a (accepted time) sending = (refl, omega arith)
  after_phase-in_flight a refused sending = (refl, omega arith)
  after_phase-in_flight a crashed sending = (refl, omega arith)
  after_phase-in_flight a reply ended = (refl, omega arith)

  -- What one step of a thread does once the agent does not run.
  record Fades (w u : World O F) : Type 0 where
    running : u.agent.running ≡ false
    fewer : total remaining u.threads + 1 ≤ total remaining w.threads
    flight : sent u + total in_flight u.threads ≤ sent w + total in_flight w.threads

  ThreadStep-Fades : {w u : World O F} → w.agent.running ≡ false → ThreadStep w u → Fades w u
  unfolding total
  ThreadStep-Fades h (thread_step a before after p reply live) =
      let (same, sum) = after_phase-in_flight a reply p in
      let less = remaining-next_phase reply p live in
      let q : Phase = next_phase a.running reply p in
      let next : next_phase false reply p ≡ q = ap (λ b. next_phase b reply p) (sym h) in
      let less_q = subst (λ x. remaining x + 1 ≤ remaining p) next less in
      let sum_q =
        subst
          (λ x.
            (after_phase reply p a).heartbeat_count
              + (after_phase reply p a).heartbeat_errors
              + in_flight x
            ≤ a.heartbeat_count + a.heartbeat_errors + in_flight p)
          next sum in
      record {
        running = same ∙ h;
        fewer = omega (
          arith,
          less_q,
          total-append remaining before (q ∷ after),
          total-append remaining before (p ∷ after),
        );
        flight = omega (
          arith,
          sum_q,
          total-append in_flight before (q ∷ after),
          total-append in_flight before (p ∷ after),
        );
      }

  ThreadSteps-Fades :
      {w : World O F} {n : ℕ} {u : World O F}
      → w.agent.running ≡ false
      → ThreadSteps w n u
      → (u.agent.running ≡ false)
        × (total remaining u.threads + n ≤ total remaining w.threads)
        × (sent u + total in_flight u.threads ≤ sent w + total in_flight w.threads)
  ThreadSteps-Fades h still = (h, omega arith, omega arith)
  ThreadSteps-Fades h (advance steps step) =
      let (quiet, fewer, flight) = ThreadSteps-Fades h steps in
      let f = ThreadStep-Fades quiet step in
      (f.running, omega (arith, fewer, f.fewer), omega (arith, flight, f.flight))

  from_live :
      (a : NodeAgent O F) (ps before after : List Phase) (p : Phase)
      → ps ≡ before ++ (p ∷ after)
      → p ≢ ended
      → (v : World O F) × ThreadStep (record { agent = a; threads = ps }) v
  from_live a ps before after p split live =
      subst (λ l. (v : World O F) × ThreadStep (record { agent = a; threads = l }) v) (sym split)
        (_, thread_step a before after p crashed live)

  -- After `stop`, if `start` is not called again, the heartbeat threads end: a run of them has at most two
  -- steps for each thread, as long as one has not ended there is a next step, and at most as many
  -- heartbeats are answered or refused as were being sent.
  pub stop-ThreadSteps :
      (w : World O F) {n : ℕ} {u : World O F}
      → ThreadSteps (stop w) n u
      → (n ≤ 2 * length w.threads)
        × (All (λ p. p ≡ ended) u.threads ⊎ ((v : World O F) × ThreadStep u v))
        × (sent u ≤ sent w + total in_flight w.threads)
  unfolding stop
  stop-ThreadSteps w {n} {u} steps =
      let (quiet, fewer, flight) = ThreadSteps-Fades refl steps in
      (omega (arith, fewer, remaining_bound w.threads), next_step, omega (arith, flight))
    where
      next_step : All (λ p. p ≡ ended) u.threads ⊎ ((v : World O F) × ThreadStep u v)
      next_step = elim (live_thread u.threads) [
        | inl over ↦ inl over
        | inr (before, after, p, split, live) ↦
            inr (from_live u.agent u.threads before after p split live)
      ]
