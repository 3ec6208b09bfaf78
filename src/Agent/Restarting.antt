-- ===== src/Agent/Restarting.antt =====
-- Threads that sleep through `stop` and `start`.
use smart_bandwidth_optimize.Base.{
  ℕ, zero, suc, ◌≡◌, ◌≢◌, refl, ap, sym, subst, true, false, not, List, [], ◌∷◌, ◌++◌,
}
use mathlib.Core.List.{append_assoc}
use smart_bandwidth_optimize.Base.Text.{text_eq-differ}
use smart_bandwidth_optimize.Agent.{
  AgentConfig, NodeAgent, Phase, created, checking, sleeping, waking, sending, crashed, World, init,
  has_coordinator, start, stop, next_phase, after_phase, thread_step, starts, stops, runs, Steps,
  here, then_step,
}
use smart_bandwidth_optimize.Agent.Starting.{stop_count}

-- `n` threads, all asleep.
unfoldable pub asleep : ℕ → List Phase
asleep zero = []
asleep (suc n) = sleeping ∷ asleep n

-- `n` threads, each at a heartbeat.
unfoldable pub all_sending : ℕ → List Phase
all_sending zero = []
all_sending (suc n) = sending ∷ all_sending n

asleep-append : (n : ℕ) → asleep n ++ (sleeping ∷ []) ≡ asleep (suc n)
unfolding asleep
asleep-append zero = refl
asleep-append (suc n) = ap (◌∷◌ sleeping) (asleep-append n)

module _ {O F : Type 0} where
  start-launches :
      (a : NodeAgent O F) (ps : List Phase)
      → a.running ≡ false
      → has_coordinator a ≡ true
      → start (record { agent = a; threads = ps })
        ≡ record { agent = record a { running = true }; threads = ps ++ (created ∷ []) }
  unfolding start
  start-launches a ps h url = rw (h, url) refl

  -- That `u` is reached with `n` calls of `stop`.
  abbrev Reached : World O F → ℕ → World O F → Type 0
  Reached w n u = (steps : Steps w u) × (stop_count steps ≡ n)

  launch :
      (w : World O F) (n : ℕ) (a : NodeAgent O F) (ps : List Phase)
      → a.running ≡ false
      → has_coordinator a ≡ true
      → Reached w n (record { agent = a; threads = ps })
      → Reached w n
          (record { agent = record a { running = true }; threads = ps ++ (sleeping ∷ []) })
  unfolding stop_count after_phase next_phase
  launch w n a ps h url (steps, count) =
      let b = record a { running = true } in
      let (begun, same) =
        subst (Reached w n) (start-launches a ps h url) (then_step steps (starts _), count) in
      (
        then_step (then_step begun (runs (thread_step b ps [] created crashed (λ e. cc))))
            (runs (thread_step b ps [] checking crashed (λ e. cc))),
        same,
      )

  restart_asleep :
      (optimizer : O) (config : AgentConfig F)
      → config.coordinator_url ≢ []
      → (n : ℕ)
      → (steps : Steps
          (record { agent = init optimizer config; threads = [] })
          (record {
            agent = record (init optimizer config) { running = true };
            threads = asleep (suc n);
          }))
        × (stop_count steps ≡ n)
  unfolding asleep init stop stop_count
  restart_asleep optimizer config url zero =
      subst
        (λ l.
          Reached (record { agent = init optimizer config; threads = [] }) 0
            (record { agent = record (init optimizer config) { running = true }; threads = l }))
        (asleep-append zero)
        (launch _ 0 (init optimizer config) (asleep zero) refl
          (ap not (text_eq-differ config.coordinator_url [] url)) (here, refl))
  restart_asleep optimizer config url (suc n) =
      let before = restart_asleep optimizer config url n in
      let a = init optimizer config in
      subst
        (λ l.
          Reached (record { agent = init optimizer config; threads = [] }) (suc n)
            (record { agent = record a { running = true }; threads = l }))
        (asleep-append (suc n))
        (launch _ (suc n) a (asleep (suc n)) refl
          (ap not (text_eq-differ config.coordinator_url [] url))
          (then_step before.0 (stops _), ap suc before.1))

  -- The sleeping threads behind others wake and send, one after another.
  wake :
      (w : World O F) (k : ℕ) (a : NodeAgent O F) (before : List Phase) (n : ℕ)
      → Reached w k (record { agent = record a { running = true }; threads = before ++ asleep n })
      → Reached w k
          (record { agent = record a { running = true }; threads = before ++ all_sending n })
  unfolding asleep all_sending stop_count after_phase next_phase
  wake w k a before zero r = r
  wake w k a before (suc n) (steps, count) =
      let b = record a { running = true } in
      let woken =
        then_step steps (runs (thread_step b before (asleep n) sleeping crashed (λ e. cc))) in
      let sends =
        then_step woken (runs (thread_step b before (asleep n) waking crashed (λ e. cc))) in
      subst (λ l. Reached w k (record { agent = b; threads = l }))
        (append_assoc before (sending ∷ []) (all_sending n))
        (wake w k a (before ++ (sending ∷ [])) n (
          subst (λ l. Reached w k (record { agent = b; threads = l }))
            (sym (append_assoc before (sending ∷ []) (asleep n))) (sends, count)))

  -- `stop` and `start` while a thread sleeps leave it alive: with a coordinator, an agent can have any
  -- number of threads that are all at sending a heartbeat, after one `stop` fewer.
  pub restart-Steps :
      (optimizer : O) (config : AgentConfig F)
      → config.coordinator_url ≢ []
      → (n : ℕ)
      → (steps : Steps
          (record { agent = init optimizer config; threads = [] })
          (record {
            agent = record (init optimizer config) { running = true };
            threads = all_sending (suc n);
          }))
        × (stop_count steps ≡ n)
  restart-Steps optimizer config url n =
      wake _ n (init optimizer config) [] (suc n) (restart_asleep optimizer config url n)
