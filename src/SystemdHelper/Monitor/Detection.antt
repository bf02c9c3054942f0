-- ===== src/SystemdHelper/Monitor/Detection.antt =====
-- When the monitor of internal/systemdhelper/monitor.go restarts the agent: never while the heartbeats
-- come in time, and soon after they stop.
use pi_ops_agent.Base.{
  ℕ, zero, suc, ◌+◌, ◌*◌, ◌≤◌, ◌<◌, pos, ◌≡◌, refl, ap, ◌∙◌, List, [], ◌∷◌, ◌++◌, arith,
}
use pi_ops_agent.SystemdHelper.Monitor.{
  Config, State, heartbeat, check, keep_recent, restart_or_not, cooling, quiet,
}
use pi_ops_agent.SystemdHelper.Monitor.Runs.{Step, beat, tick, step, run, run-append, new_monitor}

-- The ticks of `time.NewTicker` from a time on, `d` after one another.
abbrev pub ticks : ℕ → ℕ → ℕ → List Step
ticks d t zero = []
ticks d t (suc n) = tick (t + d) ∷ ticks d (t + d) n

-- Each check comes at most `timeout` after the newest heartbeat before it, the first of which was
-- at `newest`.
abbrev pub IsAlive : ℕ → ℕ → List Step → Type 0
IsAlive timeout newest [] = Unit
IsAlive timeout newest (beat t ∷ steps) = (newest ≤ t) × IsAlive timeout t steps
IsAlive timeout newest (tick t ∷ steps) = (t ≤ newest + timeout) × IsAlive timeout newest steps

module _ (c : Config) (timeout : ℕ) (waits : c.heartbeat_timeout ≡ pos timeout) where
  step-alive :
      (t : ℕ) (rs : List ℕ) (m : State)
      → t ≤ m.last_heartbeat + timeout
      → step c (tick t) (rs, m) ≡ (rs, m)
  unfolding step check quiet
  step-alive t rs m early = ground arith

  step-beat :
      (t : ℕ) (rs : List ℕ) (m : State)
      → m.last_heartbeat ≤ t
      → step c (beat t) (rs, m) ≡ (rs, record m { last_heartbeat = t })
  unfolding step heartbeat
  step-beat t rs m later = ground arith

  run-cons :
      (x : Step) (steps : List Step) (s : List ℕ × State)
      → run c (x ∷ steps) s ≡ run c steps (step c x s)
  unfolding run
  run-cons x steps s = refl

  run-alive :
      (steps : List Step) (rs : List ℕ) (m : State)
      → IsAlive timeout m.last_heartbeat steps
      → (run c steps (rs, m)).0 ≡ rs
  run-alive [] rs m alive = unfold run in refl
  run-alive (beat t ∷ steps) rs m (later, alive) =
      rw (run-cons (beat t) steps (rs, m), step-beat t rs m later)
        (run-alive steps rs (record m { last_heartbeat = t }) alive)
  run-alive (tick t ∷ steps) rs m (early, alive) =
      rw (run-cons (tick t) steps (rs, m), step-alive t rs m early) (run-alive steps rs m alive)

  -- While the heartbeats do not go back in time, an agent whose newest heartbeat is at most the
  -- timeout old at each check is never restarted.
  pub live_agent-kept :
      (start : ℕ) (steps : List Step)
      → IsAlive timeout start steps
      → (run c steps (new_monitor c start)).0 ≡ []
  live_agent-kept start steps alive = run-alive steps [] (new_monitor c start).1 alive

  ticks-IsAlive :
      (d t n newest : ℕ) → t + n * d ≤ newest + timeout → IsAlive timeout newest (ticks d t n)
  ticks-IsAlive d t zero newest early = tt
  ticks-IsAlive d t (suc n) newest early =
      (grind arith, ticks-IsAlive d (t + d) n newest (grind arith))

  ticks_last : (d t n : ℕ) → ticks d t (suc n) ≡ ticks d t n ++ tick (t + suc n * d) ∷ []
  ticks_last d t zero = ap (λ u. tick u ∷ []) (omega arith)
  ticks_last d t (suc n) =
      ap (λ steps. tick (t + d) ∷ steps)
        (ticks_last d (t + d) n ∙ ap (λ u. ticks d (t + d) n ++ tick u ∷ []) (grind arith))

  run_alive_ticks :
      (d t n : ℕ) (rs : List ℕ) (m : State)
      → t + n * d ≤ m.last_heartbeat + timeout
      → run c (ticks d t n) (rs, m) ≡ (rs, m)
  run_alive_ticks d t zero rs m early = unfold run in refl
  run_alive_ticks d t (suc n) rs m early =
      rw
        (run-cons (tick (t + d)) (ticks d (t + d) n) (rs, m), step-alive (t + d) rs m (grind arith))
        (run_alive_ticks d (t + d) n rs m (grind arith))

  step-late :
      (t start limit : ℕ)
      → c.max_restarts ≡ pos (suc limit)
      → start + timeout < t
      → (step c (tick t) (new_monitor c start)).0 ≡ t ∷ []
  unfolding step check quiet cooling keep_recent restart_or_not
  step-late t start limit some_restart late = ground arith

  -- If the limit allows a restart, no heartbeat comes after the start and the checks come every
  -- `d`, then those that come at most the timeout after the start restart nothing, and the next
  -- one restarts the agent.
  pub silent_agent-restarted :
      (start d n limit : ℕ)
      → c.max_restarts ≡ pos (suc limit)
      → n * d ≤ timeout
      → timeout < suc n * d
      → ((k : ℕ) → k ≤ n → (run c (ticks d start k) (new_monitor c start)).0 ≡ [])
        × ((run c (ticks d start (suc n)) (new_monitor c start)).0 ≡ (start + suc n * d) ∷ [])
  silent_agent-restarted start d n limit some_restart early late = (
    λ k few.
        ap (λ (p : List ℕ × State). p.0)
          (run_alive_ticks d start k [] (new_monitor c start).1 (grind arith)),
    ap (λ steps. (run c steps (new_monitor c start)).0) (ticks_last d start n)
        ∙ (ap (λ (p : List ℕ × State). p.0)
              (run-append c (ticks d start n) (tick (start + suc n * d)) (new_monitor c start))
            ∙ rw (run_alive_ticks d start n [] (new_monitor c start).1 (grind arith))
                (step-late (start + suc n * d) start limit some_restart (grind arith))),
  )
