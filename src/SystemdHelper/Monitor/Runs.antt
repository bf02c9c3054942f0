-- ===== src/SystemdHelper/Monitor/Runs.antt =====
-- Runs of the monitor of internal/systemdhelper/monitor.go: heartbeats and checks in any order.
use pi_ops_agent.Base.{ℕ, ◌≤◌, ◌≡◌, refl, List, [], ◌∷◌, ◌++◌, none}
use pi_ops_agent.SystemdHelper.Monitor.{
  Config, State, Action, idle, suppressed, restarted, heartbeat, check,
}

-- What a monitor is asked, at a time.
pub data Step : Type 0 where
  beat tick : ℕ → Step

abbrev pub time_of : Step → ℕ
time_of (beat t) = t
time_of (tick t) = t

-- The clock does not go back, from a time on.
abbrev pub IsOrdered : ℕ → List Step → Type 0
IsOrdered t [] = Unit
IsOrdered t (s ∷ steps) = (t ≤ time_of s) × IsOrdered (time_of s) steps

-- The time of the last step.
abbrev pub last_time : ℕ → List Step → ℕ
last_time t [] = t
last_time t (s ∷ steps) = last_time (time_of s) steps

module _ (c : Config) where
  abbrev pub noted : ℕ → List ℕ → Action × State → List ℕ × State
  noted now rs (restarted, m) = (now ∷ rs, m)
  noted now rs (idle, m) = (rs, m)
  noted now rs (suppressed, m) = (rs, m)

  unfoldable pub step : Step → List ℕ × State → List ℕ × State
  unfolding check heartbeat
  step (beat t) (rs, m) = (rs, heartbeat t m)
  step (tick t) (rs, m) = noted t rs (check c t m)

  -- The times of the restarts, the newest first, and the state, after some steps.
  unfoldable pub run : List Step → List ℕ × State → List ℕ × State
  unfolding step
  run [] s = s
  run (x ∷ steps) s = run steps (step x s)

  pub run-append :
      (steps : List Step) (x : Step) (s : List ℕ × State)
      → run (steps ++ x ∷ []) s ≡ step x (run steps s)
  unfolding run
  run-append [] x s = refl
  run-append (y ∷ steps) x s = run-append steps x (step y s)

  -- `NewMonitor` at a time.
  abbrev pub new_monitor : ℕ → List ℕ × State
  new_monitor now = ([], record { last_heartbeat = now; last_restart = none; restarts = [] })
