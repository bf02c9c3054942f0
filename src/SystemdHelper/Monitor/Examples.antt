-- ===== src/SystemdHelper/Monitor/Examples.antt =====
-- Runs of the monitor of internal/systemdhelper/monitor.go, and its theorems at concrete times.
use pi_ops_agent.Base.{ℕ, pos, ◌≡◌, ◌≤◌, refl, List, [], ◌∷◌, arith}
use pi_ops_agent.SystemdHelper.Monitor.{Config}
use pi_ops_agent.SystemdHelper.Monitor.Detection.{ticks, live_agent-kept, silent_agent-restarted}
use pi_ops_agent.SystemdHelper.Monitor.Limits.{
  count_within, IsApart, restarts-IsApart, restarts_limited,
}
use pi_ops_agent.SystemdHelper.Monitor.Runs.{Step, beat, tick, IsOrdered, run, new_monitor}

-- A timeout of 30, a cooldown of 50, and two restarts in 1000.
abbrev config : Config
config = record {
  heartbeat_timeout = pos 30;
  restart_cooldown = pos 50;
  restart_window = pos 1000;
  max_restarts = pos 2;
}

-- Two restarts, a heartbeat, and a check that the limit suppresses; a later one restarts again.
abbrev steps : List Step
steps = tick 10 ∷ tick 40 ∷ tick 80 ∷ tick 100 ∷ beat 120 ∷ tick 200 ∷ tick 1050 ∷ []

run-steps : (run config steps (new_monitor config 0)).0 ≡ 1050 ∷ 100 ∷ 40 ∷ []
unfolding run
run-steps = refl

restarts-IsApart_example : IsApart config (run config steps (new_monitor config 0)).0
restarts-IsApart_example = restarts-IsApart config 0 steps

ordered : IsOrdered 0 steps
ordered = (
  omega arith,
  (omega arith, (omega arith, (omega arith, (omega arith, (omega arith, (omega arith, tt)))))),
)

restarts_limited_example :
    count_within (pos 1000) 1060 (run config steps (new_monitor config 0)).0 ≤ 2
restarts_limited_example = restarts_limited config 0 1060 steps ordered (omega arith)

-- Heartbeats at 20 and 45, and checks in between.
live_agent-kept_example :
    (run config (tick 10 ∷ beat 20 ∷ tick 40 ∷ beat 45 ∷ tick 75 ∷ []) (new_monitor config 0)).0
    ≡ []
live_agent-kept_example =
    live_agent-kept config 30 refl 0 (tick 10 ∷ beat 20 ∷ tick 40 ∷ beat 45 ∷ tick 75 ∷ [])
      (omega arith, (omega arith, (omega arith, (omega arith, (omega arith, tt)))))

-- A check every 12: the third one restarts the agent.
silent_agent-restarted_example :
    ((k : ℕ) → k ≤ 2 → (run config (ticks 12 0 k) (new_monitor config 0)).0 ≡ [])
    × ((run config (ticks 12 0 3) (new_monitor config 0)).0 ≡ 36 ∷ [])
silent_agent-restarted_example =
    silent_agent-restarted config 30 refl 0 12 2 1 refl (omega arith) (omega arith)
