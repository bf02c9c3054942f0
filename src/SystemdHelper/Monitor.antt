-- ===== src/SystemdHelper/Monitor.antt =====
-- internal/systemdhelper/monitor.go: the agent is restarted when its heartbeat stays away, within
-- a cooldown and a limit per window.
pub mod Runs
pub mod Limits
pub mod Detection
mod Examples
use pi_ops_agent.Base.{
  ℕ, ℤ, Bool, true, false, ◌&&◌, ◌||◌, not, List, [], ◌∷◌, ◌++◌, Option, none, some, length,
}
use pi_ops_agent.Base.{ltb, leb, sub_ℕ, pos_part, neg_part, ltbℤ, lebℤ, if◌then◌else◌, pos, ◌+◌}

-- The durations may be negative; a time is a number of nanoseconds, and the zero time is `none`.
pub record Config : Type 0 where
  pub heartbeat_timeout : ℤ
  pub restart_cooldown : ℤ
  pub restart_window : ℤ
  pub max_restarts : ℤ

pub record State : Type 0 where
  pub last_heartbeat : ℕ
  pub last_restart : Option ℕ
  pub restarts : List ℕ

-- What `Check` does outside of the monitor, if there is a log.
pub data Action : Type 0 where
  idle suppressed restarted : Action

unfoldable pub heartbeat : ℕ → State → State
heartbeat at m = if ltb m.last_heartbeat at then record m { last_heartbeat = at } else m

-- `!m.lastRestart.IsZero() && now.Sub(m.lastRestart) < m.RestartCooldown`
cooling : Config → ℕ → Option ℕ → Bool
cooling c now none = false
cooling c now (some t) = ltbℤ (sub_ℕ now t) c.restart_cooldown

-- `attempt.After(now.Add(-m.RestartWindow))`
unfoldable pub in_window : Config → ℕ → ℕ → Bool
in_window c now t = ltbℤ (sub_ℕ now t) c.restart_window

unfoldable pub keep_recent : Config → ℕ → List ℕ → List ℕ
unfolding in_window
keep_recent c now [] = []
keep_recent c now (t ∷ ts) =
    let rest = keep_recent c now ts in if in_window c now t then t ∷ rest else rest

restart_or_not : Config → ℕ → State → Action × State
restart_or_not c now m =
    if lebℤ c.max_restarts (pos (length m.restarts)) then (suppressed, m) else (
      restarted,
      record { last_heartbeat = now; last_restart = some now; restarts = m.restarts ++ now ∷ [] },
    )

-- The heartbeat is recent, or the last restart is.
unfoldable pub quiet : Config → ℕ → State → Bool
unfolding cooling
quiet c now m =
    lebℤ (sub_ℕ now m.last_heartbeat) c.heartbeat_timeout || cooling c now m.last_restart

-- `Check` at a time; the result says whether it returned true.
unfoldable pub check : Config → ℕ → State → Action × State
unfolding quiet keep_recent restart_or_not
check c now m =
    if quiet c now m
    then (idle, m)
    else restart_or_not c now (record m { restarts = keep_recent c now m.restarts })
