-- ===== src/SystemdHelper/Watchdog.antt =====
-- internal/systemdhelper/monitor.go: `Run` and `Check` beside the requests that `Handle` of
-- internal/systemdhelper/service.go serves, as the steps of two goroutines in any order.
pub mod Heartbeats
pub mod Reported
pub mod Limited
pub mod Examples
use pi_ops_agent.Base.{
  ℕ, zero, suc, ◌+◌, ◌*◌, ◌^◌, ℤ, pos, negsuc, String, Bool, true, false, List, [], ◌∷◌, none, some,
  if◌then◌else◌,
}
use pi_ops_agent.Protocol.{Request}
use pi_ops_agent.Protocol.Operations.{Error}
use pi_ops_agent.Audit.{Log}
use pi_ops_agent.RootHelper.Change.{Credential}
use pi_ops_agent.SystemdHelper.Monitor.{Config, State, Action, idle, suppressed, restarted, check}
use pi_ops_agent.SystemdHelper.Service.{
  Env, Sys, HelperEvent, restart_suppressed, agent_restart, append_event, handle,
}

-- The fields of `Monitor` that are set once, over the state that the `Restarter` works on.
pub record Watchdog (W : Type 0) : Type 0 where
  pub unit : String
  pub config : Config
  pub check_interval : ℤ
  pub has_audit : Bool
  pub restart : String → W → Error × W

-- The interval of `Run`, in nanoseconds.
unfoldable pub interval_of : ℤ → ℕ
interval_of (pos (suc n)) = suc n
interval_of _ = 5 * 10 ^ 9

-- A call of `Restart`: when it was decided, and how it ended.
pub record Attempt : Type 0 where
  pub at : ℕ
  pub unit : String
  pub error : Error

-- Where `Run` stands: in its `select`, behind it, or in a `Check` that has let go of the lock.
pub data Phase : Type 0 where
  waiting ended suppressing : Phase
  restarting : ℕ → Phase
  reporting : Attempt → Phase

-- The state that the goroutines share, the calls of `Restart`, and the events that `Check` gave to
-- `Append`, the newest first.
pub record Process (W : Type 0) : Type 0 where
  pub sys : Sys
  pub phase : Phase
  pub world : W
  pub attempts : List Attempt
  pub reports : List HelperEvent

-- What happens next: `Run` goes on, its `select` takes `ctx.Done()`, or a request is served.
pub data Event : Type 0 where
  moves cancelled : Event
  requested : Credential → Request → Event

abbrev pub report_of : Attempt → HelperEvent
report_of a = elim a.error [
  | none ↦ agent_restart a.unit true none
  | some e ↦ agent_restart a.unit false (some e)
]

module _ {W : Type 0} (env : Env) (dog : Watchdog W) where
  -- An error of `Append` is dropped.
  unfoldable pub report : HelperEvent → Process W → Process W
  report event p =
      if dog.has_audit
      then record p { sys = (append_event env event p.sys).1; reports = event ∷ p.reports }
      else p

  unfoldable pub enter : Action → ℕ → Process W → Process W
  enter idle now p = p
  enter suppressed now p = record p { phase = suppressing }
  enter restarted now p = record p { phase = restarting now }

  -- `Check` as long as it holds the lock, from the clock's reading on.
  unfoldable pub decide : ℕ → Process W → Process W
  unfolding enter
  decide now p =
      let (action, m) = check dog.config now p.sys.monitor in
      enter action now
        (record p { sys = record p.sys { monitor = m; tick = p.sys.tick + 1 }; phase = waiting })

  unfoldable pub attempt : ℕ → Process W → Process W
  attempt now p =
      let (e, w) = dog.restart dog.unit p.world in
      let a : Attempt = record { at = now; unit = dog.unit; error = e } in
      record p { phase = reporting a; world = w; attempts = a ∷ p.attempts }

  -- The next step of `Run`: a tick starts a `Check`, which goes on with the lock released.
  unfoldable pub go_on : Phase → Process W → Process W
  unfolding decide attempt report
  go_on waiting p = decide (env.clock p.sys.tick) p
  go_on ended p = p
  go_on suppressing p = report (restart_suppressed dog.unit) (record p { phase = waiting })
  go_on (restarting now) p = attempt now p
  go_on (reporting a) p = report (report_of a) (record p { phase = waiting })

  unfoldable pub cancel : Phase → Process W → Process W
  cancel waiting p = record p { phase = ended }
  cancel _ p = p

  unfoldable pub react : Event → Process W → Process W
  unfolding go_on cancel
  react moves p = go_on p.phase p
  react cancelled p = cancel p.phase p
  react (requested peer request) p = record p { sys = (handle env peer request p.sys).1 }

  -- The events one after the other.
  unfoldable pub run_process : List Event → Process W → Process W
  unfolding react
  run_process [] p = p
  run_process (e ∷ events) p = run_process events (react e p)

  -- After `NewMonitor`, which reads the clock.
  abbrev pub new_process : Log → W → Process W
  new_process log world = record {
    sys = record {
      monitor = record { last_heartbeat = env.clock 0; last_restart = none; restarts = [] };
      log = log;
      tick = 1;
      inspections = [];
    };
    phase = waiting;
    world = world;
    attempts = [];
    reports = [];
  }
