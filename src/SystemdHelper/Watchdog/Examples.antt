-- ===== src/SystemdHelper/Watchdog/Examples.antt =====
-- Runs of the goroutines of internal/systemdhelper in a concrete order, and their theorems there.
use pi_ops_agent.Base.{
  ℕ, ◌+◌, ◌*◌, ◌^◌, ◌≡◌, refl, true, false, pos, negsuc, List, [], ◌∷◌, ◌++◌, map, some,
}
use pi_ops_agent.Protocol.{heartbeat}
use pi_ops_agent.Audit
use pi_ops_agent.Audit.{Log}
use pi_ops_agent.SystemdHelper.Monitor
use pi_ops_agent.SystemdHelper.Monitor.{check}
use pi_ops_agent.SystemdHelper.Service.{agent_restart, restart_suppressed, handle}
use pi_ops_agent.SystemdHelper.Service.Served.Examples.{env, peer_of, asking}
use pi_ops_agent.SystemdHelper.Watchdog.{
  Watchdog, Process, interval_of, Event, moves, cancelled, requested, report_of, run_process,
  new_process,
}
use pi_ops_agent.SystemdHelper.Watchdog.Reported.{entry_of, pending, on_restarts, attempts-reported}

-- A timeout of 3, a cooldown of 4 and one restart in 1000; `Restart` fails.
abbrev dog : Watchdog ℕ
dog = record {
  unit = "agent.service";
  config = record {
    heartbeat_timeout = pos 3;
    restart_cooldown = pos 4;
    restart_window = pos 1000;
    max_restarts = pos 1;
  };
  check_interval = pos 0;
  has_audit = true;
  restart = λ unit w. (some "busy", w + 1);
}

abbrev log : Log
log = record { file = []; previous_hash = Audit.zero_hash }

abbrev beat : Event
beat = requested (peer_of 990) (asking heartbeat)

-- A heartbeat comes between the decision to restart and the call, one after the report, and a later
-- check finds the limit reached.
abbrev events : List Event
events =
    moves ∷ moves ∷ moves ∷ moves ∷ beat ∷ moves ∷ moves ∷ beat ∷ moves ∷ moves ∷ moves ∷ moves
    ∷ cancelled ∷ moves ∷ []

after : Process ℕ
unfolding run_process Audit.append check handle Monitor.heartbeat
after = run_process env dog events (new_process env dog log 0)

after_events :
    (after.world ≡ 1)
    × (map report_of after.attempts ≡ agent_restart "agent.service" false (some "busy") ∷ [])
    × (after.reports
        ≡ restart_suppressed "agent.service"
          ∷ agent_restart "agent.service" false (some "busy")
          ∷ [])
unfolding after
after_events = (refl, refl, refl)

intervals :
    (interval_of (pos 3) ≡ 3)
    × (interval_of (pos 0) ≡ 5 * 10 ^ 9)
    × (interval_of (negsuc 7) ≡ 5 * 10 ^ 9)
unfolding interval_of
intervals = (refl, refl, refl)

attempts-reported_example :
    map entry_of after.attempts ≡ pending after.phase ++ on_restarts after.reports
unfolding after
attempts-reported_example = attempts-reported env dog refl log 0 events
