-- ===== src/Programs/Systemd/Examples.antt =====
-- A start of cmd/ops-systemd-helper/main.go with concrete flags, and the steps after it.
use pi_ops_agent.Base.{
  ◌≡◌, ◌≤◌, refl, arith, ◌<>◌, pos, List, [], ◌∷◌, All, none, Result, ok, err, length, string_eq,
}
use pi_ops_agent.Audit
use pi_ops_agent.RootHelper.Host.{System, Host, with_tool, look_path}
use pi_ops_agent.SystemdHelper.Inspect.{restart_unit}
use pi_ops_agent.SystemdHelper.Monitor
use pi_ops_agent.SystemdHelper.Monitor.{check}
use pi_ops_agent.SystemdHelper.Monitor.Limits.{count_within}
use pi_ops_agent.SystemdHelper.Service.{append_event, handle}
use pi_ops_agent.Protocol.{heartbeat}
use pi_ops_agent.SystemdHelper.Service.Served.Examples.{env, peer_of, asking}
use pi_ops_agent.SystemdHelper.Watchdog.{Process, Event, moves, requested, run_process, new_process}
use pi_ops_agent.SystemdHelper.Watchdog.Limited.{times}
use pi_ops_agent.Programs.Systemd.{
  SystemdFlags, check_watchdog, check_systemd_flags, validate_unit, helper_of, monitor_of,
  start_systemd,
}
use pi_ops_agent.Programs.Systemd.Restarts.{IsRestart, start_systemd-restarts}

abbrev flags : SystemdFlags
flags = record {
  socket = "/run/s.sock";
  agent_uid = pos 990;
  agent_unit = "ops-agentd.service";
  heartbeat_timeout = pos 3;
  check_interval = pos 1;
  restart_cooldown = pos 4;
  restart_window = pos 1000;
  max_restarts = pos 1;
}

abbrev system : System
system = record {
  fault = λ _. none;
  partial = λ _. 0;
  look_path = λ _ name. ok ("/bin/" <> name);
  output = λ _ c _. "";
  exit = λ _ c _. none;
  effect = λ _ _ files. files;
}

abbrev host : Host
host = record { files = []; temporary = none; tick = 0; commands = [] }

-- The audit file does not exist yet.
abbrev no_log : Audit.Existing
no_log = record { directory = none; file = ok none; read_error = none }

abbrev of_start : Result (Process Host) → Process Host
of_start (ok p) = p
of_start (err e) =
    new_process env (monitor_of system flags)
      (record { file = []; previous_hash = Audit.zero_hash }) host

began : Process Host
unfolding start_systemd check_systemd_flags validate_unit check_watchdog Audit.open_at Audit.append
    append_event string_eq
began = of_start (start_systemd env system flags no_log host)

abbrev events : List Event
events = moves ∷ moves ∷ moves ∷ moves ∷ requested (peer_of 990) (asking heartbeat) ∷ moves ∷ []

after : Process Host
unfolding began run_process check handle Monitor.heartbeat restart_unit with_tool look_path
    Audit.append
after = run_process (helper_of env flags) (monitor_of system flags) events began

after_commands :
    after.world.commands
    ≡ record {
      program = "/bin/systemctl";
      arguments = "restart" ∷ "--" ∷ "ops-agentd.service" ∷ [];
    }
      ∷ []
unfolding after
after_commands = refl

start_systemd-restarts_example :
    (validate_unit "ops-agentd.service" ≡ none)
    × All (IsRestart system "ops-agentd.service") after.world.commands
    × (length after.world.commands ≤ length after.attempts)
    × (count_within (pos 1000) 500 (times after.attempts) ≤ 1)
unfolding after
start_systemd-restarts_example =
    start_systemd-restarts system env flags no_log host began events 500 (λ m n h. h) refl refl
      (omega arith)
