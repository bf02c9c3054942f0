-- ===== src/Programs/Systemd.antt =====
-- The start of cmd/ops-systemd-helper/main.go, and what runs from then on beside the socket server.
pub mod Restarts
mod Examples
use Prim.Native.String.{len}
use pi_ops_agent.Base.{
  ℕ, ℤ, ◌+◌, ◌-◌, String, ◌<>◌, Bool, true, not, ◌&&◌, ◌||◌, List, Option, none, some, Result, ok,
  err, ltb, leb, length, drop, if◌then◌else◌,
}
use pi_ops_agent.Protocol.Pattern.{codes, same, member}
use pi_ops_agent.Protocol.Operations.{Error, has_control}
use pi_ops_agent.Protocol.Json.{◌>>=◌, ◌>>◌}
use pi_ops_agent.Audit
use pi_ops_agent.RootHelper.Host.{System, Host, error_of_result}
use pi_ops_agent.SystemdHelper.Inspect.{restart_unit}
use pi_ops_agent.SystemdHelper.Service.{Env, systemd_helper_started, append_event, Sys}
use pi_ops_agent.SystemdHelper.Watchdog.{Watchdog, Process, new_process}
use pi_ops_agent.Programs.{is_negative, is_positive, uint32, lift_error}

-- The flags but for the paths and the group of the socket.
pub record SystemdFlags : Type 0 where
  pub socket : String
  pub agent_uid : ℤ
  pub agent_unit : String
  pub heartbeat_timeout : ℤ
  pub check_interval : ℤ
  pub restart_cooldown : ℤ
  pub restart_window : ℤ
  pub max_restarts : ℤ

abbrev has_slash : List ℕ → Bool
has_slash s = member b'/' s

-- `ValidateUnit` of internal/systemdhelper/service.go.
abbrev pub ends_in_service : List ℕ → Bool
ends_in_service s = leb 8 (length s) && same (drop (length s - 8) s) (codes ".service")

unfoldable pub validate_unit : String → Error
validate_unit unit =
    let s = codes unit in
    if not (ends_in_service s) || (has_slash s || (has_control s || ltb 200 (len unit)))
    then some "agent unit must be a simple .service name"
    else none

unfoldable pub check_watchdog : SystemdFlags → Error
check_watchdog f =
    if is_positive f.heartbeat_timeout
      && (is_positive f.check_interval
          && (is_positive f.restart_cooldown
              && (is_positive f.restart_window && is_positive f.max_restarts)))
    then none
    else some "watchdog durations and max-restarts must be positive"

unfoldable pub check_systemd_flags : SystemdFlags → Error
check_systemd_flags f =
    if is_negative f.agent_uid
    then some "agent-uid is required"
    else elim (validate_unit f.agent_unit) [ some e ↦ some e | none ↦ check_watchdog f ]

-- The service that the start makes has a log, an inspector and a monitor.
abbrev pub helper_of : Env → SystemdFlags → Env
helper_of env f = record env {
  agent_uid = uint32 f.agent_uid;
  has_audit = true;
  has_inspector = true;
  has_monitor = true;
}

-- The monitor, with the same log and a `SystemdRestarter`.
abbrev pub monitor_of : System → SystemdFlags → Watchdog Host
monitor_of sys f = record {
  unit = f.agent_unit;
  config = record {
    heartbeat_timeout = f.heartbeat_timeout;
    restart_cooldown = f.restart_cooldown;
    restart_window = f.restart_window;
    max_restarts = f.max_restarts;
  };
  check_interval = f.check_interval;
  has_audit = true;
  restart = λ unit h. let r = restart_unit sys unit h in (error_of_result r.0, r.1);
}

module _ (env : Env) (sys : System) where
  abbrev pub first_entry : Process Host → Result String × Sys → Result (Process Host)
  first_entry p (ok id, s) = ok (record p { sys = s })
  first_entry p (err e, s) = err e

  -- `main` up to the goroutine of `Run` and `ListenAndServe`, on the bytes of the audit file.
  unfoldable pub start_systemd : SystemdFlags → Audit.Existing → Host → Result (Process Host)
  start_systemd f file host = do
    lift_error (check_systemd_flags f)
    log ← Audit.open_at env.encoding file
    let p = new_process (helper_of env f) (monitor_of sys f) log host
    first_entry p (
        append_event (helper_of env f) (systemd_helper_started f.socket f.agent_uid f.agent_unit)
          p.sys)
