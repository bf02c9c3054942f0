-- ===== src/SystemdHelper/Service/Served/Examples.antt =====
-- Runs of `Handle` of internal/systemdhelper/service.go, and its theorems at concrete requests.
use pi_ops_agent.Base.{ℕ, ◌≡◌, refl, true, false, [], ◌∷◌, none, arith, ok, err}
use pi_ops_agent.Protocol.{Request, Method, heartbeat, systemd_unit, no_data}
use pi_ops_agent.Audit
use pi_ops_agent.RootHelper.Change.{Credential}
use pi_ops_agent.SystemdHelper.Monitor
use pi_ops_agent.SystemdHelper.Service.{Env, Sys, unit_state, handle}
use pi_ops_agent.SystemdHelper.Service.Served.{IsServed, handle-stranger, handle-IsServed}

abbrev pub env : Env
env = record {
  agent_uid = 990;
  has_audit = true;
  has_inspector = true;
  has_monitor = true;
  inspect = λ i n. ok no_data;
  encoding = record {
    body_json = λ body. 2 ∷ [];
    entry_json = λ entry. 3 ∷ [];
    parse_entry = λ line. err "json";
    sha256 = λ payload. 4 ∷ [];
  };
  clock = λ n. n;
  audit = λ n. record {
    random = ok (n ∷ []);
    time = "now";
    open_error = none;
    write_error = none;
    sync_error = none;
  };
}

abbrev pub idle_sys : Sys
idle_sys = record {
  monitor = record { last_heartbeat = 0; last_restart = none; restarts = [] };
  log = record { file = []; previous_hash = Audit.zero_hash };
  tick = 5;
  inspections = [];
}

abbrev pub asking : Method → Request
asking m = record {
  version = 1;
  request_id = "r1";
  deadline = 100;
  method = m;
  change_id = "";
  unit = "web.service";
  lines = 0;
  operation = none;
  raw = [];
}

abbrev pub peer_of : ℕ → Credential
peer_of uid = record { pid = 1; uid = uid; gid = uid }

beat : (handle env (peer_of 990) (asking heartbeat) idle_sys).1.monitor.last_heartbeat ≡ 6
unfolding handle Monitor.heartbeat
beat = refl

inspect_unit :
    (handle env (peer_of 990) (asking systemd_unit) idle_sys).1.inspections
    ≡ unit_state "web.service" ∷ []
unfolding handle
inspect_unit = refl

handle-stranger_example :
    ((handle env (peer_of 1000) (asking heartbeat) idle_sys).0.success ≡ false)
    × ((handle env (peer_of 1000) (asking heartbeat) idle_sys).1.monitor ≡ idle_sys.monitor)
    × ((handle env (peer_of 1000) (asking heartbeat) idle_sys).1.inspections ≡ [])
handle-stranger_example =
    handle-stranger env (peer_of 1000) (asking heartbeat) idle_sys (omega arith)

handle-IsServed_example :
    IsServed env
      (peer_of 990)
      (asking heartbeat)
      idle_sys
      (handle env (peer_of 990) (asking heartbeat) idle_sys).0
      (handle env (peer_of 990) (asking heartbeat) idle_sys).1
unfolding handle Audit.append
handle-IsServed_example = handle-IsServed env (peer_of 990) (asking heartbeat) idle_sys refl
