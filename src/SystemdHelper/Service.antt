-- ===== src/SystemdHelper/Service.antt =====
-- internal/systemdhelper/service.go: `Handle`, which serves the agent's inspections and heartbeats.
pub mod Served
use pi_ops_agent.Base.{
  ℕ, ℤ, ◌+◌, String, ◌<>◌, Bool, true, false, not, ◌&&◌, List, [], ◌∷◌, Option, none, some, Result,
  ok, err,
}
use pi_ops_agent.Base.{ltb, ◌=?◌, if◌then◌else◌}
use pi_ops_agent.Protocol.{
  Request, Response, Payload, no_data, version, Method, heartbeat, host_snapshot, systemd_unit,
  journal_tail,
}
use pi_ops_agent.Protocol.Operations.{Error}
use pi_ops_agent.Audit
use pi_ops_agent.Audit.{Log, Encoding}
use pi_ops_agent.RootHelper.Change.{Credential}
use pi_ops_agent.SystemdHelper.Monitor
use pi_ops_agent.SystemdHelper.Monitor.{State}

-- The maps that `Handle`, `Check` of the monitor and the start of the helper append to the log.
pub data HelperEvent : Type 0 where
  unauthorized_helper_request : String → Method → Credential → HelperEvent
  helper_request : String → Method → Credential → Bool → Option String → HelperEvent
  restart_suppressed : String → HelperEvent
  agent_restart : String → Bool → Option String → HelperEvent
  systemd_helper_started : String → ℤ → String → HelperEvent

-- The calls of the interface `Inspector`.
pub data Inspection : Type 0 where
  snapshot : Inspection
  unit_state : String → Inspection
  journal : String → ℕ → Inspection

-- The fields of `Service`, and what the outside answers to the call numbered `n`.
pub record Env : Type 0 where
  pub agent_uid : ℕ
  pub has_audit : Bool
  pub has_inspector : Bool
  pub has_monitor : Bool
  pub inspect : Inspection → ℕ → Result Payload
  pub encoding : Encoding HelperEvent
  pub clock : ℕ → ℕ
  pub audit : ℕ → Audit.Answers

-- The monitor's state, the log, the number of calls made so far, and the inspections, the newest
-- first.
pub record Sys : Type 0 where
  pub monitor : State
  pub log : Log
  pub tick : ℕ
  pub inspections : List Inspection

abbrev pub blank : Request → Response
blank request = record {
  version = version;
  request_id = request.request_id;
  success = false;
  audit_id = "";
  change_id = "";
  state = none;
  summary = "";
  payload = no_data;
  error = "";
}

abbrev pub refused : Request → String → Response
refused request message = record (blank request) { error = message }

module _ (env : Env) where
  unfoldable pub append_event : HelperEvent → Sys → Result String × Sys
  append_event event s =
      let (r, log) = Audit.append env.encoding (env.audit s.tick) event s.log in
      (r, record s { log = log; tick = s.tick + 1 })

  unfoldable pub inspect_host : Inspection → Sys → (Result Payload × String) × Sys
  inspect_host i s =
      ((env.inspect i s.tick, ""), record s { tick = s.tick + 1; inspections = i ∷ s.inspections })

  -- The `switch`: the data or an error, and the summary.
  unfoldable pub serve : Request → Method → Sys → (Result Payload × String) × Sys
  unfolding inspect_host
  serve request heartbeat s = (
    (ok no_data, "heartbeat accepted"),
    record s { monitor = Monitor.heartbeat (env.clock s.tick) s.monitor; tick = s.tick + 1 },
  )
  serve request host_snapshot s = inspect_host snapshot s
  serve request systemd_unit s = inspect_host (unit_state request.unit) s
  serve request journal_tail s = inspect_host (journal request.unit request.lines) s
  serve request _ s = ((err "method is not served by systemd-helper", ""), s)

  abbrev pub event_of : Credential → Request → Result Payload → HelperEvent
  event_of peer request (ok payload) =
      helper_request request.request_id request.method peer true none
  event_of peer request (err e) =
      helper_request request.request_id request.method peer false (some e)

  unfoldable pub reply : Request → Result Payload × String → Result String → Response
  reply request answer (err e) = refused request ("write audit: " <> e)
  reply request (err e, summary) (ok id) = record (refused request e) { audit_id = id }
  reply request (ok payload, summary) (ok id) = record (blank request) {
    audit_id = id;
    success = true;
    summary = summary;
    payload = payload;
  }

  -- From the audit entry on.
  unfoldable pub conclude : Credential → Request → (Result Payload × String) × Sys → Response × Sys
  unfolding append_event reply
  conclude peer request (answer, s) =
      let (r, s') = append_event (event_of peer request answer.0) s in (reply request answer r, s')

  abbrev audit_id_of : Result String → String
  audit_id_of (ok id) = id
  audit_id_of (err e) = ""

  unfoldable pub reject_peer : Credential → Request → Sys → Response × Sys
  unfolding append_event
  reject_peer peer request s =
      let response = refused request "peer is not the configured agent UID" in
      let (r, s') =
        append_event (unauthorized_helper_request request.request_id request.method peer) s in
      if env.has_audit then (record response { audit_id = audit_id_of r }, s') else (response, s)

  -- From the reading of the clock on.
  unfoldable pub serve_in_time : Credential → Request → Sys → Response × Sys
  unfolding serve conclude
  serve_in_time peer request s =
      let s' = record s { tick = s.tick + 1 } in
      if ltb (env.clock s.tick) request.deadline
      then conclude peer request (serve request request.method s')
      else (refused request "request deadline expired", s')

  -- For the agent.
  unfoldable pub started : Credential → Request → Sys → Response × Sys
  unfolding serve_in_time
  started peer request s =
      if not (env.has_audit && (env.has_inspector && env.has_monitor))
      then (refused request "systemd-helper is not initialized", s)
      else serve_in_time peer request s

  unfoldable pub handle : Credential → Request → Sys → Response × Sys
  unfolding reject_peer started
  handle peer request s =
      if not (peer.uid =? env.agent_uid) then reject_peer peer request s else started peer request s
