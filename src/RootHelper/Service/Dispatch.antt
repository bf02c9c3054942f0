-- ===== src/RootHelper/Service/Dispatch.antt =====
-- `Handle` and `RecoverInterrupted` of internal/roothelper/service.go.
use pi_ops_agent.Base.{
  ℕ, ◌+◌, String, ◌<>◌, Bool, true, false, ◌&&◌, List, [], ◌∷◌, Option, none, some, Result, ok, err,
}
use pi_ops_agent.Base.{◌==◌, string_eq, ltb, ◌=?◌, hex_text, if◌then◌else◌}
use pi_ops_agent.Protocol.{
  Request, Response, version, Method, change_prepare, change_status, change_approve, change_reject,
  change_rollback,
}
use pi_ops_agent.Protocol.Operations.{Error}
use pi_ops_agent.RootHelper.Change.{
  Change, Credential, Context, Event, request_denied, request_completed,
  interrupted_change_recovered,
}
use pi_ops_agent.RootHelper.Store.{cached, cache}
use pi_ops_agent.RootHelper.Recovery.{recover_interrupted}
use pi_ops_agent.RootHelper.Machine.{Env, Sys, append_audit, append_event, read_clock}
use pi_ops_agent.RootHelper.Handler.{Handler, run, return_early}
use pi_ops_agent.RootHelper.Service.{denied, failed, status, reject, rollback}
use pi_ops_agent.RootHelper.Service.Prepare.{prepare}
use pi_ops_agent.RootHelper.Service.Approve.{approve}

abbrev pub set_request_id : String → Response → Response
set_request_id id r = if r.request_id == "" then record r { request_id = id } else r

abbrev pub set_version : Response → Response
set_version r = if r.version =? 0 then record r { version = version } else r

abbrev pub event_of : Request → Response → Event
event_of request r =
    if r.error == ""
    then request_completed request.change_id r.error
    else request_denied request.change_id r.error

module _ {W : Type 0} (env : Env W) (ctx : Context) (peer : Credential) (request : Request) where
  unfoldable pub fingerprint : String
  fingerprint = hex_text (env.sha256 request.raw)

  -- The `switch`; each `now()` in it is a reading of its own.
  unfoldable pub method_of : Method → String → Handler W Response
  method_of change_prepare now = prepare env peer request now
  method_of change_status now = status env peer request
  method_of change_approve now = approve env ctx peer request now
  method_of change_reject now = reject env peer request now
  method_of change_rollback now = rollback env peer request now
  method_of _ now = return_early (denied request "method is not served by root-helper")

  unfoldable pub dispatch : Sys W → Response × Sys W
  unfolding method_of read_clock
  dispatch s =
      let (now, s') = read_clock env s in run (method_of request.method (env.time_text now)) s'

  unfoldable pub audited_response : Response → Result String × Sys W → Response × Bool × Sys W
  audited_response r (ok id, s) = (record r { audit_id = id }, true, s)
  audited_response r (err e, s) = (failed request ("write audit: " <> e), false, s)

  -- The audit entry of a response that has none yet; `false` where writing it failed.
  unfoldable pub complete : Response → Sys W → Response × Bool × Sys W
  unfolding audited_response
  complete r s =
      if r.audit_id == ""
      then audited_response r (append_audit env peer request (event_of request r) s)
      else (r, true, s)

  unfoldable pub stored_response : Response → Error → Response
  stored_response r none = r
  stored_response r (some e) = failed request ("persist request result: " <> e)

  unfoldable pub remember : Response × Bool × Sys W → Response × Sys W
  unfolding stored_response fingerprint
  remember (r, false, s) = (r, s)
  remember (r, true, s) =
      let (e, store) =
        cache env.codec (env.persist s.tick) request.request_id peer.uid fingerprint r s.store in
      (stored_response r e, record s { store = store; tick = s.tick + 1 })

  unfoldable pub finish : Response × Sys W → Response × Sys W
  unfolding complete remember
  finish (r, s) = remember (complete (set_version (set_request_id request.request_id r)) s)

  unfoldable pub answer : Result (Option Response) → Sys W → Response × Sys W
  unfolding dispatch finish
  answer (err e) s = (failed request e, s)
  answer (ok (some r)) s = (r, s)
  answer (ok none) s = finish (dispatch s)

  unfoldable pub in_time : ℕ × Sys W → Response × Sys W
  unfolding answer fingerprint
  in_time (now, s) =
      if ltb now request.deadline
      then answer (cached request.request_id peer.uid fingerprint s.store) s
      else (denied request "request deadline expired", s)

  -- Calls of `Handle` are one after the other, by the service's mutex.
  unfoldable pub handle : Sys W → Response × Sys W
  unfolding in_time read_clock
  handle s =
      if env.has_store_and_audit && env.has_executor
      then in_time (read_clock env s)
      else (denied request "root-helper is not initialized", s)

module _ {W : Type 0} (env : Env W) where
  unfoldable pub audit_recovered : List Change → Sys W → Error × Sys W
  audit_recovered [] s = (none, s)
  audit_recovered (c ∷ cs) s =
      let event =
        interrupted_change_recovered c.id c.plan_hash c.state c.last_error c.backup_refs in
      let (r, s') = append_event env event s in
      elim r [ ok id ↦ audit_recovered cs s' | err e ↦ (some e, s') ]

  unfoldable pub recovered_sys :
      Sys W → Result (List Change) × pi_ops_agent.RootHelper.Store.Store → Error × Sys W
  unfolding audit_recovered
  recovered_sys s (err e, store) = (some e, record s { store = store; tick = s.tick + 1 })
  recovered_sys s (ok cs, store) =
      audit_recovered cs (record s { store = store; tick = s.tick + 1 })

  unfoldable pub recover_at : ℕ × Sys W → Error × Sys W
  unfolding recovered_sys
  recover_at (now, s) =
      recovered_sys s
        (recover_interrupted env.codec (env.persist s.tick) (env.time_text now) s.store)

  unfoldable pub recover : Sys W → Error × Sys W
  unfolding recover_at read_clock
  recover s =
      if env.has_store_and_audit
      then recover_at (read_clock env s)
      else (some "root-helper is not initialized", s)
