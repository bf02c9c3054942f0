-- ===== src/SystemdHelper/Service/Served.antt =====
-- Who is served by `Handle` of internal/systemdhelper/service.go, and what the log shows of it.
pub mod Examples
use pi_ops_agent.Base.{
  ℕ, ◌≡◌, ◌≢◌, ◌<◌, refl, String, Bool, true, false, List, some, none, arith, Result, ok, err,
  Bool-cases, inl, inr, ltb, ◌=?◌, if-both, not, ◌&&◌, ◌+◌, sym, ap, ◌∙◌, if◌then◌else◌,
}
use pi_ops_agent.Protocol.{
  Method, change_prepare, change_status, change_approve, change_reject, change_rollback,
  host_snapshot, systemd_unit, journal_tail, heartbeat, other, Request, Response, Payload,
}
use pi_ops_agent.Audit
use pi_ops_agent.RootHelper.Change.{Credential}
use pi_ops_agent.SystemdHelper.Service.{
  Env, Sys, helper_request, handle, reject_peer, serve, conclude, reply, append_event,
  serve_in_time, started, refused,
}

module _ (env : Env) (peer : Credential) (request : Request) (s : Sys) where
  -- A peer that is not the agent gets no success, and the monitor is not touched and nothing of
  -- the host is inspected.
  pub handle-stranger :
      peer.uid ≢ env.agent_uid
      → ((handle env peer request s).0.success ≡ false)
        × ((handle env peer request s).1.monitor ≡ s.monitor)
        × ((handle env peer request s).1.inspections ≡ s.inspections)
  unfolding handle append_event
  handle-stranger stranger = (ground arith, ground arith, ground arith)

  -- The request was served: its log entry stands, and its id is the response's.
  pub record IsServed (r : Response) (t : Sys) : Type 0 where
    pub agent : peer.uid ≡ env.agent_uid
    pub in_time : env.clock s.tick < request.deadline
    pub call : ℕ
    pub logged :
        Audit.append env.encoding
          (env.audit call)
          (helper_request request.request_id request.method peer true none)
          s.log
        ≡ (ok r.audit_id, t.log)

  -- A success means that the request was served.
  abbrev IsAnswered : Response × Sys → Type 0
  IsAnswered p = p.0.success ≡ true → IsServed p.0 p.1

  reject_peer-fails : (reject_peer env peer request s).0.success ≡ true → ⊥
  unfolding reject_peer append_event
  reject_peer-fails h = ground arith

  serve-log : (m : Method) (u : Sys) → (serve env request m u).1.log ≡ u.log
  unfolding serve
  serve-log change_prepare u = refl
  serve-log change_status u = refl
  serve-log change_approve u = refl
  serve-log change_reject u = refl
  serve-log change_rollback u = refl
  serve-log host_snapshot u = refl
  serve-log systemd_unit u = refl
  serve-log journal_tail u = refl
  serve-log heartbeat u = refl
  serve-log (other name) u = refl

  conclude-logged :
      (answer : Result Payload × String) (u : Sys)
      → (conclude env peer request (answer, u)).0.success ≡ true
      → Audit.append env.encoding
          (env.audit u.tick)
          (helper_request request.request_id request.method peer true none)
          u.log
        ≡ (
          ok (conclude env peer request (answer, u)).0.audit_id,
          (conclude env peer request (answer, u)).1.log,
        )
  unfolding conclude append_event
  conclude-logged (err e, summary) u h = ground arith
  conclude-logged (ok payload, summary) u h = ground arith

  serve_in_time-IsServed :
      peer.uid ≡ env.agent_uid
      → (serve_in_time env peer request s).0.success ≡ true
      → IsServed (serve_in_time env peer request s).0 (serve_in_time env peer request s).1
  unfolding serve_in_time
  serve_in_time-IsServed agent h =
      let s' = record s { tick = s.tick + 1 } in
      let served = serve env request request.method s' in
      if-both IsAnswered (ltb (env.clock s.tick) request.deadline)
        (conclude env peer request served) (refused request "request deadline expired", s')
        (λ early won. record {
          agent = agent;
          in_time = ground arith;
          call = served.1.tick;
          logged =
              sym (
                ap
                  (λ l.
                    Audit.append env.encoding (env.audit served.1.tick)
                      (helper_request request.request_id request.method peer true none) l)
                  (serve-log request.method s'))
              ∙ conclude-logged served.0 served.1 won;
        })
        (λ late lost. ground (arith, lost)) h

  -- A success is given only to the agent before the deadline, and only once the log has taken an
  -- entry of the request, whose id the response tells.
  pub handle-IsServed :
      (handle env peer request s).0.success ≡ true
      → IsServed (handle env peer request s).0 (handle env peer request s).1
  unfolding handle started
  handle-IsServed h =
      if-both IsAnswered (not (peer.uid =? env.agent_uid)) (reject_peer env peer request s)
        (started env peer request s) (λ stranger won. absurd (reject_peer-fails won))
        (λ agent.
          if-both IsAnswered (not (env.has_audit && (env.has_inspector && env.has_monitor)))
            (refused request "systemd-helper is not initialized", s)
            (serve_in_time env peer request s) (λ missing lost. ground (arith, lost))
            (λ ready. serve_in_time-IsServed (ground arith)))
        h
