-- ===== src/Programs/Lifetime.antt =====
-- The root helper of cmd/ops-root-helper/main.go from its start on, whatever requests
-- internal/roothelper/service.go is given over the connections of internal/rpcserver/server.go.
pub mod Strangers
mod Printing
mod Examples
use pi_ops_agent.Base.{
  ℕ, ◌≡◌, refl, sym, ap, ◌∙◌, inl, inr, arith, String, Bool, true, List, [], ◌∷◌, All, none, some,
  Result, ok, err, Result-cases, Bool-cases, if-both, ◌+◌,
}
use mathlib.Core.Path.{subst}
use pi_ops_agent.Base.Dict.{Dict}
use pi_ops_agent.Audit
use pi_ops_agent.Audit.{Log}
use pi_ops_agent.Protocol.{Request, Response}
use pi_ops_agent.Protocol.Operations.{Error, parse_operation}
use pi_ops_agent.RootHelper.Change.{
  Change, Credential, request_scope, AuditEvent, root_helper_started, interrupted_change_recovered,
}
use pi_ops_agent.RootHelper.Store.{Store}
use pi_ops_agent.RootHelper.Recovery.{
  interrupted, recover_change, recover_changes, check_changes, recover_interrupted,
}
use pi_ops_agent.RootHelper.Machine.{Env, Sys, append_event, read_clock}
use pi_ops_agent.RootHelper.Service.Dispatch.{
  handle, recover, recover_at, recovered_sys, audit_recovered,
}
use pi_ops_agent.RootHelper.Service.{is_approver}
use pi_ops_agent.RpcServer.Connections.{Happening, serve_connections}
use pi_ops_agent.RpcServer.Connections.Kept.{Anyone, IsFrom-Anyone, serve_connections-kept}
use pi_ops_agent.RootHelper.Spec.{view}
use pi_ops_agent.RootHelper.Spec.Barrier.{IsBarred}
use pi_ops_agent.RootHelper.Spec.Stored.{
  IsSound, IsSound-IsKeyed, Moves-IsSound, check_changes-IsSound,
}
use pi_ops_agent.RootHelper.Refine.Handle.{ReadsBack, handle-IsFresh}
use pi_ops_agent.RootHelper.Refine.Fresh.{IsFresh, IsDistinct}
use pi_ops_agent.RootHelper.Guarantees.{IsSound-open_store, handle-refines, handle-IsBarred}
use pi_ops_agent.RootHelper.Guarantees.Restart.{recover_change-IsRecovered}
use pi_ops_agent.Programs.{RootFlags, Disk, uint32, env_of, service_of, start_root}
use pi_ops_agent.Programs.Started.{IsStarted, IsStarted-changes, start_root-IsStarted}

-- The handler of the root helper's server: its context ends at the request's deadline.
abbrev pub serve_request : {W : Type 0} → Env W → Credential → Request → Sys W → Response × Sys W
serve_request env peer request = handle env (request_scope request.deadline) peer request

module _ {W : Type 0} (env : Env W) where
  -- The store can be loaded, `Execute` was called behind the barrier, and the random ids still to
  -- be drawn are new.
  pub record IsSafe (s : Sys W) : Type 0 where
    pub sound : IsSound env s.store.memory.changes
    pub barred : IsBarred env.approver_uid s.trace
    pub fresh : IsFresh env s

  pub serve_request-IsSafe :
      (reads : (r : Request) → ReadsBack env r)
      → IsDistinct env
      → (peer : Credential) (request : Request) (s : Sys W) → IsSafe s
      → IsSafe (serve_request env peer request s).1
  serve_request-IsSafe reads distinct peer request s safe =
      let ctx = request_scope request.deadline in
      let read = reads request in
      record {
        sound =
            Moves-IsSound env (is_approver env peer.uid) (view s) _
              (handle-refines env ctx peer request read s safe.sound safe.fresh) safe.sound;
        barred = handle-IsBarred env ctx peer request read s safe.sound safe.fresh safe.barred;
        fresh =
            handle-IsFresh env ctx peer request read s distinct
              (IsSound-IsKeyed env s.store.memory.changes safe.sound) safe.fresh;
      }

  recover_changes-IsSound :
      (now : String) (d : Dict String Change) → IsSound env d → IsSound env (recover_changes now d)
  unfolding recover_changes
  recover_changes-IsSound now [] h = tt
  recover_changes-IsSound now ((id, c) ∷ d) ((is, readable), h) =
      let r = recover_change-IsRecovered now c in
      ((r.id ∙ is, rw r.operation readable), recover_changes-IsSound now d h)

  append_event-IsBarred :
      (uid : ℕ) (event : AuditEvent) (s : Sys W)
      → IsBarred uid s.trace
      → IsBarred uid (append_event env event s).1.trace
  unfolding append_event
  append_event-IsBarred uid event s h =
      elim (Result-cases (Audit.append env.encoding (env.audit s.tick) event s.log).0) [
        | inl (id, written) ↦ rw written h
        | inr (e, failed) ↦ rw failed h
      ]

  audit_recovered-IsBarred :
      (uid : ℕ) (cs : List Change) (s : Sys W)
      → IsBarred uid s.trace
      → IsBarred uid (audit_recovered env cs s).1.trace
  unfolding audit_recovered
  audit_recovered-IsBarred uid [] s h = h
  audit_recovered-IsBarred uid (c ∷ cs) s h =
      let event =
        interrupted_change_recovered c.id c.plan_hash c.state c.last_error c.backup_refs in
      let kept = append_event-IsBarred uid event s h in
      elim (Result-cases (append_event env event s).0) [
        | inl (id, written) ↦ rw (written, audit_recovered) (audit_recovered-IsBarred uid cs _ kept)
        | inr (e, failed) ↦ rw (failed, audit_recovered) kept
      ]

  recovered_sys-IsBarred :
      (uid : ℕ) (s : Sys W) (r : Result (List Change)) (store : Store)
      → IsBarred uid s.trace
      → IsBarred uid (recovered_sys env s (r, store)).1.trace
  unfolding recovered_sys
  recovered_sys-IsBarred uid s (err e) store h = h
  recovered_sys-IsBarred uid s (ok cs) store h = audit_recovered-IsBarred uid cs _ h

  recover-IsBarred :
      (uid : ℕ) (s : Sys W) → IsBarred uid s.trace → IsBarred uid (recover env s).1.trace
  unfolding recover recover_at read_clock
  recover-IsBarred uid s h =
      let t = record s { tick = s.tick + 1 } in
      let p =
        recover_interrupted env.codec (env.persist t.tick) (env.time_text (env.clock s.tick))
          s.store in
      if-both (λ (q : Error × Sys W). IsBarred uid q.1.trace) env.has_store_and_audit
        (recovered_sys env t p) (some "root-helper is not initialized", s)
        (λ _. recovered_sys-IsBarred uid t p.0 p.1 h) (λ _. h)

module _ {W : Type 0} (env : Env W) (f : RootFlags) (disk : Disk) (w : W) (s : Sys W) where
  pub IsStarted-IsSafe :
      IsStarted env f disk w s → IsFresh (env_of env f) s → IsSafe (env_of env f) s
  IsStarted-IsSafe st fresh = record {
    sound = rw (IsStarted-changes env f disk w s st) (
        recover_changes-IsSound env (env.time_text (env.clock 0)) st.store.memory.changes
          (IsSound-open_store env disk.directory disk.state_file st.store st.opened));
    barred =
        subst (λ (x : Sys W). IsBarred (uint32 f.approver_uid) x.trace) st.is
          (append_event-IsBarred (env_of env f) (uint32 f.approver_uid)
            (root_helper_started f.socket f.agent_uid f.approver_uid)
            (recover (env_of env f) (service_of env st.store st.log w)).1
            (recover-IsBarred (env_of env f) (uint32 f.approver_uid)
              (service_of env st.store st.log w) tt));
    fresh = fresh;
  }

  -- Let every valid operation be read back as it was written, no random id be drawn twice, and
  -- those still to be drawn at the start not be those of changes. Once the root helper has
  -- started, whatever state.json held, whatever bytes whatever peers send over whichever
  -- connections, and in whatever order these make their turns, `Execute` was called only behind
  -- the mutation barrier: the last `PutChange` before it succeeded, and stored this change as
  -- executing and approved by the uid of `-approver-uid`, with the backup references, the rollback
  -- data and the availability that `Execute` was given. Also, the test that `OpenStore` makes of
  -- the changes accepts those in memory.
  pub serve_connections-IsBarred :
      (happenings : List Happening)
      → start_root env f disk w ≡ ok s
      → ((r : Request) → ReadsBack (env_of env f) r)
      → IsDistinct (env_of env f)
      → IsFresh (env_of env f) s
      → let t = (serve_connections (serve_request (env_of env f)) happenings ([], s)).1 in
        IsBarred (uint32 f.approver_uid) t.trace
        × (check_changes (parse_operation env.decode_operation) t.store.memory.changes ≡ none)
  serve_connections-IsBarred happenings started reads distinct fresh =
      let safe =
        serve_connections-kept (serve_request (env_of env f)) {Q = Anyone}
          {P = IsSafe (env_of env f)}
          (λ peer request t anyone.
            serve_request-IsSafe (env_of env f) reads distinct peer request t)
          happenings s (IsFrom-Anyone happenings)
          (IsStarted-IsSafe (start_root-IsStarted env f disk w s started) fresh) in
      (safe.barred, check_changes-IsSound env _ safe.sound)
