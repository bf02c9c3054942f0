-- ===== src/RootHelper/Refine/Handle.antt =====
-- `Handle` of internal/roothelper/service.go refines the step relation.
use pi_ops_agent.Base.{
  ℕ, ◌≡◌, refl, sym, String, Bool, true, false, ◌&&◌, Option, none, some, arith, Result, ok, err,
  string_eq,
}
use pi_ops_agent.Base.{◌+◌, if-both, ltb, ◌==◌}
use mathlib.Core.Path.{subst}
use pi_ops_agent.Protocol.{
  Request, Response, Method, change_prepare, change_status, change_approve, change_reject,
  change_rollback,
}
use pi_ops_agent.RootHelper.Change.{Credential, Context}
use pi_ops_agent.RootHelper.Store.{Store, StateCodec, PersistAnswers, cache}
use pi_ops_agent.RootHelper.Machine.{Env, Sys, append_audit}
use pi_ops_agent.RootHelper.Handler.Keeps.{run-Leads, Leads-return_early}
use pi_ops_agent.RootHelper.Service.{is_approver}
use pi_ops_agent.RootHelper.Service.Dispatch.{
  handle, answer, dispatch, method_of, finish, complete, remember, audited_response, fingerprint,
  event_of, set_version, set_request_id,
}
use pi_ops_agent.RootHelper.Spec.{View, view, IsKeyed, Moves, here}
use pi_ops_agent.RootHelper.Refine.Calls.{Reached, Reached-later, append_audit-Reached}
use pi_ops_agent.RootHelper.Refine.Stages.{Ends}
use pi_ops_agent.RootHelper.Refine.Methods.{
  Start, status-Ends, approve-Ends, reject-Ends, rollback-Ends,
}
pub use pi_ops_agent.RootHelper.Refine.Preparation.{ReadsBack}
use pi_ops_agent.RootHelper.Refine.Fresh.{IsFresh, IsDistinct, IsFresh-later}
use pi_ops_agent.RootHelper.Refine.Preparation.{prepare-Ends}

cache-changes :
    (codec : StateCodec) (a : PersistAnswers) (id : String) (uid : ℕ) (fingerprint : String)
    (r : Response) (s : Store)
    → (cache codec a id uid fingerprint r s).1.memory.changes ≡ s.memory.changes
unfolding cache
cache-changes codec a id uid fingerprint r s = ground arith

module _ {W : Type 0} (env : Env W) (ctx : Context) (peer : Credential) (request : Request)
    (reads : ReadsBack env request) where
  abbrev asked : Bool
  asked = is_approver env peer.uid

  module _ (v : View) where
    abbrev Ready : Sys W → Type 0
    Ready s = Start env v peer request s × IsFresh env s

    method_of-Ends :
        (m : Method) (now : String) → Ends env asked v Ready (method_of env ctx peer request m now)
    unfolding method_of
    method_of-Ends change_prepare now = record {
      from = λ s (start, fresh).
          (prepare-Ends env asked v peer request reads now).from s (start.0, fresh);
    }
    method_of-Ends change_status now = record {
      from = λ s (start, fresh). (status-Ends env v peer request).from s start;
    }
    method_of-Ends change_approve now = record {
      from = λ s (start, fresh). (approve-Ends env v peer request ctx now).from s start;
    }
    method_of-Ends change_reject now = record {
      from = λ s (start, fresh). (reject-Ends env v peer request now).from s start;
    }
    method_of-Ends change_rollback now = record {
      from = λ s (start, fresh). (rollback-Ends env v peer request now).from s start;
    }
    method_of-Ends _ now = Leads-return_early _ (λ s q. q.0.0)

    clock_read-IsFresh : (s : Sys W) → IsFresh env s → IsFresh env (record s { tick = s.tick + 1 })
    clock_read-IsFresh s = IsFresh-later env s _ refl (omega arith)

    clock_read-Reached :
        (s : Sys W) → Reached env asked v s → Reached env asked v (record s { tick = s.tick + 1 })
    clock_read-Reached s r = Reached-later env asked v s _ r.0 refl (omega arith) r

    dispatch-Reached :
        (s : Sys W) → Ready s → Reached env asked v (dispatch env ctx peer request s).1
    unfolding dispatch
    dispatch-Reached s ((r, keyed), fresh) =
        run-Leads _ (method_of-Ends request.method (env.time_text (env.clock s.tick))) _
          ((clock_read-Reached s r, keyed), clock_read-IsFresh s fresh)

    audited_response-Reached :
        (r : Response) (written : Result String) (s : Sys W)
        → Reached env asked v s
        → Reached env asked v (audited_response env ctx peer request r (written, s)).2
    unfolding audited_response
    audited_response-Reached r (ok id) s h = h
    audited_response-Reached r (err e) s h = h

    complete-Reached :
        (r : Response) (s : Sys W)
        → Reached env asked v s
        → Reached env asked v (complete env ctx peer request r s).2
    unfolding complete
    complete-Reached r s h =
        let event = event_of request r in
        if-both (λ (p : Response × Bool × Sys W). Reached env asked v p.2) (r.audit_id == "") _ _
          (λ _.
            audited_response-Reached r (append_audit env peer request event s).0 _
              (append_audit-Reached env asked v peer request event s h))
          (λ _. h)

    remember-Reached :
        (r : Response) (fine : Bool) (s : Sys W)
        → Reached env asked v s
        → Reached env asked v (remember env ctx peer request (r, fine, s)).1
    unfolding remember
    remember-Reached r false s h = h
    remember-Reached r true s h =
        let same =
          cache-changes env.codec (env.persist s.tick) request.request_id peer.uid
            (fingerprint env ctx peer request) r s.store in
        Reached-later env asked v s _
          (subst (λ d. Moves env asked v (record { changes = d; trace = s.trace })) (sym same) h.0)
          same (omega arith) h

    finish-Reached :
        (r : Response) (s : Sys W)
        → Reached env asked v s
        → Reached env asked v (finish env ctx peer request (r, s)).1
    unfolding finish
    finish-Reached r s h =
        let r' = set_version (set_request_id request.request_id r) in
        remember-Reached _ _ _ (complete-Reached r' s h)

    answer-Reached :
        (c : Result (Option Response)) (s : Sys W)
        → Ready s
        → Reached env asked v (answer env ctx peer request c s).1
    unfolding answer
    answer-Reached (err e) s ready = ready.0.0
    answer-Reached (ok (some r)) s ready = ready.0.0
    answer-Reached (ok none) s ready = finish-Reached _ _ (dispatch-Reached s ready)

  -- A call of `Handle` ends in a reached state.
  handle-Reached :
      (s : Sys W)
      → IsKeyed env s.store.memory.changes
      → IsFresh env s
      → Reached env asked (view s) (handle env ctx peer request s).1
  unfolding handle
  handle-Reached s keyed fresh =
      if-both (λ (p : Response × Sys W). Reached env asked (view s) p.1)
        (env.has_store_and_audit && env.has_executor) _ _
        (λ _.
          if-both (λ (p : Response × Sys W). Reached env asked (view s) p.1)
            (ltb (env.clock s.tick) request.deadline) _ _
            (λ _.
              answer-Reached (view s) _ (record s { tick = s.tick + 1 })
                (
                  (clock_read-Reached (view s) s (here, λ _. fresh), keyed),
                  clock_read-IsFresh (view s) s fresh,
                ))
            (λ _. clock_read-Reached (view s) s (here, λ _. fresh)))
        (λ _. (here, λ _. fresh))

  -- Whatever the outside answers, a call of `Handle` takes steps that the relation allows, if
  -- each change stands under its id and the random ids that will be drawn are new.
  pub handle-Moves :
      (s : Sys W)
      → IsKeyed env s.store.memory.changes
      → IsFresh env s
      → Moves env (is_approver env peer.uid) (view s) (view (handle env ctx peer request s).1)
  handle-Moves s keyed fresh = (handle-Reached s keyed fresh).0

  -- If no random id is given twice, those that are still to be drawn stay new.
  pub handle-IsFresh :
      (s : Sys W)
      → IsDistinct env
      → IsKeyed env s.store.memory.changes
      → IsFresh env s
      → IsFresh env (handle env ctx peer request s).1
  handle-IsFresh s distinct keyed fresh = (handle-Reached s keyed fresh).1 distinct
