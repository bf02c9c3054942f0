-- ===== src/RootHelper/Guarantees/Committed.antt =====
-- What a success of `approve` of internal/roothelper/service.go shows.
pub mod Calls
pub mod Stages
use pi_ops_agent.Base.{
  ◌≡◌, refl, String, Bool, true, false, List, ◌∷◌, Option, none, some, arith, Result, ok, err,
  string_eq,
}
use pi_ops_agent.Base.Dict.{lookup}
use pi_ops_agent.Protocol.{Request, Response, preparing, executing, verifying, committed}
use pi_ops_agent.Protocol.Operations.{Operation, Error, parse_operation}
use pi_ops_agent.RootHelper.Change.{
  Change, ExecutionResult, Credential, Context, Event, from_peer, change_approved,
  change_execution_started, change_committed,
}
use pi_ops_agent.RootHelper.Store.{find_change}
use pi_ops_agent.RootHelper.Store.Durable.{put_change_durable}
use pi_ops_agent.RootHelper.Machine.{
  Env, Sys, Effect, stored, audited, prepared, executed, verified, put, append_audit, append_event,
  call_prepare, call_execute, call_verify,
}
use pi_ops_agent.RootHelper.Handler.{Handler, ◌>>=◌, pure, return_early, run}
use pi_ops_agent.RootHelper.Handler.Succeeds.{
  Succeeds, refused, run-Succeeds, Succeeds-attempt, Succeeds-attempt_value, Succeeds-perform,
  Succeeds-check, Succeeds-require,
}
use pi_ops_agent.RootHelper.Service.{is_approver, is_pending, with_state, found, get_change}
use pi_ops_agent.RootHelper.Service.Failure.{report_failure, fail_change, handle_failure}
use pi_ops_agent.RootHelper.Service.Approve.{
  commit_change, verification_text, after_verify, verify_change, after_execute, execute_change,
  preparation_failed, after_prepare, approve_change, approve,
}
use pi_ops_agent.RootHelper.Guarantees.Committed.Calls.{noted}
use pi_ops_agent.RootHelper.Guarantees.Committed.Stages.{
  as_covered, as_committed, approve_change-Succeeds,
}

module _ {W : Type 0} (env : Env W) (ctx : Context) (peer : Credential) (request : Request)
    (now : String) where
  -- The change as it is stored with the approval.
  abbrev pub as_approved : Change → Change
  as_approved c = record (with_state preparing now c) { approved_by_uid = some peer.uid }

  -- The calls of `approve`, the newest first.
  abbrev pub committing :
      Operation → ExecutionResult → Change → Change → Change → Change → List Effect → List Effect
  committing operation result c c' c'' c''' before =
      noted peer request
        (change_committed c'''.id c'''.plan_hash c'''.verification c'''.backup_refs)
      ∷ stored c''' true
      ∷ verified c''.id operation result
      ∷ stored c'' true
      ∷ executed c'.id operation result
      ∷ noted peer request
          (change_execution_started c'.id c'.plan_hash c'.backup_refs c'.rollback_available)
      ∷ stored c' true
      ∷ prepared c.id operation
      ∷ noted peer request (change_approved c.id c.plan_hash)
      ∷ stored c true
      ∷ before

  -- What the success of an approval shows of the states before and after it.
  pub record IsCommitted (s : Sys W) (r : Response) (s' : Sys W) : Type 0 where
    pub c : Change
    pub operation : Operation
    pub result : ExecutionResult
    pub text : String
    pub by_approver : is_approver env peer.uid ≡ true
    pub before : find_change request.change_id s.store ≡ some c
    pub waiting : is_pending c.state ≡ true
    pub reads : parse_operation env.decode_operation c.operation ≡ ok operation
    pub prepares : (w : W) × ((env.executor.prepare ctx c.id operation w).0 ≡ ok result)
    pub executes : (w : W) × ((env.executor.execute ctx c.id operation result w).0 ≡ none)
    pub verifies :
        (w : W) × ((env.executor.verify ctx c.id operation result w).0 ≡ text)
        × ((env.executor.verify ctx c.id operation result w).1 ≡ none)
    pub calls :
        let c' = as_covered now result (as_approved c) in
        let c'' = with_state verifying now c' in
        s'.trace
        ≡ committing operation result
            (as_approved c)
            c'
            c''
            (as_committed env ctx peer request now result text c'')
            s.trace
    pub kept :
        let c'' = with_state verifying now (as_covered now result (as_approved c)) in
        lookup c.id s'.store.memory.changes
        ≡ some (as_committed env ctx peer request now result text c'')
    pub told : r.state ≡ some committed

  found-Succeeds :
      (S : Response → Sys W → Type 0) (o : Option Change) (f : Change → Handler W Response)
      (s : Sys W)
      → ((c : Change) → o ≡ some c → Succeeds S (f c s))
      → Succeeds S ((found env request o >>= f) s)
  unfolding found return_early pure ◌>>=◌
  found-Succeeds S none f s h = refused S _ s refl
  found-Succeeds S (some c) f s h = h c refl

  -- If `approve` responds with a success, the peer is the approver, the change was pending
  -- approval with an operation that can be read, and for this operation `Prepare`, `Execute` and
  -- `Verify` return no error on some states of the host. The change is then in memory as
  -- committed, with the approver's uid, what `Prepare` returned and the text of the verification,
  -- and the response tells this state. The calls made meanwhile are `PutChange` and an audit entry
  -- for the approval, `Prepare`, `PutChange` and an audit entry for the start of the execution,
  -- `Execute`, `PutChange`, `Verify`, `PutChange` and an audit entry for the commit, in this
  -- order, and each `PutChange` and each append succeeded.
  pub approve-IsCommitted :
      (s : Sys W)
      → (run (approve env ctx peer request now) s).0.success ≡ true
      → IsCommitted s
          (run (approve env ctx peer request now) s).0
          (run (approve env ctx peer request now) s).1
  unfolding approve get_change ◌>>=◌
  approve-IsCommitted s = run-Succeeds (IsCommitted s) _ s (
      Succeeds-require (IsCommitted s) _ _ _ s refl (λ by_approver.
        found-Succeeds (IsCommitted s) _ _ s (λ c before.
          Succeeds-require (IsCommitted s) _ _ _ s refl (λ waiting.
            approve_change-Succeeds env ctx peer request now (IsCommitted s) _ s
              (λ operation result u reads prepares v w executes verifies r s' told calls kept.
                record {
                  c = c;
                  operation = operation;
                  result = result;
                  text = (env.executor.verify ctx c.id operation result w).0;
                  by_approver = by_approver;
                  before = before;
                  waiting = waiting;
                  reads = reads;
                  prepares = (u, prepares);
                  executes = (v, executes);
                  verifies = (w, refl, verifies);
                  calls = calls;
                  kept = kept;
                  told = told;
                })))))
