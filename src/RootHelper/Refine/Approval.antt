-- ===== src/RootHelper/Refine/Approval.antt =====
-- `approve` of internal/roothelper/service.go as steps of the relation.
use pi_ops_agent.Base.{◌≡◌, refl, String, Bool, true, none, some, arith, Result, ok, err}
use pi_ops_agent.Protocol.{Request, preparing, executing, verifying}
use pi_ops_agent.Protocol.Operations.{Operation, Error}
use pi_ops_agent.RootHelper.Change.{Change, ExecutionResult, Credential, Context}
use pi_ops_agent.RootHelper.Machine.{Env}
use pi_ops_agent.RootHelper.Handler.Keeps.{Leads-bind, Leads-perform}
use pi_ops_agent.RootHelper.Service.{with_state}
use pi_ops_agent.RootHelper.Service.Approve.{
  commit_change, after_verify, verify_change, after_execute, execute_change, preparation_failed,
  after_prepare, approve_change,
}
use pi_ops_agent.RootHelper.Spec.{
  View, ◌⟶◌, SamePlan, Covers, unprepared, cover, ran, undo_run, stuck_run, commit, undo_check,
  stuck_check,
}
use pi_ops_agent.RootHelper.Refine.Calls.{
  Holding, call_prepare-Holding, call_verify-Holding, call_execute-Holding,
}
use pi_ops_agent.RootHelper.Refine.Stages.{
  Ends, Ends-pure, Ends-attempt_value, Ends-audit, Ends-audit_Stored, Ends-perform_audit,
  Ends-perform-put, Ends-check-put, Ends-check-put-Stored,
}
use pi_ops_agent.RootHelper.Refine.Failure.{handle_failure-Ends}

module _ {W : Type 0} (env : Env W) (approver : Bool) (v : View) (approved : approver ≡ true)
    (ctx : Context) (peer : Credential) (request : Request) (now : String) where
  commit_change-Ends :
      (c d : Change)
      → SamePlan c d
      → c.state ⟶ d.state
      → Ends env approver v (Holding env approver v c) (commit_change env ctx peer request now d)
  unfolding commit_change
  commit_change-Ends c d same edge =
      Ends-check-put env approver v approved c d same edge _ _
        (λ _. Ends-audit env approver v peer request _ d _ _ (λ _. Ends-pure env approver v d _))

  after_verify-Ends :
      (operation : Operation) (result : ExecutionResult) (c : Change) (answer : String × Error)
      → c.state ≡ verifying
      → Ends env approver v
          (Holding env approver v c)
          (after_verify env ctx peer request now operation result c answer)
  unfolding after_verify
  after_verify-Ends operation result c (text, some e) at =
      handle_failure-Ends env approver v approved peer request now operation result _ c _
        (ground arith) (rw at undo_check) (rw at stuck_check)
  after_verify-Ends operation result c (text, none) at =
      commit_change-Ends c _ (ground arith) (rw at commit)

  verify_change-Ends :
      (operation : Operation) (result : ExecutionResult) (c d : Change)
      → SamePlan c d
      → c.state ⟶ d.state
      → d.state ≡ verifying
      → Ends env approver v
          (Holding env approver v c)
          (verify_change env ctx peer request now operation result d)
  unfolding verify_change
  verify_change-Ends operation result c d same edge at =
      Ends-check-put env approver v approved c d same edge _ _ (λ _.
        Leads-bind {R = λ _. Holding env approver v d} _ _
          (Leads-perform _
            (λ s q. call_verify-Holding env approver v approved d ctx operation result s q))
          (λ answer. after_verify-Ends operation result d answer at))

  after_execute-Ends :
      (operation : Operation) (result : ExecutionResult) (c : Change) (e : Error)
      → c.state ≡ executing
      → Ends env approver v
          (Holding env approver v c)
          (after_execute env ctx peer request now operation result c e)
  unfolding after_execute
  after_execute-Ends operation result c (some e) at =
      handle_failure-Ends env approver v approved peer request now operation result _ c c
        (ground arith) (rw at undo_run) (rw at stuck_run)
  after_execute-Ends operation result c none at =
      verify_change-Ends operation result c (with_state verifying now c) (ground arith) (rw at ran)
        refl

  execute_change-Ends :
      (operation : Operation) (result : ExecutionResult) (c d : Change)
      → SamePlan c d
      → c.state ⟶ d.state
      → Covers env.approver_uid d result
      → Ends env approver v
          (Holding env approver v c)
          (execute_change env ctx peer request now operation result d)
  unfolding execute_change
  execute_change-Ends operation result c d same edge covers =
      Ends-check-put-Stored env approver v approved c d same edge _ _ (λ _.
        Ends-audit_Stored env approver v peer request _ d _ _ (λ _.
          Leads-bind {R = λ _. Holding env approver v d} _ _
            (Leads-perform _ (λ s (q, last).
              call_execute-Holding env approver v approved d ctx operation result s covers last q))
            (λ e. after_execute-Ends operation result d e covers.state)))

  preparation_failed-Ends :
      (c d : Change)
      → SamePlan c d
      → c.state ⟶ d.state
      → Ends env approver v
          (Holding env approver v c)
          (preparation_failed env ctx peer request now d)
  unfolding preparation_failed
  preparation_failed-Ends c d same edge =
      Ends-perform-put env approver v approved c d same edge _ (λ _.
        Ends-perform_audit env approver v peer request _ d _ (λ _. Ends-pure env approver v d _))

  after_prepare-Ends :
      (operation : Operation) (c : Change) (answer : Result ExecutionResult)
      → c.state ≡ preparing
      → c.approved_by_uid ≡ some env.approver_uid
      → Ends env approver v
          (Holding env approver v c)
          (after_prepare env ctx peer request now operation c answer)
  unfolding after_prepare
  after_prepare-Ends operation c (err e) at by =
      preparation_failed-Ends c _ (ground arith) (rw at unprepared)
  after_prepare-Ends operation c (ok result) at by =
      execute_change-Ends operation result c _ (ground arith) (rw at cover) (ground arith)

  -- From a state that holds the pending change, `approve` ends in a reached state.
  pub approve_change-Ends :
      (c d : Change)
      → SamePlan c d
      → c.state ⟶ d.state
      → d.state ≡ preparing
      → d.approved_by_uid ≡ some env.approver_uid
      → Ends env approver v (Holding env approver v c) (approve_change env ctx peer request now d)
  unfolding approve_change
  approve_change-Ends c d same edge at by =
      Ends-check-put env approver v approved c d same edge _ _ (λ _.
        Ends-audit env approver v peer request _ d _ _ (λ _.
          Ends-attempt_value env approver v d _ _ _ (λ operation.
            Leads-bind {R = λ _. Holding env approver v d} _ _
              (Leads-perform _
                (λ s q. call_prepare-Holding env approver v approved d ctx operation s q))
              (λ answer. after_prepare-Ends operation d answer at by))))
