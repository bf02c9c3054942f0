-- ===== src/RootHelper/Refine/Failure.antt =====
-- `handleFailure` of internal/roothelper/service.go as steps of the relation.
use pi_ops_agent.Base.{◌≡◌, refl, String, Bool, true, false, none, some, arith}
use pi_ops_agent.Protocol.{Request, rolling_back, recovery_required}
use pi_ops_agent.Protocol.Operations.{Operation, Error}
use pi_ops_agent.RootHelper.Change.{Change, ExecutionResult, Credential}
use pi_ops_agent.RootHelper.Machine.{Env}
use pi_ops_agent.RootHelper.Handler.Keeps.{Leads-bind, Leads-perform}
use pi_ops_agent.RootHelper.Service.{with_state}
use pi_ops_agent.RootHelper.Service.Failure.{
  report_failure, after_rollback, fail_change, handle_failure,
}
use pi_ops_agent.RootHelper.Spec.{View, ◌⟶◌, SamePlan, restored, stuck_undo}
use pi_ops_agent.RootHelper.Refine.Calls.{Holding, call_rollback-Holding}
use pi_ops_agent.RootHelper.Refine.Stages.{Ends, Ends-pure, Ends-perform-put, Ends-perform_audit}

module _ {W : Type 0} (env : Env W) (approver : Bool) (v : View) (approved : approver ≡ true)
    (peer : Credential) (request : Request) where
  report_failure-Ends :
      (c d : Change)
      → SamePlan c d
      → c.state ⟶ d.state
      → Ends env approver v (Holding env approver v c) (report_failure env peer request d)
  unfolding report_failure
  report_failure-Ends c d same edge = Ends-perform-put env approver v approved c d same edge _ (λ _.
      Ends-perform_audit env approver v peer request _ d _ (λ _. Ends-pure env approver v d _))

  after_rollback-SamePlan : (e : Error) (c : Change) → SamePlan c (after_rollback env e c)
  unfolding after_rollback
  after_rollback-SamePlan e c = ground arith

  after_rollback-⟶ :
      (e : Error) (c : Change) → c.state ≡ rolling_back → c.state ⟶ (after_rollback env e c).state
  unfolding after_rollback
  after_rollback-⟶ none c now = rw now restored
  after_rollback-⟶ (some e) c now = rw now stuck_undo

  fail_change-Ends :
      (available : Bool) (operation : Operation) (result : ExecutionResult) (c d : Change)
      → SamePlan c d
      → c.state ⟶ rolling_back
      → c.state ⟶ recovery_required
      → d.state ≡ recovery_required
      → Ends env approver v
          (Holding env approver v c)
          (fail_change env available peer request operation result d)
  unfolding fail_change
  fail_change-Ends false operation result c d same undo stop at =
      report_failure-Ends c d same (rw at stop)
  fail_change-Ends true operation result c d same undo stop at =
      let rolling : Change = record d { state = rolling_back } in
      Ends-perform-put env approver v approved c rolling (ground arith) undo _ (λ _.
        Leads-bind {R = λ _. Holding env approver v rolling} _ _
          (Leads-perform _
            (λ s q. call_rollback-Holding env approver v approved rolling _ operation result s q))
          (λ e.
            report_failure-Ends rolling (after_rollback env e rolling)
              (after_rollback-SamePlan e rolling) (after_rollback-⟶ e rolling refl)))

  -- From a state that holds the change, `handleFailure` ends in a reached state.
  pub handle_failure-Ends :
      (now : String) (operation : Operation) (result : ExecutionResult) (message : String)
      (c d : Change)
      → SamePlan c d
      → c.state ⟶ rolling_back
      → c.state ⟶ recovery_required
      → Ends env approver v
          (Holding env approver v c)
          (handle_failure env peer request now operation result message d)
  unfolding handle_failure
  handle_failure-Ends now operation result message c d same undo stop =
      fail_change-Ends result.rollback_available operation result c
        (record (with_state recovery_required now d) { last_error = message }) (ground arith) undo
        stop refl
