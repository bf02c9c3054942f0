-- ===== src/RootHelper/Service/Approve.antt =====
-- `approve` of internal/roothelper/service.go, from the approval to the commit.
use pi_ops_agent.Base.{String, ◌<>◌, not, ◌&&◌, none, some, Result, ok, err}
use pi_ops_agent.Base.{◌==◌, string_eq, if◌then◌else◌}
use pi_ops_agent.Protocol.{Request, Response, preparing, executing, verifying}
use pi_ops_agent.Protocol.{committed, recovery_required}
use pi_ops_agent.Protocol.Operations.{Operation, Error, parse_operation}
use pi_ops_agent.RootHelper.Change.{Change, ExecutionResult, Credential, Context}
use pi_ops_agent.RootHelper.Change.{change_approved, change_preparation_failed}
use pi_ops_agent.RootHelper.Change.{change_execution_started, change_committed}
use pi_ops_agent.RootHelper.Machine.{
  Env, put, append_audit, call_prepare, call_execute, call_verify,
}
use pi_ops_agent.RootHelper.Handler.{Handler, ◌>>=◌, ◌>>◌, pure, attempt, attempt_value, perform}
use pi_ops_agent.RootHelper.Handler.{check, require}
use pi_ops_agent.RootHelper.Service.{denied, failed, succeeded, told, is_pending, with_state}
use pi_ops_agent.RootHelper.Service.{is_approver, get_change}
use pi_ops_agent.RootHelper.Service.Failure.{ignore_error, handle_failure}

module _ {W : Type 0} (env : Env W) (ctx : Context) (peer : Credential) (request : Request)
    (now : String) where
  unfoldable pub commit_change : Change → Handler W Response
  commit_change c = do
    check (put env c) (failed request)
    audit_id ←
        attempt
          (append_audit env peer request
            (change_committed c.id c.plan_hash c.verification c.backup_refs))
          (failed request)
    pure (succeeded request audit_id c ("change committed: " <> c.summary))

  -- `if result.Verification != "" && verification == ""`
  unfoldable pub verification_text : ExecutionResult → String → String
  verification_text result text =
      if not (result.verification == "") && (text == "") then result.verification else text

  -- From the answer of `Verify` on.
  unfoldable pub after_verify :
      Operation → ExecutionResult → Change → String × Error → Handler W Response
  unfolding verification_text commit_change
  after_verify operation result c (text, some e) =
      handle_failure env peer request now operation result ("verification failed: " <> e)
        (record c { verification = verification_text result text })
  after_verify operation result c (text, none) =
      commit_change
        (with_state committed now (record c { verification = verification_text result text }))

  unfoldable pub verify_change : Operation → ExecutionResult → Change → Handler W Response
  unfolding after_verify
  verify_change operation result c = do
    check (put env c) (failed request)
    answer ← perform (call_verify env ctx c.id operation result)
    after_verify operation result c answer

  -- From the answer of `Execute` on.
  unfoldable pub after_execute : Operation → ExecutionResult → Change → Error → Handler W Response
  unfolding verify_change
  after_execute operation result c (some e) =
      handle_failure env peer request now operation result ("execution failed: " <> e) c
  after_execute operation result c none =
      verify_change operation result (with_state verifying now c)

  -- The mutation barrier: the executor runs only once the change is stored with its backup.
  unfoldable pub execute_change : Operation → ExecutionResult → Change → Handler W Response
  unfolding after_execute
  execute_change operation result c = do
    check (put env c) (λ e. failed request ("persist mutation barrier: " <> e))
    attempt
        (append_audit env peer request
          (change_execution_started c.id c.plan_hash c.backup_refs c.rollback_available))
        (failed request)
    e ← perform (call_execute env ctx c.id operation result)
    after_execute operation result c e

  unfoldable pub preparation_failed : Change → Handler W Response
  preparation_failed c = do
    perform (put env c)
    r ← perform (append_audit env peer request (change_preparation_failed c.id c.last_error))
    pure (told request (ignore_error r) c)

  -- From the answer of `Prepare` on.
  unfoldable pub after_prepare : Operation → Change → Result ExecutionResult → Handler W Response
  unfolding execute_change preparation_failed
  after_prepare operation c (err e) =
      preparation_failed (record (with_state recovery_required now c) {
        last_error = "backup preparation failed before mutation: " <> e;
      })
  after_prepare operation c (ok result) =
      execute_change operation result (record (with_state executing now c) {
        backup_refs = result.backup_refs;
        rollback_data = result.rollback_data;
        rollback_available = result.rollback_available;
      })

  unfoldable pub approve_change : Change → Handler W Response
  unfolding after_prepare
  approve_change c = do
    check (put env c) (failed request)
    attempt (append_audit env peer request (change_approved c.id c.plan_hash)) (failed request)
    operation ← attempt_value (parse_operation env.decode_operation c.operation) (failed request)
    answer ← perform (call_prepare env ctx c.id operation)
    after_prepare operation c answer

  unfoldable pub approve : Handler W Response
  unfolding is_approver get_change approve_change
  approve = do
    require (is_approver env peer.uid)
        (denied request "only the configured approver UID may approve")
    c ← get_change env request
    require (is_pending c.state) (denied request "change is not pending approval")
    approve_change (record (with_state preparing now c) { approved_by_uid = some peer.uid })
