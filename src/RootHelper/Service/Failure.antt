-- ===== src/RootHelper/Service/Failure.antt =====
-- internal/roothelper/service.go: `Service.handleFailure`.
use pi_ops_agent.Base.{String, ◌<>◌, Bool, true, false, none, some, Result, ok, err}
use pi_ops_agent.Protocol.{Request, Response, rolling_back, rolled_back, recovery_required}
use pi_ops_agent.Protocol.Operations.{Operation, Error}
use pi_ops_agent.RootHelper.Change.{Change, ExecutionResult, Credential, change_failed}
use pi_ops_agent.RootHelper.Machine.{Env, put, append_audit, call_rollback}
use pi_ops_agent.RootHelper.Handler.{Handler, ◌>>=◌, ◌>>◌, pure, perform}
use pi_ops_agent.RootHelper.Service.{told, with_state, rollback_context}

abbrev pub ignore_error : Result String → String
ignore_error (ok id) = id
ignore_error (err e) = ""

module _ {W : Type 0} (env : Env W) where
  -- The end of `handleFailure`, once the change is as it stays.
  unfoldable pub report_failure : Credential → Request → Change → Handler W Response
  report_failure peer request c = do
    perform (put env c)
    r ←
        perform
          (append_audit env peer request (change_failed c.id c.state c.last_error c.backup_refs))
    pure (told request (ignore_error r) c)

  unfoldable pub after_rollback : Error → Change → Change
  after_rollback none c = record c { state = rolled_back }
  after_rollback (some e) c = record c {
    state = recovery_required;
    last_error = c.last_error <> ("; rollback failed: " <> e);
  }

  -- `handleFailure` without the first line, for a result that can or cannot be rolled back.
  unfoldable pub fail_change :
      Bool → Credential → Request → Operation → ExecutionResult → Change → Handler W Response
  unfolding report_failure after_rollback
  fail_change false peer request operation result c = report_failure peer request c
  fail_change true peer request operation result c = do
    perform (put env (record c { state = rolling_back }))
    e ← perform (call_rollback env (rollback_context env.rollback_timeout) c.id operation result)
    report_failure peer request (after_rollback e (record c { state = rolling_back }))

  unfoldable pub handle_failure :
      Credential
      → Request
      → String
      → Operation
      → ExecutionResult
      → String
      → Change
      → Handler W Response
  unfolding fail_change
  handle_failure peer request now operation result message c =
      fail_change result.rollback_available peer request operation result
        (record (with_state recovery_required now c) { last_error = message })
