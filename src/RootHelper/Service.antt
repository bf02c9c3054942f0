-- ===== src/RootHelper/Service.antt =====
-- internal/roothelper/service.go: what the methods of `Service` share, `status`, `reject` and `rollback`.
pub mod Approve
pub mod Dispatch
pub mod Failure
pub mod Prepare
use pi_ops_agent.Base.{
  ℕ, ℤ, pos, negsuc, zero, suc, ◌*◌, String, ◌<>◌, Bool, true, false, not, ◌&&◌, ◌||◌, List, [],
  ◌∷◌, Option, none, some,
}
use pi_ops_agent.Base.{Result, ok, err, ◌=?◌, ◌==◌, string_eq, hex_text, if◌then◌else◌}
use pi_ops_agent.Protocol.{
  Request, Response, version, Payload, no_data, change_details, ChangeState,
}
use pi_ops_agent.Protocol.{
  pending_approval, rejected, committed, rolling_back, rolled_back, recovery_required,
}
use pi_ops_agent.Protocol.Operations.{
  Operation, Error, kind, summary, marshal_operation, parse_operation,
}
use pi_ops_agent.RootHelper.Change.{Change, ExecutionResult, Credential, Event, Context, background}
use pi_ops_agent.RootHelper.Change.{
  change_prepared, change_status, change_rejected, change_rolled_back, change_failed,
}
use pi_ops_agent.RootHelper.Store.{find_change}
use pi_ops_agent.RootHelper.Machine.{Env, Sys, put, append_audit, call_rollback, read_random}
use pi_ops_agent.RootHelper.Handler.{
  Handler, ◌>>=◌, ◌>>◌, pure, return_early, attempt, attempt_value, perform, check, require,
}

-- `denied`, and `failed` with the error's text
abbrev pub denied : Request → String → Response
denied request message = record {
  version = version;
  request_id = request.request_id;
  success = false;
  audit_id = "";
  change_id = "";
  state = none;
  summary = "";
  payload = no_data;
  error = message;
}

abbrev pub failed : Request → String → Response
failed = denied

-- A response with `OK: true`, for a change.
abbrev pub succeeded : Request → String → Change → String → Response
succeeded request audit_id c text = record (denied request "") {
  success = true;
  audit_id = audit_id;
  change_id = c.id;
  state = some c.state;
  summary = text;
}

-- A response that tells a change's state and an error.
abbrev pub told : Request → String → Change → Response
told request audit_id c = record (denied request c.last_error) {
  audit_id = audit_id;
  change_id = c.id;
  state = some c.state;
}

abbrev pub is_pending : ChangeState → Bool
is_pending pending_approval = true
is_pending _ = false

abbrev pub may_roll_back : ChangeState → Bool
may_roll_back committed = true
may_roll_back recovery_required = true
may_roll_back _ = false

two_minutes : ℕ
two_minutes = 2 * 60 * 1000000000

-- `rollbackContext`
unfoldable pub rollback_context : ℤ → Context
unfolding two_minutes
rollback_context (pos zero) = background two_minutes
rollback_context (pos (suc n)) = background (suc n)
rollback_context (negsuc n) = background two_minutes

abbrev pub with_state : ChangeState → String → Change → Change
with_state state now c = record c { state = state; updated_at = now }

abbrev pub result_of : Change → ExecutionResult
result_of c = record {
  backup_refs = c.backup_refs;
  rollback_data = c.rollback_data;
  rollback_available = c.rollback_available;
  verification = c.verification;
}

abbrev last_error_of : Change → Option String
last_error_of c = if c.last_error == "" then none else some c.last_error

module _ {W : Type 0} (env : Env W) where
  unfoldable pub is_agent_or_approver : ℕ → Bool
  is_agent_or_approver uid = uid =? env.agent_uid || uid =? env.approver_uid

  unfoldable pub is_approver : ℕ → Bool
  is_approver uid = uid =? env.approver_uid

  -- `change, ok := s.Store.Change(id); if !ok { return denied(...) }`
  unfoldable pub found : Request → Option Change → Handler W Change
  found request none = return_early (denied request "change not found")
  found request (some c) = pure c

  unfoldable pub get_change : Request → Handler W Change
  unfolding found
  get_change request s = found request (find_change request.change_id s.store) s

  unfoldable pub validation : Option (Option Operation → W → Error) → Option Operation → W → Error
  validation none operation world = none
  validation (some f) operation world = f operation world

  -- `ValidateOperation` looks at the host and does not change it.
  unfoldable pub validate_by_executor : Request → Handler W (Unit {0})
  unfolding validation
  validate_by_executor request s =
      check (λ t. (validation env.executor.validate_operation request.operation t.world, t))
        (denied request) s

  unfoldable pub status : Credential → Request → Handler W Response
  unfolding is_agent_or_approver get_change
  status peer request = do
    require (is_agent_or_approver peer.uid) (denied request "peer may not inspect changes")
    c ← get_change request
    audit_id ← attempt (append_audit env peer request (change_status c.id c.state)) (failed request)
    pure (record (succeeded request audit_id c c.summary) {
      payload =
          change_details c.plan_hash c.kind c.backup_refs c.verification c.rollback_available
            (last_error_of c);
    })

  unfoldable pub reject_change : Credential → Request → Change → Handler W Response
  reject_change peer request c = do
    check (put env c) (failed request)
    audit_id ←
        attempt (append_audit env peer request (change_rejected c.id c.plan_hash)) (failed request)
    pure (succeeded request audit_id c "change rejected")

  unfoldable pub reject : Credential → Request → String → Handler W Response
  unfolding is_approver get_change reject_change
  reject peer request now = do
    require (is_approver peer.uid) (denied request "only the configured approver UID may reject")
    c ← get_change request
    require (is_pending c.state) (denied request "change is not pending approval")
    reject_change peer request (with_state rejected now c)

  -- From the executor's answer on.
  unfoldable pub finish_rollback :
      Credential → Request → String → Change → Error → Handler W Response
  finish_rollback peer request now c (some e) = do
    let c' = record (with_state recovery_required now c) { last_error = "rollback failed: " <> e }
    perform (put env c')
    pure (failed request c'.last_error)
  finish_rollback peer request now c none = do
    let c' = record (with_state rolled_back now c) { last_error = "" }
    check (put env c') (failed request)
    audit_id ←
        attempt (append_audit env peer request (change_rolled_back c'.id c'.plan_hash))
          (failed request)
    pure (succeeded request audit_id c' "change rolled back")

  unfoldable pub roll_back_change :
      Credential → Request → String → Operation → Change → Handler W Response
  unfolding finish_rollback
  roll_back_change peer request now operation c = do
    check (put env c) (failed request)
    e ←
        perform
          (call_rollback env (rollback_context env.rollback_timeout) c.id operation (result_of c))
    finish_rollback peer request now c e

  unfoldable pub rollback : Credential → Request → String → Handler W Response
  unfolding is_approver get_change roll_back_change
  rollback peer request now = do
    require (is_approver peer.uid) (denied request "only the configured approver UID may roll back")
    c ← get_change request
    require (may_roll_back c.state) (denied request "change is not eligible for rollback")
    require c.rollback_available (denied request "rollback is unavailable for this change")
    operation ← attempt_value (parse_operation env.decode_operation c.operation) (failed request)
    roll_back_change peer request now operation (with_state rolling_back now c)
