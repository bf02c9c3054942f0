-- ===== src/RootHelper/Service/Prepare.antt =====
-- internal/roothelper/service.go: `Service.prepare`.
use pi_ops_agent.Base.{String, ◌<>◌, ℕ, List, [], Option, none, some, false, hex_text}
use pi_ops_agent.Protocol.{Request, Response, pending_approval}
use pi_ops_agent.Protocol.Operations.{Operation, kind, summary, marshal_operation}
use pi_ops_agent.RootHelper.Change.{Change, Credential, change_prepared}
use pi_ops_agent.RootHelper.Machine.{Env, put, append_audit, read_random}
use pi_ops_agent.RootHelper.Handler.{
  Handler, ◌>>=◌, ◌>>◌, pure, attempt, attempt_value, check, require,
}
use pi_ops_agent.RootHelper.Service.{
  denied, failed, succeeded, is_agent_or_approver, validate_by_executor,
}

module _ {W : Type 0} (env : Env W) where
  unfoldable pub new_change_id : List ℕ → String
  new_change_id bytes = "change-" <> hex_text bytes

  unfoldable pub kind_of : Option Operation → String
  kind_of none = ""
  kind_of (some o) = kind o

  unfoldable pub summary_of : Option Operation → String
  summary_of none = ""
  summary_of (some o) = summary o

  unfoldable pub new_change : Request → List ℕ → List ℕ → String → Change
  unfolding new_change_id kind_of summary_of
  new_change request payload bytes now = record {
    id = new_change_id bytes;
    plan_hash = "sha256:" <> hex_text (env.sha256 payload);
    kind = kind_of request.operation;
    summary = summary_of request.operation;
    operation = payload;
    state = pending_approval;
    prepared_at = now;
    updated_at = now;
    approved_by_uid = none;
    backup_refs = [];
    rollback_data = [];
    rollback_available = false;
    verification = "";
    last_error = "";
  }

  -- From `PutChange` on.
  unfoldable pub prepare_change : Credential → Request → Change → Handler W Response
  prepare_change peer request c = do
    check (put env c) (failed request)
    audit_id ←
        attempt (append_audit env peer request (change_prepared c.id c.plan_hash c.kind c.summary))
          (failed request)
    pure (succeeded request audit_id c (c.summary <> ("; planHash=" <> c.plan_hash)))

  unfoldable pub prepare : Credential → Request → String → Handler W Response
  unfolding is_agent_or_approver validate_by_executor new_change prepare_change
  prepare peer request now = do
    require (is_agent_or_approver env peer.uid) (denied request "peer may not prepare changes")
    validate_by_executor env request
    payload ←
        attempt_value (marshal_operation env.operation_json request.operation) (failed request)
    bytes ← attempt (read_random env) (failed request)
    prepare_change peer request (new_change request payload bytes now)
