-- ===== src/RootHelper/Change.antt =====
-- The records of internal/roothelper/store.go and executor.go, and the audit events of service.go.
use pi_ops_agent.Base.{ℕ, ℤ, String, Bool, List, Option}
use pi_ops_agent.Base.Dict.{Dict}
use pi_ops_agent.Protocol.{ChangeState, Method, Response}

pub record Change : Type 0 where
  pub id : String
  pub plan_hash : String
  pub kind : String
  pub summary : String
  pub operation : List ℕ
  pub state : ChangeState
  pub prepared_at : String
  pub updated_at : String
  pub approved_by_uid : Option ℕ
  pub backup_refs : List String
  pub rollback_data : List ℕ
  pub rollback_available : Bool
  pub verification : String
  pub last_error : String

pub record RequestRecord : Type 0 where
  pub uid : ℕ
  pub fingerprint : String
  pub response : Response

-- `persistedState`; its keys are the change ids and the request ids.
pub record PersistedState : Type 0 where
  pub changes : Dict String Change
  pub requests : Dict String RequestRecord

pub record ExecutionResult : Type 0 where
  pub backup_refs : List String
  pub rollback_data : List ℕ
  pub rollback_available : Bool
  pub verification : String

-- internal/peercred/peercred.go
pub record Credential : Type 0 where
  pub pid : ℕ
  pub uid : ℕ
  pub gid : ℕ

-- The maps that `appendAudit` puts under "event".
pub data Event : Type 0 where
  request_denied request_completed : String → String → Event
  change_prepared : String → String → String → String → Event
  change_status : String → ChangeState → Event
  change_approved change_rejected change_rolled_back : String → String → Event
  change_preparation_failed : String → String → Event
  change_execution_started : String → String → List String → Bool → Event
  change_committed : String → String → String → List String → Event
  change_failed : String → ChangeState → String → List String → Event

pub data AuditEvent : Type 0 where
  from_peer : Credential → String → Method → Event → AuditEvent
  interrupted_change_recovered : String → String → ChangeState → String → List String → AuditEvent
  root_helper_started : String → ℤ → ℤ → AuditEvent

-- What a context carries to the executor: the request's deadline, or a timeout of its own counted
-- from a background context.
pub data Context : Type 0 where
  request_scope : ℕ → Context
  background : ℕ → Context
