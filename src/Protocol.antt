-- ===== src/Protocol.antt =====
-- internal/protocol/messages.go: the requests, the operations they carry and the responses.
pub mod Pattern
pub mod FilePath
pub mod Operations
pub mod Frame
pub mod Json
pub mod Decode
pub mod Parse
mod Examples
use pi_ops_agent.Base.{ℕ, String, Bool, List, Option}
use Operations.{Operation}

-- `Method`, a string that `switch` compares with nine constants.
pub data Method : Type 0 where
  change_prepare change_status change_approve change_reject change_rollback : Method
  host_snapshot systemd_unit journal_tail heartbeat : Method
  other : String → Method

abbrev pub version : ℕ
version = 1

-- The life of a change, the constants of internal/roothelper/service.go.
pub data ChangeState : Type 0 where
  pending_approval rejected preparing executing verifying committed : ChangeState
  rolling_back rolled_back recovery_required : ChangeState

pub record Request : Type 0 where
  pub version : ℕ
  pub request_id : String
  pub deadline : ℕ
  pub method : Method
  pub change_id : String
  pub unit : String
  pub lines : ℕ
  -- `nil` for every method but `change.prepare`
  pub operation : Option Operation
  pub raw : List ℕ

-- The values that the helpers put into the field `Data interface{}`.
pub data Payload : Type 0 where
  no_data : Payload
  change_details : String → String → List String → String → Bool → Option String → Payload
  inspection : String → Payload

pub record Response : Type 0 where
  pub version : ℕ
  pub request_id : String
  pub success : Bool
  pub audit_id : String
  pub change_id : String
  -- `none` is the empty string, which the encoder leaves out
  pub state : Option ChangeState
  pub summary : String
  pub payload : Payload
  pub error : String
