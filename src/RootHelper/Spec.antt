-- ===== src/RootHelper/Spec.antt =====
-- What the root helper promises of its changes, as a step relation: the states of
-- internal/roothelper/service.go, who may move a change, and what must be stored before the
-- executor touches the host.
pub mod Plan
pub mod Barrier
pub mod Authority
pub mod Stored
use pi_ops_agent.Base.{
  ℕ, ◌≡◌, refl, String, ◌<>◌, Bool, true, false, List, [], ◌∷◌, Option, none, some, Result, ok,
  hex_text, string_eq,
}
use pi_ops_agent.Base.Dict.{Dict, lookup, insert}
use pi_ops_agent.Protocol.{
  ChangeState, pending_approval, rejected, preparing, executing, verifying, committed, rolling_back,
  rolled_back, recovery_required,
}
use pi_ops_agent.Protocol.Operations.{Operation, parse_operation}
use pi_ops_agent.RootHelper.Change.{Change, ExecutionResult}
use pi_ops_agent.RootHelper.Machine.{
  Env, Sys, Effect, stored, audited, prepared, executed, verified, rolled,
}

-- The edges between the states that a change takes in the store.
infix 40 ◌⟶◌
pub data ◌⟶◌ : ChangeState → ChangeState → Type 0 where
  begin : pending_approval ⟶ preparing
  decline : pending_approval ⟶ rejected
  unprepared : preparing ⟶ recovery_required
  cover : preparing ⟶ executing
  ran : executing ⟶ verifying
  undo_run : executing ⟶ rolling_back
  stuck_run : executing ⟶ recovery_required
  commit : verifying ⟶ committed
  undo_check : verifying ⟶ rolling_back
  stuck_check : verifying ⟶ recovery_required
  restored : rolling_back ⟶ rolled_back
  stuck_undo : rolling_back ⟶ recovery_required
  undo_commit : committed ⟶ rolling_back
  retry_undo : recovery_required ⟶ rolling_back

-- Any number of edges.
infix 40 ◌⟶*◌
pub data ◌⟶*◌ (s : ChangeState) : ChangeState → Type 0 where
  stay : s ⟶* s
  follow : {t u : ChangeState} → s ⟶* t → t ⟶ u → s ⟶* u

-- What a change keeps from its preparation on.
pub record SamePlan (c d : Change) : Type 0 where
  pub id : c.id ≡ d.id
  pub plan_hash : c.plan_hash ≡ d.plan_hash
  pub kind : c.kind ≡ d.kind
  pub summary : c.summary ≡ d.summary
  pub operation : c.operation ≡ d.operation
  pub prepared_at : c.prepared_at ≡ d.prepared_at

-- What is seen of the service: its changes, and the calls made, the newest first.
pub record View : Type 0 where
  pub changes : Dict String Change
  pub trace : List Effect

abbrev pub view : {W : Type 0} → Sys W → View
view s = record { changes = s.store.memory.changes; trace = s.trace }

-- The last change given to the store, if the store took it.
abbrev pub last_stored : List Effect → Option Change
last_stored [] = none
last_stored (stored c true ∷ es) = some c
last_stored (stored c false ∷ es) = none
last_stored (audited event ∷ es) = last_stored es
last_stored (prepared id operation ∷ es) = last_stored es
last_stored (executed id operation result ∷ es) = last_stored es
last_stored (verified id operation result ∷ es) = last_stored es
last_stored (rolled ctx id operation result ∷ es) = last_stored es

-- The change is stored as executing and as approved by the uid, with the backup that the executor
-- has prepared.
pub record Covers (uid : ℕ) (c : Change) (result : ExecutionResult) : Type 0 where
  pub state : c.state ≡ executing
  pub approved_by : c.approved_by_uid ≡ some uid
  pub backup_refs : c.backup_refs ≡ result.backup_refs
  pub rollback_data : c.rollback_data ≡ result.rollback_data
  pub rollback_available : c.rollback_available ≡ result.rollback_available

-- A call of the executor that is not `Execute`.
abbrev pub IsExecutorCall : Effect → Type 0
IsExecutorCall (prepared id operation) = Unit
IsExecutorCall (verified id operation result) = Unit
IsExecutorCall (rolled ctx id operation result) = Unit
IsExecutorCall _ = ⊥

module _ {W : Type 0} (env : Env W) where
  -- A change whose hash is that of its operation, which can be read.
  pub record IsPlan (c : Change) : Type 0 where
    pub hashed : c.plan_hash ≡ "sha256:" <> hex_text (env.sha256 c.operation)
    pub readable : (o : Operation) × (parse_operation env.decode_operation c.operation ≡ ok o)

  -- One step; `approver` says whether the approver asks for it.
  pub data Move (approver : Bool) (v w : View) : Type 0 where
    note : (event : _) → w ≡ record v { trace = audited event ∷ v.trace } → Move approver v w
    create :
        (c : Change) (durable : Bool)
        → c.state ≡ pending_approval
        → IsPlan c
        → lookup c.id v.changes ≡ none
        → w ≡ record { changes = insert c.id c v.changes; trace = stored c durable ∷ v.trace }
        → Move approver v w
    advance :
        (c d : Change) (durable : Bool)
        → approver ≡ true
        → lookup c.id v.changes ≡ some c
        → SamePlan c d
        → c.state ⟶ d.state
        → w ≡ record { changes = insert d.id d v.changes; trace = stored d durable ∷ v.trace }
        → Move approver v w
    call :
        (e : Effect)
        → approver ≡ true
        → IsExecutorCall e
        → w ≡ record v { trace = e ∷ v.trace }
        → Move approver v w
    mutate :
        (c : Change) (operation : Operation) (result : ExecutionResult)
        → approver ≡ true
        → lookup c.id v.changes ≡ some c
        → last_stored v.trace ≡ some c
        → Covers env.approver_uid c result
        → w ≡ record v { trace = executed c.id operation result ∷ v.trace }
        → Move approver v w

  pub data Moves (approver : Bool) (v : View) : View → Type 0 where
    here : Moves approver v v
    next : {w x : View} → Moves approver v w → Move approver w x → Moves approver v x

  -- Every change stands under its own id.
  abbrev pub IsKeyed : Dict String Change → Type 0
  IsKeyed d = (id : String) (c : Change) → lookup id d ≡ some c → c.id ≡ id
