-- ===== src/RootHelper/Machine.antt =====
-- The state of the root helper's service, internal/roothelper/service.go, and the calls that
-- change it: the store, the audit log and the executor.
use pi_ops_agent.Base.{
  ℕ, ℤ, ◌+◌, String, Bool, true, false, List, ◌∷◌, Option, none, some, Result, ok, err,
}
use pi_ops_agent.Protocol.{Request}
use pi_ops_agent.Protocol.Operations.{Operation, Error}
use pi_ops_agent.Audit
use pi_ops_agent.Audit.{Log, Encoding}
use pi_ops_agent.RootHelper.Change.{
  Change, ExecutionResult, Credential, Event, AuditEvent, from_peer, Context,
}
use pi_ops_agent.RootHelper.Store.{Store, StateCodec, PersistAnswers, put_change}

-- The interface `Executor`, over the state of the host that it works on; `validate_operation` is
-- there if the executor is an `OperationValidator`.
pub record Executor (W : Type 0) : Type 0 where
  pub validate_operation : Option (Option Operation → W → Error)
  pub prepare : Context → String → Operation → W → Result ExecutionResult × W
  pub execute : Context → String → Operation → ExecutionResult → W → Error × W
  pub verify : Context → String → Operation → ExecutionResult → W → String × Error × W
  pub rollback : Context → String → Operation → ExecutionResult → W → Error × W

-- The fields of `Service` that do not change, the library code that it calls, and what the outside
-- answers: to the call numbered `n`, the clock shows `clock n`, the store's system calls answer
-- `persist n`, and so on.
pub record Env (W : Type 0) : Type 0 where
  -- `Store` and `Audit` are not nil, and neither is `Executor`
  pub has_store_and_audit : Bool
  pub has_executor : Bool
  pub agent_uid : ℕ
  pub approver_uid : ℕ
  pub rollback_timeout : ℤ
  pub executor : Executor W
  pub codec : StateCodec
  pub encoding : Encoding AuditEvent
  pub operation_json : Operation → List ℕ
  pub decode_operation : List ℕ → Result Operation
  pub sha256 : List ℕ → List ℕ
  pub time_text : ℕ → String
  pub clock : ℕ → ℕ
  pub random : ℕ → Result (List ℕ)
  pub persist : ℕ → PersistAnswers
  pub audit : ℕ → Audit.Answers

-- The calls that leave the process, or that make a state durable.
pub data Effect : Type 0 where
  -- `PutChange`, and whether it returned nil
  stored : Change → Bool → Effect
  audited : AuditEvent → Effect
  prepared : String → Operation → Effect
  executed : String → Operation → ExecutionResult → Effect
  verified : String → Operation → ExecutionResult → Effect
  rolled : Context → String → Operation → ExecutionResult → Effect

-- The service's state, the host's, the number of calls made so far, and these calls, the newest
-- first.
pub record Sys (W : Type 0) : Type 0 where
  pub store : Store
  pub log : Log
  pub world : W
  pub tick : ℕ
  pub trace : List Effect

abbrev pub is_nil : Error → Bool
is_nil none = true
is_nil (some e) = false

module _ {W : Type 0} (env : Env W) where
  unfoldable pub put : Change → Sys W → Error × Sys W
  put c s =
      let (e, store) = put_change env.codec (env.persist s.tick) c s.store in
      (e, record s { store = store; tick = s.tick + 1; trace = stored c (is_nil e) ∷ s.trace })

  traced : AuditEvent → Result String → List Effect → List Effect
  traced event (ok id) trace = audited event ∷ trace
  traced event (err e) trace = trace

  unfoldable pub append_event : AuditEvent → Sys W → Result String × Sys W
  unfolding traced
  append_event event s =
      let (r, log) = Audit.append env.encoding (env.audit s.tick) event s.log in
      (r, record s { log = log; tick = s.tick + 1; trace = traced event r s.trace })

  unfoldable pub append_audit : Credential → Request → Event → Sys W → Result String × Sys W
  append_audit peer request event =
      append_event (from_peer peer request.request_id request.method event)

  unfoldable pub call_prepare :
      Context → String → Operation → Sys W → Result ExecutionResult × Sys W
  call_prepare ctx id operation s =
      let (r, world) = env.executor.prepare ctx id operation s.world in
      (r, record s { world = world; tick = s.tick + 1; trace = prepared id operation ∷ s.trace })

  unfoldable pub call_execute :
      Context → String → Operation → ExecutionResult → Sys W → Error × Sys W
  call_execute ctx id operation result s =
      let (e, world) = env.executor.execute ctx id operation result s.world in
      (
        e,
        record s {
          world = world;
          tick = s.tick + 1;
          trace = executed id operation result ∷ s.trace;
        },
      )

  unfoldable pub call_verify :
      Context → String → Operation → ExecutionResult → Sys W → (String × Error) × Sys W
  call_verify ctx id operation result s =
      let (v, e, world) = env.executor.verify ctx id operation result s.world in
      (
        (v, e),
        record s {
          world = world;
          tick = s.tick + 1;
          trace = verified id operation result ∷ s.trace;
        },
      )

  unfoldable pub call_rollback :
      Context → String → Operation → ExecutionResult → Sys W → Error × Sys W
  call_rollback ctx id operation result s =
      let (e, world) = env.executor.rollback ctx id operation result s.world in
      (
        e,
        record s {
          world = world;
          tick = s.tick + 1;
          trace = rolled ctx id operation result ∷ s.trace;
        },
      )

  unfoldable pub read_clock : Sys W → ℕ × Sys W
  read_clock s = (env.clock s.tick, record s { tick = s.tick + 1 })

  unfoldable pub read_random : Sys W → Result (List ℕ) × Sys W
  read_random s = (env.random s.tick, record s { tick = s.tick + 1 })
