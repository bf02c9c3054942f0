-- ===== src/RootHelper/Guarantees/Examples.antt =====
-- Runs of the service of internal/roothelper/service.go, and its theorems at concrete states.
use pi_ops_agent.Base.{
  ℕ, ◌+◌, ◌≡◌, ◌⊎◌, refl, String, true, [], ◌∷◌, none, some, arith, ok, string_eq, nat_eq, hex_text,
}
use pi_ops_agent.Base.Dict.{lookup, insert}
use pi_ops_agent.Protocol.{Response, change_approve, pending_approval, committed, executing}
use pi_ops_agent.Protocol.Operations.{validate, parse_operation}
use pi_ops_agent.Protocol.Pattern.{unit_pattern}
use pi_ops_agent.Audit
use pi_ops_agent.RootHelper.Change.{Change, request_scope, PersistedState}
use pi_ops_agent.RootHelper.Store.{put_change, cached, find_change, cache}
use pi_ops_agent.RootHelper.Store.Durable.{IsWritten, put_change_durable}
use pi_ops_agent.RootHelper.Recovery.{open_store}
use pi_ops_agent.RootHelper.Machine.{
  Sys, put, append_audit, append_event, call_prepare, call_execute, call_verify,
}
use pi_ops_agent.RootHelper.Handler.{
  ◌>>=◌, pure, attempt, attempt_value, check, perform, require, run,
}
use pi_ops_agent.RootHelper.Service.{is_approver}
use pi_ops_agent.RootHelper.Service.Approve.{approve}
use pi_ops_agent.RootHelper.Service.Dispatch.{handle}
use pi_ops_agent.RootHelper.Spec.{view, Moves}
use pi_ops_agent.RootHelper.Spec.Plan.{Continues}
use pi_ops_agent.RootHelper.Spec.Barrier.{IsBarred}
use pi_ops_agent.RootHelper.Spec.Authority.{IsHarmless}
use pi_ops_agent.RootHelper.Spec.Stored.{IsSound}
use pi_ops_agent.RootHelper.Refine.Handle.{ReadsBack}
use pi_ops_agent.RootHelper.Refine.Fresh.{IsFresh}
use pi_ops_agent.RootHelper.Guarantees.{
  handle-refines, handle-Continues, handle-IsBarred, handle-IsHarmless, open_store-handle,
}
use pi_ops_agent.RootHelper.Guarantees.Replay.{handle-remembered}
use pi_ops_agent.RootHelper.Guarantees.Remember.{handle-remembers}
use pi_ops_agent.RootHelper.Guarantees.Replay.{remembered}
use pi_ops_agent.RootHelper.Service.Dispatch.{fingerprint}
use pi_ops_agent.RootHelper.Guarantees.Committed.{IsCommitted, approve-IsCommitted}
use pi_ops_agent.RootHelper.Guarantees.Fixtures.{
  restart, env_with, env, change_in, holding, asking, human, agent, no_state, no_errors,
}

approved : Response × Sys ℕ
unfolding handle string_eq lookup insert cached run approve ◌>>=◌ require find_change pure check put
    put_change attempt append_audit append_event Audit.append attempt_value parse_operation validate
    unit_pattern perform call_prepare call_execute call_verify cache
approved = handle env (request_scope 100) human (asking change_approve) (holding pending_approval)

-- An approval runs to the commit, with one mutation of the host.
run_approve :
    (approved.0.success ≡ true) × (approved.0.state ≡ some committed) × (approved.1.world ≡ 1)
unfolding approved
run_approve = (refl, refl, refl)

holding-IsSound :
    (m : PersistedState) → IsSound (env_with m) (holding pending_approval).store.memory.changes
unfolding parse_operation validate string_eq unit_pattern hex_text
holding-IsSound m = ((refl, (restart, refl)), tt)

-- The approval's request carries no operation.
approve-ReadsBack : (m : PersistedState) → ReadsBack (env_with m) (asking change_approve)
approve-ReadsBack m = record { decode-json = λ o is valid. cc is }

holding-IsFresh : (m : PersistedState) → IsFresh (env_with m) (holding pending_approval)
unfolding lookup string_eq hex_text
holding-IsFresh m = record {
  unused = λ n bytes later drawn. let is : 171 ∷ [] ≡ bytes = cc drawn in rw (← is) refl;
}

handle-refines_example : Moves env (is_approver env 1000) (view (holding pending_approval)) (
    view
      (handle env (request_scope 100) human (asking change_approve) (holding pending_approval)).1)
handle-refines_example =
    handle-refines env (request_scope 100) human (asking change_approve)
      (approve-ReadsBack no_state) (holding pending_approval) (holding-IsSound no_state)
      (holding-IsFresh no_state)

handle-Continues_example : Continues (change_in pending_approval) (
    lookup "change-01"
      (handle env
        (request_scope 100)
        human
        (asking change_approve)
        (holding pending_approval)).1.store.memory.changes)
unfolding lookup string_eq
handle-Continues_example =
    handle-Continues env (request_scope 100) human (asking change_approve)
      (approve-ReadsBack no_state) (holding pending_approval) (holding-IsSound no_state)
      (holding-IsFresh no_state) "change-01" (change_in pending_approval) refl

handle-IsBarred_example :
    IsBarred 1000
      (handle env
        (request_scope 100)
        human
        (asking change_approve)
        (holding pending_approval)).1.trace
handle-IsBarred_example =
    handle-IsBarred env (request_scope 100) human (asking change_approve)
      (approve-ReadsBack no_state) (holding pending_approval) (holding-IsSound no_state)
      (holding-IsFresh no_state) tt

handle-IsHarmless_example : IsHarmless (view (holding pending_approval)) (
    view
      (handle env (request_scope 100) agent (asking change_approve) (holding pending_approval)).1)
unfolding is_approver
handle-IsHarmless_example =
    handle-IsHarmless env (request_scope 100) agent (asking change_approve)
      (approve-ReadsBack no_state) (holding pending_approval) (holding-IsSound no_state)
      (holding-IsFresh no_state) refl

-- The state of the approval, and the same service with a codec that reads it back.
abbrev memory : PersistedState
memory = approved.1.store.memory

approved_again : Response × Sys ℕ
unfolding handle string_eq lookup insert cached run approve ◌>>=◌ require find_change pure check put
    put_change attempt append_audit append_event Audit.append attempt_value parse_operation validate
    unit_pattern perform call_prepare call_execute call_verify cache
approved_again =
    handle (env_with memory) (request_scope 100) human (asking change_approve)
      (holding pending_approval)

-- This codec sets nothing in lines of its own.
open_store-handle_example :
    open_store
      (env_with memory).codec
      (parse_operation (env_with memory).decode_operation)
      none
      (ok (some (1 ∷ [])))
    ≡ ok (record { memory = memory; disk = some (1 ∷ []) })
unfolding approved approved_again
open_store-handle_example =
    open_store-handle (env_with memory) (request_scope 100) human (asking change_approve)
      (approve-ReadsBack memory) (holding pending_approval) (holding-IsSound memory)
      (holding-IsFresh memory) (1 ∷ []) memory (λ p. p) refl refl (λ p. refl)

approve-IsCommitted_example :
    let (r, s) =
      run
        (approve env (request_scope 100) human (asking change_approve) "now")
        (holding pending_approval) in
    IsCommitted env
      (request_scope 100)
      human
      (asking change_approve)
      "now"
      (holding pending_approval)
      r
      s
unfolding string_eq lookup insert run approve ◌>>=◌ require find_change pure check put put_change
    attempt append_audit append_event Audit.append attempt_value parse_operation validate
    unit_pattern perform call_prepare call_execute call_verify
approve-IsCommitted_example =
    approve-IsCommitted env (request_scope 100) human (asking change_approve) "now"
      (holding pending_approval) refl

handle-remembers_example :
    remembered env (asking change_approve) approved.1
    ≡ some (record { uid = 1000; fingerprint = "07"; response = approved.0 })
unfolding approved lookup string_eq hex_text fingerprint
handle-remembers_example =
    handle-remembers env (request_scope 100) human (asking change_approve)
      (holding pending_approval)
      (record { store_and_audit = refl; executor = refl; early = omega arith }) refl refl

-- The same bytes again, from the same peer, give the response of the first run.
handle-remembered_example :
    handle env (request_scope 100) human (asking change_approve) approved.1
    ≡ (approved.0, record approved.1 { tick = approved.1.tick + 1 })
unfolding approved lookup string_eq nat_eq hex_text
handle-remembered_example =
    handle-remembered env (request_scope 100) human (asking change_approve) approved.1
      (record { uid = 1000; fingerprint = "07"; response = approved.0 })
      (record { store_and_audit = refl; executor = refl; early = omega arith }) refl

put_change_durable_example :
    let (e, s) = put_change env.codec no_errors (change_in committed) (holding executing).store in
    (lookup "change-01" s.memory.changes ≡ some (change_in committed))
    × (((e ≡ none) × IsWritten env.codec s)
        ⊎ ((text : String) × (e ≡ some text) × ((s.disk ≡ none) ⊎ IsWritten env.codec s)))
put_change_durable_example =
    put_change_durable env.codec no_errors (change_in committed) (holding executing).store
