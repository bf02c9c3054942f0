-- ===== src/RootHelper/Guarantees/Committed/Stages.antt =====
-- What each stage of `approve` of internal/roothelper/service.go has done when it succeeds.
use pi_ops_agent.Base.{◌≡◌, refl, String, true, List, ◌∷◌, none, some, Result, ok, err, string_eq}
use pi_ops_agent.Base.Dict.{lookup}
use pi_ops_agent.Protocol.{Request, Response, executing, verifying, committed}
use pi_ops_agent.Protocol.Operations.{Operation, Error, parse_operation}
use pi_ops_agent.RootHelper.Change.{
  Change, ExecutionResult, Credential, Context, change_approved, change_execution_started,
  change_committed,
}
use pi_ops_agent.RootHelper.Machine.{
  Env, Sys, Effect, stored, prepared, executed, verified, put, append_audit, append_event,
  call_prepare, call_execute, call_verify,
}
use pi_ops_agent.RootHelper.Handler.{pure}
use pi_ops_agent.RootHelper.Handler.Succeeds.{
  Succeeds, Succeeds-attempt, Succeeds-attempt_value, Succeeds-perform, Succeeds-check,
}
use pi_ops_agent.RootHelper.Service.{with_state}
use pi_ops_agent.RootHelper.Service.Approve.{
  commit_change, verification_text, after_verify, verify_change, after_execute, execute_change,
  after_prepare, approve_change,
}
use pi_ops_agent.RootHelper.Guarantees.Committed.Calls.{
  noted, put-trace, put-lookup, append_audit-trace, handle_failure-Succeeds,
  preparation_failed-Succeeds,
}

-- The change as it is stored on the way to the commit.
abbrev pub as_covered : String → ExecutionResult → Change → Change
as_covered now result c = record (with_state executing now c) {
  backup_refs = result.backup_refs;
  rollback_data = result.rollback_data;
  rollback_available = result.rollback_available;
}

module _ {W : Type 0} (env : Env W) (ctx : Context) (peer : Credential) (request : Request)
    (now : String) where
  abbrev pub as_committed : ExecutionResult → String → Change → Change
  as_committed result text c =
      with_state committed now
        (record c { verification = verification_text env ctx peer request now result text })

  module _ (S : Response → Sys W → Type 0) where
    -- A success after a call ends with the commit, of which the rest of the proof makes use.
    abbrev pub Commits : Change → List Effect → Type 0
    Commits c before =
        (r : Response) (s' : Sys W)
        → r.state ≡ some c.state
        → s'.trace
          ≡ noted peer request (change_committed c.id c.plan_hash c.verification c.backup_refs)
            ∷ stored c true
            ∷ before
        → lookup c.id s'.store.memory.changes ≡ some c
        → S r s'

    commit_change-Succeeds :
        (c : Change) (s : Sys W)
        → Commits c s.trace
        → Succeeds S (commit_change env ctx peer request now c s)
    unfolding commit_change pure append_audit append_event
    commit_change-Succeeds c s h =
        Succeeds-check S _ _ _ s (λ e. refl)
          (λ taken.
            Succeeds-attempt S _ _ _ _ (λ e. refl)
              (λ id written success.
                h _ _ refl
                  (rw
                    (
                      append_audit-trace env peer request _ (put env c s).1 id written,
                      put-trace env c s taken,
                    )
                    refl)
                  (put-lookup env c s)))

    after_verify-Succeeds :
        (operation : Operation) (result : ExecutionResult) (c : Change) (text : String) (e : Error)
        (s : Sys W)
        → (e ≡ none → Commits (as_committed result text c) s.trace)
        → Succeeds S (after_verify env ctx peer request now operation result c (text, e) s)
    unfolding after_verify
    after_verify-Succeeds operation result c text (some e) s h =
        handle_failure-Succeeds env peer request now S operation result _ _ s
    after_verify-Succeeds operation result c text none s h = commit_change-Succeeds _ s (h refl)

    verify_change-Succeeds :
        (operation : Operation) (result : ExecutionResult) (c : Change) (s : Sys W)
        → ((w : W)
            → (env.executor.verify ctx c.id operation result w).1 ≡ none
            → Commits
                (as_committed result (env.executor.verify ctx c.id operation result w).0 c)
                (verified c.id operation result ∷ stored c true ∷ s.trace))
        → Succeeds S (verify_change env ctx peer request now operation result c s)
    unfolding verify_change call_verify
    verify_change-Succeeds operation result c s h =
        Succeeds-check S _ (put env c) _ s (λ e. refl)
          (λ taken. Succeeds-perform S _ _ _ (
            after_verify-Succeeds operation result c
              (env.executor.verify ctx c.id operation result (put env c s).1.world).0 _
              (call_verify env ctx c.id operation result (put env c s).1).1
              (λ fine. rw (put-trace env c s taken) (h (put env c s).1.world fine))))

    after_execute-Succeeds :
        (operation : Operation) (result : ExecutionResult) (c : Change) (e : Error) (s : Sys W)
        → (e ≡ none
            → (w : W) → (env.executor.verify ctx c.id operation result w).1 ≡ none
            → let c' = with_state verifying now c in
              Commits
                (as_committed result (env.executor.verify ctx c.id operation result w).0 c')
                (verified c.id operation result ∷ stored c' true ∷ s.trace))
        → Succeeds S (after_execute env ctx peer request now operation result c e s)
    unfolding after_execute
    after_execute-Succeeds operation result c (some e) s h =
        handle_failure-Succeeds env peer request now S operation result _ c s
    after_execute-Succeeds operation result c none s h =
        verify_change-Succeeds operation result _ s (h refl)

    -- What the calls of `Execute` and `Verify` answer before a commit.
    abbrev pub Executes : Operation → ExecutionResult → Change → List Effect → Type 0
    Executes operation result c before =
        let c' = with_state verifying now c in
        (v w : W)
        → (env.executor.execute ctx c.id operation result v).0 ≡ none
        → (env.executor.verify ctx c.id operation result w).1 ≡ none
        → Commits (as_committed result (env.executor.verify ctx c.id operation result w).0 c') (
            verified c.id operation result
            ∷ stored c' true
            ∷ executed c.id operation result
            ∷ noted peer request
                (change_execution_started c.id c.plan_hash c.backup_refs c.rollback_available)
            ∷ stored c true
            ∷ before)

    execute_change-Succeeds :
        (operation : Operation) (result : ExecutionResult) (c : Change) (s : Sys W)
        → Executes operation result c s.trace
        → Succeeds S (execute_change env ctx peer request now operation result c s)
    unfolding execute_change call_execute
    execute_change-Succeeds operation result c s h =
        let started =
          change_execution_started c.id c.plan_hash c.backup_refs c.rollback_available in
        let later = (append_audit env peer request started (put env c s).1).1 in
        Succeeds-check S _ (put env c) _ s (λ e. refl)
          (λ taken.
            Succeeds-attempt S _ (append_audit env peer request started) _ (put env c s).1
              (λ e. refl)
              (λ id written. Succeeds-perform S _ _ _ (
                after_execute-Succeeds operation result c _
                  (call_execute env ctx c.id operation result later).1
                  (λ ran w fine.
                    rw
                      (
                        append_audit-trace env peer request started (put env c s).1 id written,
                        put-trace env c s taken,
                      )
                      (h _ w ran fine)))))

    after_prepare-Succeeds :
        (operation : Operation) (c : Change) (answer : Result ExecutionResult) (s : Sys W)
        → ((result : ExecutionResult)
            → answer ≡ ok result
            → Executes operation result (as_covered now result c) s.trace)
        → Succeeds S (after_prepare env ctx peer request now operation c answer s)
    unfolding after_prepare
    after_prepare-Succeeds operation c (err e) s h =
        preparation_failed-Succeeds env peer request now S ctx _ s
    after_prepare-Succeeds operation c (ok result) s h =
        execute_change-Succeeds operation result _ s (h result refl)

    pub approve_change-Succeeds :
        (c : Change) (s : Sys W)
        → ((operation : Operation) (result : ExecutionResult) (u : W)
            → parse_operation env.decode_operation c.operation ≡ ok operation
            → (env.executor.prepare ctx c.id operation u).0 ≡ ok result
            → Executes operation result (as_covered now result c) (
                prepared c.id operation
                ∷ noted peer request (change_approved c.id c.plan_hash)
                ∷ stored c true
                ∷ s.trace))
        → Succeeds S (approve_change env ctx peer request now c s)
    unfolding approve_change call_prepare
    approve_change-Succeeds c s h =
        let event = change_approved c.id c.plan_hash in
        let later = (append_audit env peer request event (put env c s).1).1 in
        Succeeds-check S _ (put env c) _ s (λ e. refl)
          (λ taken.
            Succeeds-attempt S _ (append_audit env peer request event) _ (put env c s).1 (λ e. refl)
              (λ id written.
                Succeeds-attempt_value S _ _ _ _ (λ e. refl)
                  (λ operation reads. Succeeds-perform S _ _ _ (
                    after_prepare-Succeeds operation c _
                      (call_prepare env ctx c.id operation later).1
                      (λ result done.
                        rw
                          (
                            append_audit-trace env peer request event (put env c s).1 id written,
                            put-trace env c s taken,
                          )
                          (h operation result _ reads done))))))
