-- ===== src/RootHelper/Guarantees/Committed/Calls.antt =====
-- The calls and the failing ends of `approve` of internal/roothelper/service.go.
use pi_ops_agent.Base.{◌≡◌, refl, String, Bool, true, false, ◌∷◌, some, none, arith, ok, string_eq}
use pi_ops_agent.Base.Dict.{lookup}
use pi_ops_agent.Protocol.{Request, Response}
use pi_ops_agent.Protocol.Operations.{Operation}
use pi_ops_agent.RootHelper.Change.{Change, ExecutionResult, Credential, Context, Event, from_peer}
use pi_ops_agent.RootHelper.Store.Durable.{put_change_durable}
use pi_ops_agent.RootHelper.Machine.{
  Env, Sys, Effect, stored, audited, put, append_audit, append_event,
}
use pi_ops_agent.RootHelper.Handler.{pure}
use pi_ops_agent.RootHelper.Handler.Succeeds.{Succeeds, refused, Succeeds-perform}
use pi_ops_agent.RootHelper.Service.Failure.{report_failure, fail_change, handle_failure}
use pi_ops_agent.RootHelper.Service.Approve.{preparation_failed}

abbrev pub noted : Credential → Request → Event → Effect
noted peer request event = audited (from_peer peer request.request_id request.method event)

module _ {W : Type 0} (env : Env W) where
  pub put-trace :
      (c : Change) (s : Sys W)
      → (put env c s).0 ≡ none
      → (put env c s).1.trace ≡ stored c true ∷ s.trace
  unfolding put
  put-trace c s done = ground arith

  pub put-lookup :
      (c : Change) (s : Sys W) → lookup c.id (put env c s).1.store.memory.changes ≡ some c
  unfolding put
  put-lookup c s = (put_change_durable env.codec (env.persist s.tick) c s.store).0

  pub append_audit-trace :
      (peer : Credential) (request : Request) (event : Event) (s : Sys W) (id : String)
      → (append_audit env peer request event s).0 ≡ ok id
      → (append_audit env peer request event s).1.trace ≡ noted peer request event ∷ s.trace
  unfolding append_audit append_event
  append_audit-trace peer request event s id done = ground arith

module _ {W : Type 0} (env : Env W) (peer : Credential) (request : Request) (now : String)
    (S : Response → Sys W → Type 0) where
  report_failure-Succeeds :
      (c : Change) (s : Sys W) → Succeeds S (report_failure env peer request c s)
  unfolding report_failure pure
  report_failure-Succeeds c s =
      Succeeds-perform S _ _ s (Succeeds-perform S _ _ _ (refused S _ _ refl))

  fail_change-Succeeds :
      (undoes : Bool) (operation : Operation) (result : ExecutionResult) (c : Change) (s : Sys W)
      → Succeeds S (fail_change env undoes peer request operation result c s)
  unfolding fail_change
  fail_change-Succeeds false operation result c s = report_failure-Succeeds c s
  fail_change-Succeeds true operation result c s =
      Succeeds-perform S _ _ s (Succeeds-perform S _ _ _ (report_failure-Succeeds _ _))

  pub handle_failure-Succeeds :
      (operation : Operation) (result : ExecutionResult) (message : String) (c : Change) (s : Sys W)
      → Succeeds S (handle_failure env peer request now operation result message c s)
  unfolding handle_failure
  handle_failure-Succeeds operation result message c s =
      fail_change-Succeeds result.rollback_available operation result _ s

  pub preparation_failed-Succeeds :
      (ctx : Context) (c : Change) (s : Sys W)
      → Succeeds S (preparation_failed env ctx peer request now c s)
  unfolding preparation_failed pure
  preparation_failed-Succeeds ctx c s =
      Succeeds-perform S _ _ s (Succeeds-perform S _ _ _ (refused S _ _ refl))
