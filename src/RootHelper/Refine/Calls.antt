-- ===== src/RootHelper/Refine/Calls.antt =====
-- The calls of the service as steps of the relation.
use pi_ops_agent.RootHelper.Refine.Fresh.{IsFresh, IsDistinct, IsFresh-later, IsFresh-held}
use pi_ops_agent.Base.{◌≡◌, ◌≤◌, refl, ap, Bool, true, ◌∷◌, none, some, arith, string_eq}
use mathlib.Core.Path.{subst}
use pi_ops_agent.Base.{Result-cases, inl, inr}
use pi_ops_agent.Base.Dict.{lookup, insert, lookup-insert_self}
use pi_ops_agent.Protocol.{Request}
use pi_ops_agent.Protocol.Operations.{Operation}
use pi_ops_agent.RootHelper.Change.{Change, ExecutionResult, Credential, Event, from_peer, Context}
use pi_ops_agent.RootHelper.Store.{put_change}
use pi_ops_agent.RootHelper.Machine.{
  Env, Sys, stored, prepared, verified, rolled, is_nil, put, append_event, append_audit,
  call_prepare, call_execute, call_verify, call_rollback,
}
use pi_ops_agent.RootHelper.Spec.{
  View, view, ◌⟶◌, SamePlan, Covers, last_stored, note, advance, call, mutate, Moves, next,
}

module _ {W : Type 0} (env : Env W) where
  pub view-put :
      (c : Change) (s : Sys W)
      → view (put env c s).1 ≡ record {
        changes = insert c.id c s.store.memory.changes;
        trace = stored c (is_nil (put env c s).0) ∷ s.trace;
      }
  unfolding put put_change
  view-put c s = ground arith

  pub tick-put : (c : Change) (s : Sys W) → s.tick ≤ (put env c s).1.tick
  unfolding put
  tick-put c s = omega arith

  pub last_stored-put :
      (c : Change) (s : Sys W) → (put env c s).0 ≡ none → last_stored (put env c s).1.trace ≡ some c
  unfolding put
  last_stored-put c s h = ground arith

  pub last_stored-append_audit :
      (peer : Credential) (request : Request) (event : Event) (s : Sys W)
      → last_stored (append_audit env peer request event s).1.trace ≡ last_stored s.trace
  unfolding append_audit append_event
  last_stored-append_audit peer request event s = ground arith

  module _ (approver : Bool) (v : View) where
    -- The steps lead to the state, and if no random id is given twice, those still to be drawn are
    -- new in it.
    abbrev pub Reached : Sys W → Type 0
    Reached s = Moves env approver v (view s) × (IsDistinct env → IsFresh env s)

    -- A call that changes neither the store nor, but for its effect, the view.
    pub Reached-later :
        (s t : Sys W)
        → Moves env approver v (view t)
        → t.store.memory.changes ≡ s.store.memory.changes
        → s.tick ≤ t.tick
        → Reached s
        → Reached t
    Reached-later s t moves same later r =
        (moves, λ distinct. IsFresh-later env s t same later (r.1 distinct))

    -- The state is reached, and holds the change as it is.
    abbrev pub Holding : Change → Sys W → Type 0
    Holding c s = Reached s × (lookup c.id s.store.memory.changes ≡ some c)

    pub append_audit-Reached :
        (peer : Credential) (request : Request) (event : Event) (s : Sys W)
        → Reached s
        → Reached (append_audit env peer request event s).1
    unfolding append_audit append_event
    append_audit-Reached peer request event s r =
        Reached-later s _
          (elim (Result-cases (append_audit env peer request event s).0) [
            | inl (id, written) ↦
                next r.0
                  (note (from_peer peer request.request_id request.method event) (ground arith))
            | inr (e, unwritten) ↦ subst (Moves env approver v) (ground arith) r.0
          ])
          refl (omega arith) r

    pub append_audit-Holding :
        (c : Change) (peer : Credential) (request : Request) (event : Event) (s : Sys W)
        → Holding c s
        → Holding c (append_audit env peer request event s).1
    unfolding append_audit append_event
    append_audit-Holding c peer request event s (r, held) =
        (append_audit-Reached peer request event s r, held)

    module _ (approved : approver ≡ true) where
      pub put-Holding :
          (c d : Change) (s : Sys W)
          → SamePlan c d
          → c.state ⟶ d.state
          → Holding c s
          → Holding d (put env d s).1
      put-Holding c d s same edge (r, held) = (
        (
          next r.0 (advance c d (is_nil (put env d s).0) approved held same edge (view-put d s)),
          λ distinct.
              IsFresh-held env c d s (put env d s).1 (ap (λ (w : View). w.changes) (view-put d s))
                (tick-put d s) same.id held (r.1 distinct),
        ),
        rw (ap (λ (w : View). w.changes) (view-put d s))
            (lookup-insert_self d.id d s.store.memory.changes),
      )

      pub call_prepare-Holding :
          (c : Change) (ctx : Context) (operation : Operation) (s : Sys W)
          → Holding c s
          → Holding c (call_prepare env ctx c.id operation s).1
      unfolding call_prepare
      call_prepare-Holding c ctx operation s (r, held) = (
        Reached-later s _ (next r.0 (call (prepared c.id operation) approved tt refl)) refl
            (omega arith) r,
        held,
      )

      pub call_verify-Holding :
          (c : Change) (ctx : Context) (operation : Operation) (result : ExecutionResult)
          (s : Sys W)
          → Holding c s
          → Holding c (call_verify env ctx c.id operation result s).1
      unfolding call_verify
      call_verify-Holding c ctx operation result s (r, held) = (
        Reached-later s _ (next r.0 (call (verified c.id operation result) approved tt refl)) refl
            (omega arith) r,
        held,
      )

      pub call_rollback-Holding :
          (c : Change) (ctx : Context) (operation : Operation) (result : ExecutionResult)
          (s : Sys W)
          → Holding c s
          → Holding c (call_rollback env ctx c.id operation result s).1
      unfolding call_rollback
      call_rollback-Holding c ctx operation result s (r, held) = (
        Reached-later s _ (next r.0 (call (rolled ctx c.id operation result) approved tt refl)) refl
            (omega arith) r,
        held,
      )

      pub call_execute-Holding :
          (c : Change) (ctx : Context) (operation : Operation) (result : ExecutionResult)
          (s : Sys W)
          → Covers env.approver_uid c result
          → last_stored s.trace ≡ some c
          → Holding c s
          → Holding c (call_execute env ctx c.id operation result s).1
      unfolding call_execute
      call_execute-Holding c ctx operation result s covers last (r, held) = (
        Reached-later s _ (next r.0 (mutate c operation result approved held last covers refl)) refl
            (omega arith) r,
        held,
      )
