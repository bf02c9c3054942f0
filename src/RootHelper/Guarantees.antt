-- ===== src/RootHelper/Guarantees.antt =====
-- What a call of `Handle` of internal/roothelper/service.go guarantees.
pub mod Replay
pub mod Remember
pub mod Restart
pub mod Committed
pub mod Fixtures
mod Examples
use pi_ops_agent.Base.{
  ℕ, ◌≡◌, refl, ap, String, Bool, false, List, [], Option, none, some, arith, Result, ok, err,
  Result-cases, Option-cases, inl, inr, string_eq,
}
use mathlib.Core.Path.{subst}
use pi_ops_agent.Base.Dict.{lookup}
use pi_ops_agent.Protocol.{Request}
use pi_ops_agent.Protocol.Operations.{Error, parse_operation}
use pi_ops_agent.RootHelper.Change.{Change, Credential, Context, PersistedState}
use pi_ops_agent.RootHelper.Store.{Store}
use pi_ops_agent.RootHelper.Recovery.{check_changes, open_store}
use pi_ops_agent.RootHelper.Machine.{Env, Sys}
use pi_ops_agent.RootHelper.Service.{is_approver}
use pi_ops_agent.RootHelper.Service.Dispatch.{handle}
use pi_ops_agent.RootHelper.Spec.{view, Moves}
use pi_ops_agent.RootHelper.Spec.Plan.{Continues, Moves-Continues}
use pi_ops_agent.RootHelper.Spec.Barrier.{IsBarred, Moves-IsBarred}
use pi_ops_agent.RootHelper.Spec.Authority.{IsHarmless, Moves-IsHarmless}
use pi_ops_agent.RootHelper.Spec.Stored.{
  IsSound, IsSound-IsKeyed, IsSound-check_changes, Moves-IsSound, check_changes-IsSound,
  reformatted, reformatted-IsSound,
}
use pi_ops_agent.RootHelper.Refine.Handle.{ReadsBack, handle-Moves}
use pi_ops_agent.RootHelper.Refine.Fresh.{IsFresh}

module _ {W : Type 0} (env : Env W) where
  open_store-IsSound :
      (payload : List ℕ) (state : PersistedState)
      → env.codec.unmarshal_state payload ≡ ok state
      → IsSound env state.changes
      → open_store env.codec (parse_operation env.decode_operation) none (ok (some payload))
        ≡ ok (record { memory = state; disk = some payload })
  unfolding open_store
  open_store-IsSound payload state read sound =
      ground (arith, check_changes-IsSound env state.changes sound)

  -- In a store that `OpenStore` returns every change stands under its id with an operation that
  -- can be read.
  pub IsSound-open_store :
      (e : Error) (file : Result (Option (List ℕ))) (s : Store)
      → open_store env.codec (parse_operation env.decode_operation) e file ≡ ok s
      → IsSound env s.memory.changes
  unfolding open_store
  IsSound-open_store (some e) file s h = cc
  IsSound-open_store none (err e) s h = cc
  IsSound-open_store none (ok none) s h =
      let is : record { memory = record { changes = []; requests = [] }; disk = none } ≡ s = cc h in
      subst (λ (x : Store). IsSound env x.memory.changes) is tt
  IsSound-open_store none (ok (some payload)) s h =
      elim (Result-cases (env.codec.unmarshal_state payload)) [
        | inr (e, unread) ↦ ground arith
        | inl (state, read) ↦
            elim (Option-cases
              (check_changes (parse_operation env.decode_operation) state.changes)) [
                | inr (e, invalid) ↦ ground arith
                | inl valid ↦
                    let is : record { memory = state; disk = some payload } ≡ s = ground arith in
                    subst (λ (x : Store). IsSound env x.memory.changes) is
                      (IsSound-check_changes env state.changes valid)
              ]
      ]

module _ {W : Type 0} (env : Env W) (ctx : Context) (peer : Credential) (request : Request)
    (reads : ReadsBack env request) (s : Sys W) (sound : IsSound env s.store.memory.changes)
    (fresh : IsFresh env s) where
  -- Let the changes of the store stand under their ids with operations that can be read, the
  -- operation of the request be read back as it was written, and the random ids still to be drawn
  -- not be those of changes. Whatever the outside answers, a call of `Handle` does only what the
  -- step relation of RootHelper/Spec allows.
  pub handle-refines :
      Moves env (is_approver env peer.uid) (view s) (view (handle env ctx peer request s).1)
  handle-refines = handle-Moves env ctx peer request reads s (IsSound-IsKeyed env _ sound) fresh

  -- Let the changes of the store stand under their ids with operations that can be read, the
  -- operation of the request be read back as it was written, and the random ids still to be drawn
  -- not be those of changes. A change that the store holds is still there after a call of
  -- `Handle`, with the id, the plan hash, the kind, the summary, the operation and the time of its
  -- preparation, and its state has only followed edges of the state diagram.
  pub handle-Continues :
      (id : String) (c : Change)
      → lookup id s.store.memory.changes ≡ some c
      → Continues c (lookup id (handle env ctx peer request s).1.store.memory.changes)
  handle-Continues id c there =
      Moves-Continues env (is_approver env peer.uid) id (view s) _ c handle-refines there

  -- Let the changes of the store stand under their ids with operations that can be read, the
  -- operation of the request be read back as it was written, and the random ids still to be drawn
  -- not be those of changes. If `Execute` was so far called only behind the mutation barrier, it
  -- is so after a call of `Handle`: the last `PutChange` before it succeeded, and stored this
  -- change as executing and approved by the approver's UID, with the backup references, the
  -- rollback data and the availability that `Execute` is given.
  pub handle-IsBarred :
      IsBarred env.approver_uid s.trace
      → IsBarred env.approver_uid (handle env ctx peer request s).1.trace
  handle-IsBarred = Moves-IsBarred env (is_approver env peer.uid) (view s) _ handle-refines

  -- Let the changes of the store stand under their ids with operations that can be read, the
  -- operation of the request be read back as it was written, and the random ids still to be drawn
  -- not be those of changes. A peer that is not the approver leaves every change as it is, adds at
  -- most changes that are pending approval, and causes no call of `Prepare`, `Execute`, `Verify`
  -- and `Rollback`.
  pub handle-IsHarmless :
      is_approver env peer.uid ≡ false
      → IsHarmless (view s) (view (handle env ctx peer request s).1)
  handle-IsHarmless stranger = Moves-IsHarmless env (view s) _ (rw stranger at handle-refines)

  -- Let the changes of the store stand under their ids with operations that can be read, the
  -- operation of the request be read back as it was written, and the random ids still to be drawn
  -- not be those of changes. `OpenStore` accepts the state that a call of `Handle` leaves as it is
  -- read back, the embedded JSON set in other lines, if this does not change what an operation is
  -- decoded to.
  pub open_store-handle :
      (payload : List ℕ) (state : PersistedState) (format : List ℕ → List ℕ)
      → env.codec.unmarshal_state payload ≡ ok state
      → state.changes
        ≡ reformatted env format (handle env ctx peer request s).1.store.memory.changes
      → ((p : List ℕ) → env.decode_operation (format p) ≡ env.decode_operation p)
      → open_store env.codec (parse_operation env.decode_operation) none (ok (some payload))
        ≡ ok (record { memory = state; disk = some payload })
  open_store-handle payload state format read same unchanged =
      let kept = Moves-IsSound env (is_approver env peer.uid) (view s) _ handle-refines sound in
      open_store-IsSound env payload state read
        (rw same (reformatted-IsSound env format _ unchanged kept))
