-- ===== src/RootHelper/Recovery.antt =====
-- internal/roothelper/store.go: what a start does with the state that it finds.
use pi_ops_agent.Base.{
  ℕ, String, ◌<>◌, Bool, true, false, List, [], ◌∷◌, Option, none, some, Result, ok, err,
}
use pi_ops_agent.Base.{◌==◌, string_eq, if◌then◌else◌}
use pi_ops_agent.Base.Dict.{Dict}
use pi_ops_agent.Protocol.{ChangeState, pending_approval, rejected, preparing, executing, verifying}
use pi_ops_agent.Protocol.{committed, rolling_back, rolled_back, recovery_required}
use pi_ops_agent.Protocol.Operations.{Error, Operation}
use pi_ops_agent.RootHelper.Change.{Change, PersistedState}
use pi_ops_agent.RootHelper.Store.{Store, StateCodec, PersistAnswers, persist_locked, ◌or_else◌}

-- The cases of the `switch` in `recoverInterrupted`.
abbrev pub interrupted : ChangeState → Bool
interrupted preparing = true
interrupted executing = true
interrupted verifying = true
interrupted rolling_back = true
interrupted _ = false

-- The constants' values.
abbrev pub state_text : ChangeState → String
state_text pending_approval = "PENDING_APPROVAL"
state_text rejected = "REJECTED"
state_text preparing = "PREPARING"
state_text executing = "EXECUTING"
state_text verifying = "VERIFYING"
state_text committed = "COMMITTED"
state_text rolling_back = "ROLLING_BACK"
state_text rolled_back = "ROLLED_BACK"
state_text recovery_required = "RECOVERY_REQUIRED"

unfoldable pub recover_change : String → Change → Change
recover_change now c =
    if interrupted c.state
    then record c {
      state = recovery_required;
      updated_at = now;
      last_error =
          "helper restarted while change was "
          <> (state_text c.state <> "; operator review or explicit rollback is required");
    }
    else c

unfoldable pub recover_changes : String → Dict String Change → Dict String Change
recover_changes now [] = []
recover_changes now ((id, c) ∷ cs) = (id, recover_change now c) ∷ recover_changes now cs

-- The changes that the loop collects, in the order in which the map gives them.
unfoldable pub recovered : String → Dict String Change → List Change
recovered now [] = []
recovered now ((id, c) ∷ cs) =
    let rest = recovered now cs in if interrupted c.state then recover_change now c ∷ rest else rest

module _ (codec : StateCodec) where
  unfoldable pub recover_persisted : List Change → Error × Store → Result (List Change) × Store
  recover_persisted cs (none, s) = (ok cs, s)
  recover_persisted cs (some e, s) = (err e, s)

  unfoldable pub recover_listed :
      PersistAnswers → List Change → Store → Result (List Change) × Store
  unfolding recover_persisted persist_locked
  recover_listed a [] s = (ok [], s)
  recover_listed a (c ∷ cs) s = recover_persisted (c ∷ cs) (persist_locked codec a s)

  unfoldable pub recover_interrupted :
      PersistAnswers → String → Store → Result (List Change) × Store
  unfolding recover_listed recover_changes recovered
  recover_interrupted a now s =
      recover_listed a (recovered now s.memory.changes)
        (record s { memory = record s.memory { changes = recover_changes now s.memory.changes } })

module _ (parse_stored_operation : List ℕ → Result Operation) where
  unfoldable pub check_stored : Result Operation → String → Error
  check_stored (ok o) id = none
  check_stored (err e) id = some ("invalid persisted operation for \"" <> (id <> ("\": " <> e)))

  -- The loop at the end of `OpenStore`.
  unfoldable pub check_changes : Dict String Change → Error
  unfolding check_stored
  check_changes [] = none
  check_changes ((id, c) ∷ cs) =
      if c.id == id
      then check_stored (parse_stored_operation c.operation) id or_else check_changes cs
      else some ("invalid persisted change \"" <> (id <> "\""))

checked : List ℕ → PersistedState → Error → Result Store
checked payload state none = ok (record { memory = state; disk = some payload })
checked payload state (some e) = err e

module _ (codec : StateCodec) (parse_stored_operation : List ℕ → Result Operation) where
  -- What a start finds: the directory's error, and state.json, its absence or an error.
  unfoldable pub open_store : Error → Result (Option (List ℕ)) → Result Store
  unfolding check_changes checked
  open_store (some e) file = err e
  open_store none (err e) = err e
  open_store none (ok none) =
      ok (record { memory = record { changes = []; requests = [] }; disk = none })
  open_store none (ok (some payload)) = elim (codec.unmarshal_state payload) [
    | err e ↦ err ("decode root-helper state: " <> e)
    | ok state ↦ checked payload state (check_changes parse_stored_operation state.changes)
  ]
