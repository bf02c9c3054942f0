-- ===== src/RootHelper/Store.antt =====
-- internal/roothelper/store.go: the changes and the cached responses, in memory and in state.json.
pub mod Durable
use pi_ops_agent.Base.{
  ℕ, String, ◌<>◌, Bool, true, false, ◌&&◌, List, [], ◌∷◌, Option, none, some, Result, ok, err,
  take,
}
use pi_ops_agent.Base.{◌==◌, string_eq, nat_eq, if◌then◌else◌}
use pi_ops_agent.Base.Dict.{Dict, lookup, insert}
use pi_ops_agent.Protocol.{Response}
use pi_ops_agent.Protocol.Operations.{Error}
use pi_ops_agent.RootHelper.Change.{Change, RequestRecord, PersistedState}

-- The state in memory, and the contents of state.json.
pub record Store : Type 0 where
  pub memory : PersistedState
  pub disk : Option (List ℕ)

-- `encoding/json` on the whole state; a missing map is an empty one.
pub record StateCodec : Type 0 where
  pub marshal_state : PersistedState → Result (List ℕ)
  pub unmarshal_state : List ℕ → Result PersistedState

-- The errors that the system calls of one `persistLocked` answer, and how many bytes of the
-- temporary file a `Write` or a `Sync` that fails leaves.
pub record PersistAnswers : Type 0 where
  pub create_error : Error
  pub chmod_error : Error
  pub write_error : Error
  pub kept : ℕ
  pub sync_error : Error
  pub close_error : Error
  pub rename_error : Error
  pub open_dir_error : Error
  pub sync_dir_error : Error

-- `if err := a; err != nil { return err }`
infixr 20 ◌or_else◌
abbrev pub ◌or_else◌ : Error → Error → Error
none or_else e = e
some x or_else e = some x

-- What the temporary file holds after a call that may fail, and the error so far.
abbrev pub Temporary : Type 0
Temporary = Error × List ℕ

-- `Write` and `Sync`, which make the bytes those of the file if they succeed.
abbrev filled : ℕ → List ℕ → Error → Temporary
filled kept payload none = (none, payload)
filled kept payload (some e) = (some e, take kept payload)

infixl 15 ◌then◌
abbrev ◌then◌ : Temporary → (List ℕ → Temporary) → Temporary
(none, content) then next = next content
(some e, content) then next = (some e, content)

-- The temporary file is made, written, synced and closed before it takes the place of state.json.
prepare_temporary : PersistAnswers → List ℕ → Temporary
prepare_temporary a payload =
    (a.create_error, [])
    then (λ content. (a.chmod_error, content))
    then (λ _. filled a.kept payload a.write_error)
    then (λ content. filled a.kept content a.sync_error)
    then (λ content. (a.close_error, content))

-- The rename puts what the temporary file holds in the place of state.json.
rename_temporary : PersistAnswers → List ℕ → Store → Error × Store
rename_temporary a content s = elim a.rename_error [
  | some e ↦ (some e, s)
  | none ↦ (a.open_dir_error or_else a.sync_dir_error, record s { disk = some content })
]

install_temporary : PersistAnswers → Store → Temporary → Error × Store
unfolding rename_temporary
install_temporary a s (some e, content) = (some e, s)
install_temporary a s (none, content) = rename_temporary a content s

-- Records are values here, so that the clones of `Change` and `PutChange` are the value itself.
unfoldable pub find_change : String → Store → Option Change
find_change id s = lookup id s.memory.changes

cached_in : Option RequestRecord → ℕ → String → Result (Option Response)
cached_in none uid fingerprint = ok none
cached_in (some r) uid fingerprint =
    if (r.uid == uid) && (r.fingerprint == fingerprint)
    then ok (some r.response)
    else err "requestId replayed by another peer or with different content"

unfoldable pub cached : String → ℕ → String → Store → Result (Option Response)
unfolding cached_in
cached request_id uid fingerprint s =
    cached_in (lookup request_id s.memory.requests) uid fingerprint

module _ (codec : StateCodec) where
  unfoldable pub persist_locked : PersistAnswers → Store → Error × Store
  unfolding prepare_temporary install_temporary
  persist_locked a s = elim (codec.marshal_state s.memory) [
    | err e ↦ (some e, s)
    | ok payload ↦ install_temporary a s (prepare_temporary a payload)
  ]

  unfoldable pub put_change : PersistAnswers → Change → Store → Error × Store
  unfolding persist_locked
  put_change a c s =
      persist_locked a
        (record s { memory = record s.memory { changes = insert c.id c s.memory.changes } })

  unfoldable pub cache : PersistAnswers → String → ℕ → String → Response → Store → Error × Store
  unfolding persist_locked
  cache a request_id uid fingerprint response s =
      let r : RequestRecord = record {
        uid = uid;
        fingerprint = fingerprint;
        response = response;
      } in
      persist_locked a
        (record s { memory = record s.memory { requests = insert request_id r s.memory.requests } })
