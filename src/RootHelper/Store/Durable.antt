-- ===== src/RootHelper/Store/Durable.antt =====
-- What `persistLocked` of internal/roothelper/store.go leaves in state.json.
use pi_ops_agent.Base.{
  String, ◌≡◌, ◌⊎◌, inl, inr, ℕ, List, none, some, arith, ok, Result-cases, Option-cases, string_eq,
}
use pi_ops_agent.Base.Dict.{lookup, insert, lookup-insert_self}
use pi_ops_agent.RootHelper.Change.{Change}
use pi_ops_agent.RootHelper.Store.{
  Store, StateCodec, PersistAnswers, persist_locked, put_change, prepare_temporary,
}

-- state.json is the whole encoding of the memory.
abbrev pub IsWritten : StateCodec → Store → Type 0
IsWritten codec s =
    (payload : List ℕ) × (codec.marshal_state s.memory ≡ ok payload) × (s.disk ≡ some payload)

module _ (codec : StateCodec) (a : PersistAnswers) where
  -- A temporary file that is ready for the rename holds the whole payload.
  prepare_temporary-whole :
      (payload : List ℕ)
      → (prepare_temporary a payload).0 ≡ none
      → (prepare_temporary a payload).1 ≡ payload
  unfolding prepare_temporary
  prepare_temporary-whole payload ready = ground arith

  -- Whatever the system calls answer, persisting leaves the memory as it is.
  pub persist_locked-memory : (s : Store) → (persist_locked codec a s).1.memory ≡ s.memory
  unfolding persist_locked
  persist_locked-memory s = ground arith

  -- state.json is as it was, or it is the whole encoding of the memory; it is never anything else.
  pub persist_locked_atomic :
      (s : Store)
      → ((persist_locked codec a s).1.disk ≡ s.disk)
        ⊎ ((payload : List ℕ) × (codec.marshal_state s.memory ≡ ok payload)
            × ((persist_locked codec a s).1.disk ≡ some payload))
  unfolding persist_locked
  persist_locked_atomic s = elim (Result-cases (codec.marshal_state s.memory)) [
    | inr (e, unencoded) ↦ inl (ground arith)
    | inl (payload, encoded) ↦ elim (Option-cases (prepare_temporary a payload).0) [
      | inr (e, unwritten) ↦ inl (ground arith)
      | inl written ↦ elim (Option-cases a.rename_error) [
        | inr (e, unnamed) ↦ inl (ground arith)
        | inl renamed ↦
            inr (payload, encoded, ground (arith, prepare_temporary-whole payload written))
      ]
    ]
  ]

  persist_locked_written :
      (s : Store)
      → (persist_locked codec a s).0 ≡ none
      → (payload : List ℕ) × (codec.marshal_state (persist_locked codec a s).1.memory ≡ ok payload)
        × ((persist_locked codec a s).1.disk ≡ some payload)
  unfolding persist_locked
  persist_locked_written s fine = elim (Result-cases (codec.marshal_state s.memory)) [
    | inr (e, unencoded) ↦ ground arith
    | inl (payload, encoded) ↦ elim (Option-cases (prepare_temporary a payload).0) [
      | inr (e, unwritten) ↦ ground arith
      | inl written ↦ elim (Option-cases a.rename_error) [
        | inr (e, unnamed) ↦ ground arith
        | inl renamed ↦
            (payload, ground arith, ground (arith, prepare_temporary-whole payload written))
      ]
    ]
  ]

  abbrev changed : Change → Store → Store
  changed c s = record s { memory = record s.memory { changes = insert c.id c s.memory.changes } }

  -- After `PutChange` the memory holds the change. Where it returns nil, state.json is the
  -- encoding of that memory; where it returns an error, state.json is as it was or that encoding.
  -- A `Write` or a `Sync` that fails may leave any part of the bytes in the temporary file.
  pub put_change_durable :
      (c : Change) (s : Store)
      → (lookup c.id (put_change codec a c s).1.memory.changes ≡ some c)
        × ((((put_change codec a c s).0 ≡ none) × IsWritten codec (put_change codec a c s).1)
            ⊎ ((e : String) × ((put_change codec a c s).0 ≡ some e)
                × (((put_change codec a c s).1.disk ≡ s.disk)
                    ⊎ IsWritten codec (put_change codec a c s).1)))
  unfolding put_change
  put_change_durable c s =
      let t = changed c s in
      (
        rw (persist_locked-memory t) (lookup-insert_self c.id c s.memory.changes),
        elim (Option-cases (persist_locked codec a t).0) [
          | inl fine ↦ inl (fine, persist_locked_written t fine)
          | inr (e, failed) ↦ inr (
            e,
            failed,
            elim (persist_locked_atomic t) [
              | inl same ↦ inl same
              | inr (payload, encoded, written) ↦
                  inr (payload, rw (persist_locked-memory t) encoded, written)
            ],
          )
        ],
      )
