-- ===== src/RootHelper/Executor/Quiet.antt =====
-- The file operations of internal/roothelper/executor.go run no command.
use pi_ops_agent.Base.{
  ℕ, ◌+◌, ◌*◌, ◌≡◌, refl, ◌∙◌, inl, inr, arith, ℤ, String, List, Option, none, some, Result-cases,
  Bool-cases, string_eq,
}
use pi_ops_agent.Base.Dict.{lookup}
use pi_ops_agent.Protocol.Operations.{FileWrite, Error}
use pi_ops_agent.RootHelper.Change.{ExecutionResult}
use pi_ops_agent.RootHelper.Host.{
  File, System, Host, Node, regular, other, Action, ◌>>=◌, ◌>>◌, create_temporary, move_to,
  remove_temporary, removing_temporary, read_file, remove_file,
}
use pi_ops_agent.RootHelper.FileChange.{
  FileRollback, FileCodec, backup_at, copy_out, copy_file, set_temporary, write_temporary,
  prepare_temporary, install_temporary, atomic_replace, back_up, prepare_file, mode_of, kept_owner,
  execute_file, verify_file, restore_file, rollback_file,
}

abbrev Quiet : {A : Type 0} → Action A → Type 0
Quiet m = (h : Host) → (m h).1.commands ≡ h.commands

module _ (sys : System) where
  set_temporary-Quiet : (mode : ℕ) (uid gid : ℤ) → Quiet (set_temporary sys mode uid gid)
  unfolding set_temporary
  set_temporary-Quiet mode uid gid h = ground arith

  write_temporary-Quiet : (payload : List ℕ) → Quiet (write_temporary sys payload)
  unfolding write_temporary
  write_temporary-Quiet payload h = ground arith

  prepare_temporary-Quiet :
      (payload : List ℕ) (mode : ℕ) (uid gid : ℤ)
      → Quiet (prepare_temporary sys payload mode uid gid)
  unfolding prepare_temporary
  prepare_temporary-Quiet payload mode uid gid h = ground (
    arith,
    set_temporary-Quiet mode uid gid h,
    write_temporary-Quiet payload (set_temporary sys mode uid gid h).1,
  )

  move_to-Quiet :
      (path : String) (f : Option File) (h : Host) → (move_to sys path f h).1.commands ≡ h.commands
  move_to-Quiet path none h = refl
  move_to-Quiet path (some f) h = refl

  install_temporary-Quiet : (path : String) → Quiet (install_temporary sys path)
  unfolding install_temporary
  install_temporary-Quiet path h = ground arith

  remove_temporary-Quiet : (h : Host) → (remove_temporary sys h).commands ≡ h.commands
  unfolding remove_temporary
  remove_temporary-Quiet h = ground arith

  removing_temporary-Quiet : (m : Action (Unit {0})) → Quiet m → Quiet (removing_temporary sys m)
  unfolding removing_temporary
  removing_temporary-Quiet m quiet h = remove_temporary-Quiet (m h).1 ∙ quiet h

  create_temporary-Quiet : Quiet (create_temporary sys)
  unfolding create_temporary
  create_temporary-Quiet h = ground arith

  bind-Quiet :
      {A B : Type 0} (m : Action A) (f : A → Action B)
      → Quiet m
      → ((a : A) → Quiet (f a))
      → Quiet (m >>= f)
  bind-Quiet m f quiet later h = elim (Result-cases (m h).0) [
    | inl (a, fine) ↦ rw fine (later a (m h).1 ∙ quiet h)
    | inr (e, failed) ↦ rw failed (quiet h)
  ]

  atomic_replace-Quiet :
      (path : String) (payload : List ℕ) (mode : ℕ) (uid gid : ℤ)
      → Quiet (atomic_replace sys path payload mode uid gid)
  unfolding atomic_replace
  atomic_replace-Quiet path payload mode uid gid =
      bind-Quiet (create_temporary sys)
        (λ _.
          removing_temporary sys
            (prepare_temporary sys payload mode uid gid >> install_temporary sys path))
        create_temporary-Quiet
        (λ _.
          removing_temporary-Quiet
            (prepare_temporary sys payload mode uid gid >> install_temporary sys path)
            (bind-Quiet (prepare_temporary sys payload mode uid gid)
              (λ _. install_temporary sys path) (prepare_temporary-Quiet payload mode uid gid)
              (λ _. install_temporary-Quiet path)))

  copy_out-Quiet :
      (path : String) (mode : ℕ) (payload : List ℕ) → Quiet (copy_out sys path mode payload)
  unfolding copy_out
  copy_out-Quiet path mode payload h = ground arith

  read_file-Quiet : (path : String) → Quiet (read_file sys path)
  unfolding read_file
  read_file-Quiet path h = ground arith

  remove_file-Quiet : (path : String) → Quiet (remove_file sys path)
  unfolding remove_file
  remove_file-Quiet path h = ground arith

  copy_file-Quiet : (source path : String) (mode : ℕ) → Quiet (copy_file sys source path mode)
  unfolding copy_file
  copy_file-Quiet source path mode h =
      let r = read_file sys source h in
      let quiet = read_file-Quiet source h in
      elim (Result-cases r.0) [
        | inr (e, failed) ↦ ground arith
        | inl (payload, read) ↦ ground (arith, copy_out-Quiet path mode payload r.1)
      ]

  module _ (codec : FileCodec) (state_dir : String) (allowed : String → Host → Error)
      (o : FileWrite) where
    back_up-Quiet :
        (change_id path : String) (found : Option Node)
        → Quiet (back_up sys codec state_dir allowed change_id path found)
    unfolding back_up
    back_up-Quiet change_id path none h = refl
    back_up-Quiet change_id path (some (other r)) h = refl
    back_up-Quiet change_id path (some (regular f)) h =
        ground (arith, copy_file-Quiet path (backup_at state_dir change_id) (6 * 64) h)

    pub prepare_file-Quiet :
        (change_id : String) → Quiet (prepare_file sys codec state_dir allowed change_id o)
    unfolding prepare_file
    prepare_file-Quiet change_id h = ground (
      arith,
      back_up-Quiet change_id o.path (lookup o.path h.files) (record h { tick = h.tick + 1 + 1 }),
    )

    pub execute_file-Quiet :
        (result : ExecutionResult) → Quiet (execute_file sys codec state_dir allowed o result)
    unfolding execute_file
    execute_file-Quiet result h = elim (Result-cases (codec.parse_rollback result.rollback_data)) [
      | inr (e, failed) ↦ rw failed
      | inl (r, parsed) ↦ elim (Result-cases (mode_of sys codec state_dir allowed o r)) [
        | inr (e, failed) ↦ ground arith
        | inl (mode, fine) ↦
            let uid = kept_owner sys codec state_dir allowed r.existed r.uid in
            let gid = kept_owner sys codec state_dir allowed r.existed r.gid in
            ground (arith, atomic_replace-Quiet o.path (codec.bytes o.content) mode uid gid h)
      ]
    ]

    pub verify_file-Quiet : Quiet (verify_file sys codec state_dir allowed o)
    unfolding verify_file
    verify_file-Quiet h = ground arith

    restore_file-Quiet :
        (r : FileRollback) → Quiet (restore_file sys codec state_dir allowed o.path r)
    unfolding restore_file
    restore_file-Quiet r h = elim (Bool-cases r.existed) [
      | inr absent ↦ ground (arith, remove_file-Quiet o.path h)
      | inl there ↦
          let b = read_file sys r.backup_path h in
          let quiet = read_file-Quiet r.backup_path h in
          elim (Result-cases b.0) [
            | inr (e, failed) ↦ ground arith
            | inl (payload, read) ↦
                ground (arith, atomic_replace-Quiet o.path payload r.mode r.uid r.gid b.1)
          ]
    ]

    pub rollback_file-Quiet :
        (result : ExecutionResult) → Quiet (rollback_file sys codec state_dir allowed o result)
    unfolding rollback_file
    rollback_file-Quiet result h = elim (Result-cases (codec.parse_rollback result.rollback_data)) [
      | inr (e, failed) ↦ rw failed
      | inl (r, parsed) ↦ rw parsed (restore_file-Quiet r h)
    ]
