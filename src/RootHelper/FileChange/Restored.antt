-- ===== src/RootHelper/FileChange/Restored.antt =====
-- What `executeFile` and the rollback of internal/roothelper/executor.go leave at the paths of the host.
use pi_ops_agent.Base.{
  ℕ, ◌+◌, ℤ, pos, negsuc, Bool, ◌≡◌, ◌≢◌, ◌⊎◌, inl, inr, refl, ap, ◌∙◌, String, true, false, List,
  Option, none, some, arith, Result, ok, err, Result-cases, Bool-cases, string_eq,
}
use pi_ops_agent.Base.Dict.{lookup, insert, erase, lookup-insert, lookup-insert_self, lookup-erase}
use pi_ops_agent.Protocol.Operations.{FileWrite, Error}
use pi_ops_agent.RootHelper.Change.{ExecutionResult}
use pi_ops_agent.RootHelper.Host.{
  File, Node, regular, other, read_node, Host, System, Action, read_file, remove_file,
}
use pi_ops_agent.RootHelper.FileChange.{
  FileRollback, FileCodec, perm, owned, execute_file, rollback_file, restore_file, mode_of,
  kept_owner,
}
use pi_ops_agent.RootHelper.FileChange.Calls.{at, read_file-ok, read_file-files}
use pi_ops_agent.RootHelper.FileChange.Temporary.{placed, atomic_replace-files, atomic_replace-gone}
use pi_ops_agent.RootHelper.FileChange.Backup.{rollback_of, restored, IsBackup}

abbrev owner_before : Bool → ℤ → ℕ
owner_before true (pos n) = n
owner_before true (negsuc n) = 0
owner_before false n = 0

module _ (sys : System) (codec : FileCodec) (state_dir : String) (allowed : String → Host → Error)
    (o : FileWrite) where
  abbrev execution : ExecutionResult → Action (Unit {0})
  execution = execute_file sys codec state_dir allowed o

  abbrev undone : ExecutionResult → Action (Unit {0})
  undone = rollback_file sys codec state_dir allowed o

  -- The file that the execution makes: the content of the change, its mode, or that of the file
  -- before, and the owner of that file, or root.
  pub record IsNew (result : ExecutionResult) (f : File) : Type 0 where
    r : FileRollback
    bits : ℕ
    parsed : codec.parse_rollback result.rollback_data ≡ ok r
    chosen : mode_of sys codec state_dir allowed o r ≡ ok bits
    content : f.content ≡ codec.bytes o.content
    mode : f.mode ≡ perm bits
    uid : f.uid ≡ owner_before r.existed r.uid
    gid : f.gid ≡ owner_before r.existed r.gid

  owned-kept_owner :
      (existed : Bool) (n : ℤ)
      → owned (kept_owner sys codec state_dir allowed existed n) 0 ≡ owner_before existed n
  owned-kept_owner true (pos n) = refl
  owned-kept_owner true (negsuc n) = refl
  owned-kept_owner false n = refl

  execute_file-files :
      (result : ExecutionResult) (h : Host)
      → let t = (execution result h).1 in
        (t.files ≡ h.files)
        ⊎ ((f : File) × IsNew result f × (t.files ≡ insert o.path (regular f) h.files))
  unfolding execute_file
  execute_file-files result h = elim (Result-cases (codec.parse_rollback result.rollback_data)) [
    | inr (e, failed) ↦ inl (rw failed)
    | inl (r, parsed) ↦ elim (Result-cases (mode_of sys codec state_dir allowed o r)) [
      | inr (e, failed) ↦ inl (ground arith)
      | inl (mode, fine) ↦
          let uid = kept_owner sys codec state_dir allowed r.existed r.uid in
          let gid = kept_owner sys codec state_dir allowed r.existed r.gid in
          elim (atomic_replace-files sys o.path (codec.bytes o.content) mode uid gid h) [
            | inl there ↦ inr (
              record {
                content = codec.bytes o.content;
                mode = perm mode;
                uid = owned uid 0;
                gid = owned gid 0;
              },
              record {
                r = r;
                bits = mode;
                parsed = parsed;
                chosen = fine;
                content = refl;
                mode = refl;
                uid = owned-kept_owner r.existed r.uid;
                gid = owned-kept_owner r.existed r.gid;
              },
              ground arith,
            )
            | inr (e, failed, same) ↦ inl (ground arith)
          ]
    ]
  ]

  -- The temporary file after the execution.
  abbrev pub Cleared : Host → Host → Type 0
  Cleared h t =
      (t.temporary ≡ none)
      ⊎ (t.temporary ≡ h.temporary)
      ⊎ ((n : ℕ) × (e : String) × (t.tick ≡ n + 1) × (sys.fault n ≡ some e))

  execute_file-Cleared : (result : ExecutionResult) (h : Host) → Cleared h (execution result h).1
  unfolding execute_file
  execute_file-Cleared result h = elim (Result-cases (codec.parse_rollback result.rollback_data)) [
    | inr (e, failed) ↦ inr (inl (rw failed refl))
    | inl (r, parsed) ↦ elim (Result-cases (mode_of sys codec state_dir allowed o r)) [
      | inr (e, failed) ↦ inr (inl (rw (parsed, failed) refl))
      | inl (mode, fine) ↦
          rw (parsed, fine)
            (atomic_replace-gone sys o.path (codec.bytes o.content) mode
              (kept_owner sys codec state_dir allowed r.existed r.uid)
              (kept_owner sys codec state_dir allowed r.existed r.gid) h)
    ]
  ]

  pub execute_file_atomic :
      (result : ExecutionResult) (h : Host)
      → let t = (execution result h).1 in
        ((path : String) → o.path ≢ path → at path t ≡ at path h)
        × ((at o.path t ≡ at o.path h)
            ⊎ ((f : File) × IsNew result f × (at o.path t ≡ some (regular f))))
        × Cleared h t
  execute_file_atomic result h = elim (execute_file-files result h) [
    | inl same ↦ (
      λ path _. ap (lookup path) same,
      inl (ap (lookup o.path) same),
      execute_file-Cleared result h,
    )
    | inr (f, made, put) ↦ (
      λ path differs. ground (arith, lookup-insert path o.path (regular f) h.files),
      inr (f, made, ap (lookup o.path) put ∙ lookup-insert_self o.path (regular f) h.files),
      execute_file-Cleared result h,
    )
  ]

  remove_file-files :
      (path : String) (h : Host)
      → ((remove_file sys path h).1.files ≡ erase path h.files)
        ⊎ ((e : String) × ((remove_file sys path h).0 ≡ err e)
            × ((remove_file sys path h).1.files ≡ h.files))
  unfolding remove_file
  remove_file-files path h = elim (Result-cases (remove_file sys path h).0) [
    | inl (_, fine) ↦ inl (ground arith)
    | inr (e, failed) ↦ inr (e, failed, ground arith)
  ]

  -- The paths after a rollback: the target is removed, or replaced by the backup, or nothing changes.
  restore_file-files :
      (r : FileRollback) (h : Host)
      → let t = restore_file sys codec state_dir allowed o.path r h in
        ((r.existed ≡ false) × (t.1.files ≡ erase o.path h.files))
        ⊎ ((payload : List ℕ) × (r.existed ≡ true)
            × (read_node (at r.backup_path h) ≡ ok payload)
            × (t.1.files ≡ insert o.path (placed payload r.mode r.uid r.gid) h.files))
        ⊎ ((e : String) × (t.0 ≡ err e) × (t.1.files ≡ h.files))
  unfolding restore_file
  restore_file-files r h = elim (Bool-cases r.existed) [
    | inr absent ↦ elim (remove_file-files o.path h) [
      | inl gone ↦ inl (absent, ground arith)
      | inr (e, failed, same) ↦ inr (inr (e, ground arith, ground arith))
    ]
    | inl there ↦
        let b = read_file sys r.backup_path h in
        elim (Result-cases b.0) [
          | inr (e, failed) ↦
              inr (inr (e, ground arith, ground (arith, read_file-files sys r.backup_path h)))
          | inl (payload, read) ↦
              let (content, same) = read_file-ok sys r.backup_path payload h read in
              elim (atomic_replace-files sys o.path payload r.mode r.uid r.gid b.1) [
                | inl put ↦ inr (inl (payload, there, content, ground arith))
                | inr (e, failed, kept) ↦ inr (inr (e, ground arith, ground arith))
              ]
        ]
  ]

  pub rollback_file-restore_file :
      (result : ExecutionResult) (r : FileRollback) (h : Host)
      → codec.parse_rollback result.rollback_data ≡ ok r
      → undone result h ≡ restore_file sys codec state_dir allowed o.path r h
  unfolding rollback_file
  rollback_file-restore_file result r h parsed = rw parsed

  pub rollback_file-elsewhere :
      (result : ExecutionResult) (r : FileRollback) (h : Host) (path : String)
      → codec.parse_rollback result.rollback_data ≡ ok r
      → o.path ≢ path
      → at path (undone result h).1 ≡ at path h
  rollback_file-elsewhere result r h path parsed differs =
      ap (λ (m : Result (Unit {0}) × Host). at path m.1)
        (rollback_file-restore_file result r h parsed)
      ∙ elim (restore_file-files r h) [
        | inl (_, gone) ↦ ground (arith, lookup-erase path o.path h.files)
        | inr (inl (payload, _, _, put)) ↦
            ground (arith, lookup-insert path o.path (placed payload r.mode r.uid r.gid) h.files)
        | inr (inr (_, _, same)) ↦ ground arith
      ]

  perm-perm : (mode : ℕ) → perm (perm mode) ≡ perm mode
  perm-perm mode = omega arith

  pub restore_file-restored :
      (backup : String) (found : Option Node) (h : Host)
      → IsBackup found (at backup h)
      → let t = restore_file sys codec state_dir allowed o.path (rollback_of backup found) h in
        t.0 ≡ ok tt → at o.path t.1 ≡ restored found
  restore_file-restored backup none h kept fine =
      elim (restore_file-files (rollback_of backup none) h) [
        | inl (_, gone) ↦ ground (arith, lookup-erase o.path o.path h.files)
        | inr (inl (_, there, _, _)) ↦ ground arith
        | inr (inr (_, failed, _)) ↦ ground arith
      ]
  restore_file-restored backup (some (regular f)) h kept fine =
      elim (restore_file-files (rollback_of backup (some (regular f))) h) [
        | inl (absent, _) ↦ ground arith
        | inr (inl (payload, _, content, put)) ↦ ground (
          arith,
          perm-perm f.mode,
          lookup-insert_self o.path (placed payload (perm f.mode) (pos f.uid) (pos f.gid)) h.files,
        )
        | inr (inr (_, failed, _)) ↦ ground arith
      ]
  restore_file-restored backup (some (other r)) h kept fine = absurd kept
