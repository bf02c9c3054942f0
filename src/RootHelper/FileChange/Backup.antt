-- ===== src/RootHelper/FileChange/Backup.antt =====
-- The backup that `prepareFile` of internal/roothelper/executor.go makes.
use pi_ops_agent.Base.{
  ◌+◌, ◌*◌, pos, ◌≡◌, ◌≢◌, inl, inr, refl, sym, ap, ◌∙◌, String, true, Option, none, some, arith,
  Result, ok, Result-cases, string_eq,
}
use mathlib.Core.Path.{subst}
use pi_ops_agent.Protocol.Operations.{FileWrite, Error}
use pi_ops_agent.RootHelper.Change.{ExecutionResult}
use pi_ops_agent.RootHelper.Host.{Node, regular, other, read_node, Host, System}
use pi_ops_agent.RootHelper.FileChange.{
  FileRollback, FileCodec, blank, perm, backup_at, copy_file, prepare_file, back_up, prepared,
}
use pi_ops_agent.RootHelper.FileChange.Calls.{at, copy_file-elsewhere, copy_file-done}

-- The metadata that `prepareFile` makes of what stands at a path, for a backup at another.
abbrev pub rollback_of : String → Option Node → FileRollback
rollback_of backup (some (regular f)) = record {
  existed = true;
  backup_path = backup;
  mode = perm f.mode;
  uid = pos f.uid;
  gid = pos f.gid;
}
rollback_of backup _ = blank

-- What a rollback puts back: the file with the permission bits of its mode.
abbrev pub restored : Option Node → Option Node
restored none = none
restored (some (regular f)) = some (regular (record f { mode = perm f.mode }))
restored (some (other r)) = some (other r)

-- A regular file has a backup with its contents; anything else is not replaced.
abbrev pub IsBackup : Option Node → Option Node → Type 0
IsBackup none backup = Unit
IsBackup (some (regular f)) backup = read_node backup ≡ ok f.content
IsBackup (some (other r)) backup = ⊥

module _ (sys : System) (codec : FileCodec) (state_dir : String) (allowed : String → Host → Error)
    (change_id : String) where
  abbrev pub backup : String
  backup = backup_at state_dir change_id

  pub back_up-elsewhere :
      (path q : String) (node : Option Node) (h : Host)
      → backup ≢ q
      → at q (back_up sys codec state_dir allowed change_id path node h).1 ≡ at q h
  unfolding back_up
  back_up-elsewhere path q none h differs = refl
  back_up-elsewhere path q (some (other r)) h differs = refl
  back_up-elsewhere path q (some (regular f)) h differs =
      let c = copy_file sys path backup (6 * 64) h in
      elim (Result-cases c.0) [
        | inl (_, copied) ↦ ground (arith, copy_file-elsewhere sys path backup q (6 * 64) h differs)
        | inr (e, failed) ↦ ground (arith, copy_file-elsewhere sys path backup q (6 * 64) h differs)
      ]

  pub back_up-IsBackup :
      (path : String) (node : Option Node) (h : Host) (result : ExecutionResult)
      → at path h ≡ node
      → (back_up sys codec state_dir allowed change_id path node h).0 ≡ ok result
      → (result ≡ prepared codec (rollback_of backup node))
        × IsBackup node (at backup (back_up sys codec state_dir allowed change_id path node h).1)
  unfolding back_up
  back_up-IsBackup path none h result e fine = (ground arith, tt)
  back_up-IsBackup path (some (other r)) h result e fine = ground arith
  back_up-IsBackup path (some (regular f)) h result e fine =
      let c = copy_file sys path backup (6 * 64) h in
      elim (Result-cases c.0) [
        | inl (tt, copied) ↦
            let (payload, read, there) = copy_file-done sys path backup (6 * 64) h copied in
            (ground arith, ground (arith, read, there))
        | inr (e, failed) ↦ ground arith
      ]

  module _ (o : FileWrite) (h : Host) where
    abbrev pub made : Result ExecutionResult × Host
    made = prepare_file sys codec state_dir allowed change_id o h

    abbrev pub looked : Host
    looked = record h { tick = h.tick + 1 + 1 }

    pub prepare_file-frame : (path : String) → backup ≢ path → at path made.1 ≡ at path h
    unfolding prepare_file
    prepare_file-frame path differs =
        ground (arith, back_up-elsewhere o.path path (at o.path h) looked differs)

    pub prepare_file-back_up :
        (result : ExecutionResult)
        → made.0 ≡ ok result
        → made ≡ back_up sys codec state_dir allowed change_id o.path (at o.path h) looked
    unfolding prepare_file
    prepare_file-back_up result fine = ground arith

    pub prepare_file-IsBackup :
        (result : ExecutionResult)
        → made.0 ≡ ok result
        → (result ≡ prepared codec (rollback_of backup (at o.path h)))
          × IsBackup (at o.path h) (at backup made.1)
    prepare_file-IsBackup result fine =
        let e = prepare_file-back_up result fine in
        let (r, b) =
          back_up-IsBackup o.path (at o.path h) looked result refl
            (ap (λ (m : Result ExecutionResult × Host). m.0) (sym e) ∙ fine) in
        (
          r,
          subst (λ (m : Result ExecutionResult × Host). IsBackup (at o.path h) (at backup m.1))
              (sym e) b,
        )
