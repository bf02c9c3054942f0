-- ===== src/RootHelper/FileChange/Undone.antt =====
-- A file change of internal/roothelper/executor.go from its preparation to its rollback.
use pi_ops_agent.Base.{◌≡◌, ◌≢◌, sym, ap, ◌∙◌, String, Result, ok, string_eq}
use mathlib.Core.Path.{subst}
use pi_ops_agent.Protocol.Operations.{FileWrite, Error}
use pi_ops_agent.RootHelper.Change.{ExecutionResult}
use pi_ops_agent.RootHelper.Host.{Host, System}
use pi_ops_agent.RootHelper.FileChange.{
  FileRollback, FileCodec, backup_at, prepare_file, execute_file, rollback_file,
}
use pi_ops_agent.RootHelper.FileChange.Calls.{at}
use pi_ops_agent.RootHelper.FileChange.Backup.{
  rollback_of, restored, IsBackup, prepare_file-frame, prepare_file-IsBackup,
}
use pi_ops_agent.RootHelper.FileChange.Restored.{
  execute_file_atomic, rollback_file-restore_file, rollback_file-elsewhere, restore_file-restored,
}

module _ (sys : System) (codec : FileCodec) (state_dir : String) (allowed : String → Host → Error)
    (change_id : String) (o : FileWrite) (h : Host) (result : ExecutionResult) where
  abbrev backup : String
  backup = backup_at state_dir change_id

  abbrev made : Result ExecutionResult × Host
  made = prepare_file sys codec state_dir allowed change_id o h

  abbrev executed : Host
  executed = (execute_file sys codec state_dir allowed o result made.1).1

  abbrev after : Result (Unit {0}) × Host
  after = rollback_file sys codec state_dir allowed o result executed

  abbrev metadata : FileRollback
  metadata = rollback_of backup (at o.path h)

  -- A file change that was prepared and then executed, wholly or in part, and whose rollback
  -- returns nil leaves at its path what stood there before it was prepared, with the permission
  -- bits of the mode (nothing, where nothing did), and every other path but that of the backup as
  -- it was. The metadata are read back from their JSON as they were written, and the path is not
  -- that of the backup.
  pub rollback_file_undoes :
      made.0 ≡ ok result
      → codec.parse_rollback (codec.rollback_json metadata) ≡ ok metadata
      → backup ≢ o.path
      → after.0 ≡ ok tt
      → (at o.path after.1 ≡ restored (at o.path h))
        × ((path : String) → o.path ≢ path → backup ≢ path → at path after.1 ≡ at path h)
  rollback_file_undoes fine reads apart undone =
      let (same, kept) =
        prepare_file-IsBackup sys codec state_dir allowed change_id o h result fine in
      let frame = prepare_file-frame sys codec state_dir allowed change_id o h in
      let (elsewhere, _, _) = execute_file_atomic sys codec state_dir allowed o result made.1 in
      let parsed : codec.parse_rollback result.rollback_data ≡ ok metadata =
        ap (λ (r : ExecutionResult). codec.parse_rollback r.rollback_data) same ∙ reads in
      let step =
        rollback_file-restore_file sys codec state_dir allowed o result metadata executed parsed in
      let there : IsBackup (at o.path h) (at backup executed) =
        subst (λ n. IsBackup (at o.path h) n) (sym (elsewhere backup (λ e. apart (sym e)))) kept in
      let back =
        restore_file-restored sys codec state_dir allowed o backup (at o.path h) executed there
          (ap (λ (m : Result (Unit {0}) × Host). m.0) (sym step) ∙ undone) in
      (
        ap (λ (m : Result (Unit {0}) × Host). at o.path m.1) step ∙ back,
        λ path differs away.
            rollback_file-elsewhere sys codec state_dir allowed o result metadata executed path
              parsed differs
            ∙ elsewhere path differs
            ∙ frame path away,
      )
