-- ===== src/RootHelper/FileChange.antt =====
-- internal/roothelper/executor.go: `file.write`, prepared with a backup, executed and rolled back.
pub mod Temporary
pub mod Calls
pub mod Backup
pub mod Restored
pub mod Undone
pub mod Examples
use pi_ops_agent.Base.{
  ℕ, ◌+◌, ◌*◌, ◌-◌, ◌%◌, ◌^◌, ◌≤◌, ℤ, pos, negsuc, String, ◌<>◌, Bool, true, false, ◌||◌, ◌&&◌,
  List, [], ◌∷◌, Option, none, some, Result, wrap_error, ok, err, length, take, leb, ltb,
  if◌then◌else◌, ◌==◌, string_eq, hex_text,
}
use pi_ops_agent.Protocol.Pattern.{codes, same}
use pi_ops_agent.Protocol.Operations.{FileWrite, Error}
use pi_ops_agent.RootHelper.Change.{ExecutionResult}
use pi_ops_agent.RootHelper.Host.{
  File, Node, regular, other, Host, System, Action, ◌>>=◌, ◌>>◌, pure, fail, lift, catch,
  result_of_error, rewritten, not_exist, owner, is_owner, system_call, put_file, node_at,
  create_temporary, edit_temporary, move_temporary, removing_temporary, read_file, remove_file,
}

-- `fileRollback`
pub record FileRollback : Type 0 where
  pub existed : Bool
  pub backup_path : String
  pub mode : ℕ
  pub uid : ℤ
  pub gid : ℤ

-- `encoding/json` on it, the bytes of a text, and SHA-256.
pub record FileCodec : Type 0 where
  pub rollback_json : FileRollback → List ℕ
  pub parse_rollback : List ℕ → Result FileRollback
  pub bytes : String → List ℕ
  pub sha256 : List ℕ → List ℕ

abbrev pub blank : FileRollback
blank = record { existed = false; backup_path = ""; mode = 0; uid = pos 0; gid = pos 0 }

-- `FileMode.Perm`
abbrev pub perm : ℕ → ℕ
perm mode = mode % 2 ^ 9

-- `filepath.Join(e.StateDir, "changes", changeID)`, for a clean state directory below the root.
abbrev pub change_dir : String → String → String
change_dir state_dir change_id = state_dir <> ("/changes/" <> change_id)

abbrev pub backup_at : String → String → String
backup_at state_dir change_id = change_dir state_dir change_id <> "/file.backup"

abbrev digit_of : ℕ → Option ℕ
digit_of c = if leb b'0' c && leb c b'7' then some (c - b'0') else none

abbrev octal_step : Option ℕ → Option ℕ → Option ℕ
octal_step (some n) (some d) = some (n * 8 + d)
octal_step _ _ = none

unfoldable pub octal_from : Option ℕ → List ℕ → Option ℕ
octal_from acc [] = acc
octal_from acc (c ∷ s) = octal_from (octal_step acc (digit_of c)) s

abbrev octal_digits : List ℕ → Option ℕ
octal_digits [] = none
octal_digits (c ∷ s) = octal_from (some 0) (c ∷ s)

abbrev in_range : Option ℕ → Result ℕ
in_range none = err "strconv.ParseUint: invalid syntax"
in_range (some n) = if ltb n (2 ^ 32) then ok n else err "strconv.ParseUint: value out of range"

-- `strconv.ParseUint(mode, 8, 32)`; there are no underscores or prefixes in base 8.
unfoldable pub parse_octal : String → Result ℕ
unfolding octal_from
parse_octal s = in_range (octal_digits (codes s))

abbrev pub owned : ℤ → ℕ → ℕ
owned (pos n) old = n
owned (negsuc n) old = old

abbrev pub refs_of : FileRollback → List String
refs_of r = if r.backup_path == "" then [] else r.backup_path ∷ []

abbrev pub prepared : FileCodec → FileRollback → ExecutionResult
prepared codec r = record {
  backup_refs = refs_of r;
  rollback_data = codec.rollback_json r;
  rollback_available = true;
  verification = "";
}

module _ (sys : System) where
  -- `copyFile` from the opening of the destination on: it is truncated first, and keeps what was
  -- copied.
  unfoldable pub copy_out : String → ℕ → List ℕ → Action (Unit {0})
  unfolding system_call node_at put_file
  copy_out destination mode payload = do
    system_call sys
    node ← node_at sys destination
    λ h. put_file sys destination (rewritten node mode (take (sys.partial h.tick) payload)) h
    system_call sys
    put_file sys destination (rewritten node mode payload)
    system_call sys
    system_call sys

  unfoldable pub copy_file : String → String → ℕ → Action (Unit {0})
  unfolding read_file
  copy_file source destination mode = do
    payload ← read_file sys source
    copy_out destination mode payload

  -- A negative number leaves the owner or the group.
  unfoldable pub change_owner : ℤ → ℤ → Action (Unit {0})
  unfolding edit_temporary
  change_owner uid gid =
      if is_owner uid || is_owner gid
      then edit_temporary sys (λ f. f)
          (λ f. record f { uid = owned uid f.uid; gid = owned gid f.gid })
      else pure tt

  -- A `Write` or a `Sync` that fails leaves a part of the bytes.
  abbrev pub with_part : ℕ → List ℕ → File → File
  with_part n payload f = record f { content = take n payload }

  abbrev pub with_whole : List ℕ → File → File
  with_whole payload f = record f { content = payload }

  unfoldable pub fill_temporary : List ℕ → Action (Unit {0})
  unfolding edit_temporary
  fill_temporary payload h =
      edit_temporary sys (with_part (sys.partial h.tick) payload) (with_whole payload) h

  unfoldable pub sync_temporary : Action (Unit {0})
  unfolding edit_temporary
  sync_temporary h = edit_temporary sys (λ f. with_part (sys.partial h.tick) f.content f) (λ f. f) h

  unfoldable pub set_temporary : ℕ → ℤ → ℤ → Action (Unit {0})
  unfolding edit_temporary change_owner
  set_temporary mode uid gid = do
    edit_temporary sys (λ f. f) (λ f. record f { mode = perm mode })
    change_owner uid gid

  unfoldable pub write_temporary : List ℕ → Action (Unit {0})
  unfolding system_call fill_temporary sync_temporary
  write_temporary payload = do fill_temporary payload; sync_temporary; system_call sys

  -- The temporary file of `atomicReplace` is given its mode and owner, written, synced and closed.
  unfoldable pub prepare_temporary : List ℕ → ℕ → ℤ → ℤ → Action (Unit {0})
  unfolding set_temporary write_temporary
  prepare_temporary payload mode uid gid = do set_temporary mode uid gid; write_temporary payload

  -- The rename puts the file in its place; then the directory is opened and synced.
  unfoldable pub install_temporary : String → Action (Unit {0})
  unfolding system_call move_temporary
  install_temporary path = do move_temporary sys path; system_call sys; system_call sys

  -- `atomicReplace`; what is left of the temporary file is removed at the end.
  unfoldable pub atomic_replace : String → List ℕ → ℕ → ℤ → ℤ → Action (Unit {0})
  unfolding create_temporary removing_temporary prepare_temporary install_temporary
  atomic_replace path payload mode uid gid = do
    create_temporary sys
    removing_temporary sys (do prepare_temporary payload mode uid gid; install_temporary path)

  module _ (codec : FileCodec) (state_dir : String) (allowed : String → Host → Error) where
    -- `ensureAllowedPath` looks at the host and does not change it.
    unfoldable pub ensure_allowed : String → Action (Unit {0})
    ensure_allowed path h = (result_of_error (allowed path h), h)

    -- From the answer of `Lstat` on.
    unfoldable pub back_up : String → String → Option Node → Action ExecutionResult
    unfolding copy_file
    back_up change_id path none = pure (prepared codec blank)
    back_up change_id path (some (other r)) = fail "file.write target must be a regular file"
    back_up change_id path (some (regular f)) = do
      copy_file path (backup_at state_dir change_id) (6 * 64)
      pure (
          prepared codec (record {
            existed = true;
            backup_path = backup_at state_dir change_id;
            mode = perm f.mode;
            uid = pos f.uid;
            gid = pos f.gid;
          }))

    -- `prepareFile`: the calls are those of `MkdirAll` and `Lstat`.
    unfoldable pub prepare_file : String → FileWrite → Action ExecutionResult
    unfolding ensure_allowed system_call node_at back_up
    prepare_file change_id o = do
      ensure_allowed o.path
      system_call sys
      system_call sys
      node ← node_at sys o.path
      back_up change_id o.path node

    abbrev pub mode_of : FileWrite → FileRollback → Result ℕ
    mode_of o r =
        if o.mode == ""
        then ok (if r.existed then r.mode else 6 * 64 + 4 * 8 + 4)
        else parse_octal o.mode

    abbrev pub kept_owner : Bool → ℤ → ℤ
    kept_owner true n = n
    kept_owner false n = negsuc 0

    unfoldable pub execute_file : FileWrite → ExecutionResult → Action (Unit {0})
    unfolding parse_octal
    execute_file o result = do
      r ←
          lift (
            wrap_error "decode prepared file metadata: "
              (codec.parse_rollback result.rollback_data))
      mode ← lift (mode_of o r)
      atomic_replace o.path (codec.bytes o.content) mode (kept_owner r.existed r.uid)
          (kept_owner r.existed r.gid)

    abbrev digest_text : List ℕ → List ℕ → Result String
    digest_text expected actual =
        if same expected actual
        then ok ("sha256:" <> hex_text actual)
        else err "written file digest mismatch"

    -- The case `*protocol.FileWrite` of `Verify`.
    unfoldable pub verify_file : FileWrite → Action String
    unfolding read_file
    verify_file o = do
      payload ← read_file sys o.path
      lift (digest_text (codec.sha256 (codec.bytes o.content)) (codec.sha256 payload))

    -- The case `*protocol.FileWrite` of `Rollback`.
    unfoldable pub restore_file : String → FileRollback → Action (Unit {0})
    restore_file path r =
        let restored = do
          payload ← read_file sys r.backup_path
          atomic_replace path payload r.mode r.uid r.gid
        in if r.existed then restored else remove_file sys path

    unfoldable pub rollback_file : FileWrite → ExecutionResult → Action (Unit {0})
    rollback_file o result = do
      r ← lift (codec.parse_rollback result.rollback_data)
      restore_file o.path r
