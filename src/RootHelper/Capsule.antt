-- ===== src/RootHelper/Capsule.antt =====
-- internal/roothelper/executor.go: `breakglass.script`, run in a transient unit of systemd.
use pi_ops_agent.Base.{
  ℕ, ◌*◌, String, ◌<>◌, true, List, [], ◌∷◌, ◌++◌, map, ok, err, if◌then◌else◌, ◌==◌, string_eq,
}
use pi_ops_agent.Protocol.Operations.{BreakglassScript, Error}
use pi_ops_agent.RootHelper.Change.{ExecutionResult}
use pi_ops_agent.RootHelper.Host.{
  System, Action, ◌>>=◌, ◌>>◌, pure, fail, lift, result_of_error, system_call, write_file,
  with_tool, run, run_only,
}
use pi_ops_agent.RootHelper.FileChange.{change_dir}
use pi_ops_agent.RootHelper.Command.{safe_unit_fragment}
use pi_ops_agent.RootHelper.Packages.{RollbackCodec}

pub record BreakglassRollback : Type 0 where
  pub change_id : String
  pub archive : String

abbrev pub archive_at : String → String → String
archive_at state_dir change_id = change_dir state_dir change_id <> "/backup.tar"

abbrev pub script_at : String → String → String
script_at state_dir change_id = change_dir state_dir change_id <> "/script.sh"

abbrev pub verify_at : String → String → String
verify_at state_dir change_id = change_dir state_dir change_id <> "/verify.sh"

abbrev pub backup_arguments : String → List String → List String
backup_arguments archive paths =
    "--xattrs" ∷ "--acls" ∷ "--selinux" ∷ "-cpf" ∷ archive ∷ "--absolute-names" ∷ "--" ∷ paths

abbrev pub restore_arguments : String → List String
restore_arguments archive = "--xattrs" ∷ "--acls" ∷ "--selinux" ∷ "-xpf" ∷ archive ∷ "-C" ∷ "/" ∷ []

abbrev pub sandbox : List String
sandbox =
    "--property=PrivateTmp=yes" ∷ "--property=PrivateDevices=yes" ∷ "--property=PrivateNetwork=yes"
    ∷ "--property=ProtectHome=read-only" ∷ "--property=ProtectSystem=strict"
    ∷ "--property=ProtectKernelTunables=yes" ∷ "--property=ProtectKernelModules=yes"
    ∷ "--property=ProtectControlGroups=yes" ∷ "--property=RestrictSUIDSGID=yes"
    ∷ "--property=NoNewPrivileges=yes"
    ∷ "--property=CapabilityBoundingSet=CAP_CHOWN CAP_DAC_OVERRIDE CAP_FOWNER CAP_FSETID" ∷ []

abbrev pub write_property : String → String
write_property path = "--property=ReadWritePaths=" <> path

abbrev pub capsule_arguments : String → String → List String → List String
capsule_arguments change_id script write_paths =
    "--quiet"
    ∷ "--wait"
    ∷ "--pipe"
    ∷ "--collect"
    ∷ "--service-type=exec"
    ∷ ("--unit=ops-agent-change-" <> safe_unit_fragment change_id)
    ∷ (sandbox
        ++ (map write_property write_paths
            ++ ("/bin/bash" ∷ "--noprofile" ∷ "--norc" ∷ script ∷ [])))

module _ (sys : System) (bytes : String → List ℕ) (state_dir : String) where
  -- `writePrivateFile`: the first call is that of `MkdirAll`.
  unfoldable pub write_private_file : String → List ℕ → ℕ → Action (Unit {0})
  unfolding system_call write_file
  write_private_file path payload mode = do system_call sys; write_file sys path payload mode

  unfoldable pub run_capsule : String → String → List String → Action (String × Error)
  unfolding run
  run_capsule change_id script write_paths =
      with_tool sys "systemd-run"
        (λ path. run sys path (capsule_arguments change_id script write_paths))
        (λ e. fail "systemd-run is required for break-glass execution")

  unfoldable pub run_capsule_only : String → String → List String → Action (Unit {0})
  unfolding run_capsule
  run_capsule_only change_id script write_paths = do
    answer ← run_capsule change_id script write_paths
    lift (result_of_error answer.1)

  -- `Execute`
  unfoldable pub execute_breakglass : String → BreakglassScript → Action (Unit {0})
  unfolding run_capsule_only
  execute_breakglass change_id o =
      run_capsule_only change_id (script_at state_dir change_id) o.backup_paths

  module _ (codec : RollbackCodec BreakglassRollback) where
    abbrev pub prepared_breakglass : String → ExecutionResult
    prepared_breakglass change_id = record {
      backup_refs = archive_at state_dir change_id ∷ [];
      rollback_data =
          codec.encode (record { change_id = change_id; archive = archive_at state_dir change_id });
      rollback_available = true;
      verification = "";
    }

    unfoldable pub prepare_breakglass : String → BreakglassScript → Action ExecutionResult
    unfolding system_call run_only write_private_file
    prepare_breakglass change_id o = do
      system_call sys
      run_only sys "/bin/tar" (backup_arguments (archive_at state_dir change_id) o.backup_paths)
      write_private_file (script_at state_dir change_id) (bytes o.script) (7 * 64)
      pure (prepared_breakglass change_id)

    abbrev pub result_id : ExecutionResult → String
    result_id result = elim (codec.decode result.rollback_data) [
      | ok r ↦ r.change_id
      | err e ↦ "unknown"
    ]

    -- The case `*protocol.BreakglassScript` of `Verify`.
    unfoldable pub verify_breakglass : BreakglassScript → ExecutionResult → Action String
    unfolding write_private_file run_capsule_only
    verify_breakglass o result =
        let path = verify_at state_dir (result_id result) in
        let verified = do
          write_private_file path (bytes o.verify_script) (7 * 64)
          run_capsule_only (result_id result) path o.backup_paths
          pure "verification script exited successfully"
        in if o.verify_script == ""
          then pure "script completed; no verification script supplied"
          else verified

    -- The case `*protocol.BreakglassScript` of `Rollback`.
    unfoldable pub rollback_breakglass : ExecutionResult → Action (Unit {0})
    unfolding run_only
    rollback_breakglass result = do
      r ← lift (codec.decode result.rollback_data)
      run_only sys "/bin/tar" (restore_arguments r.archive)
