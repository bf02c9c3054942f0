-- ===== src/RootHelper/Executor.antt =====
-- `OSExecutor` of internal/roothelper/executor.go on a host, as the executor of the root helper's service.
pub mod Guarded
pub mod Ordinary
pub mod Quiet
pub mod Contained
pub mod Examples
use pi_ops_agent.Base.{
  ℕ, String, List, [], ◌∷◌, Option, none, some, Result, ok, err, if◌then◌else◌, not,
}
use pi_ops_agent.Protocol.Operations.{
  Operation, package_install, service_action, file_write, breakglass_script, Error,
}
use pi_ops_agent.RootHelper.Change.{ExecutionResult, Context}
use pi_ops_agent.RootHelper.Machine.{Executor}
use pi_ops_agent.RootHelper.Policy.{Config, validate_operation, ensure_allowed_path}
use pi_ops_agent.RootHelper.Host.{
  System, Host, Action, ◌>>=◌, ◌>>◌, pure, fail, lift, result_of_error, error_of_result,
}
use pi_ops_agent.RootHelper.FileChange.{
  FileCodec, prepare_file, execute_file, verify_file, rollback_file,
}
use pi_ops_agent.RootHelper.Packages.{
  RollbackCodec, PackageRollback, ServiceRollback, prepare_package, install_specific_package,
  verify_package, rollback_package, prepare_service, systemctl_only, verify_service,
  rollback_service,
}
use pi_ops_agent.RootHelper.Capsule.{
  BreakglassRollback, prepare_breakglass, execute_breakglass, verify_breakglass,
  rollback_breakglass,
}

-- What `encoding/json` makes of each type of rollback data.
pub record Codecs : Type 0 where
  pub file : FileCodec
  pub package_codec : RollbackCodec PackageRollback
  pub service_codec : RollbackCodec ServiceRollback
  pub breakglass_codec : RollbackCodec BreakglassRollback

-- `EvalSymlinks` depends on the host. The runner is not nil: it is set to the default where it was.
module _ (sys : System) (codecs : Codecs) (state_dir : String) (config : Config)
    (eval_symlinks : Host → List ℕ → Result (List ℕ)) where
  unfoldable pub allowed : String → Host → Error
  allowed path h = ensure_allowed_path (eval_symlinks h) config path

  unfoldable pub judged : Operation → Action (Unit {0})
  judged o h = (result_of_error (validate_operation (eval_symlinks h) config (some o)), h)

  unfoldable pub prepare_operation : String → Operation → Action ExecutionResult
  prepare_operation id (package_install o) = prepare_package sys codecs.package_codec o
  prepare_operation id (service_action o) = prepare_service sys codecs.service_codec o
  prepare_operation id (file_write o) = prepare_file sys codecs.file state_dir allowed id o
  prepare_operation id (breakglass_script o) =
      prepare_breakglass sys codecs.file.bytes state_dir codecs.breakglass_codec id o

  unfoldable pub prepare : String → Operation → Action ExecutionResult
  unfolding judged
  prepare id o = do judged o; prepare_operation id o

  unfoldable pub execute_operation : String → Operation → ExecutionResult → Action (Unit {0})
  execute_operation id (package_install o) result =
      install_specific_package sys o.package_name o.version
  execute_operation id (service_action o) result = systemctl_only sys o.action o.unit
  execute_operation id (file_write o) result =
      execute_file sys codecs.file state_dir allowed o result
  execute_operation id (breakglass_script o) result =
      execute_breakglass sys codecs.file.bytes state_dir id o

  unfoldable pub execute : String → Operation → ExecutionResult → Action (Unit {0})
  unfolding judged
  execute id o result = do judged o; execute_operation id o result

  unfoldable pub verify : Operation → ExecutionResult → Action String
  verify (package_install o) result = verify_package sys o
  verify (service_action o) result = verify_service sys o
  verify (file_write o) result = verify_file sys codecs.file state_dir allowed o
  verify (breakglass_script o) result =
      verify_breakglass sys codecs.file.bytes state_dir codecs.breakglass_codec o result

  unfoldable pub rollback_operation : Operation → ExecutionResult → Action (Unit {0})
  rollback_operation (package_install o) result = rollback_package sys codecs.package_codec o result
  rollback_operation (service_action o) result = rollback_service sys codecs.service_codec o result
  rollback_operation (file_write o) result =
      rollback_file sys codecs.file state_dir allowed o result
  rollback_operation (breakglass_script o) result =
      rollback_breakglass sys codecs.file.bytes state_dir codecs.breakglass_codec result

  unfoldable pub rollback : Operation → ExecutionResult → Action (Unit {0})
  rollback o result =
      if result.rollback_available
      then rollback_operation o result
      else fail "rollback is unavailable"

  -- The text of a failed `Verify` is empty.
  abbrev text_of_result : Result String → String
  text_of_result (ok text) = text
  text_of_result (err e) = ""

  -- The context only ends a command early, which is an error of the command.
  unfoldable pub os_executor : Executor Host
  unfolding prepare execute verify rollback
  os_executor = record {
    validate_operation = some (λ o h. validate_operation (eval_symlinks h) config o);
    prepare = λ ctx id o h. prepare id o h;
    execute = λ ctx id o result h. let r = execute id o result h in (error_of_result r.0, r.1);
    verify = λ ctx id o result h.
        let r = verify o result h in (text_of_result r.0, error_of_result r.0, r.1);
    rollback = λ ctx id o result h. let r = rollback o result h in (error_of_result r.0, r.1);
  }
