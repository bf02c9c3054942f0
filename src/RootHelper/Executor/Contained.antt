-- ===== src/RootHelper/Executor/Contained.antt =====
-- The four operations of `OSExecutor` of internal/roothelper/executor.go, by the commands they run.
use pi_ops_agent.Base.{
  ℕ, ◌≡◌, refl, sym, ◌⊎◌, inl, inr, arith, String, Bool, true, false, List, [], ◌∷◌, All, none,
  some, Result, Option-cases, string_eq, if◌then◌else◌,
}
use mathlib.Core.Path.{subst}
use pi_ops_agent.Protocol.Operations.{
  Operation, package_install, service_action, file_write, breakglass_script, ServiceAction, Error,
  validate,
}
use pi_ops_agent.RootHelper.Change.{ExecutionResult}
use pi_ops_agent.RootHelper.Policy.{Config, validate_operation}
use pi_ops_agent.RootHelper.Host.{System, Host, Command, Action, fail}
use pi_ops_agent.RootHelper.Executor.{
  Codecs, allowed, prepare, prepare_operation, execute, execute_operation, verify, rollback,
  rollback_operation,
}
use pi_ops_agent.RootHelper.Executor.Guarded.{guarded, Keeps, IsGuarded}
use pi_ops_agent.RootHelper.Executor.Ordinary.{
  Keeps-install_specific_package, Keeps-systemctl_only, Keeps-prepare_package, Keeps-verify_package,
  Keeps-rollback_package, Keeps-prepare_service, Keeps-verify_service, Keeps-rollback_service,
}
use pi_ops_agent.RootHelper.Executor.Quiet.{
  prepare_file-Quiet, execute_file-Quiet, verify_file-Quiet, rollback_file-Quiet,
}

abbrev pub is_breakglass : Operation → Bool
is_breakglass (breakglass_script o) = true
is_breakglass _ = false

validate-action :
    (o : ServiceAction)
    → validate (service_action o) ≡ none
    → (o.action ≡ "restart") ⊎ (o.action ≡ "reload") ⊎ (o.action ≡ "start") ⊎ (o.action ≡ "stop")
unfolding validate
validate-action o valid = ground arith

guarded-action :
    (o : ServiceAction)
    → validate (service_action o) ≡ none
    → guarded (o.action ∷ "--" ∷ o.unit ∷ []) ≡ true
unfolding string_eq
guarded-action o valid = elim (validate-action o valid) [
  | inl e ↦ rw e refl
  | inr (inl e) ↦ rw e refl
  | inr (inr (inl e)) ↦ rw e refl
  | inr (inr (inr e)) ↦ rw e refl
]

module _ (sys : System) (codecs : Codecs) (state_dir : String) (config : Config)
    (eval_symlinks : Host → List ℕ → Result (List ℕ)) where
  abbrev may : String → Host → Error
  may = allowed sys codecs state_dir config eval_symlinks

  Keeps-chosen :
      {A : Type 0} (b : Bool) (m n : Action A)
      → Keeps sys m
      → Keeps sys n
      → Keeps sys (if b then m else n)
  Keeps-chosen true m n km kn = km
  Keeps-chosen false m n km kn = kn

  same_commands :
      {before after : List Command}
      → after ≡ before
      → All (IsGuarded sys) before
      → All (IsGuarded sys) after
  same_commands same safe = subst (λ cs. All (IsGuarded sys) cs) (sym same) safe

  Keeps-prepare_operation :
      (o : Operation) (id : String)
      → is_breakglass o ≡ false
      → validate o ≡ none
      → Keeps sys (prepare_operation sys codecs state_dir config eval_symlinks id o)
  unfolding prepare_operation
  Keeps-prepare_operation (package_install p) id ordinary valid =
      Keeps-prepare_package sys codecs.package_codec p
  Keeps-prepare_operation (service_action p) id ordinary valid =
      Keeps-prepare_service sys codecs.service_codec p
  Keeps-prepare_operation (file_write p) id ordinary valid =
      λ h. same_commands (prepare_file-Quiet sys codecs.file state_dir may p id h)
  Keeps-prepare_operation (breakglass_script p) id ordinary valid = absurd (ground arith)

  Keeps-execute_operation :
      (o : Operation) (id : String) (result : ExecutionResult)
      → is_breakglass o ≡ false
      → validate o ≡ none
      → Keeps sys (execute_operation sys codecs state_dir config eval_symlinks id o result)
  unfolding execute_operation
  Keeps-execute_operation (package_install p) id result ordinary valid =
      Keeps-install_specific_package sys p.package_name p.version
  Keeps-execute_operation (service_action p) id result ordinary valid =
      Keeps-systemctl_only sys p.action p.unit (guarded-action p valid)
  Keeps-execute_operation (file_write p) id result ordinary valid =
      λ h. same_commands (execute_file-Quiet sys codecs.file state_dir may p result h)
  Keeps-execute_operation (breakglass_script p) id result ordinary valid = absurd (ground arith)

  Keeps-verify :
      (o : Operation) (result : ExecutionResult)
      → is_breakglass o ≡ false
      → validate o ≡ none
      → Keeps sys (verify sys codecs state_dir config eval_symlinks o result)
  unfolding verify
  Keeps-verify (package_install p) result ordinary valid = Keeps-verify_package sys p
  Keeps-verify (service_action p) result ordinary valid = Keeps-verify_service sys p
  Keeps-verify (file_write p) result ordinary valid =
      λ h. same_commands (verify_file-Quiet sys codecs.file state_dir may p h)
  Keeps-verify (breakglass_script p) result ordinary valid = absurd (ground arith)

  Keeps-rollback_operation :
      (o : Operation) (result : ExecutionResult)
      → is_breakglass o ≡ false
      → validate o ≡ none
      → Keeps sys (rollback_operation sys codecs state_dir config eval_symlinks o result)
  unfolding rollback_operation
  Keeps-rollback_operation (package_install p) result ordinary valid =
      Keeps-rollback_package sys codecs.package_codec p result
  Keeps-rollback_operation (service_action p) result ordinary valid =
      Keeps-rollback_service sys codecs.service_codec p result
  Keeps-rollback_operation (file_write p) result ordinary valid =
      λ h. same_commands (rollback_file-Quiet sys codecs.file state_dir may p result h)
  Keeps-rollback_operation (breakglass_script p) result ordinary valid = absurd (ground arith)

  module _ (o : Operation) (ordinary : is_breakglass o ≡ false) (valid : validate o ≡ none) where
    Keeps-prepare :
        (id : String) → Keeps sys (prepare sys codecs state_dir config eval_symlinks id o)
    unfolding prepare
    Keeps-prepare id h safe =
        elim (Option-cases (validate_operation (eval_symlinks h) config (some o))) [
          | inr (e, refused) ↦ rw refused safe
          | inl fine ↦ rw fine (Keeps-prepare_operation o id ordinary valid h safe)
        ]

    Keeps-execute :
        (id : String) (result : ExecutionResult)
        → Keeps sys (execute sys codecs state_dir config eval_symlinks id o result)
    unfolding execute
    Keeps-execute id result h safe =
        elim (Option-cases (validate_operation (eval_symlinks h) config (some o))) [
          | inr (e, refused) ↦ rw refused safe
          | inl fine ↦ rw fine (Keeps-execute_operation o id result ordinary valid h safe)
        ]

    Keeps-rollback :
        (result : ExecutionResult)
        → Keeps sys (rollback sys codecs state_dir config eval_symlinks o result)
    unfolding rollback
    Keeps-rollback result =
        Keeps-chosen result.rollback_available
          (rollback_operation sys codecs state_dir config eval_symlinks o result)
          (fail "rollback is unavailable") (Keeps-rollback_operation o result ordinary valid)
          (λ h safe. safe)

    -- For a valid operation on a package, a service or a file, `Prepare`, `Execute`, `Verify` and
    -- `Rollback` run, on any host, only programs that `LookPath` found under the names of package
    -- managers, package databases and systemctl, with arguments of which only fixed words stand
    -- before the "--" that ends the options.
    pub executor-Keeps :
        ((id : String) → Keeps sys (prepare sys codecs state_dir config eval_symlinks id o))
        × ((id : String) (result : ExecutionResult)
            → Keeps sys (execute sys codecs state_dir config eval_symlinks id o result))
        × ((result : ExecutionResult)
            → Keeps sys (verify sys codecs state_dir config eval_symlinks o result))
        × ((result : ExecutionResult)
            → Keeps sys (rollback sys codecs state_dir config eval_symlinks o result))
    executor-Keeps = (
      Keeps-prepare,
      Keeps-execute,
      λ result. Keeps-verify o result ordinary valid,
      Keeps-rollback,
    )
