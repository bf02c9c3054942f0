-- ===== src/RootHelper/Executor/Ordinary.antt =====
-- The operations of internal/roothelper/executor.go on packages and services, by their commands.
use pi_ops_agent.Base.{
  ◌≡◌, refl, inl, inr, String, Bool, true, false, List, [], ◌∷◌, All, Result-cases, Bool-cases,
  ◌==◌, string_eq, if◌then◌else◌, trim_space,
}
use pi_ops_agent.RootHelper.Host.{System, pure, lift, run_only, result_of_error}
use pi_ops_agent.RootHelper.Change.{ExecutionResult}
use pi_ops_agent.Protocol.Operations.{PackageInstall, ServiceAction}
use pi_ops_agent.RootHelper.Packages.{
  RollbackCodec, PackageRollback, ServiceRollback, managers, versioned, install_arguments,
  remove_arguments, prepared_as, first_manager, install_specific_package, remove_package,
  dpkg_package_version, rpm_package_version, package_version, systemctl, systemctl_only,
  prepare_package, rollback_package, verify_package, prepare_service, rollback_service,
  verify_service, service_text,
}
use pi_ops_agent.RootHelper.Executor.Guarded.{
  is_one_of, tools, guarded, Keeps, Keeps-bind, Keeps-run, Keeps-run_only, Keeps-with_tool,
}

guarded-install :
    (b : Bool) (target : String)
    → guarded (
        if b
        then "--non-interactive" ∷ "install" ∷ "--" ∷ target ∷ []
        else "install" ∷ "-y" ∷ "--" ∷ target ∷ [])
      ≡ true
unfolding string_eq
guarded-install true target = refl
guarded-install false target = refl

guarded-remove :
    (b : Bool) (name : String)
    → guarded (
        if b
        then "--non-interactive" ∷ "remove" ∷ "--" ∷ name ∷ []
        else "remove" ∷ "-y" ∷ "--" ∷ name ∷ [])
      ≡ true
unfolding string_eq
guarded-remove true name = refl
guarded-remove false name = refl

module _ (sys : System) where
  Keeps-first_manager :
      (arguments : String → List String) (names : List String)
      → ((m : String) → guarded (arguments m) ≡ true)
      → All (λ m. is_one_of tools m ≡ true) names
      → Keeps sys (first_manager sys arguments names)
  unfolding first_manager
  Keeps-first_manager arguments [] is known = λ h safe. safe
  Keeps-first_manager arguments (m ∷ others) is known =
      Keeps-with_tool sys m (λ path. run_only sys path (arguments m))
        (λ e. first_manager sys arguments others) known.0
        (λ path found. Keeps-run_only sys path (arguments m) found (is m))
        (λ e. Keeps-first_manager arguments others is known.1)

  module _ (name : String) where
    pub Keeps-install_specific_package :
        (version : String) → Keeps sys (install_specific_package sys name version)
    unfolding install_specific_package run_only string_eq
    Keeps-install_specific_package version =
        Keeps-with_tool sys "apt-get" _ _ refl (λ path found h safe. ((found, refl), safe))
          (λ e.
            Keeps-first_manager (λ m. install_arguments m (versioned name "-" version)) managers
              (λ m. guarded-install (m == "zypper") (versioned name "-" version))
              (refl, (refl, (refl, tt))))

    pub Keeps-remove_package : Keeps sys (remove_package sys name)
    unfolding remove_package run_only string_eq
    Keeps-remove_package =
        Keeps-with_tool sys "apt-get" _ _ refl (λ path found h safe. ((found, refl), safe))
          (λ e.
            Keeps-first_manager (λ m. remove_arguments m name) managers
              (λ m. guarded-remove (m == "zypper") name) (refl, (refl, (refl, tt))))

    pub Keeps-package_version : Keeps sys (package_version sys name)
    unfolding package_version string_eq dpkg_package_version rpm_package_version
    Keeps-package_version =
        Keeps-with_tool sys "dpkg-query" _ _ refl (λ path found h safe. ((found, refl), safe))
          (λ e.
            Keeps-with_tool sys "rpm" _ _ refl (λ path found h safe. ((found, refl), safe))
              (λ e h safe. safe))

  module _ (action unit : String) (fixed : guarded (action ∷ "--" ∷ unit ∷ []) ≡ true) where
    pub Keeps-systemctl : Keeps sys (systemctl sys action unit)
    unfolding systemctl string_eq
    Keeps-systemctl =
        Keeps-with_tool sys "systemctl" _ _ refl
          (λ path found. Keeps-run sys path (action ∷ "--" ∷ unit ∷ []) found fixed)
          (λ e h safe. safe)

    pub Keeps-systemctl_only : Keeps sys (systemctl_only sys action unit)
    unfolding systemctl_only
    Keeps-systemctl_only =
        Keeps-bind sys (systemctl sys action unit) (λ a. lift (result_of_error a.1)) Keeps-systemctl
          (λ a h safe. safe)

  pub Keeps-prepare_package :
      (codec : RollbackCodec PackageRollback) (o : PackageInstall)
      → Keeps sys (prepare_package sys codec o)
  unfolding prepare_package
  Keeps-prepare_package codec o =
      Keeps-bind sys (package_version sys o.package_name)
        (λ old. pure (prepared_as (codec.encode (record { installed = old.1; version = old.0 }))))
        (Keeps-package_version o.package_name) (λ old h safe. safe)

  pub Keeps-verify_package : (o : PackageInstall) → Keeps sys (verify_package sys o)
  unfolding verify_package
  Keeps-verify_package o = Keeps-package_version o.package_name

  pub Keeps-rollback_package :
      (codec : RollbackCodec PackageRollback) (o : PackageInstall) (result : ExecutionResult)
      → Keeps sys (rollback_package sys codec o result)
  unfolding rollback_package
  Keeps-rollback_package codec o result h safe =
      elim (Result-cases (codec.decode result.rollback_data)) [
        | inr (e, failed) ↦ rw failed safe
        | inl (r, fine) ↦ elim (Bool-cases r.installed) [
          | inl there ↦
              rw (fine, there) (Keeps-install_specific_package o.package_name r.version h safe)
          | inr absent ↦ rw (fine, absent) (Keeps-remove_package o.package_name h safe)
        ]
      ]

  pub Keeps-prepare_service :
      (codec : RollbackCodec ServiceRollback) (o : ServiceAction)
      → Keeps sys (prepare_service sys codec o)
  unfolding prepare_service string_eq
  Keeps-prepare_service codec o =
      Keeps-bind sys (systemctl sys "is-active" o.unit)
        (λ state.
          pure (prepared_as (codec.encode (record { active = trim_space state.0 == "active" }))))
        (Keeps-systemctl "is-active" o.unit refl) (λ state h safe. safe)

  pub Keeps-verify_service : (o : ServiceAction) → Keeps sys (verify_service sys o)
  unfolding verify_service string_eq
  Keeps-verify_service o =
      Keeps-bind sys (systemctl sys "is-active" o.unit)
        (λ state. lift (service_text sys o (trim_space state.0 == "active") state.1))
        (Keeps-systemctl "is-active" o.unit refl) (λ state h safe. safe)

  pub Keeps-rollback_service :
      (codec : RollbackCodec ServiceRollback) (o : ServiceAction) (result : ExecutionResult)
      → Keeps sys (rollback_service sys codec o result)
  unfolding rollback_service string_eq
  Keeps-rollback_service codec o result h safe =
      elim (Result-cases (codec.decode result.rollback_data)) [
        | inr (e, failed) ↦ rw failed safe
        | inl (r, fine) ↦ elim (Bool-cases r.active) [
          | inl there ↦ rw (fine, there) (Keeps-systemctl_only "start" o.unit refl h safe)
          | inr absent ↦ rw (fine, absent) (Keeps-systemctl_only "stop" o.unit refl h safe)
        ]
      ]
