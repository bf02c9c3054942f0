-- ===== src/RootHelper/Packages.antt =====
-- internal/roothelper/executor.go: `package.install` and `service.action`, by the package manager, the
-- package database and systemctl of the host.
use pi_ops_agent.Base.{
  ℕ, String, ◌<>◌, Bool, true, false, not, ◌&&◌, List, [], ◌∷◌, none, some, Result, ok, err,
  if◌then◌else◌, ◌==◌, string_eq, trim_space, split_at,
}
use pi_ops_agent.Protocol.Operations.{PackageInstall, ServiceAction, Error}
use pi_ops_agent.RootHelper.Change.{ExecutionResult}
use pi_ops_agent.RootHelper.Host.{
  System, Action, ◌>>=◌, pure, fail, lift, catch, result_of_error, with_tool, run, run_only,
}

pub record PackageRollback : Type 0 where
  pub installed : Bool
  pub version : String

pub record ServiceRollback : Type 0 where
  pub active : Bool

-- `encoding/json` on one type of rollback data.
pub record RollbackCodec (R : Type 0) : Type 0 where
  pub encode : R → List ℕ
  pub decode : List ℕ → Result R

abbrev pub prepared_as : List ℕ → ExecutionResult
prepared_as payload = record {
  backup_refs = [];
  rollback_data = payload;
  rollback_available = true;
  verification = "";
}

abbrev pub managers : List String
managers = "dnf" ∷ "yum" ∷ "zypper" ∷ []

abbrev pub versioned : String → String → String → String
versioned name separator version = if version == "" then name else name <> (separator <> version)

abbrev pub install_arguments : String → String → List String
install_arguments manager target =
    if manager == "zypper"
    then "--non-interactive" ∷ "install" ∷ "--" ∷ target ∷ []
    else "install" ∷ "-y" ∷ "--" ∷ target ∷ []

abbrev pub remove_arguments : String → String → List String
remove_arguments manager name =
    if manager == "zypper"
    then "--non-interactive" ∷ "remove" ∷ "--" ∷ name ∷ []
    else "remove" ∷ "-y" ∷ "--" ∷ name ∷ []

-- The two parts of what dpkg-query prints.
abbrev pub dpkg_version : List String → String × Bool
dpkg_version (status ∷ version ∷ []) =
    if status == "install ok installed" then (version, true) else ("", false)
dpkg_version _ = ("", false)

-- What dpkg-query and rpm answer; a failure says that the package is not installed.
abbrev pub dpkg_answer : String → Error → String × Bool
dpkg_answer out (some e) = ("", false)
dpkg_answer out none = dpkg_version (split_at 9 (trim_space out))

abbrev pub rpm_answer : String → Error → String × Bool
rpm_answer out (some e) = ("", false)
rpm_answer out none = (trim_space out, true)

module _ (sys : System) where
  -- The loop over dnf, yum and zypper: the first that is found is run.
  unfoldable pub first_manager : (String → List String) → List String → Action (Unit {0})
  unfolding run_only
  first_manager arguments [] = fail "no supported package manager found"
  first_manager arguments (manager ∷ others) =
      with_tool sys manager (λ path. run_only sys path (arguments manager))
        (λ e. first_manager arguments others)

  unfoldable pub install_specific_package : String → String → Action (Unit {0})
  unfolding run_only first_manager
  install_specific_package name version =
      with_tool sys "apt-get"
        (λ path.
          run_only sys path
            ("install" ∷ "-y" ∷ "--no-install-recommends" ∷ "--" ∷ versioned name "=" version ∷ []))
        (λ e. first_manager (λ m. install_arguments m (versioned name "-" version)) managers)

  unfoldable pub remove_package : String → Action (Unit {0})
  unfolding run_only first_manager
  remove_package name =
      with_tool sys "apt-get" (λ path. run_only sys path ("remove" ∷ "-y" ∷ "--" ∷ name ∷ []))
        (λ e. first_manager (λ m. remove_arguments m name) managers)

  unfoldable pub dpkg_package_version : String → String → Action (String × Bool)
  unfolding run trim_space split_at
  dpkg_package_version name path = do
    answer ← run sys path ("-W" ∷ "-f=${Status}\t${Version}" ∷ "--" ∷ name ∷ [])
    pure (dpkg_answer answer.0 answer.1)

  unfoldable pub rpm_package_version : String → String → Action (String × Bool)
  unfolding run trim_space
  rpm_package_version name path = do
    answer ← run sys path ("-q" ∷ "--qf" ∷ "%{VERSION}-%{RELEASE}" ∷ "--" ∷ name ∷ [])
    pure (rpm_answer answer.0 answer.1)

  unfoldable pub package_version : String → Action (String × Bool)
  package_version name = with_tool sys "dpkg-query" (dpkg_package_version name) (λ _.
      with_tool sys "rpm" (rpm_package_version name)
        (λ _. fail "no supported package database found"))

  unfoldable pub systemctl : String → String → Action (String × Error)
  unfolding run
  systemctl action unit =
      with_tool sys "systemctl" (λ path. run sys path (action ∷ "--" ∷ unit ∷ []))
        (λ e. pure ("", some e))

  unfoldable pub systemctl_only : String → String → Action (Unit {0})
  systemctl_only action unit = do answer ← systemctl action unit; lift (result_of_error answer.1)

  module _ (codec : RollbackCodec PackageRollback) where
    unfoldable pub prepare_package : PackageInstall → Action ExecutionResult
    prepare_package o = do
      old ← package_version o.package_name
      pure (prepared_as (codec.encode (record { installed = old.1; version = old.0 })))

    -- The case `*protocol.PackageInstall` of `Rollback`.
    unfoldable pub rollback_package : PackageInstall → ExecutionResult → Action (Unit {0})
    rollback_package o result = do
      r ← lift (codec.decode result.rollback_data)
      (if r.installed
          then install_specific_package o.package_name r.version
          else remove_package o.package_name)

  abbrev pub version_text : PackageInstall → String × Bool → Result String
  version_text o (version, installed) =
      if not installed
      then err "package is not installed after change"
      else if not (o.version == "") && not (version == o.version)
      then err
          ("installed version \"" <> (version <> ("\" does not match \"" <> (o.version <> "\""))))
      else ok ("installed version " <> version)

  abbrev pub checked_version : PackageInstall → Result (String × Bool) → Result String
  checked_version o (err e) = err "package is not installed after change"
  checked_version o (ok v) = version_text o v

  -- The case `*protocol.PackageInstall` of `Verify`.
  unfoldable pub verify_package : PackageInstall → Action String
  verify_package o = do
    found ← catch (package_version o.package_name)
    lift (checked_version o found)

  module _ (codec : RollbackCodec ServiceRollback) where
    unfoldable pub prepare_service : ServiceAction → Action ExecutionResult
    unfolding trim_space
    prepare_service o = do
      state ← systemctl "is-active" o.unit
      pure (prepared_as (codec.encode (record { active = trim_space state.0 == "active" })))

    -- The case `*protocol.ServiceAction` of `Rollback`.
    unfoldable pub rollback_service : ServiceAction → ExecutionResult → Action (Unit {0})
    rollback_service o result = do
      r ← lift (codec.decode result.rollback_data)
      systemctl_only (if r.active then "start" else "stop") o.unit

  abbrev pub service_text : ServiceAction → Bool → Error → Result String
  service_text o active failure =
      if o.action == "stop"
      then (if active then err "service is still active" else ok "service is inactive")
      else elim failure [
        | some e ↦ err "service is not active after change"
        | none ↦ if active then ok "service is active" else err "service is not active after change"
      ]

  -- The case `*protocol.ServiceAction` of `Verify`.
  unfoldable pub verify_service : ServiceAction → Action String
  unfolding trim_space
  verify_service o = do
    state ← systemctl "is-active" o.unit
    lift (service_text o (trim_space state.0 == "active") state.1)
