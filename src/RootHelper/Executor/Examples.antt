-- ===== src/RootHelper/Executor/Examples.antt =====
-- Runs of `OSExecutor` of internal/roothelper/executor.go on concrete hosts.
use pi_ops_agent.Base.{
  ℕ, ◌≡◌, refl, String, ◌<>◌, true, false, List, [], ◌∷◌, none, some, Result, ok, err, ◌==◌,
  string_eq, if◌then◌else◌,
}
use pi_ops_agent.Protocol.Pattern.{codes, package_pattern, version_pattern}
use pi_ops_agent.Protocol.FilePath.{clean, rel, is_abs, dir}
use pi_ops_agent.Protocol.Operations.{Operation, package_install, breakglass_script, validate}
use pi_ops_agent.RootHelper.Change.{ExecutionResult}
use pi_ops_agent.RootHelper.Policy.{Config, validate_operation}
use pi_ops_agent.RootHelper.Host.{Host, System, with_tool}
use pi_ops_agent.RootHelper.FileChange.{blank}
use pi_ops_agent.RootHelper.Packages.{
  RollbackCodec, PackageRollback, prepared_as, package_version, dpkg_package_version,
  rollback_package, install_specific_package,
}
use pi_ops_agent.RootHelper.Capsule.{write_property}
use pi_ops_agent.RootHelper.Executor.{Codecs, prepare, execute, verify, rollback}
use pi_ops_agent.RootHelper.Executor.Guarded.{Keeps}
use pi_ops_agent.RootHelper.Executor.Contained.{executor-Keeps}

abbrev host : Host
host = record { files = []; temporary = none; tick = 0; commands = [] }

-- A host with apt-get, dpkg-query, systemctl and systemd-run, on which every command succeeds and prints the same.
abbrev debian : String → System
debian printed = record {
  fault = λ _. none;
  partial = λ _. 0;
  look_path = λ _ name. if name == "rpm" then err "not found" else ok ("/usr/bin/" <> name);
  output = λ _ _ _. printed;
  exit = λ _ _ _. none;
  effect = λ _ _ files. files;
}

abbrev package_json : RollbackCodec PackageRollback
package_json = record {
  encode = λ r. if r.installed then codes r.version else [];
  decode = λ s. elim s [
    | [] ↦ ok (record { installed = false; version = "" })
    | _ ∷ _ ↦ ok (record { installed = true; version = "1.2-3" })
  ];
}

abbrev codecs : Codecs
codecs = record {
  file = record {
    rollback_json = λ _. [];
    parse_rollback = λ _. ok blank;
    bytes = codes;
    sha256 = λ s. s;
  };
  package_codec = package_json;
  service_codec = record {
    encode = λ r. if r.active then 1 ∷ [] else [];
    decode = λ _. ok (record { active = true });
  };
  breakglass_codec = record { encode = λ _. []; decode = λ _. err "unexpected end of JSON input" };
}

abbrev config : Config
config = record { allowed_roots = "/srv" ∷ []; allow_breakglass = true }

abbrev links : Host → List ℕ → Result (List ℕ)
links h path = ok path

abbrev nginx : Operation
nginx =
    package_install
      (record { operation_kind = "package.install"; package_name = "nginx"; version = "2.0" })

abbrev installed : String
installed = "install ok installed\t1.2-3\n"

found_version : (package_version (debian installed) "nginx" host).0 ≡ ok ("1.2-3", true)
unfolding package_version with_tool dpkg_package_version string_eq
found_version = refl

-- The rollback of an upgrade asks for the version that was installed before.
downgraded :
    (rollback_package
      (debian installed)
      package_json
      (record { operation_kind = "package.install"; package_name = "nginx"; version = "2.0" })
      (prepared_as (codes "1.2-3"))
      host).1.commands
    ≡ record {
      program = "/usr/bin/apt-get";
      arguments = "install" ∷ "-y" ∷ "--no-install-recommends" ∷ "--" ∷ "nginx=1.2-3" ∷ [];
    }
      ∷ []
unfolding rollback_package install_specific_package with_tool string_eq
downgraded = refl

-- A backup path may hold a space, at which systemd ends the path: it reads "/srv/a" and "/etc" here.
abbrev spaced : Operation
spaced = breakglass_script (record {
  operation_kind = "breakglass.script";
  script = "true";
  backup_paths = "/srv/a /etc" ∷ [];
  verify_script = "";
  network = false;
})

widened :
    (validate spaced ≡ none)
    × (validate_operation (links host) config (some spaced) ≡ none)
    × (write_property "/srv/a /etc" ≡ "--property=ReadWritePaths=/srv/a /etc")
unfolding validate validate_operation clean rel is_abs dir string_eq
widened = (refl, refl, refl)

executor-Keeps_example :
    ((id : String)
      → Keeps (debian installed) (prepare (debian installed) codecs "/state" config links id nginx))
    × ((id : String) (result : ExecutionResult)
        → Keeps
            (debian installed)
            (execute (debian installed) codecs "/state" config links id nginx result))
    × ((result : ExecutionResult)
        → Keeps
            (debian installed)
            (verify (debian installed) codecs "/state" config links nginx result))
    × ((result : ExecutionResult)
        → Keeps
            (debian installed)
            (rollback (debian installed) codecs "/state" config links nginx result))
unfolding validate string_eq package_pattern version_pattern
executor-Keeps_example =
    executor-Keeps (debian installed) codecs "/state" config links nginx refl refl
