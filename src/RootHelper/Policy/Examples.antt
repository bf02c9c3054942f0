-- ===== src/RootHelper/Policy/Examples.antt =====
-- Runs of `ValidateOperation` of internal/roothelper/executor.go, and its theorem at an operation.
use pi_ops_agent.Base.{
  ℕ, ◌≡◌, refl, String, false, List, [], ◌∷◌, none, some, Result, ok, if◌then◌else◌,
}
use pi_ops_agent.Protocol.Pattern.{codes, same}
use pi_ops_agent.Protocol.FilePath.{clean, dir, rel}
use pi_ops_agent.Protocol.Operations.{Operation, Error, file_write, service_action}
use pi_ops_agent.RootHelper.Policy.{Config, validate_operation}
use pi_ops_agent.RootHelper.Policy.Allowed.{IsPermitted, validate_operation-IsPermitted}

abbrev config : Config
config = record { allowed_roots = "/srv" ∷ "/etc" ∷ []; allow_breakglass = false }

-- /etc/app is a link to /etc/ssh, /srv/out one to /root; every other path is its own.
abbrev links : List ℕ → Result (List ℕ)
links path =
    if same path (codes "/etc/app")
    then ok (codes "/etc/ssh")
    else if same path (codes "/srv/out")
    then ok (codes "/root")
    else ok path

abbrev writing : String → Operation
writing path =
    file_write (record { operation_kind = "file.write"; path = path; content = "x"; mode = "" })

judge : Operation → Error
unfolding validate_operation clean rel dir
judge o = validate_operation links config (some o)

allowed : judge (writing "/srv/www/index.html") ≡ none
unfolding judge
allowed = refl

refused :
    (judge (writing "/usr/bin/sh") ≡ some "path is outside configured write roots")
    × (judge (writing "/srv/out/x")
        ≡ some "target parent escapes the allowed root through a symlink")
    × (judge (writing "/etc/ssh/sshd_config")
        ≡ some "R3 identity, remote-entry, network, disk, or kernel path is not remotely mutable")
    × (judge (
          service_action
            (record { operation_kind = "service.action"; unit = "SSHD.service"; action = "stop" }))
        ≡ some "R3 service is not remotely mutable")
unfolding judge
refused = (refl, refl, refl, refl)

-- The critical paths are looked for in the path's name only, not in the parent that a link leads to.
critical_through_link : judge (writing "/etc/app/sshd_config") ≡ none
unfolding judge
critical_through_link = refl

validate_operation-IsPermitted_example :
    IsPermitted links config (some (writing "/srv/www/index.html"))
unfolding judge
validate_operation-IsPermitted_example =
    validate_operation-IsPermitted links config (some (writing "/srv/www/index.html")) allowed
