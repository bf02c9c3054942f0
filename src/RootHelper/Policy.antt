-- ===== src/RootHelper/Policy.antt =====
-- internal/roothelper/executor.go: what the executor refuses before a change is prepared.
pub mod Allowed
mod Examples
use pi_ops_agent.Base.{
  ℕ, String, ◌<>◌, Bool, true, false, not, ◌&&◌, ◌||◌, List, [], ◌∷◌, ◌++◌, Option, none, some,
  Result, ok, err,
}
use pi_ops_agent.Base.{leb, ◌=?◌, ◌+◌, if◌then◌else◌, map}
use pi_ops_agent.Protocol.Pattern.{codes, same}
use pi_ops_agent.Protocol.FilePath.{slash, dot_dot, clean, dir, rel}
use pi_ops_agent.Protocol.Operations.{
  Error, Operation, package_install, service_action, file_write, breakglass_script,
}

-- The fields of `OSExecutor` that the tests read.
pub record Config : Type 0 where
  pub allowed_roots : List String
  pub allow_breakglass : Bool

abbrev pub critical_paths : List (List ℕ)
critical_paths =
    codes "/etc/passwd"
    ∷ codes "/etc/shadow"
    ∷ codes "/etc/group"
    ∷ codes "/etc/gshadow"
    ∷ codes "/etc/sudoers"
    ∷ codes "/etc/sudoers.d"
    ∷ codes "/etc/ssh"
    ∷ codes "/etc/pam.d"
    ∷ codes "/etc/security"
    ∷ codes "/etc/fstab"
    ∷ codes "/etc/crypttab"
    ∷ codes "/etc/ld.so.preload"
    ∷ codes "/etc/modprobe.d"
    ∷ codes "/etc/sysctl.d"
    ∷ []

abbrev pub critical_services : List (List ℕ)
critical_services =
    codes "ops-root-helper.service"
    ∷ codes "ops-systemd-helper.service"
    ∷ codes "ops-agentd.service"
    ∷ codes "ssh.service"
    ∷ codes "sshd.service"
    ∷ codes "dbus.service"
    ∷ codes "systemd-logind.service"
    ∷ codes "network.service"
    ∷ codes "networking.service"
    ∷ codes "networkmanager.service"
    ∷ codes "systemd-networkd.service"
    ∷ codes "firewalld.service"
    ∷ codes "nftables.service"
    ∷ codes "iptables.service"
    ∷ codes "ufw.service"
    ∷ []

-- `strings.HasPrefix`
unfoldable pub has_prefix : List ℕ → List ℕ → Bool
has_prefix s [] = true
has_prefix [] (c ∷ prefix) = false
has_prefix (d ∷ s) (c ∷ prefix) = d =? c && has_prefix s prefix

unfoldable pub is_in : List ℕ → List (List ℕ) → Bool
is_in s [] = false
is_in s (t ∷ ts) = same s t || is_in s ts

-- The loop of `isCriticalPath`.
unfoldable pub is_at_or_below : List ℕ → List (List ℕ) → Bool
unfolding has_prefix
is_at_or_below path [] = false
is_at_or_below path (denied ∷ rest) =
    (same path denied || has_prefix path (denied ++ slash ∷ [])) || is_at_or_below path rest

unfoldable pub is_critical_path : List ℕ → Bool
unfolding is_at_or_below
is_critical_path path = is_at_or_below path critical_paths

-- `strings.ToLower` on the letters of ASCII, the only ones that a unit's name can have.
abbrev pub to_lower : ℕ → ℕ
to_lower c = if leb b'A' c && leb c b'Z' then c + 32 else c

unfoldable pub is_critical_service : List ℕ → Bool
unfolding is_in
is_critical_service unit = is_in (map to_lower unit) critical_services

-- `err == nil && relative != ".." && !strings.HasPrefix(relative, "../")`
abbrev pub stays_below : Option (List ℕ) → Bool
stays_below none = false
stays_below (some r) = not (same r dot_dot) && not (has_prefix r (dot_dot ++ slash ∷ []))

unfoldable pub is_within : List ℕ → List ℕ → Bool
unfolding rel has_prefix
is_within base target = stays_below (rel base target)

module _ (eval_symlinks : List ℕ → Result (List ℕ)) where
  -- The symlinks of the parent and of the root are followed.
  unfoldable pub check_links : List ℕ → List ℕ → Error
  unfolding is_within dir
  check_links root path = elim (eval_symlinks (dir path)) [
    | err e ↦ some ("resolve target parent: " <> e)
    | ok parent ↦ elim (eval_symlinks root) [
      | err e ↦ some ("resolve allowed root: " <> e)
      | ok resolved ↦
          if is_within resolved parent
          then none
          else some "target parent escapes the allowed root through a symlink"
    ]
  ]

  unfoldable pub check_roots : List ℕ → List String → Error
  unfolding check_links clean
  check_roots path [] = some "path is outside configured write roots"
  check_roots path (root ∷ roots) =
      let rest = check_roots path roots in
      if is_within (clean (codes root)) path then check_links (clean (codes root)) path else rest

  module _ (config : Config) where
    unfoldable pub ensure_allowed_path : String → Error
    unfolding is_critical_path check_roots
    ensure_allowed_path path =
        let p = clean (codes path) in
        if is_critical_path p
        then some "R3 identity, remote-entry, network, disk, or kernel path is not remotely mutable"
        else check_roots p config.allowed_roots

    unfoldable pub ensure_allowed_paths : List String → Error
    unfolding ensure_allowed_path
    ensure_allowed_paths [] = none
    ensure_allowed_paths (path ∷ paths) =
        let rest = ensure_allowed_paths paths in
        elim (ensure_allowed_path path) [ some e ↦ some e | none ↦ rest ]

    -- `ValidateOperation`; `none` is the nil operation.
    unfoldable pub validate_operation : Option Operation → Error
    unfolding is_critical_service ensure_allowed_paths
    validate_operation none = some "unsupported operation"
    validate_operation (some (package_install o)) = none
    validate_operation (some (service_action o)) =
        if is_critical_service (codes o.unit)
        then some "R3 service is not remotely mutable"
        else none
    validate_operation (some (file_write o)) = ensure_allowed_path o.path
    validate_operation (some (breakglass_script o)) =
        if not config.allow_breakglass
        then some "break-glass execution is disabled"
        else if o.network
        then some "networked break-glass capsules are not supported"
        else ensure_allowed_paths o.backup_paths
