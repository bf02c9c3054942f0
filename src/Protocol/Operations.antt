-- ===== src/Protocol/Operations.antt =====
-- The tagged union of operations of internal/protocol/messages.go, with `Kind`, `Summary` and
-- `Validate` of each.
use pi_ops_agent.Base.{ℕ, ◌*◌, String, ◌<>◌, Bool, false, not, ◌&&◌, ◌||◌, List, [], ◌∷◌}
use pi_ops_agent.Base.{
  ◌==◌, string_eq, ltb, ◌=?◌, length, if◌then◌else◌, decimal, Option, none, some, Result, ok, err,
}
use Prim.Native.String.{len}
use pi_ops_agent.Protocol.Pattern.{codes, same, member, package_pattern, version_pattern}
use pi_ops_agent.Protocol.Pattern.{unit_pattern, mode_pattern}
use pi_ops_agent.Protocol.FilePath.{is_abs, clean}

pub record PackageInstall : Type 0 where
  pub operation_kind : String
  pub package_name : String
  pub version : String

pub record ServiceAction : Type 0 where
  pub operation_kind : String
  pub unit : String
  pub action : String

pub record FileWrite : Type 0 where
  pub operation_kind : String
  pub path : String
  pub content : String
  pub mode : String

pub record BreakglassScript : Type 0 where
  pub operation_kind : String
  pub script : String
  pub backup_paths : List String
  pub verify_script : String
  pub network : Bool

pub data Operation : Type 0 where
  package_install : PackageInstall → Operation
  service_action : ServiceAction → Operation
  file_write : FileWrite → Operation
  breakglass_script : BreakglassScript → Operation

unfoldable pub kind : Operation → String
kind (package_install o) = "package.install"
kind (service_action o) = "service.action"
kind (file_write o) = "file.write"
kind (breakglass_script o) = "breakglass.script"

abbrev pub operation_kind : Operation → String
operation_kind (package_install o) = o.operation_kind
operation_kind (service_action o) = o.operation_kind
operation_kind (file_write o) = o.operation_kind
operation_kind (breakglass_script o) = o.operation_kind

unfoldable pub summary : Operation → String
summary (package_install o) =
    if o.version == ""
    then "install package " <> o.package_name
    else "install package " <> (o.package_name <> (" version " <> o.version))
summary (service_action o) = o.action <> (" service " <> o.unit)
summary (file_write o) = "write " <> (decimal (len o.content) <> (" bytes to " <> o.path))
summary (breakglass_script o) =
    "run digest-bound break-glass script ("
    <> (decimal (len o.script)
        <> (" bytes, " <> (decimal (length o.backup_paths) <> " backup paths)")))

-- A Go `error`: `nil`, or its text.
abbrev pub Error : Type 0
Error = Option String

validate_package : PackageInstall → Error
validate_package o =
    if not (o.operation_kind == "package.install") || not (package_pattern (codes o.package_name))
    then some "invalid package.install operation"
    else if not (o.version == "") && not (version_pattern (codes o.version))
    then some "invalid package version"
    else none

validate_service : ServiceAction → Error
validate_service o =
    if not (o.operation_kind == "service.action") || not (unit_pattern (codes o.unit))
    then some "invalid service.action operation"
    else if o.action == "restart"
        || o.action == "reload"
        || o.action == "start"
        || o.action == "stop"
    then none
    else some "invalid service action"

-- `strings.ContainsAny(s, "\x00\n\r")`
abbrev pub has_control : List ℕ → Bool
has_control [] = false
has_control (c ∷ s) = member c (0 ∷ 10 ∷ 13 ∷ []) || has_control s

validate_file : FileWrite → Error
validate_file o =
    let path = codes o.path in
    if not (o.operation_kind == "file.write") || not (is_abs path) || not (same (clean path) path)
    then some "file.write path must be a clean absolute path"
    else if ltb 4096 (len o.path) || has_control path || ltb (128 * 1024) (len o.content)
    then some "file.write exceeds a protocol limit"
    else if not (o.mode == "") && not (mode_pattern (codes o.mode))
    then some "invalid file mode"
    else none

-- The test on one entry of `BackupPaths`, and the loop over them.
backup_path_refused : String → Bool
backup_path_refused p =
    let path = codes p in
    not (is_abs path)
    || not (same (clean path) path)
    || ltb 4096 (len p)
    || (p == "/")
    || has_control path

validate_backup_paths : List String → Error
validate_backup_paths [] = none
validate_backup_paths (p ∷ ps) =
    if backup_path_refused p
    then some "break-glass backup paths must be clean absolute paths below root"
    else validate_backup_paths ps

validate_breakglass : BreakglassScript → Error
unfolding backup_path_refused validate_backup_paths
validate_breakglass o =
    if not (o.operation_kind == "breakglass.script")
      || len o.script =? 0
      || ltb (128 * 1024) (len o.script)
    then some "invalid breakglass.script operation"
    else if ltb (32 * 1024) (len o.verify_script)
        || length o.backup_paths =? 0
        || ltb 32 (length o.backup_paths)
    then some "break-glass requires a bounded backup and verification plan"
    else validate_backup_paths o.backup_paths

unfoldable pub validate : Operation → Error
unfolding validate_package validate_service validate_file validate_breakglass
validate (package_install o) = validate_package o
validate (service_action o) = validate_service o
validate (file_write o) = validate_file o
validate (breakglass_script o) = validate_breakglass o

-- `MarshalOperation`, over `json.Marshal` of a valid operation.
unfoldable pub marshal_operation : (Operation → List ℕ) → Option Operation → Result (List ℕ)
marshal_operation json none = err "operation is required"
marshal_operation json (some o) = elim (validate o) [ some e ↦ err e | none ↦ ok (json o) ]

-- `parseOperation` and `ParseStoredOperation`, over the decoding of the tagged union.
unfoldable pub parse_operation : (List ℕ → Result Operation) → List ℕ → Result Operation
parse_operation decode payload = elim (decode payload) [
  | err e ↦ err e
  | ok o ↦ elim (validate o) [ some e ↦ err e | none ↦ ok o ]
]
