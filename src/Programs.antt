-- ===== src/Programs.antt =====
-- The start of cmd/ops-root-helper/main.go, up to the socket server; Systemd has that of
-- cmd/ops-systemd-helper/main.go.
pub mod Started
pub mod Systemd
pub mod Lifetime
pub mod Examples
use pi_ops_agent.Base.{
  ℕ, zero, suc, ◌+◌, ◌-◌, ◌*◌, ◌%◌, ◌^◌, ℤ, pos, negsuc, String, ◌<>◌, Bool, true, false, not, ◌&&◌,
  ◌||◌, List, [], ◌∷◌, ◌++◌, Option, none, some, Result, ok, err, ltb, leb, ◌=?◌, length, drop,
  if◌then◌else◌, ◌==◌, string_eq,
}
use Prim.Native.String.{len}
use pi_ops_agent.Protocol.Pattern.{codes, same, member}
use pi_ops_agent.Protocol.FilePath.{is_abs, clean}
use pi_ops_agent.Protocol.Operations.{Error, has_control, parse_operation}
use pi_ops_agent.Audit
use pi_ops_agent.Audit.{Log}
use pi_ops_agent.Protocol.Json.{◌>>=◌, ◌>>◌}
use pi_ops_agent.RootHelper.Store.{Store}
use pi_ops_agent.RootHelper.Machine.{Env, Sys, Executor, append_event}
use pi_ops_agent.RootHelper.Change.{root_helper_started}
use pi_ops_agent.RootHelper.Recovery.{open_store}
use pi_ops_agent.RootHelper.Service.Dispatch.{recover}

-- `stringList.Set`, called for each `-write-root`.
abbrev pub is_root : String → Bool
is_root value =
    is_abs (codes value) && (same (clean (codes value)) (codes value) && not (value == "/"))

unfoldable pub set_root : List String → String → Result (List String)
set_root values value =
    if is_root value
    then ok (values ++ value ∷ [])
    else err "write-root must be a clean absolute path below /"

-- The flags but for the paths, the roots, the group of the socket and `-allow-breakglass`.
pub record RootFlags : Type 0 where
  pub socket : String
  pub agent_uid : ℤ
  pub approver_uid : ℤ
  pub rollback_timeout : ℤ

abbrev pub is_negative : ℤ → Bool
is_negative (pos n) = false
is_negative (negsuc n) = true

abbrev pub is_positive : ℤ → Bool
is_positive (pos n) = ltb 0 n
is_positive (negsuc n) = false

abbrev same_number : ℤ → ℤ → Bool
same_number (pos m) (pos n) = m =? n
same_number (negsuc m) (negsuc n) = m =? n
same_number _ _ = false

-- `uint32(uid)`
abbrev pub uint32 : ℤ → ℕ
uint32 (pos n) = n % 2 ^ 32
uint32 (negsuc n) = 2 ^ 32 - suc (n % 2 ^ 32)

unfoldable pub check_root_flags : RootFlags → Error
check_root_flags f =
    if is_negative f.agent_uid
      || (is_negative f.approver_uid || same_number f.agent_uid f.approver_uid)
    then some "agent-uid and approver-uid must be distinct non-negative UIDs"
    else if not (is_positive f.rollback_timeout)
    then some "rollback-timeout must be positive"
    else none

abbrev pub lift_error : Error → Result (Unit {0})
lift_error none = ok tt
lift_error (some e) = err e

-- What a start finds: the error of the directory, state.json and the audit file.
pub record Disk : Type 0 where
  pub directory : Error
  pub state_file : Result (Option (List ℕ))
  pub audit_file : Audit.Existing

-- The service that the start makes has a store, a log and an executor.
abbrev pub env_of : {W : Type 0} → Env W → RootFlags → Env W
env_of env f = record env {
  has_store_and_audit = true;
  has_executor = true;
  agent_uid = uint32 f.agent_uid;
  approver_uid = uint32 f.approver_uid;
  rollback_timeout = f.rollback_timeout;
}

module _ {W : Type 0} (env : Env W) where
  abbrev recovered : Error × Sys W → Result (Sys W)
  recovered (none, s) = ok s
  recovered (some e, s) = err e

  abbrev pub service_of : Store → Log → W → Sys W
  service_of store log w = record { store = store; log = log; world = w; tick = 0; trace = [] }

  abbrev pub announced : Result String × Sys W → Result (Sys W)
  announced (ok id, s) = ok s
  announced (err e, s) = err e

  -- `main` of the root helper up to `ListenAndServe`.
  unfoldable pub start_root : RootFlags → Disk → W → Result (Sys W)
  start_root f disk w = do
    lift_error (check_root_flags f)
    store ←
        open_store env.codec (parse_operation env.decode_operation) disk.directory disk.state_file
    log ← Audit.open_at env.encoding disk.audit_file
    s ← recovered (recover (env_of env f) (service_of store log w))
    announced
        (append_event (env_of env f) (root_helper_started f.socket f.agent_uid f.approver_uid) s)
