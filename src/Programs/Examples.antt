-- ===== src/Programs/Examples.antt =====
-- Starts of cmd/ops-root-helper/main.go and cmd/ops-systemd-helper/main.go with concrete flags.
use pi_ops_agent.Base.{
  ℕ, ◌+◌, ◌^◌, ◌≡◌, refl, pos, String, [], ◌∷◌, none, some, Result, ok, err, string_eq,
}
use pi_ops_agent.Base.Dict.{lookup, insert}
use pi_ops_agent.Protocol.FilePath.{clean, is_abs}
use pi_ops_agent.Protocol.{executing}
use pi_ops_agent.Protocol.Operations.{validate, parse_operation}
use pi_ops_agent.Protocol.Pattern.{unit_pattern}
use pi_ops_agent.RootHelper.Change.{Change}
use pi_ops_agent.Audit.{Existing, open_at, append}
use pi_ops_agent.RootHelper.Machine.{Env, Sys, append_event}
use pi_ops_agent.RootHelper.Recovery.{open_store, recover_interrupted}
use pi_ops_agent.RootHelper.Service.Dispatch.{recover}
use pi_ops_agent.RootHelper.Guarantees.Fixtures.{env_with, change_in, holding}
use pi_ops_agent.Programs.{RootFlags, Disk, uint32, check_root_flags, set_root, start_root}
use pi_ops_agent.Programs.Systemd.{validate_unit}
use pi_ops_agent.Programs.Started.{AreSound, start_root-IsSettled}
use pi_ops_agent.RootHelper.Guarantees.Restart.{IsSettled}

abbrev flags : RootFlags
flags = record {
  socket = "/run/r.sock";
  agent_uid = pos 1001;
  approver_uid = pos 0;
  rollback_timeout = pos 120;
}

-- Two UIDs that differ by 2 ^ 32 pass the test, and become the same.
abbrev wide : RootFlags
wide = record flags { agent_uid = pos (2 ^ 32 + 1); approver_uid = pos 1 }

one_uid : (check_root_flags wide ≡ none) × (uint32 wide.agent_uid ≡ uint32 wide.approver_uid)
unfolding check_root_flags
one_uid = (refl, refl)

roots :
    (set_root [] "/srv" ≡ ok ("/srv" ∷ []))
    × (set_root [] "/srv/../etc" ≡ err "write-root must be a clean absolute path below /")
    × (set_root [] "/" ≡ err "write-root must be a clean absolute path below /")
unfolding set_root clean is_abs string_eq
roots = (refl, refl, refl)

units :
    (validate_unit "ops-agentd.service" ≡ none)
    × (validate_unit "../x.service" ≡ some "agent unit must be a simple .service name")
unfolding validate_unit
units = (refl, refl)

-- state.json holds a change that was executing when the helper stopped.
-- The audit file does not exist yet.
abbrev no_log : Existing
no_log = record { directory = none; file = ok none; read_error = none }

abbrev disk : Disk
disk = record { directory = none; state_file = ok (some (1 ∷ [])); audit_file = no_log }

abbrev interrupted_env : Env ℕ
interrupted_env =
    env_with (record { changes = ("change-01", change_in executing) ∷ []; requests = [] })

abbrev of_start : Result (Sys ℕ) → Sys ℕ
of_start (ok s) = s
of_start (err e) = holding executing

began : Sys ℕ
unfolding start_root check_root_flags open_store open_at append append_event recover
    recover_interrupted parse_operation validate unit_pattern string_eq lookup insert
began = of_start (start_root interrupted_env flags disk 0)

start_root-IsSettled_example :
    AreSound flags
    × ((id : String) (c : Change)
        → lookup id began.store.memory.changes ≡ some c
        → IsSettled c.state)
unfolding began
start_root-IsSettled_example = start_root-IsSettled interrupted_env flags disk 0 began refl
