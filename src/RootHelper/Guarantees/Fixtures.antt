-- ===== src/RootHelper/Guarantees/Fixtures.antt =====
-- A small host and service, for runs of internal/roothelper/service.go.
use pi_ops_agent.Base.{ℕ, pos, ◌+◌, true, false, [], ◌∷◌, none, ok, err}
use pi_ops_agent.Protocol.{Request, Method, ChangeState}
use pi_ops_agent.Protocol.Operations.{Operation, service_action}
use pi_ops_agent.Audit
use pi_ops_agent.RootHelper.Change.{Change, ExecutionResult, Credential, PersistedState}
use pi_ops_agent.RootHelper.Store.{StateCodec, PersistAnswers}
use pi_ops_agent.RootHelper.Machine.{Env, Sys, Executor}

abbrev pub restart : Operation
restart =
    service_action
      (record { operation_kind = "service.action"; unit = "web.service"; action = "restart" })

abbrev pub backup : ExecutionResult
backup = record {
  backup_refs = "/state/changes/change-01/unit.json" ∷ [];
  rollback_data = 5 ∷ [];
  rollback_available = true;
  verification = "unit was active";
}

-- An executor on a host that counts the mutations.
abbrev pub counting : Executor ℕ
counting = record {
  validate_operation = none;
  prepare = λ ctx id operation w. (ok backup, w);
  execute = λ ctx id operation result w. (none, w + 1);
  verify = λ ctx id operation result w. ("unit is active", none, w);
  rollback = λ ctx id operation result w. (none, w + 1);
}

abbrev pub no_errors : PersistAnswers
no_errors = record {
  create_error = none;
  chmod_error = none;
  write_error = none;
  kept = 0;
  sync_error = none;
  close_error = none;
  rename_error = none;
  open_dir_error = none;
  sync_dir_error = none;
}

-- Every state has one encoding, which reads back as a given one.
abbrev pub codec : PersistedState → StateCodec
codec state = record { marshal_state = λ s. ok (1 ∷ []); unmarshal_state = λ payload. ok state }

abbrev pub env_with : PersistedState → Env ℕ
env_with state = record {
  has_store_and_audit = true;
  has_executor = true;
  agent_uid = 990;
  approver_uid = 1000;
  rollback_timeout = pos 0;
  executor = counting;
  codec = codec state;
  encoding = record {
    body_json = λ body. 2 ∷ [];
    entry_json = λ entry. 3 ∷ [];
    parse_entry = λ line. err "json";
    sha256 = λ payload. 4 ∷ [];
  };
  operation_json = λ operation. 6 ∷ [];
  decode_operation = λ payload. ok restart;
  sha256 = λ payload. 7 ∷ [];
  time_text = λ time. "now";
  clock = λ n. n;
  random = λ n. ok (171 ∷ []);
  persist = λ n. no_errors;
  audit = λ n. record {
    random = ok (n ∷ []);
    time = "now";
    open_error = none;
    write_error = none;
    sync_error = none;
  };
}

abbrev pub change_in : ChangeState → Change
change_in state = record {
  id = "change-01";
  plan_hash = "sha256:07";
  kind = "service.action";
  summary = "restart service web.service";
  operation = 6 ∷ [];
  state = state;
  prepared_at = "before";
  updated_at = "before";
  approved_by_uid = none;
  backup_refs = [];
  rollback_data = [];
  rollback_available = false;
  verification = "";
  last_error = "";
}

abbrev pub holding : ChangeState → Sys ℕ
holding state = record {
  store = record {
    memory = record { changes = ("change-01", change_in state) ∷ []; requests = [] };
    disk = none;
  };
  log = record { file = []; previous_hash = Audit.zero_hash };
  world = 0;
  tick = 0;
  trace = [];
}

abbrev pub asking : Method → Request
asking m = record {
  version = 1;
  request_id = "r1";
  deadline = 100;
  method = m;
  change_id = "change-01";
  unit = "";
  lines = 0;
  operation = none;
  raw = 8 ∷ [];
}

abbrev pub human : Credential
human = record { pid = 1; uid = 1000; gid = 1000 }

abbrev pub agent : Credential
agent = record { pid = 2; uid = 990; gid = 990 }

abbrev pub no_state : PersistedState
no_state = record { changes = []; requests = [] }

abbrev pub env : Env ℕ
env = env_with no_state
