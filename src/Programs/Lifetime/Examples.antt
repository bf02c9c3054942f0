-- ===== src/Programs/Lifetime/Examples.antt =====
-- A root helper that starts with a pending change, which is then approved over a connection beside
-- another one.
use pi_ops_agent.Base.{
  ℕ, zero, suc, ◌≡◌, refl, arith, pos, ◌<>◌, [], ◌∷◌, List, none, some, Result, ok, err, string_eq,
  nat_eq, hex_text, ◌=?◌, if◌then◌else◌,
}
use pi_ops_agent.Base.Dict.{lookup, insert}
use pi_ops_agent.Protocol.{Request, pending_approval, committed}
use pi_ops_agent.Protocol.Operations.{validate, parse_operation}
use pi_ops_agent.Protocol.Pattern.{unit_pattern, request_id_pattern, change_id_pattern}
use pi_ops_agent.Protocol.Frame.{write_frame, read_frame}
use pi_ops_agent.Protocol.Json.{
  Json, integer, text, object, no_members, member, Scan, end, found, malformed, strict_decode,
  set_members, field_of, find, same_folded, unmarshal,
}
use pi_ops_agent.Protocol.Parse.{
  parse_request, parse_header, parse_method, parse_change, method_from,
}
use pi_ops_agent.RootHelper.Change.{Change}
use pi_ops_agent.RootHelper.Store.{put_change, cache, cached, find_change}
use pi_ops_agent.RootHelper.Service.Approve.{approve}
use pi_ops_agent.RootHelper.Handler.{
  run, ◌>>=◌, require, pure, check, attempt, attempt_value, perform,
}
use pi_ops_agent.Audit.{Existing, open_at, append}
use pi_ops_agent.RootHelper.Machine.{
  Env, Sys, put, append_event, append_audit, call_prepare, call_execute, call_verify,
}
use pi_ops_agent.RootHelper.Recovery.{
  open_store, recover_interrupted, recover_change, check_changes,
}
use pi_ops_agent.RootHelper.Service.Dispatch.{recover, handle}
use pi_ops_agent.RootHelper.Refine.Handle.{ReadsBack}
use pi_ops_agent.RootHelper.Refine.Fresh.{IsFresh, IsDistinct}
use pi_ops_agent.RootHelper.Spec.{view}
use pi_ops_agent.RootHelper.Spec.Authority.{IsHarmless}
use pi_ops_agent.RootHelper.Spec.Barrier.{IsBarred}
use pi_ops_agent.RootHelper.Guarantees.Fixtures.{
  env_with, change_in, holding, human, agent, restart,
}
use pi_ops_agent.RpcServer.{
  request_id_from_malformed, complete_response, write_response, answer_parsed, turn,
}
use pi_ops_agent.RpcServer.Connections.{Wire, Open, Happening, accepted, turned, serve_connections}
use pi_ops_agent.Programs.{RootFlags, Disk, check_root_flags, start_root, env_of}
use pi_ops_agent.Programs.Lifetime.{serve_request, serve_connections-IsBarred}
use pi_ops_agent.Programs.Lifetime.Strangers.{strangers-IsHarmless}
use pi_ops_agent.Programs.Lifetime.Printing.{print, read_operation, read_operation-print}

abbrev flags : RootFlags
flags = record {
  socket = "/run/r.sock";
  agent_uid = pos 990;
  approver_uid = pos 1000;
  rollback_timeout = pos 120;
}

-- The audit file does not exist yet.
abbrev no_log : Existing
no_log = record { directory = none; file = ok none; read_error = none }

abbrev disk : Disk
disk = record { directory = none; state_file = ok (some (1 ∷ [])); audit_file = no_log }

-- A pending change, and one random id.
abbrev pending : Change
unfolding print
pending = record (change_in pending_approval) { operation = print restart }

abbrev env : Env ℕ
unfolding print read_operation
env = record (env_with (record { changes = ("change-01", pending) ∷ []; requests = [] })) {
  operation_json = print;
  decode_operation = read_operation;
  random = λ n. if n =? 5 then ok (171 ∷ []) else err "no entropy";
}

abbrev of_start : Result (Sys ℕ) → Sys ℕ
of_start (ok s) = s
of_start (err e) = holding committed

began : Sys ℕ
unfolding start_root check_root_flags open_store open_at append append_event recover
    recover_interrupted parse_operation validate unit_pattern string_eq lookup insert recover_change
    env read_operation print
began = of_start (start_root env flags disk 0)

-- What the approver sends.
abbrev approval : Json
approval = object (
    member "version" [] (integer (pos 1)) (
      member "requestId" [] (text "request-1") (
        member "deadline" [] (text "ten") (
          member "method" [] (text "change.approve")
            (member "changeId" [] (text "change-01") no_members)))))

abbrev scan : List ℕ → Scan
scan [] = end
scan (zero ∷ rest) = found approval []
scan (suc n ∷ rest) = malformed "invalid character"

abbrev wire : Wire
wire = record {
  next_value = scan;
  parse_time = λ s. ok 10;
  encode = λ r. ok (1 ∷ []);
  read_error = λ n. none;
  now = λ n. 5;
  write_error = λ n. none;
}

-- The agent's frame, which is malformed, comes before the approver's.
abbrev happenings : List Happening
happenings =
    accepted human wire (0 ∷ 0 ∷ 0 ∷ 1 ∷ 0 ∷ [])
    ∷ accepted agent wire (0 ∷ 0 ∷ 0 ∷ 1 ∷ 9 ∷ [])
    ∷ turned 0
    ∷ turned 1
    ∷ turned 1
    ∷ turned 0
    ∷ []

after : List Happening → List (Open (serve_request (env_of env flags))) × Sys ℕ
unfolding began serve_connections handle string_eq nat_eq lookup insert cached run approve ◌>>=◌
    require find_change pure check put_change attempt append_audit append_event append attempt_value
    parse_operation validate unit_pattern perform call_prepare call_execute call_verify cache put
    recover_change hex_text turn answer_parsed write_response write_frame read_frame
    request_id_from_malformed complete_response parse_request parse_header parse_method parse_change
    method_from strict_decode unmarshal set_members field_of find same_folded request_id_pattern
    change_id_pattern env read_operation print
after events = serve_connections (serve_request (env_of env flags)) events ([], began)

-- The agent sends what the approver sent.
abbrev forged : List Happening
forged = accepted agent wire (0 ∷ 0 ∷ 0 ∷ 1 ∷ 0 ∷ []) ∷ turned 0 ∷ turned 0 ∷ []

not_executed : (after forged).1.world ≡ 0
unfolding after
not_executed = refl

executed_once : (after happenings).1.world ≡ 1
unfolding after
executed_once = refl

reads : (r : Request) → ReadsBack (env_of env flags) r
unfolding env
reads r = record { decode-json = λ o is valid. read_operation-print o }

only_one : (n : ℕ) (bytes : List ℕ) → env.random n ≡ ok bytes → (n ≡ 5) × (bytes ≡ 171 ∷ [])
unfolding env
only_one n bytes drawn = ground arith

distinct : IsDistinct (env_of env flags)
unfolding env
distinct = record {
  differ = λ m n a b before first second same.
      omega (arith, before, (only_one m a first).0, (only_one n b second).0);
}

-- The id is "change-ab".
new_at_start : lookup ("change-" <> hex_text (171 ∷ [])) began.store.memory.changes ≡ none
unfolding began lookup string_eq hex_text
new_at_start = refl

fresh : IsFresh (env_of env flags) began
unfolding env
fresh = record { unused = λ n bytes later drawn. rw (only_one n bytes drawn).1 new_at_start }

start_reached : start_root env flags disk 0 ≡ ok began
unfolding began env
start_reached = refl

serve_connections-IsBarred_example :
    IsBarred 1000 (after happenings).1.trace
    × (check_changes (parse_operation read_operation) (after happenings).1.store.memory.changes
        ≡ none)
unfolding after
serve_connections-IsBarred_example =
    serve_connections-IsBarred env flags disk 0 began happenings start_reached reads distinct fresh

strangers-IsHarmless_example : IsHarmless (view began) (view (after forged).1)
unfolding after
strangers-IsHarmless_example =
    strangers-IsHarmless env flags disk 0 began forged start_reached reads distinct fresh
      (omega arith, (tt, (tt, tt)))
