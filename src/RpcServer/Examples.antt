-- ===== src/RpcServer/Examples.antt =====
-- A connection of internal/rpcserver/server.go over which a heartbeat and a malformed frame come.
use pi_ops_agent.Base.{
  ℕ, zero, suc, ◌+◌, ◌≡◌, refl, pos, String, true, false, List, [], ◌∷◌, ◌++◌, none, some, ok,
  if◌then◌else◌, ◌==◌, string_eq, nat_eq,
}
use pi_ops_agent.Protocol.{Response}
use pi_ops_agent.Protocol.Pattern.{codes, request_id_pattern}
use pi_ops_agent.Protocol.Frame.{write_frame, read_frame}
use pi_ops_agent.Protocol.Json.{
  Json, integer, text, object, no_members, member, Scan, end, found, malformed, strict_decode,
  set_members, field_of, find, same_folded, unmarshal,
}
use pi_ops_agent.Protocol.Parse.{parse_request, parse_header, parse_method, parse_bare, method_from}
use pi_ops_agent.RootHelper.Change.{Credential}
use pi_ops_agent.RpcServer.{
  Server, Connection, malformed_response, request_id_from_malformed, complete_response,
  write_response, answer_parsed, turn, serve, serve_connection,
}
use pi_ops_agent.RpcServer.Ends.{Served, serve_connection-Served}
use pi_ops_agent.RpcServer.Listen.{
  Setup, absent, socket, occupied, listen, close, bind_socket, remove_stale_socket, serve_at,
  listen-occupied,
}
use pi_ops_agent.RpcServer.Sound.{IsSound, serve_connection-IsSound}

abbrev agent : Credential
agent = record { pid = 7; uid = 1000; gid = 1000 }

abbrev beat : Json
beat = object (
    member "version" [] (integer (pos 1)) (
      member "requestId" [] (text "request-1")
        (member "deadline" [] (text "ten") (member "method" [] (text "heartbeat") no_members))))

abbrev scan : List ℕ → Scan
scan [] = end
scan (zero ∷ rest) = found beat []
scan (suc n ∷ rest) = malformed "invalid character"

-- The handler counts its calls and leaves the request id out.
abbrev counted : Response
counted = record (malformed_response "" "") { version = 0; success = true }

-- The write in the turn numbered `broken` fails.
abbrev server : ℕ → Server ℕ
server broken = record {
  handle = λ peer request calls. (counted, calls + 1);
  next_value = scan;
  parse_time = λ s. ok 10;
  encode = λ r. ok ((if r.success then 1 else 0) ∷ codes r.request_id);
  read_error = λ n. none;
  now = λ n. 5;
  write_error = λ n. if n == broken then some "broken pipe" else none;
}

-- A server whose writes do not fail.
abbrev calm_server : Server ℕ
calm_server = record (server 0) { write_error = λ n. none }

abbrev start : Connection ℕ
start = record {
  input = 0 ∷ 0 ∷ 0 ∷ 1 ∷ 0 ∷ 0 ∷ 0 ∷ 0 ∷ 1 ∷ 9 ∷ [];
  output = [];
  sent = [];
  calls = [];
  world = 0;
  turns = 0;
}

final : Server ℕ → Connection ℕ
unfolding serve_connection serve turn answer_parsed write_response write_frame read_frame
    request_id_from_malformed complete_response parse_request parse_header parse_method parse_bare
    method_from strict_decode unmarshal set_members field_of find same_folded string_eq nat_eq
    request_id_pattern
final s = serve_connection s (ok agent) start

both_answered :
    (final calm_server).output
    ≡ 0 ∷ 0 ∷ 0 ∷ 10 ∷ 1 ∷ codes "request-1" ++ 0 ∷ 0 ∷ 0 ∷ 16 ∷ 0 ∷ codes "invalid-request"
unfolding final
both_answered = refl

-- The handler was called, but nothing was sent, and the second frame is not read.
cut_off : ((final (server 0)).world ≡ 1) × ((final (server 0)).sent ≡ [])
unfolding final
cut_off = (refl, refl)

serve_connection-Served_example : Served (server 1) agent start (final (server 1))
unfolding final
serve_connection-Served_example = serve_connection-Served (server 1) agent start

serve_connection-IsSound_example : IsSound (final (server 1))
unfolding final
serve_connection-IsSound_example = serve_connection-IsSound (server 1) (ok agent) start (tt, tt)

abbrev taken_path : Setup
taken_path = record {
  path = "/run/x";
  has_resolver = true;
  has_handler = true;
  changes_group = true;
  fault = λ n. none;
  accept_error = "use of closed network connection";
  cancelled = true;
}

cleaned_up :
    (listen taken_path socket ≡ (none, absent)) × (listen taken_path absent ≡ (none, absent))
unfolding listen bind_socket remove_stale_socket serve_at
cleaned_up = (refl, refl)

closed :
    (close taken_path true socket ≡ (none, absent))
    × (close taken_path false absent ≡ (none, absent))
unfolding close
closed = (refl, refl)

listen-occupied_example : (e : String) × (listen taken_path occupied ≡ (some e, occupied))
listen-occupied_example = listen-occupied taken_path
