-- ===== src/Protocol/Parse/Examples.antt =====
-- Requests read by `ParseRequest` of internal/protocol/messages.go.
use pi_ops_agent.Base.{
  ℕ, zero, suc, ◌≡◌, refl, ap, pos, String, true, List, [], ◌∷◌, ◌++◌, Option, none, some, Result,
  ok, err, if◌then◌else◌, ◌==◌, string_eq,
}
use pi_ops_agent.Protocol.{change_prepare, journal_tail, Request}
use pi_ops_agent.Protocol.Pattern.{codes, same, request_id_pattern, change_id_pattern, unit_pattern}
use pi_ops_agent.Protocol.Operations.{Operation, service_action, validate, parse_operation}
use pi_ops_agent.Protocol.Json.{
  Members, null, integer, text, object, no_members, member, Scan, end, found, malformed,
  strict_decode, set_members, field_of, find, same_folded, unmarshal,
}
use pi_ops_agent.Protocol.Parse.{
  parse_request, parse_header, parse_method, parse_prepare, parse_change, parse_unit, parse_bare,
  method_from,
}
use pi_ops_agent.Protocol.Decode.{decode_operation, decode_kind}
use pi_ops_agent.Protocol.Parse.RoundTrip.{request_tree, operation_members}
use pi_ops_agent.Protocol.Parse.Strict.{HoldsStrict, fields_of, parse_request-HoldsStrict}
use pi_ops_agent.Protocol.Parse.WellFormed.{is_body, is_well_formed, parse_request-is_well_formed}
use pi_ops_agent.Protocol.Parse.Accepted.{parse_request-request_tree}

abbrev restart : Operation
restart =
    service_action
      (record { operation_kind = "service.action"; unit = "web.service"; action = "restart" })

abbrev request : Request
request = record {
  version = 1;
  request_id = "request-1";
  deadline = 10;
  method = change_prepare;
  change_id = "";
  unit = "";
  lines = 0;
  operation = some restart;
  raw = 0 ∷ [];
}

abbrev clock_text : ℕ → String
clock_text t = "ten"

abbrev clock : String → Result ℕ
clock s = if s == "ten" then ok 10 else err "cannot parse"

abbrev head_of : String → Members → Members
head_of method rest = member "version" [] (integer (pos 1)) (
    member "requestId" [] (text "request-1")
      (member "deadline" [] (text "ten") (member "method" [] (text method) rest)))

-- The value behind each number; nothing follows it.
abbrev values : ℕ → Scan
values zero = found (request_tree clock_text (λ name. 1 ∷ []) (λ name. []) request) []
values (suc zero) = found (object (operation_members (λ name. []) restart)) []
-- the last of two members counts, and the case of a name does not
values (suc (suc zero)) =
    found
      (object (
        head_of "journal.tail" (
          member "unit" [] (text "a.service")
            (member "UNIT" [] (text "b.service") (member "lines" [] null no_members)))))
      []
values (suc (suc (suc zero))) =
    found (object (head_of "heartbeat" (member "unit" [] (text "a.service") no_members))) []
values n = malformed "invalid character"

abbrev scan : List ℕ → Scan
scan [] = end
scan (n ∷ rest) = values n

attempt : List ℕ → Result Request
unfolding parse_request parse_header parse_method parse_prepare parse_change parse_unit parse_bare
    method_from decode_operation decode_kind parse_operation strict_decode unmarshal set_members
    field_of find same_folded string_eq validate request_id_pattern change_id_pattern unit_pattern
attempt payload = parse_request scan clock payload 5

last_counts :
    attempt (2 ∷ [])
    ≡ ok (record request {
      method = journal_tail;
      unit = "b.service";
      lines = 100;
      operation = none;
      raw = 2 ∷ [];
    })
unfolding attempt
last_counts = refl

refused : attempt (3 ∷ []) ≡ err "strict JSON decode: json: unknown field \"unit\""
unfolding attempt
refused = refl

parse_request-is_well_formed_example : (is_well_formed 5 request ≡ true) × (request.raw ≡ 0 ∷ [])
unfolding attempt
parse_request-is_well_formed_example =
    parse_request-is_well_formed scan clock (0 ∷ []) 5 request refl

-- The same request as a client prints it, and a scan that knows its bytes and those of its operation.
abbrev operation_text : List ℕ
operation_text =
    codes "{\"kind\":\"service.action\",\"unit\":\"web.service\",\"action\":\"restart\"}"

abbrev request_text : List ℕ
request_text =
    codes "{\"version\":1,\"requestId\":\"request-1\",\"deadline\":\"ten\","
    ++ codes "\"method\":\"change.prepare\",\"operation\":"
    ++ operation_text
    ++ codes "}"

abbrev member_text : String → List ℕ
member_text name =
    if name == "version"
    then codes "1"
    else if name == "requestId"
    then codes "\"request-1\""
    else if name == "deadline"
    then codes "\"ten\""
    else if name == "method"
    then codes "\"change.prepare\""
    else operation_text

abbrev inner_text : String → List ℕ
inner_text name =
    if name == "kind"
    then codes "\"service.action\""
    else if name == "unit"
    then codes "\"web.service\""
    else codes "\"restart\""

abbrev scan_text : List ℕ → Scan
scan_text [] = end
scan_text (n ∷ rest) =
    if same (n ∷ rest) request_text
    then found (request_tree clock_text member_text inner_text request) []
    else if same (n ∷ rest) operation_text
    then found (object (operation_members inner_text restart)) []
    else malformed "invalid character"

abbrev shown : Option Operation → Scan
shown none = end
shown (some o) = found (object (operation_members inner_text o)) []

parse_request-request_tree_example :
    parse_request scan_text clock request_text 5 ≡ ok (record request { raw = request_text })
unfolding string_eq validate request_id_pattern unit_pattern is_well_formed is_body
parse_request-request_tree_example =
    parse_request-request_tree scan_text clock clock_text request_text member_text inner_text 5
      request refl refl ([], refl, refl) (λ o given. ([], ap shown given, refl))

parse_request-HoldsStrict_example : HoldsStrict scan (fields_of change_prepare) (0 ∷ [])
unfolding attempt
parse_request-HoldsStrict_example = parse_request-HoldsStrict scan clock (0 ∷ []) 5 request refl
