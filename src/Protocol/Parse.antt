-- ===== src/Protocol/Parse.antt =====
-- `ParseRequest` of internal/protocol/messages.go.
pub mod WellFormed
pub mod Strict
pub mod RoundTrip
pub mod Members
pub mod Accepted
pub mod Examples
use pi_ops_agent.Base.{
  ℕ, ◌+◌, ◌*◌, ◌^◌, ℤ, pos, negsuc, String, ◌<>◌, Bool, true, false, not, ◌&&◌, ◌||◌, List, [], ◌∷◌,
  ◌++◌, Option, none, some, Result, wrap_error, ok, err, leb, ltb, ◌=?◌, if◌then◌else◌, ◌==◌,
  string_eq,
}
use pi_ops_agent.Protocol.{
  Method, change_prepare, change_status, change_approve, change_reject, change_rollback,
  host_snapshot, systemd_unit, journal_tail, heartbeat, other, Request,
}
use pi_ops_agent.Protocol.Pattern.{codes, request_id_pattern, change_id_pattern, unit_pattern}
use pi_ops_agent.Protocol.Decode.{decode_operation}
use pi_ops_agent.Protocol.Operations.{parse_operation}
use pi_ops_agent.Protocol.Json.{
  Scan, Field, ◌>>=◌, ◌>>◌, require, text_field, integer_field, boolean_field, texts_field,
  raw_field, unmarshal, strict_decode,
}

-- The wire structs, of which each method decodes some fields.
pub record Wire : Type 0 where
  pub version : ℤ
  pub request_id : String
  pub deadline : String
  pub method : String
  pub operation : List ℕ
  pub change_id : String
  pub unit : String
  pub lines : ℤ

abbrev pub blank_wire : Wire
blank_wire = record {
  version = pos 0;
  request_id = "";
  deadline = "";
  method = "";
  operation = [];
  change_id = "";
  unit = "";
  lines = pos 0;
}

abbrev pub header_fields : List (Field Wire)
header_fields =
    integer_field "version" (λ n w. record w { version = n })
    ∷ text_field "requestId" (λ t w. record w { request_id = t })
    ∷ text_field "deadline" (λ t w. record w { deadline = t })
    ∷ text_field "method" (λ t w. record w { method = t })
    ∷ []

abbrev pub prepare_fields : List (Field Wire)
prepare_fields = header_fields ++ raw_field "operation" (λ raw w. record w { operation = raw }) ∷ []

abbrev pub change_fields : List (Field Wire)
change_fields = header_fields ++ text_field "changeId" (λ t w. record w { change_id = t }) ∷ []

abbrev pub unit_fields : List (Field Wire)
unit_fields =
    header_fields
    ++ (text_field "unit" (λ t w. record w { unit = t })
        ∷ integer_field "lines" (λ n w. record w { lines = n })
        ∷ [])

-- The `switch` on the method.
unfoldable pub method_from : String → Method
method_from m =
    if m == "change.prepare"
    then change_prepare
    else if m == "change.status"
    then change_status
    else if m == "change.approve"
    then change_approve
    else if m == "change.reject"
    then change_reject
    else if m == "change.rollback"
    then change_rollback
    else if m == "host.snapshot"
    then host_snapshot
    else if m == "systemd.unit"
    then systemd_unit
    else if m == "journal.tail"
    then journal_tail
    else if m == "heartbeat"
    then heartbeat
    else other m

-- In nanoseconds, in which all times are counted here.
abbrev pub ten_minutes : ℕ
ten_minutes = 600 * 10 ^ 9

module _ (next_value : List ℕ → Scan) (parse_time : String → Result ℕ) where
  abbrev pub deadline_error : String
  deadline_error = "deadline must be within the next ten minutes"

  -- `!deadline.After(now) || deadline.After(now.Add(10*time.Minute))`
  abbrev pub deadline_at : ℕ → Result ℕ → Result ℕ
  deadline_at now (err e) = err deadline_error
  deadline_at now (ok t) =
      if ltb now t && leb t (now + ten_minutes) then ok t else err deadline_error

  abbrev is_version : ℤ → Bool
  is_version (pos n) = n =? 1
  is_version (negsuc n) = false

  unfoldable pub parse_prepare : List ℕ → Request → Result Request
  parse_prepare payload r = do
    wire ← strict_decode next_value prepare_fields payload blank_wire
    o ← parse_operation (decode_operation next_value) wire.operation
    ok (record r { operation = some o })

  unfoldable pub parse_change : List ℕ → Request → Result Request
  parse_change payload r = do
    wire ← strict_decode next_value change_fields payload blank_wire
    require (change_id_pattern (codes wire.change_id)) "invalid changeId"
    ok (record r { change_id = wire.change_id })

  -- The lines of a journal, 100 where the field is zero.
  abbrev pub journal_lines : ℤ → Result ℕ
  journal_lines (negsuc n) = err "journal lines must be between 1 and 200"
  journal_lines (pos n) =
      let lines = if n =? 0 then 100 else n in
      if ltb lines 1 || ltb 200 lines
      then err "journal lines must be between 1 and 200"
      else ok lines

  abbrev pub no_lines : ℤ → Result ℕ
  no_lines (negsuc n) = err "lines is not valid for systemd.unit"
  no_lines (pos n) = if n =? 0 then ok 0 else err "lines is not valid for systemd.unit"

  unfoldable pub parse_unit : (ℤ → Result ℕ) → List ℕ → Request → Result Request
  parse_unit lines_of payload r = do
    wire ← strict_decode next_value unit_fields payload blank_wire
    require (unit_pattern (codes wire.unit)) "invalid systemd unit"
    lines ← lines_of wire.lines
    ok (record r { unit = wire.unit; lines = lines })

  unfoldable pub parse_bare : List ℕ → Request → Result Request
  parse_bare payload r = do strict_decode next_value header_fields payload blank_wire; ok r

  unfoldable pub parse_method : Method → List ℕ → Request → Result Request
  parse_method change_prepare = parse_prepare
  parse_method change_status = parse_change
  parse_method change_approve = parse_change
  parse_method change_reject = parse_change
  parse_method change_rollback = parse_change
  parse_method systemd_unit = parse_unit no_lines
  parse_method journal_tail = parse_unit journal_lines
  parse_method host_snapshot = parse_bare
  parse_method heartbeat = parse_bare
  parse_method (other m) = λ payload r. err ("unsupported method \"" <> (m <> "\""))

  abbrev pub request_from : List ℕ → Wire → ℕ → Request
  request_from payload header deadline = record {
    version = 1;
    request_id = header.request_id;
    deadline = deadline;
    method = method_from header.method;
    change_id = "";
    unit = "";
    lines = 0;
    operation = none;
    raw = payload;
  }

  unfoldable pub parse_header : List ℕ → Result Wire
  parse_header payload =
      wrap_error "decode request header: " (unmarshal next_value header_fields payload blank_wire)

  unfoldable pub parse_request : List ℕ → ℕ → Result Request
  parse_request payload now = do
    header ← parse_header payload
    require (is_version header.version && request_id_pattern (codes header.request_id))
        "unsupported version or invalid requestId"
    deadline ← deadline_at now (parse_time header.deadline)
    parse_method (method_from header.method) payload (request_from payload header deadline)
