-- ===== src/Protocol/Parse/Members.antt =====
-- What `ParseRequest` of internal/protocol/messages.go decodes from the members that a client prints.
use pi_ops_agent.Base.{
  ℕ, ◌^◌, ◌≡◌, refl, inl, inr, arith, pos, String, true, false, List, none, some, ok, Option-cases,
  leb, ltb, string_eq,
}
use pi_ops_agent.Protocol.{
  Method, change_prepare, change_status, change_approve, change_reject, change_rollback,
  host_snapshot, systemd_unit, journal_tail, heartbeat, other, Request, version,
}
use pi_ops_agent.Protocol.Operations.{
  Operation, package_install, service_action, file_write, breakglass_script, kind, operation_kind,
  validate,
}
use pi_ops_agent.Protocol.Json.{no_members, set_members, field_of, find, same_folded, decode_value}
use pi_ops_agent.Protocol.Parse.{
  Wire, blank_wire, header_fields, prepare_fields, change_fields, unit_fields, method_from,
}
use pi_ops_agent.Protocol.Parse.WellFormed.{is_body}
use pi_ops_agent.Protocol.Parse.RoundTrip.{method_text, body_members, tree_as}

abbrev pub wire_of : (ℕ → String) → Request → Method → Wire
wire_of time_text r m = record blank_wire {
  version = pos version;
  request_id = r.request_id;
  deadline = time_text r.deadline;
  method = method_text m;
}

-- The header, whatever follows it.
pub header_members :
    (time_text : ℕ → String) (raws inner : String → List ℕ) (r : Request) (m : Method)
    → is_body m r ≡ true
    → decode_value false header_fields (tree_as time_text raws inner r m) blank_wire
      ≡ ok (wire_of time_text r m)
unfolding set_members field_of find same_folded string_eq is_body
header_members time_text raws inner r change_prepare is = elim (Option-cases r.operation) [
  | inl absent ↦ rw absent refl
  | inr (o, there) ↦ rw there refl
]
header_members time_text raws inner r change_status is = refl
header_members time_text raws inner r change_approve is = refl
header_members time_text raws inner r change_reject is = refl
header_members time_text raws inner r change_rollback is = refl
header_members time_text raws inner r systemd_unit is = refl
header_members time_text raws inner r journal_tail is = refl
header_members time_text raws inner r host_snapshot is = refl
header_members time_text raws inner r heartbeat is = refl
header_members time_text raws inner r (other m) is = ground arith

pub method_from-method_text :
    (r : Request) (m : Method) → is_body m r ≡ true → method_from (method_text m) ≡ m
unfolding string_eq is_body method_from
method_from-method_text r change_prepare is = refl
method_from-method_text r change_status is = refl
method_from-method_text r change_approve is = refl
method_from-method_text r change_reject is = refl
method_from-method_text r change_rollback is = refl
method_from-method_text r systemd_unit is = refl
method_from-method_text r journal_tail is = refl
method_from-method_text r host_snapshot is = refl
method_from-method_text r heartbeat is = refl
method_from-method_text r (other m) is = ground arith

pub validate-kind : (o : Operation) → validate o ≡ none → operation_kind o ≡ kind o
unfolding validate kind
validate-kind (package_install o) valid = ground arith
validate-kind (service_action o) valid = ground arith
validate-kind (file_write o) valid = ground arith
validate-kind (breakglass_script o) valid = ground arith

-- What the strict decoding makes of the members of each method.
module _ (time_text : ℕ → String) (raws inner : String → List ℕ) (r : Request) where
  abbrev pub wire : Method → Wire
  wire m = wire_of time_text r m

  pub prepare_members :
      (o : Operation)
      → r.operation ≡ some o
      → decode_value true prepare_fields (tree_as time_text raws inner r change_prepare) blank_wire
        ≡ ok (record (wire change_prepare) { operation = raws "operation" })
  unfolding set_members field_of find same_folded string_eq
  prepare_members o there = rw there refl

  pub change_members :
      (m : Method)
      → body_members raws inner r m ≡ body_members raws inner r change_status
      → decode_value true change_fields (tree_as time_text raws inner r m) blank_wire
        ≡ ok (record (wire m) { change_id = r.change_id })
  unfolding set_members field_of find same_folded string_eq
  change_members m same = rw same refl

  pub unit_members :
      decode_value true unit_fields (tree_as time_text raws inner r systemd_unit) blank_wire
      ≡ ok (record (wire systemd_unit) { unit = r.unit })
  unfolding set_members field_of find same_folded string_eq
  unit_members = refl

  pub journal_members :
      leb r.lines 200 ≡ true
      → decode_value true unit_fields (tree_as time_text raws inner r journal_tail) blank_wire
        ≡ ok (record (wire journal_tail) { unit = r.unit; lines = pos r.lines })
  unfolding set_members field_of find same_folded string_eq
  journal_members few = let small : ltb r.lines (2 ^ 63) ≡ true = ground arith in rw small refl

  pub bare_members :
      (m : Method)
      → body_members raws inner r m ≡ no_members
      → decode_value true header_fields (tree_as time_text raws inner r m) blank_wire ≡ ok (wire m)
  unfolding set_members field_of find same_folded string_eq
  bare_members m same = rw same refl
