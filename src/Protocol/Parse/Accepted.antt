-- ===== src/Protocol/Parse/Accepted.antt =====
-- Every well-formed request that a client prints is accepted by `ParseRequest` of internal/protocol/messages.go.
use pi_ops_agent.Base.{
  ℕ, ◌≡◌, refl, ap, ◌∙◌, inl, inr, arith, String, true, List, none, some, Result, ok, Option-cases,
}
use pi_ops_agent.Protocol.{
  Method, change_prepare, change_status, change_approve, change_reject, change_rollback,
  host_snapshot, systemd_unit, journal_tail, heartbeat, other, Request,
}
use pi_ops_agent.Protocol.Pattern.{codes, request_id_pattern}
use pi_ops_agent.Protocol.Operations.{Operation, validate, parse_operation}
use pi_ops_agent.Protocol.Json.{object, no_members, Scan}
use pi_ops_agent.Protocol.Parse.{
  blank_wire, header_fields, prepare_fields, change_fields, unit_fields, method_from, deadline_at,
  request_from, parse_prepare, parse_change, parse_unit, parse_bare, parse_method, parse_header,
  parse_request,
}
use pi_ops_agent.Protocol.Parse.WellFormed.{is_body, is_well_formed, IsBare}
use pi_ops_agent.Protocol.Parse.RoundTrip.{
  operation_members, method_text, body_members, tree_as, request_tree, Holds, unmarshal-ok,
  strict_decode-ok, decode_operation-operation_members,
}
use pi_ops_agent.Protocol.Parse.Members.{
  wire_of, header_members, method_from-method_text, validate-kind, prepare_members, change_members,
  unit_members, journal_members, bare_members,
}

-- `q` with what `r` carries.
abbrev carrying : Request → Request → Request
carrying q r = record q {
  operation = r.operation;
  change_id = r.change_id;
  unit = r.unit;
  lines = r.lines;
}

module _ (next_value : List ℕ → Scan) (parse_time : String → Result ℕ) (time_text : ℕ → String)
    (payload : List ℕ) (raws inner : String → List ℕ) (r q : Request) (bare : IsBare q) where
  abbrev IsRead : Method → Type 0
  IsRead m =
      is_body m r ≡ true
      → Holds next_value payload (tree_as time_text raws inner r m)
      → parse_method next_value parse_time m payload q ≡ ok (carrying q r)

  change-IsRead :
      (m : Method)
      → body_members raws inner r m ≡ body_members raws inner r change_status
      → is_body change_status r ≡ true
      → Holds next_value payload (tree_as time_text raws inner r m)
      → parse_change next_value parse_time payload q ≡ ok (carrying q r)
  unfolding parse_change is_body
  change-IsRead m same is holds =
      rw
        (strict_decode-ok next_value change_fields payload _ blank_wire _ holds
          (change_members time_text raws inner r m same))
        (ground arith)

  bare-IsRead :
      (m : Method)
      → body_members raws inner r m ≡ no_members
      → is_body heartbeat r ≡ true
      → Holds next_value payload (tree_as time_text raws inner r m)
      → parse_bare next_value parse_time payload q ≡ ok (carrying q r)
  unfolding parse_bare is_body
  bare-IsRead m same is holds =
      rw
        (strict_decode-ok next_value header_fields payload _ blank_wire _ holds
          (bare_members time_text raws inner r m same))
        (ground arith)

  unit-IsRead : IsRead systemd_unit
  unfolding parse_method parse_unit is_body
  unit-IsRead is holds =
      rw
        (strict_decode-ok next_value unit_fields payload _ blank_wire _ holds
          (unit_members time_text raws inner r))
        (ground arith)

  journal-IsRead : IsRead journal_tail
  unfolding parse_method parse_unit is_body
  journal-IsRead is holds =
      rw
        (strict_decode-ok next_value unit_fields payload _ blank_wire _ holds
          (journal_members time_text raws inner r (ground arith)))
        (ground arith)

  prepare-IsRead :
      ((o : Operation)
        → r.operation ≡ some o
        → Holds next_value (raws "operation") (object (operation_members inner o)))
      → IsRead change_prepare
  unfolding parse_method parse_prepare is_body parse_operation
  prepare-IsRead there is holds = elim (Option-cases r.operation) [
    | inl absent ↦ ground arith
    | inr (o, given) ↦
        let valid : validate o ≡ none = ground arith in
        let read =
          decode_operation-operation_members next_value (raws "operation") inner o (there o given)
            (validate-kind o valid) in
        rw
          (strict_decode-ok next_value prepare_fields payload _ blank_wire _ holds
            (prepare_members time_text raws inner r o given))
          (ground arith)
  ]

  method-IsRead :
      (m : Method)
      → ((o : Operation)
          → r.operation ≡ some o
          → Holds next_value (raws "operation") (object (operation_members inner o)))
      → IsRead m
  unfolding parse_method is_body
  method-IsRead change_prepare there is holds = prepare-IsRead there is holds
  method-IsRead change_status there is holds = change-IsRead change_status refl is holds
  method-IsRead change_approve there is holds = change-IsRead change_approve refl is holds
  method-IsRead change_reject there is holds = change-IsRead change_reject refl is holds
  method-IsRead change_rollback there is holds = change-IsRead change_rollback refl is holds
  method-IsRead systemd_unit there is holds = unit-IsRead is holds
  method-IsRead journal_tail there is holds = journal-IsRead is holds
  method-IsRead host_snapshot there is holds = bare-IsRead host_snapshot refl is holds
  method-IsRead heartbeat there is holds = bare-IsRead heartbeat refl is holds
  method-IsRead (other m) there is holds = ground arith

module _ (next_value : List ℕ → Scan) (parse_time : String → Result ℕ) (time_text : ℕ → String)
    (payload : List ℕ) (raws inner : String → List ℕ) (now : ℕ) (r : Request) where
  -- `ParseRequest` reads every well-formed request back from the JSON object in which a client
  -- prints it. The time is read back as it was printed, the bytes hold this object and nothing
  -- else, whatever bytes its members have, and those of the operation hold the object of the
  -- operation.
  pub parse_request-request_tree :
      is_well_formed now r ≡ true
      → parse_time (time_text r.deadline) ≡ ok r.deadline
      → Holds next_value payload (request_tree time_text raws inner r)
      → ((o : Operation)
          → r.operation ≡ some o
          → Holds next_value (raws "operation") (object (operation_members inner o)))
      → parse_request next_value parse_time payload now ≡ ok (record r { raw = payload })
  unfolding parse_request parse_header is_well_formed
  parse_request-request_tree good timed holds there =
      let body : is_body r.method r ≡ true = ground arith in
      let header =
        unmarshal-ok next_value header_fields payload _ blank_wire _ holds
          (header_members time_text raws inner r r.method body) in
      let w = wire_of time_text r r.method in
      let q = request_from next_value parse_time payload w r.deadline in
      let read =
        method-IsRead next_value parse_time time_text payload raws inner r q
          (refl, refl, refl, refl) r.method there body holds in
      let same = method_from-method_text r r.method body in
      let known : parse_header next_value parse_time payload ≡ ok w = ground arith in
      let timely : deadline_at next_value parse_time now (parse_time (time_text r.deadline))
          ≡ ok r.deadline =
        rw timed (ground arith) in
      let dispatched : parse_request next_value parse_time payload now
          ≡ parse_method next_value parse_time (method_from (method_text r.method)) payload q =
        let pattern : request_id_pattern (codes r.request_id) ≡ true = ground arith in
        rw (known, pattern, timely) refl in
      let equal : carrying q r ≡ record r { raw = payload } = ground arith in
      dispatched
      ∙ (ap (λ m. parse_method next_value parse_time m payload q) same
          ∙ (read ∙ ap (λ s. ok s) equal))
