-- ===== src/Protocol/Parse/WellFormed.antt =====
-- What `ParseRequest` of internal/protocol/messages.go lets through.
use pi_ops_agent.Base.{
  ℕ, ◌+◌, ◌≡◌, refl, inl, inr, arith, ℤ, pos, negsuc, String, Bool, true, false, ◌&&◌, List, Option,
  none, some, Result, ok, err, Result-cases, Bool-cases, Option-cases, leb, ltb, ◌=?◌, ◌==◌,
  string_eq,
}
use pi_ops_agent.Protocol.{
  Method, change_prepare, change_status, change_approve, change_reject, change_rollback,
  host_snapshot, systemd_unit, journal_tail, heartbeat, other, Request,
}
use pi_ops_agent.Protocol.Pattern.{codes, request_id_pattern, change_id_pattern, unit_pattern}
use pi_ops_agent.Protocol.Operations.{Operation, Error, validate, parse_operation}
use pi_ops_agent.Protocol.Json.{Scan, strict_decode}
use pi_ops_agent.Protocol.Parse.{
  blank_wire, prepare_fields, change_fields, unit_fields, method_from, ten_minutes, deadline_at,
  is_version, request_from, no_lines, journal_lines, parse_prepare, parse_change, parse_unit,
  parse_bare, parse_method, parse_header, parse_request,
}
use pi_ops_agent.Protocol.Decode.{decode_operation}

abbrev is_none : Error → Bool
is_none none = true
is_none (some e) = false

abbrev is_valid : Option Operation → Bool
is_valid none = false
is_valid (some o) = is_none (validate o)

abbrev is_absent : Option Operation → Bool
is_absent none = true
is_absent (some o) = false

abbrev names_nothing : Request → Bool
names_nothing r = r.change_id == "" && r.unit == ""

-- What a request carries by its method, and that it carries nothing else.
unfoldable pub is_body : Method → Request → Bool
is_body change_prepare r = is_valid r.operation && (names_nothing r && r.lines =? 0)
is_body systemd_unit r =
    is_absent r.operation && (r.change_id == "" && (unit_pattern (codes r.unit) && r.lines =? 0))
is_body journal_tail r =
    is_absent r.operation
    && (r.change_id == "" && (unit_pattern (codes r.unit) && (leb 1 r.lines && leb r.lines 200)))
is_body host_snapshot r = is_absent r.operation && (names_nothing r && r.lines =? 0)
is_body heartbeat r = is_absent r.operation && (names_nothing r && r.lines =? 0)
is_body (other m) r = false
is_body _ r =
    is_absent r.operation
    && (r.unit == "" && (change_id_pattern (codes r.change_id) && r.lines =? 0))

unfoldable pub is_well_formed : ℕ → Request → Bool
unfolding is_body
is_well_formed now r =
    r.version =? 1
    && (request_id_pattern (codes r.request_id)
        && (ltb now r.deadline && (leb r.deadline (now + ten_minutes) && is_body r.method r)))

abbrev pub IsBare : Request → Type 0
IsBare r = (r.operation ≡ none) × (r.change_id ≡ "") × (r.unit ≡ "") × (r.lines ≡ 0)

-- The fields that every method leaves.
abbrev pub IsSameHead : Request → Request → Type 0
IsSameHead q r =
    (r.version ≡ q.version)
    × (r.request_id ≡ q.request_id)
    × (r.deadline ≡ q.deadline)
    × (r.method ≡ q.method)
    × (r.raw ≡ q.raw)

module _ (next_value : List ℕ → Scan) (parse_time : String → Result ℕ) (payload : List ℕ)
    (q r : Request) (bare : IsBare q) where
  abbrev pub IsParsed : Method → Type 0
  IsParsed m = IsSameHead q r × (is_body m r ≡ true)

  parse_prepare-IsParsed :
      parse_prepare next_value parse_time payload q ≡ ok r → IsParsed change_prepare
  unfolding parse_prepare is_body parse_operation
  parse_prepare-IsParsed fine =
      elim (Result-cases (strict_decode next_value prepare_fields payload blank_wire)) [
        | inr (e, failed) ↦ ground arith
        | inl (wire, decoded) ↦ elim (Result-cases (decode_operation next_value wire.operation)) [
          | inr (e, failed) ↦ ground arith
          | inl (o, read) ↦ elim (Option-cases (validate o)) [
            | inr (e, failed) ↦ ground arith
            | inl valid ↦ ground arith
          ]
        ]
      ]

  parse_bare-IsParsed :
      parse_bare next_value parse_time payload q ≡ ok r → IsSameHead q r × IsBare r
  unfolding parse_bare
  parse_bare-IsParsed fine = ground arith

  parse_change-IsParsed :
      parse_change next_value parse_time payload q ≡ ok r → IsParsed change_status
  unfolding parse_change is_body
  parse_change-IsParsed fine =
      elim (Result-cases (strict_decode next_value change_fields payload blank_wire)) [
        | inr (e, failed) ↦ ground arith
        | inl (wire, decoded) ↦ ground arith
      ]

  module _ (m : Method) (lines_of : ℤ → Result ℕ) (good : ℕ → Bool) where
    parse_unit-fields :
        ((n : ℤ) (l : ℕ) → lines_of n ≡ ok l → good l ≡ true)
        → parse_unit next_value parse_time lines_of payload q ≡ ok r
        → IsSameHead q r
          × (r.operation ≡ none)
          × (r.change_id ≡ "")
          × (unit_pattern (codes r.unit) ≡ true)
          × (good r.lines ≡ true)
    unfolding parse_unit
    parse_unit-fields is fine =
        elim (Result-cases (strict_decode next_value unit_fields payload blank_wire)) [
          | inr (e, failed) ↦ ground arith
          | inl (wire, decoded) ↦ elim (Result-cases (lines_of wire.lines)) [
            | inr (e, failed) ↦ ground arith
            | inl (l, read) ↦ ground (arith, is wire.lines l read)
          ]
        ]

  journal_lines-good :
      (n : ℤ) (l : ℕ) → journal_lines next_value parse_time n ≡ ok l → (leb 1 l && leb l 200) ≡ true
  journal_lines-good (negsuc n) l fine = ground arith
  journal_lines-good (pos n) l fine = ground arith

  no_lines-good : (n : ℤ) (l : ℕ) → no_lines next_value parse_time n ≡ ok l → (l =? 0) ≡ true
  no_lines-good (negsuc n) l fine = ground arith
  no_lines-good (pos n) l fine = ground arith

  pub parse_method-IsParsed :
      (m : Method) → parse_method next_value parse_time m payload q ≡ ok r → IsParsed m
  unfolding parse_method is_body
  parse_method-IsParsed change_prepare fine = parse_prepare-IsParsed fine
  parse_method-IsParsed change_status fine = parse_change-IsParsed fine
  parse_method-IsParsed change_approve fine = parse_change-IsParsed fine
  parse_method-IsParsed change_reject fine = parse_change-IsParsed fine
  parse_method-IsParsed change_rollback fine = parse_change-IsParsed fine
  parse_method-IsParsed systemd_unit fine = ground (
    arith,
    parse_unit-fields systemd_unit (no_lines next_value parse_time) (λ l. l =? 0) no_lines-good
        fine,
  )
  parse_method-IsParsed journal_tail fine = ground (
    arith,
    parse_unit-fields journal_tail (journal_lines next_value parse_time) (λ l. leb 1 l && leb l 200)
        journal_lines-good fine,
  )
  parse_method-IsParsed host_snapshot fine = ground (arith, parse_bare-IsParsed fine)
  parse_method-IsParsed heartbeat fine = ground (arith, parse_bare-IsParsed fine)
  parse_method-IsParsed (other m) fine = ground arith

module _ (next_value : List ℕ → Scan) (parse_time : String → Result ℕ) where
  deadline_at-ok :
      (now t : ℕ) (read : Result ℕ)
      → deadline_at next_value parse_time now read ≡ ok t
      → (ltb now t && leb t (now + ten_minutes)) ≡ true
  deadline_at-ok now t (err e) fine = ground arith
  deadline_at-ok now t (ok u) fine = ground arith

  -- A request that `ParseRequest` returns has version 1, an id of the right form, a deadline after
  -- now and at most ten minutes later, carries exactly what its method asks for (a valid
  -- operation; a change id of the right form; a unit, for a journal with 1 to 200 lines; nothing)
  -- and the bytes it was read from.
  pub parse_request-is_well_formed :
      (payload : List ℕ) (now : ℕ) (r : Request)
      → parse_request next_value parse_time payload now ≡ ok r
      → (is_well_formed now r ≡ true) × (r.raw ≡ payload)
  unfolding parse_request is_well_formed
  parse_request-is_well_formed payload now r fine =
      elim (Result-cases (parse_header next_value parse_time payload)) [
        | inr (e, failed) ↦ ground arith
        | inl (header, decoded) ↦
            elim (Result-cases
              (deadline_at next_value parse_time now (parse_time header.deadline))) [
                | inr (e, failed) ↦ ground arith
                | inl (deadline, soon) ↦
                    let q = request_from next_value parse_time payload header deadline in
                    let m = method_from header.method in
                    elim (Bool-cases (
                      is_version next_value parse_time header.version
                      && request_id_pattern (codes header.request_id))) [
                        | inr bad ↦ ground arith
                        | inl good ↦
                            let step : parse_method next_value parse_time m payload q ≡ ok r =
                              ground arith in
                            ground (
                              arith,
                              parse_method-IsParsed next_value parse_time payload q r
                                  (refl, refl, refl, refl) m step,
                              deadline_at-ok now deadline (parse_time header.deadline) soon,
                            )
                      ]
              ]
      ]
