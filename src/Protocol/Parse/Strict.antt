-- ===== src/Protocol/Parse/Strict.antt =====
-- The members that `ParseRequest` of internal/protocol/messages.go lets a request have.
use pi_ops_agent.Base.{
  ℕ, ◌≡◌, ◌≢◌, refl, sym, ◌⊎◌, inl, inr, arith, String, Bool, true, false, ◌&&◌, List, [], Option,
  none, some, Result, ok, err, Result-cases, Option-cases, string_eq,
}
use mathlib.Core.Path.{subst}
use pi_ops_agent.Protocol.{
  Method, change_prepare, change_status, change_approve, change_reject, change_rollback,
  host_snapshot, systemd_unit, journal_tail, heartbeat, other, Request,
}
use pi_ops_agent.Protocol.Json.{
  Json, Members, null, boolean, integer, fraction, text, array, object, no_members, member, Scan,
  end, found, malformed, Field, field_of, set_members, decode_value, strict_decode,
}
use pi_ops_agent.Protocol.Parse.{
  Wire, blank_wire, header_fields, prepare_fields, change_fields, unit_fields, method_from,
  deadline_at, request_from, parse_prepare, parse_change, parse_unit, parse_bare, parse_method,
  parse_header, parse_request,
}
use pi_ops_agent.Protocol.Parse.WellFormed.{parse_method-IsParsed}

abbrev is_some : {A : Type 0} → Option A → Bool
is_some none = false
is_some (some a) = true

-- Every member has the name of a field, but for its case.
unfoldable pub all_known : {S : Type 0} → List (Field S) → Members → Bool
all_known fs no_members = true
all_known fs (member key raw v ms) = let rest = all_known fs ms in is_some (field_of fs key) && rest

-- A null has no members.
abbrev pub is_strict : {S : Type 0} → List (Field S) → Json → Bool
is_strict fs null = true
is_strict fs (object ms) = all_known fs ms
is_strict fs _ = false

-- The fields of a request by its method.
abbrev pub fields_of : Method → List (Field Wire)
fields_of change_prepare = prepare_fields
fields_of host_snapshot = header_fields
fields_of heartbeat = header_fields
fields_of systemd_unit = unit_fields
fields_of journal_tail = unit_fields
fields_of (other m) = []
fields_of _ = change_fields

module _ {S : Type 0} (fs : List (Field S)) where
  set_members-known :
      (ms : Members) (s t : S) → set_members true fs ms s ≡ ok t → all_known fs ms ≡ true
  unfolding set_members all_known
  set_members-known no_members s t fine = refl
  set_members-known (member key raw v ms) s t fine = elim (Option-cases (field_of fs key)) [
    | inl unknown ↦ ground arith
    | inr (f, known) ↦ elim (Result-cases (f.set raw v s)) [
      | inr (e, failed) ↦ ground arith
      | inl (u, done) ↦ ground (arith, set_members-known ms u t (ground arith))
    ]
  ]

  decode_value-strict :
      (v : Json) (s t : S) → decode_value true fs v s ≡ ok t → is_strict fs v ≡ true
  decode_value-strict null s t fine = refl
  decode_value-strict (object ms) s t fine = set_members-known ms s t fine
  decode_value-strict (boolean b) s t fine = ground arith
  decode_value-strict (integer n) s t fine = ground arith
  decode_value-strict fraction s t fine = ground arith
  decode_value-strict (text x) s t fine = ground arith
  decode_value-strict (array is) s t fine = ground arith

-- The bytes hold one value, a strict one, and nothing else.
abbrev pub HoldsStrict : {S : Type 0} → (List ℕ → Scan) → List (Field S) → List ℕ → Type 0
HoldsStrict next_value fs payload =
    (v : Json) × (rest : List ℕ) × (next_value payload ≡ found v rest)
    × (next_value rest ≡ end)
    × (is_strict fs v ≡ true)

Scan-cases :
    (s : Scan)
    → (s ≡ end)
      ⊎ ((v : Json) × (rest : List ℕ) × (s ≡ found v rest))
      ⊎ ((e : String) × (s ≡ malformed e))
Scan-cases end = inl refl
Scan-cases (found v rest) = inr (inl (v, rest, refl))
Scan-cases (malformed e) = inr (inr (e, refl))

module _ (next_value : List ℕ → Scan) where
  strict_decode-HoldsStrict :
      {S : Type 0} (fs : List (Field S)) (payload : List ℕ) (s t : S)
      → strict_decode next_value fs payload s ≡ ok t
      → HoldsStrict next_value fs payload
  unfolding strict_decode
  strict_decode-HoldsStrict fs payload s t fine = elim (Scan-cases (next_value payload)) [
    | inl ended ↦ ground arith
    | inr (inr (e, failed)) ↦ ground arith
    | inr (inl (v, rest, first)) ↦ elim (Result-cases (decode_value true fs v s)) [
      | inr (e, failed) ↦ ground arith
      | inl (u, done) ↦ elim (Scan-cases (next_value rest)) [
        | inl last ↦ (v, rest, first, last, decode_value-strict fs v s u done)
        | inr (inr (e, failed)) ↦ ground arith
        | inr (inl (x, more, second)) ↦ ground arith
      ]
    ]
  ]

  module _ (parse_time : String → Result ℕ) (payload : List ℕ) where
    abbrev IsDecoded : List (Field Wire) → Type 0
    IsDecoded fs = (w : Wire) × (strict_decode next_value fs payload blank_wire ≡ ok w)

    decoded :
        (fs : List (Field Wire))
        → ((e : String) → strict_decode next_value fs payload blank_wire ≢ err e)
        → IsDecoded fs
    decoded fs never = elim (Result-cases (strict_decode next_value fs payload blank_wire)) [
      | inl fine ↦ fine
      | inr (e, failed) ↦ absurd (never e failed)
    ]

    parse_method-IsDecoded :
        (m : Method) (q r : Request)
        → parse_method next_value parse_time m payload q ≡ ok r
        → IsDecoded (fields_of m)
    unfolding parse_method parse_prepare parse_change parse_unit parse_bare
    parse_method-IsDecoded change_prepare q r fine =
        decoded (fields_of change_prepare) (λ e failed. ground arith)
    parse_method-IsDecoded change_status q r fine =
        decoded (fields_of change_status) (λ e failed. ground arith)
    parse_method-IsDecoded change_approve q r fine =
        decoded (fields_of change_approve) (λ e failed. ground arith)
    parse_method-IsDecoded change_reject q r fine =
        decoded (fields_of change_reject) (λ e failed. ground arith)
    parse_method-IsDecoded change_rollback q r fine =
        decoded (fields_of change_rollback) (λ e failed. ground arith)
    parse_method-IsDecoded host_snapshot q r fine =
        decoded (fields_of host_snapshot) (λ e failed. ground arith)
    parse_method-IsDecoded heartbeat q r fine =
        decoded (fields_of heartbeat) (λ e failed. ground arith)
    parse_method-IsDecoded systemd_unit q r fine =
        decoded (fields_of systemd_unit) (λ e failed. ground arith)
    parse_method-IsDecoded journal_tail q r fine =
        decoded (fields_of journal_tail) (λ e failed. ground arith)
    parse_method-IsDecoded (other m) q r fine = absurd (ground arith)

    -- The bytes of a request that `ParseRequest` returns hold one JSON value and nothing else, and
    -- every member of it has, but for the case of letters, the name of a field that the method of
    -- the request has.
    pub parse_request-HoldsStrict :
        (now : ℕ) (r : Request)
        → parse_request next_value parse_time payload now ≡ ok r
        → HoldsStrict next_value (fields_of r.method) payload
    unfolding parse_request
    parse_request-HoldsStrict now r fine =
        elim (Result-cases (parse_header next_value parse_time payload)) [
          | inr (e, failed) ↦ absurd (ground arith)
          | inl (header, known) ↦
              elim (Result-cases
                (deadline_at next_value parse_time now (parse_time header.deadline))) [
                  | inr (e, failed) ↦ absurd (ground arith)
                  | inl (deadline, soon) ↦
                      let q = request_from next_value parse_time payload header deadline in
                      let m = method_from header.method in
                      let step : parse_method next_value parse_time m payload q ≡ ok r =
                        ground arith in
                      let (w, read) = parse_method-IsDecoded m q r step in
                      let (head, _) =
                        parse_method-IsParsed next_value parse_time payload q r
                          (refl, refl, refl, refl) m step in
                      let same : r.method ≡ m = ground arith in
                      subst (λ n. HoldsStrict next_value (fields_of n) payload) (sym same)
                        (strict_decode-HoldsStrict (fields_of m) payload blank_wire w read)
                ]
        ]
