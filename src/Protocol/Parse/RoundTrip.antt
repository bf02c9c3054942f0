-- ===== src/Protocol/Parse/RoundTrip.antt =====
-- The requests that a client prints, read by `ParseRequest` of internal/protocol/messages.go.
use pi_ops_agent.Base.{
  ℕ, ◌≡◌, refl, ap, arith, pos, String, true, false, List, [], ◌∷◌, none, some, ok, string_eq,
}
use pi_ops_agent.Protocol.{
  Method, change_prepare, change_status, change_approve, change_reject, change_rollback,
  host_snapshot, systemd_unit, journal_tail, heartbeat, other, Request, version,
}
use pi_ops_agent.Protocol.Operations.{
  Operation, PackageInstall, ServiceAction, FileWrite, BreakglassScript, package_install,
  service_action, file_write, breakglass_script, kind, operation_kind,
}
use pi_ops_agent.Protocol.Json.{
  Json, Items, Members, boolean, integer, text, array, object, no_items, item, no_members, member,
  Scan, end, found, strict_decode, set_members, field_of, find, same_folded, unmarshal, texts_of,
  Field, decode_value,
}
use pi_ops_agent.Protocol.Decode.{
  kind_field, package_fields, service_fields, file_fields, breakglass_fields, blank_package,
  blank_service, blank_file, blank_breakglass, decode_operation, decode_kind,
}

abbrev pub texts : List String → Items
texts [] = no_items
texts (t ∷ ts) = item (text t) (texts ts)

-- Members in the order of the struct, each with the bytes of its value, which are given by its name.
module _ (inner : String → List ℕ) where
  abbrev plain : String → Json → Members → Members
  plain name value ms = member name (inner name) value ms

  abbrev named : String → String → Members → Members
  named name t ms = plain name (text t) ms

  abbrev pub operation_members : Operation → Members
  operation_members (package_install o) =
      named "kind" o.operation_kind
        (named "package" o.package_name (named "version" o.version no_members))
  operation_members (service_action o) =
      named "kind" o.operation_kind (named "unit" o.unit (named "action" o.action no_members))
  operation_members (file_write o) =
      named "kind" o.operation_kind
        (named "path" o.path (named "content" o.content (named "mode" o.mode no_members)))
  operation_members (breakglass_script o) = named "kind" o.operation_kind (
      named "script" o.script (
        plain "backupPaths" (array (texts o.backup_paths))
          (named "verifyScript" o.verify_script (plain "network" (boolean o.network) no_members))))

abbrev pub method_text : Method → String
method_text change_prepare = "change.prepare"
method_text change_status = "change.status"
method_text change_approve = "change.approve"
method_text change_reject = "change.reject"
method_text change_rollback = "change.rollback"
method_text host_snapshot = "host.snapshot"
method_text systemd_unit = "systemd.unit"
method_text journal_tail = "journal.tail"
method_text heartbeat = "heartbeat"
method_text (other m) = m

-- The request as a client prints it: `raws` are the bytes of its members, `inner` those of the
-- members of its operation.
module _ (raws inner : String → List ℕ) where
  -- The members behind the header.
  abbrev pub body_members : Request → Method → Members
  body_members r change_prepare = elim r.operation [
    | some o ↦ plain raws "operation" (object (operation_members inner o)) no_members
    | none ↦ no_members
  ]
  body_members r systemd_unit = named raws "unit" r.unit no_members
  body_members r journal_tail =
      named raws "unit" r.unit (plain raws "lines" (integer (pos r.lines)) no_members)
  body_members r host_snapshot = no_members
  body_members r heartbeat = no_members
  body_members r (other m) = no_members
  body_members r _ = named raws "changeId" r.change_id no_members

abbrev pub tree_as : (ℕ → String) → (String → List ℕ) → (String → List ℕ) → Request → Method → Json
tree_as time_text raws inner r m = object (
    plain raws "version" (integer (pos version)) (
      named raws "requestId" r.request_id (
        named raws "deadline" (time_text r.deadline)
          (named raws "method" (method_text m) (body_members raws inner r m)))))

abbrev pub request_tree : (ℕ → String) → (String → List ℕ) → (String → List ℕ) → Request → Json
request_tree time_text raws inner r = tree_as time_text raws inner r r.method

texts_of-texts : (ts : List String) → texts_of (texts ts) ≡ ok ts
unfolding texts_of
texts_of-texts [] = refl
texts_of-texts (t ∷ ts) = rw (texts_of-texts ts) refl

kind_members :
    (inner : String → List ℕ) (o : Operation) (k : String)
    → operation_kind o ≡ k
    → decode_value false kind_field (object (operation_members inner o)) "" ≡ ok k
unfolding set_members field_of find same_folded string_eq
kind_members inner (package_install o) k is = ap (λ t. ok t) is
kind_members inner (service_action o) k is = ap (λ t. ok t) is
kind_members inner (file_write o) k is = ap (λ t. ok t) is
kind_members inner (breakglass_script o) k is = ap (λ t. ok t) is

module _ (next_value : List ℕ → Scan) where
  -- The bytes hold this value and nothing else.
  abbrev pub Holds : List ℕ → Json → Type 0
  Holds payload v = (rest : List ℕ) × (next_value payload ≡ found v rest) × (next_value rest ≡ end)

  module _ {S : Type 0} (fs : List (Field S)) (payload : List ℕ) (v : Json) (s t : S)
      (holds : Holds payload v) where
    pub unmarshal-ok : decode_value false fs v s ≡ ok t → unmarshal next_value fs payload s ≡ ok t
    unfolding unmarshal
    unmarshal-ok fine = let (rest, first, last) = holds in ground arith

    pub strict_decode-ok :
        decode_value true fs v s ≡ ok t → strict_decode next_value fs payload s ≡ ok t
    unfolding strict_decode
    strict_decode-ok fine = let (rest, first, last) = holds in ground arith

  module _ (payload : List ℕ) (inner : String → List ℕ) (o : Operation)
      (holds : Holds payload (object (operation_members inner o))) where
    kind-read :
        (k : String) → operation_kind o ≡ k → unmarshal next_value kind_field payload "" ≡ ok k
    kind-read k is =
        unmarshal-ok kind_field payload (object (operation_members inner o)) "" k holds
          (kind_members inner o k is)

  package_members :
      (inner : String → List ℕ) (o : PackageInstall)
      → decode_value true package_fields
          (object (operation_members inner (package_install o)))
          blank_package
        ≡ ok o
  unfolding set_members field_of find same_folded string_eq
  package_members inner o = refl

  service_members :
      (inner : String → List ℕ) (o : ServiceAction)
      → decode_value true service_fields
          (object (operation_members inner (service_action o)))
          blank_service
        ≡ ok o
  unfolding set_members field_of find same_folded string_eq
  service_members inner o = refl

  file_members :
      (inner : String → List ℕ) (o : FileWrite)
      → decode_value true file_fields (object (operation_members inner (file_write o))) blank_file
        ≡ ok o
  unfolding set_members field_of find same_folded string_eq
  file_members inner o = refl

  breakglass_members :
      (inner : String → List ℕ) (o : BreakglassScript)
      → decode_value true breakglass_fields
          (object (operation_members inner (breakglass_script o)))
          blank_breakglass
        ≡ ok o
  unfolding set_members field_of find same_folded string_eq
  breakglass_members inner o = rw (texts_of-texts o.backup_paths) refl

  -- The operation that a client prints is the one that is decoded.
  pub decode_operation-operation_members :
      (payload : List ℕ) (inner : String → List ℕ) (o : Operation)
      → Holds payload (object (operation_members inner o))
      → operation_kind o ≡ kind o
      → decode_operation next_value payload ≡ ok o
  unfolding decode_operation decode_kind string_eq kind
  decode_operation-operation_members payload inner (package_install o) holds is =
      rw
        (
          kind-read payload inner (package_install o) holds "package.install" is,
          strict_decode-ok package_fields payload _ blank_package o holds (package_members inner o),
        )
        refl
  decode_operation-operation_members payload inner (service_action o) holds is =
      rw
        (
          kind-read payload inner (service_action o) holds "service.action" is,
          strict_decode-ok service_fields payload _ blank_service o holds (service_members inner o),
        )
        refl
  decode_operation-operation_members payload inner (file_write o) holds is =
      rw
        (
          kind-read payload inner (file_write o) holds "file.write" is,
          strict_decode-ok file_fields payload _ blank_file o holds (file_members inner o),
        )
        refl
  decode_operation-operation_members payload inner (breakglass_script o) holds is =
      rw
        (
          kind-read payload inner (breakglass_script o) holds "breakglass.script" is,
          strict_decode-ok breakglass_fields payload _ blank_breakglass o holds
              (breakglass_members inner o),
        )
        refl
