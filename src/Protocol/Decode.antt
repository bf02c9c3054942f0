-- ===== src/Protocol/Decode.antt =====
-- The decoding of `parseOperation` of internal/protocol/messages.go.
use pi_ops_agent.Base.{
  ℕ, String, ◌<>◌, false, List, [], ◌∷◌, Result, wrap_error, ok, err, if◌then◌else◌, ◌==◌,
  string_eq,
}
use pi_ops_agent.Protocol.Operations.{
  Operation, PackageInstall, ServiceAction, FileWrite, BreakglassScript, package_install,
  service_action, file_write, breakglass_script,
}
use pi_ops_agent.Protocol.Json.{
  Scan, Field, ◌>>=◌, text_field, boolean_field, texts_field, unmarshal, strict_decode,
}

abbrev pub kind_field : List (Field String)
kind_field = text_field "kind" (λ t s. t) ∷ []

abbrev pub package_fields : List (Field PackageInstall)
package_fields =
    text_field "kind" (λ t o. record o { operation_kind = t })
    ∷ text_field "package" (λ t o. record o { package_name = t })
    ∷ text_field "version" (λ t o. record o { version = t })
    ∷ []

abbrev pub service_fields : List (Field ServiceAction)
service_fields =
    text_field "kind" (λ t o. record o { operation_kind = t })
    ∷ text_field "unit" (λ t o. record o { unit = t })
    ∷ text_field "action" (λ t o. record o { action = t })
    ∷ []

abbrev pub file_fields : List (Field FileWrite)
file_fields =
    text_field "kind" (λ t o. record o { operation_kind = t })
    ∷ text_field "path" (λ t o. record o { path = t })
    ∷ text_field "content" (λ t o. record o { content = t })
    ∷ text_field "mode" (λ t o. record o { mode = t })
    ∷ []

abbrev pub breakglass_fields : List (Field BreakglassScript)
breakglass_fields =
    text_field "kind" (λ t o. record o { operation_kind = t })
    ∷ text_field "script" (λ t o. record o { script = t })
    ∷ texts_field "backupPaths" (λ ts o. record o { backup_paths = ts })
    ∷ text_field "verifyScript" (λ t o. record o { verify_script = t })
    ∷ boolean_field "network" (λ b o. record o { network = b })
    ∷ []

abbrev pub blank_package : PackageInstall
blank_package = record { operation_kind = ""; package_name = ""; version = "" }

abbrev pub blank_service : ServiceAction
blank_service = record { operation_kind = ""; unit = ""; action = "" }

abbrev pub blank_file : FileWrite
blank_file = record { operation_kind = ""; path = ""; content = ""; mode = "" }

abbrev pub blank_breakglass : BreakglassScript
blank_breakglass = record {
  operation_kind = "";
  script = "";
  backup_paths = [];
  verify_script = "";
  network = false;
}

abbrev pub built : {A : Type 0} → (A → Operation) → Result A → Result Operation
built f r = r >>= λ a. ok (f a)

module _ (next_value : List ℕ → Scan) where
  -- The struct that the kind selects, decoded strictly.
  unfoldable pub decode_kind : List ℕ → String → Result Operation
  decode_kind payload kind =
      if kind == "package.install"
      then built package_install (strict_decode next_value package_fields payload blank_package)
      else if kind == "service.action"
      then built service_action (strict_decode next_value service_fields payload blank_service)
      else if kind == "file.write"
      then built file_write (strict_decode next_value file_fields payload blank_file)
      else if kind == "breakglass.script"
      then built breakglass_script
          (strict_decode next_value breakglass_fields payload blank_breakglass)
      else err ("unsupported operation kind \"" <> (kind <> "\""))

  -- `parseOperation` without its call of `Validate`.
  unfoldable pub decode_operation : List ℕ → Result Operation
  decode_operation payload =
      wrap_error "decode operation header: " (unmarshal next_value kind_field payload "")
      >>= decode_kind payload
