-- ===== src/RootHelper/Runner.antt =====
-- `ExecRunner` of internal/roothelper/executor.go: the environment of a command, and what is made of
-- its output and of its error.
use pi_ops_agent.Base.{String, ◌<>◌, List, [], ◌∷◌, ◌++◌, ℕ, none, some, if◌then◌else◌}
use pi_ops_agent.Protocol.Operations.{Error}
use pi_ops_agent.Protocol.Pattern.{codes}
use pi_ops_agent.RootHelper.Command.{Buffer}
use pi_ops_agent.RootHelper.Command.Output.{write_all, empty}

pub record Invocation : Type 0 where
  pub program : String
  pub arguments : List String
  pub environment : List String

-- A process: the pieces in which it writes its output, and how it ends.
abbrev pub Process : Type 0
Process = Invocation → List (List ℕ) × Error

abbrev pub mark : List ℕ
mark = codes "\n[TRUNCATED]"

-- `limitedBuffer.String`
unfoldable pub text_of : Buffer → List ℕ
text_of b = if b.truncated then b.payload ++ mark else b.payload

-- `fmt.Errorf("%s failed: %w", …)`
abbrev pub failure_of : String → Error → Error
failure_of label none = none
failure_of label (some e) = some (label <> (" failed: " <> e))

unfoldable pub invocation : String → List String → Invocation
invocation name arguments = record {
  program = name;
  arguments = arguments;
  environment =
      "PATH=/usr/sbin:/usr/bin:/sbin:/bin" ∷ "HOME=/root" ∷ "LANG=C" ∷ "LC_ALL=C"
      ∷ "DEBIAN_FRONTEND=noninteractive" ∷ [];
}

-- `base` is `filepath.Base`.
unfoldable pub exec_run : (String → String) → Process → String → List String → List ℕ × Error
unfolding text_of invocation
exec_run base process name arguments =
    let (pieces, e) = process (invocation name arguments) in
    (text_of (write_all pieces empty), failure_of (base name) e)
