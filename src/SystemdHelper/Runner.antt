-- ===== src/SystemdHelper/Runner.antt =====
-- `ExecRunner` of internal/systemdhelper/service.go, and that it gives the text of its namesake in
-- internal/roothelper/executor.go.
mod Examples
use pi_ops_agent.Base.{
  String, ◌<>◌, Bool, List, [], ◌∷◌, ◌++◌, ◌≡◌, refl, ap, ◌∙◌, ℕ, none, some, ltb, length, take,
  if◌then◌else◌, arith, take_all, Bool-cases, inl, inr,
}
use pi_ops_agent.Protocol.Operations.{Error}
use pi_ops_agent.RootHelper.Machine.{is_nil}
use pi_ops_agent.RootHelper.Command.{Buffer}
use pi_ops_agent.RootHelper.Command.Output.{write_all, empty, concat, write_all-concat}
use pi_ops_agent.RootHelper.Runner
use pi_ops_agent.RootHelper.Runner.{Invocation, Process, mark, text_of, failure_of}
use pi_ops_agent.SystemdHelper.Inspect.{bounded_output, max_output}

unfoldable pub invocation : String → List String → Invocation
invocation name arguments = record {
  program = name;
  arguments = arguments;
  environment = "PATH=/usr/sbin:/usr/bin:/sbin:/bin" ∷ "LANG=C" ∷ "LC_ALL=C" ∷ [];
}

-- `CombinedOutput` holds the whole of the output.
unfoldable pub exec_run : Process → String → List String → List ℕ × Error
unfolding invocation
exec_run process name arguments =
    let (pieces, e) = process (invocation name arguments) in
    (bounded_output (concat pieces), failure_of name e)

is_nil-failure_of : (label : String) (e : Error) → is_nil (failure_of label e) ≡ is_nil e
is_nil-failure_of label none = refl
is_nil-failure_of label (some e) = refl

-- What fits is not cut.
cut_or_whole :
    (m : ℕ) (whole cut : List ℕ)
    → (if ltb m (length whole) then cut else take m whole)
      ≡ (if ltb m (length whole) then cut else whole)
cut_or_whole m whole cut = elim (Bool-cases (ltb m (length whole))) [
  | inl more ↦ rw more refl
  | inr fits ↦
      ap (λ rest. if ltb m (length whole) then cut else rest) (take_all m whole (ground arith))
]

-- For the same pieces of output and the same end of a process, the runners of the two helpers
-- return the same text: the whole output if it is at most 64 KiB long, and else its first 64 KiB
-- and a mark. Each returns an error exactly if the process fails.
pub exec_run_agree :
    (base : String → String) (pieces : List (List ℕ)) (e : Error) (name : String)
    (arguments : List String)
    → let whole = concat pieces in
      let root = Runner.exec_run base (λ _. (pieces, e)) name arguments in
      let systemd = exec_run (λ _. (pieces, e)) name arguments in
      (root.0 ≡ systemd.0)
      × (systemd.0
          ≡ (if ltb max_output (length whole) then take max_output whole ++ mark else whole))
      × (is_nil root.1 ≡ is_nil e)
      × (is_nil systemd.1 ≡ is_nil e)
unfolding exec_run Runner.exec_run text_of bounded_output
exec_run_agree base pieces e name arguments = (
  ap text_of (write_all-concat pieces)
      ∙ cut_or_whole max_output (concat pieces) (take max_output (concat pieces) ++ mark),
  refl,
  is_nil-failure_of (base name) e,
  is_nil-failure_of name e,
)
