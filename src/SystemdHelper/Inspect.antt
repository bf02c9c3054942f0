-- ===== src/SystemdHelper/Inspect.antt =====
-- internal/systemdhelper/service.go: `OSInspector` and `SystemdRestarter` on a host, and the bound of an output.
pub mod Complete
pub mod Examples
use pi_ops_agent.Base.{
  ℕ, ◌*◌, String, ◌<>◌, Bool, true, false, List, [], ◌∷◌, ◌++◌, Option, none, some, Result, ok, err,
  ltb, length, take, if◌then◌else◌, decimal, string_eq,
}
use pi_ops_agent.Base.Dict.{Dict, lookup, insert}
use pi_ops_agent.Protocol.Pattern.{codes}
use pi_ops_agent.Protocol.Operations.{Error}
use pi_ops_agent.RootHelper.Host.{
  System, Host, Action, ◌>>=◌, ◌>>◌, pure, fail, lift, with_tool, run, run_only,
}

abbrev pub max_output : ℕ
max_output = 64 * 1024

-- The text that `ExecRunner.Run` returns for the bytes of an output.
unfoldable pub bounded_output : List ℕ → List ℕ
bounded_output text =
    if ltb max_output (length text) then take max_output text ++ codes "\n[TRUNCATED]" else text

pub data Report : Type 0 where
  host_report : Dict String String → Report
  unit_report : String → String → Report
  journal_report : String → ℕ → String → Report

abbrev pub snapshot_commands : List (String × List String)
snapshot_commands = ("uptime", []) ∷ ("df", "-P" ∷ []) ∷ ("free", "-b" ∷ []) ∷ []

abbrev pub entry_of : String × Error → String
entry_of (output, none) = output
entry_of (output, some e) = "error: " <> e

module _ (sys : System) where
  unfoldable pub run_item : List String → String → Action String
  unfolding run
  run_item arguments path = do answer ← run sys path arguments; pure (entry_of answer)

  -- The loop over the commands.
  unfoldable pub snapshot_from :
      List (String × List String) → Dict String String → Action (Dict String String)
  unfolding run_item
  snapshot_from [] results = pure results
  snapshot_from ((name, arguments) ∷ items) results = do
    entry ← with_tool sys name (run_item arguments) (λ e. pure "unavailable")
    snapshot_from items (insert name entry results)

  unfoldable pub take_snapshot : Action Report
  unfolding snapshot_from
  take_snapshot = do results ← snapshot_from snapshot_commands []; pure (host_report results)

  abbrev report_of : (String → Report) → String × Error → Result Report
  report_of f (output, none) = ok (f output)
  report_of f (output, some e) = err e

  unfoldable pub show_unit : String → Action Report
  unfolding run
  show_unit unit =
      with_tool sys "systemctl"
        (λ path. do
          answer ← run sys path (
              "show" ∷ "--no-pager" ∷ "--property=Id,LoadState,ActiveState,SubState,UnitFileState"
              ∷ "--" ∷ unit ∷ [])
          lift (report_of (unit_report unit) answer))
        (λ e. fail e)

  unfoldable pub tail_journal : String → ℕ → Action Report
  unfolding run
  tail_journal unit lines =
      with_tool sys "journalctl"
        (λ path. do
          answer ← run sys path (
              "--no-pager"
              ∷ "--output=short-iso"
              ∷ "--unit"
              ∷ unit
              ∷ "--lines"
              ∷ decimal lines
              ∷ [])
          lift (report_of (journal_report unit lines) answer))
        (λ e. fail e)

  -- `SystemdRestarter.Restart`
  unfoldable pub restart_unit : String → Action (Unit {0})
  unfolding run_only
  restart_unit unit =
      with_tool sys "systemctl" (λ path. run_only sys path ("restart" ∷ "--" ∷ unit ∷ []))
        (λ e. fail e)
