-- ===== src/SystemdHelper/Runner/Examples.antt =====
-- Runs of the two `ExecRunner`s with a concrete process.
use pi_ops_agent.Base.{String, [], ◌∷◌, ◌≡◌, refl, false, some}
use pi_ops_agent.Protocol.Pattern.{codes}
use pi_ops_agent.RootHelper.Machine.{is_nil}
use pi_ops_agent.RootHelper.Command.Output.{write_all}
use pi_ops_agent.RootHelper.Runner
use pi_ops_agent.RootHelper.Runner.{Process}
use pi_ops_agent.SystemdHelper.Inspect.{bounded_output}
use pi_ops_agent.SystemdHelper.Runner.{exec_run, exec_run_agree}

abbrev base : String → String
base path = "df"

abbrev process : Process
process i = (codes "out" ∷ codes "err" ∷ [], some "exit status 1")

runs :
    (Runner.exec_run base process "/bin/df" ("-P" ∷ [])
      ≡ (codes "outerr", some "df failed: exit status 1"))
    × (exec_run process "/bin/df" ("-P" ∷ [])
        ≡ (codes "outerr", some "/bin/df failed: exit status 1"))
unfolding exec_run Runner.exec_run bounded_output write_all
runs = (refl, refl)

exec_run_agree_example :
    let root = Runner.exec_run base process "/bin/df" ("-P" ∷ []) in
    let systemd = exec_run process "/bin/df" ("-P" ∷ []) in
    (root.0 ≡ systemd.0)
    × (systemd.0 ≡ codes "outerr")
    × (is_nil root.1 ≡ false)
    × (is_nil systemd.1 ≡ false)
exec_run_agree_example =
    exec_run_agree base (codes "out" ∷ codes "err" ∷ []) (some "exit status 1") "/bin/df"
      ("-P" ∷ [])
