-- ===== src/SystemdHelper/Inspect/Examples.antt =====
-- The inspections of internal/systemdhelper/service.go on a host without `uptime`, on which `df` fails.
use pi_ops_agent.Base.{
  ◌≡◌, refl, String, ◌<>◌, [], ◌∷◌, All, none, some, ok, err, ◌==◌, string_eq, if◌then◌else◌,
  decimal,
}
use pi_ops_agent.Base.Dict.{Dict, insert}
use pi_ops_agent.RootHelper.Host.{System, Host, with_tool}
use pi_ops_agent.SystemdHelper.Inspect.{host_report, snapshot_commands, take_snapshot, tail_journal}
use pi_ops_agent.SystemdHelper.Inspect.Complete.{Has, take_snapshot-Has}

abbrev sparse : System
sparse = record {
  fault = λ _. none;
  partial = λ _. 0;
  look_path = λ _ name. if name == "uptime" then err "not found" else ok ("/bin/" <> name);
  output = λ _ c _. "output of " <> c.program;
  exit = λ _ c _. if c.program == "/bin/df" then some "/bin/df failed" else none;
  effect = λ _ _ files. files;
}

abbrev host : Host
host = record { files = []; temporary = none; tick = 0; commands = [] }

snapshot_taken :
    (take_snapshot sparse host).0
    ≡ ok (
        host_report (
          ("uptime", "unavailable")
          ∷ ("df", "error: /bin/df failed")
          ∷ ("free", "output of /bin/free")
          ∷ []))
unfolding take_snapshot with_tool insert string_eq
snapshot_taken = refl

journal_arguments :
    (tail_journal sparse "web.service" 100 host).1.commands
    ≡ record {
      program = "/bin/journalctl";
      arguments =
          "--no-pager" ∷ "--output=short-iso" ∷ "--unit" ∷ "web.service" ∷ "--lines" ∷ "100" ∷ [];
    }
      ∷ []
unfolding tail_journal with_tool decimal string_eq
journal_arguments = refl

take_snapshot-Has_example :
    (d : Dict String String) × ((take_snapshot sparse host).0 ≡ ok (host_report d))
    × All (λ item. Has d item.0) snapshot_commands
take_snapshot-Has_example = take_snapshot-Has sparse host
