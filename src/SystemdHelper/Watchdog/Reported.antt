-- ===== src/SystemdHelper/Watchdog/Reported.antt =====
-- The reports of the restarts by the monitor of internal/systemdhelper/monitor.go.
use pi_ops_agent.Base.{
  ℕ, ◌+◌, ◌≡◌, refl, ap, sym, ◌∙◌, Bool, true, false, none, some, List, [], ◌∷◌, ◌++◌, map,
  Option-cases, inl, inr,
}
use pi_ops_agent.Audit.{Log}
use pi_ops_agent.Protocol.Operations.{Error}
use pi_ops_agent.SystemdHelper.Monitor.{Action, idle, suppressed, restarted, check}
use pi_ops_agent.SystemdHelper.Service.{
  Env, HelperEvent, unauthorized_helper_request, helper_request, restart_suppressed, agent_restart,
  systemd_helper_started,
}
use pi_ops_agent.SystemdHelper.Watchdog.{
  Watchdog, Process, Attempt, Phase, waiting, ended, suppressing, restarting, reporting, Event,
  moves, cancelled, requested, report_of, report, enter, go_on, cancel, react, run_process,
  new_process,
}

-- The entries on restarts among some events.
abbrev pub on_restarts : List HelperEvent → List HelperEvent
on_restarts [] = []
on_restarts (agent_restart unit fine e ∷ events) = agent_restart unit fine e ∷ on_restarts events
on_restarts (unauthorized_helper_request id m p ∷ events) = on_restarts events
on_restarts (helper_request id m p fine e ∷ events) = on_restarts events
on_restarts (restart_suppressed unit ∷ events) = on_restarts events
on_restarts (systemd_helper_started s uid unit ∷ events) = on_restarts events

-- The entry that tells a call of `Restart`: the unit, whether it succeeded, and its error.
abbrev succeeded : Error → Bool
succeeded none = true
succeeded (some e) = false

abbrev pub entry_of : Attempt → HelperEvent
entry_of a = agent_restart a.unit (succeeded a.error) a.error

report_of-entry_of : (a : Attempt) → report_of a ≡ entry_of a
report_of-entry_of a = elim (Option-cases a.error) [
  | inl fine ↦ rw fine refl
  | inr (e, failed) ↦ rw failed refl
]

-- The entry that a `Check` under way has still to give to `Append`.
abbrev pub pending : Phase → List HelperEvent
pending (reporting a) = entry_of a ∷ []
pending waiting = []
pending ended = []
pending suppressing = []
pending (restarting now) = []

module _ {W : Type 0} (env : Env) (dog : Watchdog W) (audited : dog.has_audit ≡ true) where
  abbrev pub IsReported : Process W → Type 0
  IsReported p = map entry_of p.attempts ≡ pending p.phase ++ on_restarts p.reports

  on_restarts-report_of :
      (a : Attempt) (events : List HelperEvent)
      → on_restarts (report_of a ∷ events) ≡ entry_of a ∷ on_restarts events
  on_restarts-report_of a events = ap (λ e. on_restarts (e ∷ events)) (report_of-entry_of a)

  enter-IsReported :
      (action : Action) (now : ℕ) (p : Process W)
      → p.phase ≡ waiting
      → IsReported p
      → IsReported (enter env dog action now p)
  unfolding enter
  enter-IsReported idle now p w h = h
  enter-IsReported suppressed now p w h = rw w at h
  enter-IsReported restarted now p w h = rw w at h

  go_on-IsReported :
      (phase : Phase) (p : Process W)
      → p.phase ≡ phase
      → IsReported p
      → IsReported (go_on env dog phase p)
  unfolding go_on
  go_on-IsReported waiting p at h =
      let now = env.clock p.sys.tick in
      let (action, m) = check dog.config now p.sys.monitor in
      enter-IsReported action now
        (record p { sys = record p.sys { monitor = m; tick = p.sys.tick + 1 }; phase = waiting })
        refl (rw at at h)
  go_on-IsReported ended p at h = h
  go_on-IsReported suppressing p at h = rw (audited, report) (rw at at h)
  go_on-IsReported (restarting now) p at h =
      ap
        (λ events.
          entry_of (record { at = now; unit = dog.unit; error = (dog.restart dog.unit p.world).0 })
          ∷ events)
        (rw at at h)
  go_on-IsReported (reporting a) p at h =
      rw (audited, report) (rw at at h ∙ sym (on_restarts-report_of a p.reports))

  cancel-IsReported :
      (phase : Phase) (p : Process W)
      → p.phase ≡ phase
      → IsReported p
      → IsReported (cancel env dog phase p)
  unfolding cancel
  cancel-IsReported waiting p at h = rw at at h
  cancel-IsReported ended p at h = h
  cancel-IsReported suppressing p at h = h
  cancel-IsReported (restarting now) p at h = h
  cancel-IsReported (reporting a) p at h = h

  react-IsReported : (e : Event) (p : Process W) → IsReported p → IsReported (react env dog e p)
  unfolding react
  react-IsReported moves p h = go_on-IsReported p.phase p refl h
  react-IsReported cancelled p h = cancel-IsReported p.phase p refl h
  react-IsReported (requested peer request) p h = h

  run_process-IsReported :
      (events : List Event) (p : Process W)
      → IsReported p
      → IsReported (run_process env dog events p)
  unfolding run_process
  run_process-IsReported [] p h = h
  run_process-IsReported (e ∷ events) p h =
      run_process-IsReported events (react env dog e p) (react-IsReported e p h)

  -- Let the monitor have a log. Whatever requests are served meanwhile and wherever `Run` stands,
  -- each call of `Restart` so far was given to `Append` once and in order, as an entry that tells
  -- the unit, whether the call succeeded, and its error, but for one that has just returned.
  pub attempts-reported :
      (log : Log) (world : W) (events : List Event)
      → let p = run_process env dog events (new_process env dog log world) in
        map entry_of p.attempts ≡ pending p.phase ++ on_restarts p.reports
  attempts-reported log world events =
      run_process-IsReported events (new_process env dog log world) refl
