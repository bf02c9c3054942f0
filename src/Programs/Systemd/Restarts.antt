-- ===== src/Programs/Systemd/Restarts.antt =====
-- What the program of cmd/ops-systemd-helper/main.go does to the host once it has started.
use pi_ops_agent.Base.{
  ℕ, ◌≤◌, ◌≡◌, refl, ap, ◌⊎◌, inl, inr, arith, String, List, [], ◌∷◌, none, Result, ok, All, length,
  pos_part, Result-cases, Option-cases, string_eq,
}
use mathlib.Core.Path.{subst}
use pi_ops_agent.Audit
use pi_ops_agent.Audit.{Log}
use pi_ops_agent.RootHelper.Host.{System, Host, Command, look_path, with_tool}
use pi_ops_agent.SystemdHelper.Inspect.{restart_unit}
use pi_ops_agent.SystemdHelper.Monitor.{Action, idle, suppressed, restarted, check}
use pi_ops_agent.SystemdHelper.Monitor.Limits.{count_within}
use pi_ops_agent.SystemdHelper.Service.{Env, Sys, systemd_helper_started, append_event}
use pi_ops_agent.SystemdHelper.Watchdog.{
  Watchdog, Process, Phase, waiting, ended, suppressing, restarting, reporting, Event, moves,
  cancelled, requested, report, enter, decide, attempt, go_on, cancel, react, run_process,
  new_process,
}
use pi_ops_agent.SystemdHelper.Watchdog.Limited.{
  Follows, Follows-later, new_process-Follows, run_process-Follows, attempts_limited, times,
}
use pi_ops_agent.Programs.Systemd.{
  SystemdFlags, check_systemd_flags, validate_unit, helper_of, monitor_of, start_systemd,
}

module _ (sys : System) where
  -- `systemctl restart -- unit`, with a program that `LookPath` found.
  abbrev pub IsRestart : String → Command → Type 0
  IsRestart unit c =
      (c.arguments ≡ "restart" ∷ "--" ∷ unit ∷ [])
      × ((n : ℕ) × (sys.look_path n "systemctl" ≡ ok c.program))

  restart_unit-commands :
      (unit : String) (h : Host)
      → ((restart_unit sys unit h).1.commands ≡ h.commands)
        ⊎ ((c : Command) × IsRestart unit c
            × ((restart_unit sys unit h).1.commands ≡ c ∷ h.commands))
  unfolding restart_unit with_tool look_path
  restart_unit-commands unit h = elim (Result-cases (sys.look_path h.tick "systemctl")) [
    | inr (e, missing) ↦ rw missing (inl refl)
    | inl (path, there) ↦ rw there (
        inr (
          record { program = path; arguments = "restart" ∷ "--" ∷ unit ∷ [] },
          (refl, (h.tick, there)),
          refl,
        ))
  ]

  module _ (env : Env) (f : SystemdFlags) where
    abbrev dog : Watchdog Host
    dog = monitor_of sys f

    -- Each command is a restart of the unit, and there are no more than calls of `Restart`.
    record IsOrderly (p : Process Host) : Type 0 where
      restarts : All (IsRestart f.agent_unit) p.world.commands
      counted : length p.world.commands ≤ length p.attempts

    abbrev Same : Process Host → Process Host → Type 0
    Same p q = (q.world ≡ p.world) × (q.attempts ≡ p.attempts)

    IsOrderly-Same : (p q : Process Host) → Same p q → IsOrderly p → IsOrderly q
    IsOrderly-Same p q (world, attempts) h = record {
      restarts = rw world h.restarts;
      counted =
          omega (arith, ap (λ (w : Host). length w.commands) world, ap length attempts, h.counted);
    }

    attempt-IsOrderly :
        (now : ℕ) (p : Process Host) → IsOrderly p → IsOrderly (attempt (helper_of env f) dog now p)
    unfolding attempt
    attempt-IsOrderly now p h = elim (restart_unit-commands f.agent_unit p.world) [
      | inl none_run ↦ record {
        restarts = rw none_run h.restarts;
        counted = omega (arith, ap length none_run, h.counted);
      }
      | inr (c, restart, one_run) ↦ record {
        restarts = rw one_run (restart, h.restarts);
        counted = omega (arith, ap length one_run, h.counted);
      }
    ]

    enter-Same :
        (action : Action) (now : ℕ) (p : Process Host)
        → Same p (enter (helper_of env f) dog action now p)
    unfolding enter
    enter-Same idle now p = (refl, refl)
    enter-Same suppressed now p = (refl, refl)
    enter-Same restarted now p = (refl, refl)

    go_on-IsOrderly :
        (phase : Phase) (p : Process Host)
        → IsOrderly p
        → IsOrderly (go_on (helper_of env f) dog phase p)
    unfolding go_on decide report
    go_on-IsOrderly waiting p h =
        IsOrderly-Same p _
          (enter-Same (check dog.config (env.clock p.sys.tick) p.sys.monitor).0
            (env.clock p.sys.tick) _)
          h
    go_on-IsOrderly ended p h = h
    go_on-IsOrderly suppressing p h = IsOrderly-Same p _ (refl, refl) h
    go_on-IsOrderly (restarting now) p h = attempt-IsOrderly now p h
    go_on-IsOrderly (reporting a) p h = IsOrderly-Same p _ (refl, refl) h

    cancel-IsOrderly :
        (phase : Phase) (p : Process Host)
        → IsOrderly p
        → IsOrderly (cancel (helper_of env f) dog phase p)
    unfolding cancel
    cancel-IsOrderly waiting p h = IsOrderly-Same p _ (refl, refl) h
    cancel-IsOrderly ended p h = h
    cancel-IsOrderly suppressing p h = h
    cancel-IsOrderly (restarting now) p h = h
    cancel-IsOrderly (reporting a) p h = h

    run_process-IsOrderly :
        (events : List Event) (p : Process Host)
        → IsOrderly p
        → IsOrderly (run_process (helper_of env f) dog events p)
    unfolding run_process react
    run_process-IsOrderly [] p h = h
    run_process-IsOrderly (moves ∷ events) p h =
        run_process-IsOrderly events _ (go_on-IsOrderly p.phase p h)
    run_process-IsOrderly (cancelled ∷ events) p h =
        run_process-IsOrderly events _ (cancel-IsOrderly p.phase p h)
    run_process-IsOrderly (requested peer request ∷ events) p h =
        run_process-IsOrderly events _ (IsOrderly-Same p _ (refl, refl) h)

    check_systemd_flags-unit : check_systemd_flags f ≡ none → validate_unit f.agent_unit ≡ none
    unfolding check_systemd_flags
    check_systemd_flags-unit fine = ground arith

    abbrev opened : Log → Host → Process Host
    opened log host = new_process (helper_of env f) dog log host

    abbrev first_entry_in : Process Host → Result String × Sys
    first_entry_in p =
        append_event (helper_of env f) (systemd_helper_started f.socket f.agent_uid f.agent_unit)
          p.sys

    -- What the start leaves.
    record IsReady (host : Host) (p : Process Host) : Type 0 where
      valid : validate_unit f.agent_unit ≡ none
      log : Log
      is : record (opened log host) { sys = (first_entry_in (opened log host)).1 } ≡ p

    start_systemd-IsReady :
        (file : Audit.Existing) (host : Host) (p : Process Host)
        → start_systemd env sys f file host ≡ ok p
        → IsReady host p
    unfolding start_systemd
    start_systemd-IsReady file host p started = elim (Option-cases (check_systemd_flags f)) [
      | inr (e, refused) ↦ ground arith
      | inl fine ↦ elim (Result-cases (Audit.open_at env.encoding file)) [
        | inr (e, failed) ↦ ground arith
        | inl (log, intact) ↦ elim (Result-cases (first_entry_in (opened log host)).0) [
          | inr (e, failed) ↦ ground arith
          | inl (id, taken) ↦ record {
            valid = check_systemd_flags-unit fine;
            log = log;
            is = ground arith;
          }
        ]
      ]
    ]

    module _ (host : Host) (p : Process Host) (r : IsReady host p) where
      IsReady-IsOrderly : host.commands ≡ [] → IsOrderly p
      unfolding append_event
      IsReady-IsOrderly fresh =
          subst IsOrderly r.is (record { restarts = rw fresh tt; counted = rw fresh (omega arith) })

      IsReady-Follows :
          ((m n : ℕ) → m ≤ n → env.clock m ≤ env.clock n) → Follows (helper_of env f) dog p
      unfolding append_event
      IsReady-Follows forward = subst (Follows (helper_of env f) dog) r.is (
          Follows-later (helper_of env f) dog (opened r.log host) _
            (new_process-Follows (helper_of env f) dog forward r.log host) refl refl (omega arith))

    -- Let the clock not go back, and let no command stand on the host before the start. Once the
    -- systemd helper has started, in whatever order requests are served and `Run` goes on, all
    -- that the monitor runs is `systemctl restart -- unit`, with a unit that `ValidateUnit`
    -- accepts and at most one for each call of `Restart`; and at or after the last reading of the
    -- clock, at most `-max-restarts` of these calls were decided later than `-restart-window` ago.
    pub start_systemd-restarts :
        (file : Audit.Existing) (host : Host) (p : Process Host) (events : List Event) (now : ℕ)
        → ((m n : ℕ) → m ≤ n → env.clock m ≤ env.clock n)
        → host.commands ≡ []
        → start_systemd env sys f file host ≡ ok p
        → env.clock (run_process (helper_of env f) dog events p).sys.tick ≤ now
        → let q = run_process (helper_of env f) dog events p in
          (validate_unit f.agent_unit ≡ none)
          × All (IsRestart f.agent_unit) q.world.commands
          × (length q.world.commands ≤ length q.attempts)
          × (count_within f.restart_window now (times q.attempts) ≤ pos_part f.max_restarts)
    start_systemd-restarts file host p events now forward fresh started late =
        let r = start_systemd-IsReady file host p started in
        let q = run_process (helper_of env f) dog events p in
        let h : IsOrderly q = run_process-IsOrderly events p (IsReady-IsOrderly host p r fresh) in
        let l =
          attempts_limited (helper_of env f) dog forward q now
            (run_process-Follows (helper_of env f) dog forward events p
              (IsReady-Follows host p r forward))
            late in
        (r.valid, h.restarts, h.counted, l)
