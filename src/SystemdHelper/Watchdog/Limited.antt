-- ===== src/SystemdHelper/Watchdog/Limited.antt =====
-- The restarts that internal/systemdhelper makes while requests are served beside the monitor.
use pi_ops_agent.Base.{
  ℕ, ◌+◌, ◌≤◌, ◌≡◌, refl, sym, ap, ◌∙◌, inl, inr, arith, List, [], ◌∷◌, ◌++◌, map, pos_part,
  if-both,
}
use pi_ops_agent.Audit.{Log}
use pi_ops_agent.Protocol.{Request}
use pi_ops_agent.RootHelper.Change.{Credential}
use pi_ops_agent.SystemdHelper.Monitor.{State, Action, idle, suppressed, restarted, check}
use pi_ops_agent.SystemdHelper.Monitor.Limits.{count_within, restarts_limited}
use pi_ops_agent.SystemdHelper.Monitor.Runs.{
  Step, beat, tick, time_of, IsOrdered, last_time, noted, step, run, run-append, new_monitor,
}
use pi_ops_agent.SystemdHelper.Service.{Env, HelperEvent, append_event, handle}
use pi_ops_agent.SystemdHelper.Watchdog.{
  Watchdog, Process, Attempt, Phase, waiting, ended, suppressing, restarting, reporting, Event,
  moves, cancelled, requested, report, enter, decide, go_on, cancel, react, run_process,
  new_process,
}
use pi_ops_agent.SystemdHelper.Watchdog.Heartbeats.{handle-Beats}

last_time-append :
    (t : ℕ) (steps : List Step) (x : Step) → last_time t (steps ++ x ∷ []) ≡ time_of x
last_time-append t [] x = refl
last_time-append t (y ∷ steps) x = last_time-append (time_of y) steps x

IsOrdered-append :
    (t : ℕ) (steps : List Step) (x : Step)
    → IsOrdered t steps
    → last_time t steps ≤ time_of x
    → IsOrdered t (steps ++ x ∷ [])
IsOrdered-append t [] x h later = (later, tt)
IsOrdered-append t (y ∷ steps) x (h, hs) later = (h, IsOrdered-append (time_of y) steps x hs later)

-- The time of a restart that is decided and not yet made.
abbrev pub decided : Phase → List ℕ
decided (restarting now) = now ∷ []
decided waiting = []
decided ended = []
decided suppressing = []
decided (reporting a) = []

abbrev pub times : List Attempt → List ℕ
times attempts = map (λ (a : Attempt). a.at) attempts

module _ {W : Type 0} (env : Env) (dog : Watchdog W) where
  abbrev pub history : Process W → List ℕ
  history p = decided p.phase ++ times p.attempts

  abbrev pub start : ℕ
  start = env.clock 0

  -- The monitor and the restarts are those of some heartbeats and checks, one after the other.
  pub record Follows (p : Process W) : Type 0 where
    pub steps : List Step
    pub same : run dog.config steps (new_monitor dog.config start) ≡ (history p, p.sys.monitor)
    pub ordered : IsOrdered start steps
    pub now : ℕ
    pub before : now ≤ p.sys.tick
    pub late : last_time start steps ≤ env.clock now

  -- Nothing of it changes but the number of calls.
  pub Follows-later :
      (p q : Process W)
      → Follows p
      → history q ≡ history p
      → q.sys.monitor ≡ p.sys.monitor
      → p.sys.tick ≤ q.sys.tick
      → Follows q
  Follows-later p q f same_history same_monitor later = record {
    steps = f.steps;
    same = f.same ∙ cc (same_history, same_monitor);
    ordered = f.ordered;
    now = f.now;
    before = omega (arith, f.before, later);
    late = f.late;
  }

  module _ (forward : (m n : ℕ) → m ≤ n → env.clock m ≤ env.clock n) where
    -- One step more.
    Follows-step :
        (p q : Process W) (x : Step) (k : ℕ)
        → Follows p
        → time_of x ≡ env.clock k
        → p.sys.tick ≤ k
        → k ≤ q.sys.tick
        → step dog.config x (history p, p.sys.monitor) ≡ (history q, q.sys.monitor)
        → Follows q
    Follows-step p q x k f at after before made = record {
      steps = f.steps ++ x ∷ [];
      same =
          run-append dog.config f.steps x (new_monitor dog.config start)
          ∙ (ap (step dog.config x) f.same ∙ made);
      ordered =
          IsOrdered-append start f.steps x f.ordered
            (omega (arith, f.late, at, forward f.now k (omega (arith, f.before, after))));
      now = k;
      before = before;
      late = omega (arith, last_time-append start f.steps x, at);
    }

    entered :
        (now : ℕ) (p : Process W) (r : Action × State)
        → p.phase ≡ waiting
        → let s = record p.sys { monitor = r.1; tick = p.sys.tick + 1 } in
          let q = enter env dog r.0 now (record p { sys = s; phase = waiting }) in
          noted dog.config now (history p) r ≡ (history q, q.sys.monitor)
    unfolding enter
    entered now p (idle, m) at = rw at refl
    entered now p (suppressed, m) at = rw at refl
    entered now p (restarted, m) at = rw at refl

    entered-tick :
        (action : Action) (now : ℕ) (p : Process W)
        → (enter env dog action now p).sys.tick ≡ p.sys.tick
    unfolding enter
    entered-tick idle now p = refl
    entered-tick suppressed now p = refl
    entered-tick restarted now p = refl

    decide-Follows :
        (p : Process W)
        → p.phase ≡ waiting
        → Follows p
        → Follows (decide env dog (env.clock p.sys.tick) p)
    unfolding decide step
    decide-Follows p at f =
        let now = env.clock p.sys.tick in
        let (action, m) = check dog.config now p.sys.monitor in
        let s = record p.sys { monitor = m; tick = p.sys.tick + 1 } in
        Follows-step p (decide env dog now p) (tick now) p.sys.tick f refl (omega arith)
          (omega (arith, entered-tick action now (record p { sys = s; phase = waiting })))
          (entered now p (check dog.config now p.sys.monitor) at)

    report-Follows :
        (event : HelperEvent) (p : Process W) → Follows p → Follows (report env dog event p)
    unfolding report append_event
    report-Follows event p f =
        if-both Follows dog.has_audit
          (record p { sys = (append_event env event p.sys).1; reports = event ∷ p.reports }) p
          (λ audited. Follows-later p _ f refl refl (omega arith)) (λ silent. f)

    go_on-Follows :
        (phase : Phase) (p : Process W)
        → p.phase ≡ phase
        → Follows p
        → Follows (go_on env dog phase p)
    unfolding go_on
    go_on-Follows waiting p at f = decide-Follows p at f
    go_on-Follows ended p at f = f
    go_on-Follows suppressing p at f =
        report-Follows _ _ (Follows-later p _ f (rw at refl) refl (omega arith))
    go_on-Follows (restarting now) p at f = Follows-later p _ f (rw at refl) refl (omega arith)
    go_on-Follows (reporting a) p at f =
        report-Follows _ _ (Follows-later p _ f (rw at refl) refl (omega arith))

    cancel-Follows :
        (phase : Phase) (p : Process W)
        → p.phase ≡ phase
        → Follows p
        → Follows (cancel env dog phase p)
    unfolding cancel
    cancel-Follows waiting p at f = Follows-later p _ f (rw at refl) refl (omega arith)
    cancel-Follows ended p at f = f
    cancel-Follows suppressing p at f = f
    cancel-Follows (restarting now) p at f = f
    cancel-Follows (reporting a) p at f = f

    request-Follows :
        (peer : Credential) (request : Request) (p : Process W)
        → Follows p
        → Follows (record p { sys = (handle env peer request p.sys).1 })
    request-Follows peer request p f =
        let b = handle-Beats env peer request p.sys in
        let q = record p { sys = (handle env peer request p.sys).1 } in
        elim b.beats [
          | inl kept ↦ Follows-later p q f refl kept b.later
          | inr (k, after, before, beaten) ↦
              Follows-step p q (beat (env.clock k)) k f refl after before
                (unfold step in ap (λ m. (history p, m)) (sym beaten))
        ]

    react-Follows : (e : Event) (p : Process W) → Follows p → Follows (react env dog e p)
    unfolding react
    react-Follows moves p f = go_on-Follows p.phase p refl f
    react-Follows cancelled p f = cancel-Follows p.phase p refl f
    react-Follows (requested peer request) p f = request-Follows peer request p f

    pub run_process-Follows :
        (events : List Event) (p : Process W) → Follows p → Follows (run_process env dog events p)
    unfolding run_process
    run_process-Follows [] p f = f
    run_process-Follows (e ∷ events) p f =
        run_process-Follows events (react env dog e p) (react-Follows e p f)

    times-history :
        (phase : Phase) (ts : List ℕ) (now : ℕ)
        → count_within dog.config.restart_window now ts
          ≤ count_within dog.config.restart_window now (decided phase ++ ts)
    times-history (restarting t) ts now = ground arith
    times-history waiting ts now = omega arith
    times-history ended ts now = omega arith
    times-history suppressing ts now = omega arith
    times-history (reporting a) ts now = omega arith

    -- A window that ends at or after the last reading of the clock holds at most `MaxRestarts`
    -- calls of `Restart`, and none if that is negative.
    pub attempts_limited :
        (p : Process W) (now : ℕ)
        → Follows p
        → env.clock p.sys.tick ≤ now
        → count_within dog.config.restart_window now (times p.attempts)
          ≤ pos_part dog.config.max_restarts
    attempts_limited p now f late =
        let counted =
          restarts_limited dog.config start now f.steps f.ordered
            (omega (arith, f.late, forward f.now p.sys.tick f.before, late)) in
        omega (arith, rw f.same at counted, times-history p.phase (times p.attempts) now)

    pub new_process-Follows : (log : Log) (world : W) → Follows (new_process env dog log world)
    new_process-Follows log world = record {
      steps = [];
      same = unfold run in refl;
      ordered = tt;
      now = 0;
      before = omega arith;
      late = omega arith;
    }
