-- ===== src/SystemdHelper/Watchdog/Heartbeats.antt =====
-- What a request that internal/systemdhelper/service.go serves does to the monitor's state.
use pi_ops_agent.Base.{
  ℕ, ◌+◌, ◌≤◌, ◌≡◌, refl, ◌∙◌, ◌⊎◌, inl, inr, arith, String, Result, ltb, ◌=?◌, not, ◌&&◌, if-both,
}
use pi_ops_agent.Protocol.{
  Method, change_prepare, change_status, change_approve, change_reject, change_rollback,
  host_snapshot, systemd_unit, journal_tail, other, Request, Response, Payload,
}
use pi_ops_agent.Protocol
use pi_ops_agent.RootHelper.Change.{Credential}
use pi_ops_agent.SystemdHelper.Monitor.{heartbeat}
use pi_ops_agent.SystemdHelper.Service.{
  Env, Sys, handle, reject_peer, serve, conclude, append_event, serve_in_time, started, refused,
}

module _ (env : Env) where
  -- The monitor is left as it is, or takes a heartbeat at the reading of the clock in between.
  pub record Beats (s t : Sys) : Type 0 where
    pub later : s.tick ≤ t.tick
    pub beats :
        (t.monitor ≡ s.monitor)
        ⊎ ((k : ℕ) × (s.tick ≤ k) × (k ≤ t.tick) × (t.monitor ≡ heartbeat (env.clock k) s.monitor))

  abbrev Serves : {A : Type 0} → Sys → A × Sys → Type 0
  Serves s p = Beats s p.1

  serve-Beats : (request : Request) (m : Method) (s : Sys) → Beats s (serve env request m s).1
  unfolding serve
  serve-Beats request Protocol.heartbeat s = record {
    later = omega arith;
    beats = inr (s.tick, omega arith, omega arith, refl);
  }
  serve-Beats request host_snapshot s = record { later = omega arith; beats = inl refl }
  serve-Beats request systemd_unit s = record { later = omega arith; beats = inl refl }
  serve-Beats request journal_tail s = record { later = omega arith; beats = inl refl }
  serve-Beats request change_prepare s = record { later = omega arith; beats = inl refl }
  serve-Beats request change_status s = record { later = omega arith; beats = inl refl }
  serve-Beats request change_approve s = record { later = omega arith; beats = inl refl }
  serve-Beats request change_reject s = record { later = omega arith; beats = inl refl }
  serve-Beats request change_rollback s = record { later = omega arith; beats = inl refl }
  serve-Beats request (other name) s = record { later = omega arith; beats = inl refl }

  -- A further step that leaves the monitor alone.
  Beats-then : {s t u : Sys} → Beats s t → u.monitor ≡ t.monitor → t.tick ≤ u.tick → Beats s u
  Beats-then b same later = record {
    later = omega (arith, b.later, later);
    beats = elim b.beats [
      | inl kept ↦ inl (same ∙ kept)
      | inr (k, after, before, beat) ↦ inr (k, after, omega (arith, before, later), same ∙ beat)
    ];
  }

  after_clock : (s : Sys) {t : Sys} → Beats (record s { tick = s.tick + 1 }) t → Beats s t
  after_clock s b = record {
    later = omega (arith, b.later);
    beats = elim b.beats [
      | inl kept ↦ inl kept
      | inr (k, after, before, beat) ↦ inr (k, omega (arith, after), before, beat)
    ];
  }

  unchanged-Beats : (s t : Sys) → t.monitor ≡ s.monitor → s.tick ≤ t.tick → Beats s t
  unchanged-Beats s t same later = record { later = later; beats = inl same }

  conclude-Beats :
      (peer : Credential) (request : Request) (s : Sys) (answer : (Result Payload × String) × Sys)
      → Beats s answer.1
      → Beats s (conclude env peer request answer).1
  unfolding conclude append_event
  conclude-Beats peer request s answer b = Beats-then b refl (omega arith)

  reject_peer-Beats :
      (peer : Credential) (request : Request) (s : Sys) → Beats s (reject_peer env peer request s).1
  unfolding reject_peer append_event
  reject_peer-Beats peer request s = unchanged-Beats s _ (ground arith) (ground arith)

  serve_in_time-Beats :
      (peer : Credential) (request : Request) (s : Sys)
      → Beats s (serve_in_time env peer request s).1
  unfolding serve_in_time
  serve_in_time-Beats peer request s =
      let s' = record s { tick = s.tick + 1 } in
      let served = serve env request request.method s' in
      if-both (Serves s) (ltb (env.clock s.tick) request.deadline)
        (conclude env peer request served) (refused request "request deadline expired", s')
        (λ early.
          conclude-Beats peer request s served
            (after_clock s (serve-Beats request request.method s')))
        (λ late. unchanged-Beats s s' refl (omega arith))

  -- A request leaves the monitor alone, or hands it one heartbeat at a reading of the clock
  -- between the request's first call and its last.
  pub handle-Beats :
      (peer : Credential) (request : Request) (s : Sys) → Beats s (handle env peer request s).1
  unfolding handle started
  handle-Beats peer request s =
      if-both (Serves s) (not (peer.uid =? env.agent_uid)) (reject_peer env peer request s)
        (started env peer request s) (λ stranger. reject_peer-Beats peer request s)
        (λ agent.
          if-both (Serves s) (not (env.has_audit && (env.has_inspector && env.has_monitor)))
            (refused request "systemd-helper is not initialized", s)
            (serve_in_time env peer request s) (λ missing. unchanged-Beats s s refl (omega arith))
            (λ ready. serve_in_time-Beats peer request s))
