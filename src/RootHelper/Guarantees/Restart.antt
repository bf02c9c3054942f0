-- ===== src/RootHelper/Guarantees/Restart.antt =====
-- What `RecoverInterrupted` leaves after a restart, internal/roothelper/store.go and service.go.
use pi_ops_agent.Base.{
  ℕ, ◌≡◌, refl, ap, ◌∙◌, ◌+◌, String, true, false, List, [], ◌∷◌, Option, none, some, arith, Result,
  ok, err, Result-cases, inl, inr, ◌⊎◌, Bool-cases, string_eq,
}
use pi_ops_agent.Base.Dict.{Dict}
use pi_ops_agent.Protocol.{
  ChangeState, pending_approval, rejected, preparing, executing, verifying, committed, rolling_back,
  rolled_back, recovery_required,
}
use pi_ops_agent.RootHelper.Change.{
  Change, AuditEvent, interrupted_change_recovered, PersistedState,
}
use pi_ops_agent.RootHelper.Store.{Store, StateCodec, PersistAnswers}
use pi_ops_agent.RootHelper.Recovery.{
  interrupted, recover_change, recover_changes, recover_interrupted, recover_listed,
  recover_persisted,
}
use pi_ops_agent.RootHelper.Machine.{Env, Sys, append_event, read_clock}
use pi_ops_agent.RootHelper.Service.Dispatch.{recover, recover_at, recovered_sys, audit_recovered}
use pi_ops_agent.RootHelper.Store.Durable.{persist_locked-memory}

-- A state in which no method of the service is under way.
abbrev pub IsSettled : ChangeState → Type 0
IsSettled preparing = ⊥
IsSettled executing = ⊥
IsSettled verifying = ⊥
IsSettled rolling_back = ⊥
IsSettled _ = Unit

interrupted-IsSettled : (s : ChangeState) → interrupted s ≡ false → IsSettled s
interrupted-IsSettled pending_approval h = tt
interrupted-IsSettled rejected h = tt
interrupted-IsSettled preparing h = ground arith
interrupted-IsSettled executing h = ground arith
interrupted-IsSettled verifying h = ground arith
interrupted-IsSettled committed h = tt
interrupted-IsSettled rolling_back h = ground arith
interrupted-IsSettled rolled_back h = tt
interrupted-IsSettled recovery_required h = tt

-- What becomes of a change: if it was interrupted it requires recovery and keeps its plan and its
-- backup; if not, it is as it was.
pub record IsRecovered (c d : Change) : Type 0 where
  pub settled : IsSettled d.state
  pub fate :
      ((interrupted c.state ≡ false) × (d ≡ c))
      ⊎ ((interrupted c.state ≡ true) × (d.state ≡ recovery_required))
  pub id : d.id ≡ c.id
  pub plan_hash : d.plan_hash ≡ c.plan_hash
  pub operation : d.operation ≡ c.operation
  pub backup_refs : d.backup_refs ≡ c.backup_refs
  pub rollback_data : d.rollback_data ≡ c.rollback_data
  pub rollback_available : d.rollback_available ≡ c.rollback_available

pub recover_change-IsRecovered : (now : String) (c : Change) → IsRecovered c (recover_change now c)
unfolding recover_change
recover_change-IsRecovered now c = elim (Bool-cases (interrupted c.state)) [
  | inl was ↦
      rw (was, recover_change)
        (record {
          settled = tt;
          fate = inr (was, refl);
          id = refl;
          plan_hash = refl;
          operation = refl;
          backup_refs = refl;
          rollback_data = refl;
          rollback_available = refl;
        })
  | inr was ↦
      rw (was, recover_change)
        (record {
          settled = interrupted-IsSettled c.state was;
          fate = inl (was, refl);
          id = refl;
          plan_hash = refl;
          operation = refl;
          backup_refs = refl;
          rollback_data = refl;
          rollback_available = refl;
        })
]

module _ (codec : StateCodec) (a : PersistAnswers) (now : String) where
  recover_persisted-memory :
      (cs : List Change) (p : Option String × Store)
      → (recover_persisted codec cs p).1.memory ≡ p.1.memory
  unfolding recover_persisted
  recover_persisted-memory cs (none, s) = refl
  recover_persisted-memory cs (some e, s) = refl

  recover_listed-memory :
      (cs : List Change) (s : Store) → (recover_listed codec a cs s).1.memory ≡ s.memory
  unfolding recover_listed
  recover_listed-memory [] s = refl
  recover_listed-memory (c ∷ cs) s =
      recover_persisted-memory (c ∷ cs) _ ∙ persist_locked-memory codec a s

  recover_interrupted-changes :
      (s : Store)
      → (recover_interrupted codec a now s).1.memory.changes ≡ recover_changes now s.memory.changes
  unfolding recover_interrupted
  recover_interrupted-changes s = ap (λ (m : PersistedState). m.changes) (recover_listed-memory _ _)

module _ {W : Type 0} (env : Env W) where
  append_event-store :
      (event : AuditEvent) (s : Sys W) → (append_event env event s).1.store ≡ s.store
  unfolding append_event
  append_event-store event s = refl

  audit_recovered-store :
      (cs : List Change) (s : Sys W) → (audit_recovered env cs s).1.store ≡ s.store
  unfolding audit_recovered append_event
  audit_recovered-store [] s = refl
  audit_recovered-store (c ∷ cs) s =
      let event =
        interrupted_change_recovered c.id c.plan_hash c.state c.last_error c.backup_refs in
      elim (Result-cases (append_event env event s).0) [
        | inl (id, written) ↦ rw (written, audit_recovered) (audit_recovered-store cs _)
        | inr (e, failed) ↦ rw (failed, audit_recovered) refl
      ]

  recovered_sys-store :
      (s : Sys W) (r : Result (List Change)) (t : Store) → (recovered_sys env s (r, t)).1.store ≡ t
  unfolding recovered_sys
  recovered_sys-store s (err e) t = refl
  recovered_sys-store s (ok cs) t = audit_recovered-store cs _

  recover_at-changes :
      (now : ℕ) (s : Sys W)
      → (recover_at env (now, s)).1.store.memory.changes
        ≡ recover_changes (env.time_text now) s.store.memory.changes
  unfolding recover_at
  recover_at-changes now s =
      let r = recover_interrupted env.codec (env.persist s.tick) (env.time_text now) s.store in
      ap (λ (t : Store). t.memory.changes) (recovered_sys-store s r.0 r.1)
      ∙ recover_interrupted-changes env.codec (env.persist s.tick) (env.time_text now) s.store

  pub recover-changes :
      (s : Sys W)
      → env.has_store_and_audit ≡ true
      → (recover env s).1.store.memory.changes
        ≡ recover_changes (env.time_text (env.clock s.tick)) s.store.memory.changes
  unfolding recover read_clock append_event
  recover-changes s ready =
      rw (ready, recover) (recover_at-changes (env.clock s.tick) (record s { tick = s.tick + 1 }))
