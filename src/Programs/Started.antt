-- ===== src/Programs/Started.antt =====
-- What holds of the root helper of cmd/ops-root-helper/main.go once it has started.
use pi_ops_agent.Base.{
  ℕ, ◌%◌, ◌^◌, ◌<◌, ◌≡◌, ◌≢◌, refl, ap, sym, ◌∙◌, inl, inr, arith, ℤ, zero, suc, pos, negsuc,
  String, [], ◌∷◌, none, some, Result, ok, err, Result-cases, Option-cases, Bool-cases, ◌==◌,
  string_eq,
}
use mathlib.Core.Path.{subst}
use pi_ops_agent.Base.Dict.{Dict, lookup}
use pi_ops_agent.Audit
use pi_ops_agent.Audit.{Log}
use pi_ops_agent.RootHelper.Store.{Store}
use pi_ops_agent.Protocol.Operations.{Error, parse_operation}
use pi_ops_agent.RootHelper.Change.{Change, root_helper_started}
use pi_ops_agent.RootHelper.Machine.{Env, Sys, append_event}
use pi_ops_agent.RootHelper.Recovery.{recover_change, recover_changes, open_store}
use pi_ops_agent.RootHelper.Service.Dispatch.{recover}
use pi_ops_agent.RootHelper.Guarantees.Restart.{
  IsSettled, recover_change-IsRecovered, recover-changes,
}
use pi_ops_agent.Programs.{
  RootFlags, Disk, uint32, check_root_flags, env_of, service_of, start_root, recovered, announced,
}

-- If both UIDs are below 2 ^ 32 and pass the test at the start, the agent and the approver are
-- still different once they are cut to 32 bits.
pub check_root_flags-uint32 :
    (f : RootFlags) (a b : ℕ)
    → f.agent_uid ≡ pos a
    → f.approver_uid ≡ pos b
    → a < 2 ^ 32
    → b < 2 ^ 32
    → check_root_flags f ≡ none
    → uint32 f.agent_uid ≢ uint32 f.approver_uid
unfolding check_root_flags
check_root_flags-uint32 f a b agent approver small few fine same =
    let reduced : a % 2 ^ 32 ≡ b % 2 ^ 32 = ap uint32 (sym agent) ∙ (same ∙ ap uint32 approver) in
    let equal : a ≡ b = omega (arith, reduced, small, few) in ground arith

-- Two different UIDs that are not negative, and a timeout that is positive.
pub record AreSound (f : RootFlags) : Type 0 where
  pub agent : ℕ
  pub approver : ℕ
  pub timeout : ℕ
  pub agent_uid : f.agent_uid ≡ pos agent
  pub approver_uid : f.approver_uid ≡ pos approver
  pub distinct : agent ≢ approver
  pub rollback_timeout : f.rollback_timeout ≡ pos (suc timeout)

flags-AreSound :
    (f : RootFlags) (x y z : ℤ)
    → f.agent_uid ≡ x
    → f.approver_uid ≡ y
    → f.rollback_timeout ≡ z
    → check_root_flags f ≡ none
    → AreSound f
unfolding check_root_flags
flags-AreSound f (pos a) (pos b) (pos (suc t)) p q r fine = record {
  agent = a;
  approver = b;
  timeout = t;
  agent_uid = p;
  approver_uid = q;
  distinct = λ same. ground arith;
  rollback_timeout = r;
}
flags-AreSound f (negsuc a) y z p q r fine = ground arith
flags-AreSound f (pos a) (negsuc b) z p q r fine = ground arith
flags-AreSound f (pos a) (pos b) (negsuc t) p q r fine = ground arith
flags-AreSound f (pos a) (pos b) (pos zero) p q r fine = ground arith

check_root_flags-AreSound : (f : RootFlags) → check_root_flags f ≡ none → AreSound f
check_root_flags-AreSound f =
    flags-AreSound f f.agent_uid f.approver_uid f.rollback_timeout refl refl refl

recover_changes-IsSettled :
    (now id : String) (cs : Dict String Change) (d : Change)
    → lookup id (recover_changes now cs) ≡ some d
    → IsSettled d.state
unfolding lookup recover_changes
recover_changes-IsSettled now id [] d there = ground arith
recover_changes-IsSettled now id ((k, c) ∷ cs) d there =
    let settled = (recover_change-IsRecovered now c).settled in
    elim (Bool-cases (k == id)) [
      | inl here ↦
          let same : recover_change now c ≡ d = ground arith in
          subst (λ (x : Change). IsSettled x.state) same settled
      | inr further ↦ recover_changes-IsSettled now id cs d (ground arith)
    ]

module _ {W : Type 0} (env : Env W) (f : RootFlags) (disk : Disk) (w : W) (s : Sys W) where
  -- The state that the recovery leaves, from the store and the log that were opened.
  pub record IsStarted : Type 0 where
    pub fine : check_root_flags f ≡ none
    pub store : Store
    pub opened :
        open_store env.codec (parse_operation env.decode_operation) disk.directory disk.state_file
        ≡ ok store
    pub log : Log
    pub is :
        (append_event
          (env_of env f)
          (root_helper_started f.socket f.agent_uid f.approver_uid)
          (recover (env_of env f) (service_of env store log w)).1).1
        ≡ s

  recovered-ok : (r : Error × Sys W) (t : Sys W) → recovered env r ≡ ok t → r.1 ≡ t
  recovered-ok (none, u) t fine = ground arith
  recovered-ok (some e, u) t fine = ground arith

  announced-ok : (r : Result String × Sys W) → announced env r ≡ ok s → r.1 ≡ s
  announced-ok (ok id, u) fine = ground arith
  announced-ok (err e, u) fine = ground arith

  pub start_root-IsStarted : start_root env f disk w ≡ ok s → IsStarted
  unfolding start_root
  start_root-IsStarted started = elim (Option-cases (check_root_flags f)) [
    | inr (e, refused) ↦ ground arith
    | inl fine ↦
        elim (Result-cases (
          open_store env.codec (parse_operation env.decode_operation) disk.directory
            disk.state_file)) [
              | inr (e, failed) ↦ ground arith
              | inl (store, opened) ↦
                  elim (Result-cases (Audit.open_at env.encoding disk.audit_file)) [
                    | inr (e, failed) ↦ ground arith
                    | inl (log, intact) ↦
                        let r = recover (env_of env f) (service_of env store log w) in
                        elim (Result-cases (recovered env r)) [
                          | inr (e, failed) ↦ ground arith
                          | inl (t, recovered_t) ↦
                              let last =
                                append_event (env_of env f)
                                  (root_helper_started f.socket f.agent_uid f.approver_uid) t in
                              let same : r.1 ≡ t = recovered-ok r t recovered_t in
                              record {
                                fine = fine;
                                store = store;
                                opened = opened;
                                log = log;
                                is = rw same (announced-ok last (ground arith));
                              }
                        ]
                  ]
            ]
  ]

  -- The changes of the store that was opened, recovered.
  pub IsStarted-changes :
      (st : IsStarted)
      → s.store.memory.changes
        ≡ recover_changes (env.time_text (env.clock 0)) st.store.memory.changes
  unfolding append_event
  IsStarted-changes st =
      ap (λ (x : Sys W). x.store.memory.changes) (sym st.is)
      ∙ recover-changes (env_of env f) (service_of env st.store st.log w) refl

  -- Once the root helper has started, whatever state.json held, no change of its store is
  -- PREPARING, EXECUTING, VERIFYING or ROLLING_BACK, and the UIDs of the flags are two different
  -- numbers that are not negative and the timeout of a rollback is positive.
  pub start_root-IsSettled :
      start_root env f disk w ≡ ok s
      → AreSound f
        × ((id : String) (c : Change)
            → lookup id s.store.memory.changes ≡ some c
            → IsSettled c.state)
  start_root-IsSettled started =
      let st = start_root-IsStarted started in
      (
        check_root_flags-AreSound f st.fine,
        λ id c there.
            recover_changes-IsSettled (env.time_text (env.clock 0)) id st.store.memory.changes c
              (ap (lookup id) (sym (IsStarted-changes st)) ∙ there),
      )
