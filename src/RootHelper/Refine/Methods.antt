-- ===== src/RootHelper/Refine/Methods.antt =====
-- The methods of internal/roothelper/service.go, from a state that holds each change under its id.
use pi_ops_agent.Base.{◌≡◌, refl, sym, String, Bool, true, Option, none, some, arith, string_eq}
use mathlib.Core.Path.{subst}
use pi_ops_agent.Base.Dict.{lookup}
use pi_ops_agent.Protocol.{
  Request, rejected, committed, rolling_back, recovery_required, pending_approval, preparing,
  ChangeState,
}
use pi_ops_agent.Protocol.Operations.{Error}
use pi_ops_agent.RootHelper.Change.{Change, Credential, Context}
use pi_ops_agent.RootHelper.Store.{find_change}
use pi_ops_agent.RootHelper.Machine.{Env, Sys}
use pi_ops_agent.RootHelper.Handler.Keeps.{
  Leads, Leads-bind, Leads-perform, Leads-guard, Leads-return_early, Leads-pure,
}
use pi_ops_agent.RootHelper.Service.{
  with_state, is_pending, may_roll_back, is_approver, get_change, found, status, reject_change,
  reject, finish_rollback, roll_back_change, rollback,
}
use pi_ops_agent.RootHelper.Service.Approve.{approve}
use pi_ops_agent.RootHelper.Spec.{
  View, ◌⟶◌, IsKeyed, begin, decline, restored, stuck_undo, undo_commit, retry_undo,
}
use pi_ops_agent.RootHelper.Refine.Calls.{Reached, Holding, call_rollback-Holding}
use pi_ops_agent.RootHelper.Refine.Stages.{
  Ends, Ends-pure, Ends-attempt_value, Ends-audit, Ends-perform-put, Ends-check-put,
}
use pi_ops_agent.RootHelper.Refine.Approval.{approve_change-Ends}

module _ {W : Type 0} (env : Env W) (v : View) (peer : Credential) (request : Request) where
  abbrev pub asked : Bool
  asked = is_approver env peer.uid

  abbrev pub Start : Sys W → Type 0
  Start s = Reached env asked v s × IsKeyed env s.store.memory.changes

  found-Leads :
      (o : Option Change)
      → Leads
          (λ s. Start s × (find_change request.change_id s.store ≡ o))
          (found env request o)
          (λ c. Holding env asked v c)
          (Reached env asked v)
  unfolding found find_change
  found-Leads none = Leads-return_early _ (λ s q. q.0.0)
  found-Leads (some c) = Leads-pure c (λ s ((r, keyed), e). (
    r,
    subst (λ id. lookup id s.store.memory.changes ≡ some c) (sym (keyed request.change_id c e)) e,
  ))

  get_change-Leads :
      Leads Start (get_change env request) (λ c. Holding env asked v c) (Reached env asked v)
  unfolding get_change
  get_change-Leads = record {
    from = λ s q. (found-Leads (find_change request.change_id s.store)).from s (q, refl);
  }

  pub status-Ends : Ends env asked v Start (status env peer request)
  unfolding status
  status-Ends =
      Leads-guard _ _ _ (λ s q. q.0)
        (λ _.
          Leads-bind _ _ get_change-Leads
            (λ c. Ends-audit env asked v peer request _ c _ _ (λ _. Ends-pure env asked v c _)))

  pending-begins : (s : ChangeState) → is_pending s ≡ true → s ≡ pending_approval
  pending-begins s h = ground arith

  pub reject-Ends : (now : String) → Ends env asked v Start (reject env peer request now)
  unfolding reject reject_change
  reject-Ends now =
      Leads-guard _ _ _ (λ s q. q.0)
        (λ approved. Leads-bind _ _ get_change-Leads (λ c.
          Leads-guard _ _ _ (λ s q. q.0)
            (λ pending.
              Ends-check-put env asked v approved c (with_state rejected now c) (ground arith)
                (rw (pending-begins c.state pending) decline) _ _
                (λ _.
                  Ends-audit env asked v peer request _ _ _ _ (λ _. Ends-pure env asked v _ _)))))

  pub approve-Ends :
      (ctx : Context) (now : String) → Ends env asked v Start (approve env ctx peer request now)
  unfolding approve
  approve-Ends ctx now =
      Leads-guard _ _ _ (λ s q. q.0)
        (λ approved. Leads-bind _ _ get_change-Leads (λ c.
          Leads-guard _ _ _ (λ s q. q.0)
            (λ pending.
              approve_change-Ends env asked v approved ctx peer request now c
                (record (with_state preparing now c) { approved_by_uid = some peer.uid })
                (ground arith) (rw (pending-begins c.state pending) begin) refl
                (unfold is_approver in ground arith))))

  may_roll_back-⟶ : (s : ChangeState) → may_roll_back s ≡ true → s ⟶ rolling_back
  may_roll_back-⟶ committed h = undo_commit
  may_roll_back-⟶ recovery_required h = retry_undo
  may_roll_back-⟶ s h = absurd (ground arith)

  finish_rollback-Ends :
      (now : String) (c : Change) (e : Error)
      → asked ≡ true
      → c.state ≡ rolling_back
      → Ends env asked v (Holding env asked v c) (finish_rollback env peer request now c e)
  unfolding finish_rollback
  finish_rollback-Ends now c (some e) approved at =
      Ends-perform-put env asked v approved c _ (ground arith) (rw at stuck_undo) _
        (λ _. Ends-pure env asked v _ _)
  finish_rollback-Ends now c none approved at =
      Ends-check-put env asked v approved c _ (ground arith) (rw at restored) _ _
        (λ _. Ends-audit env asked v peer request _ _ _ _ (λ _. Ends-pure env asked v _ _))

  pub rollback-Ends : (now : String) → Ends env asked v Start (rollback env peer request now)
  unfolding rollback roll_back_change
  rollback-Ends now =
      Leads-guard _ _ _ (λ s q. q.0)
        (λ approved. Leads-bind _ _ get_change-Leads (λ c.
          Leads-guard _ _ _ (λ s q. q.0)
            (λ eligible.
              Leads-guard _ _ _ (λ s q. q.0)
                (λ available.
                  let rolling : Change = with_state rolling_back now c in
                  Ends-attempt_value env asked v c _ _ _ (λ operation.
                    Ends-check-put env asked v approved c rolling (ground arith)
                      (may_roll_back-⟶ c.state eligible) _ _
                      (λ _.
                        Leads-bind {R = λ _. Holding env asked v rolling} _ _
                          (Leads-perform _ (λ s q.
                            call_rollback-Holding env asked v approved rolling _ operation _ s q))
                          (λ e. finish_rollback-Ends now rolling e approved refl)))))))
