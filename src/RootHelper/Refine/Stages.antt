-- ===== src/RootHelper/Refine/Stages.antt =====
-- The stages of which the methods of internal/roothelper/service.go are made, each with what it
-- leaves for the next.
use pi_ops_agent.Base.{◌≡◌, String, Bool, true, some, Result}
use pi_ops_agent.Protocol.{Request, Response}
use pi_ops_agent.Protocol.Operations.{Error}
use pi_ops_agent.RootHelper.Change.{Change, Credential, Event}
use pi_ops_agent.RootHelper.Machine.{Env, Sys, put, append_audit}
use pi_ops_agent.RootHelper.Handler.{Handler, ◌>>=◌, pure, attempt, attempt_value, perform, check}
use pi_ops_agent.RootHelper.Handler.Keeps.{
  Leads, Leads-bind, Leads-perform, Leads-pure, Leads-attempt, Leads-attempt_value, Leads-check,
}
use pi_ops_agent.RootHelper.Spec.{View, ◌⟶◌, SamePlan, last_stored}
use pi_ops_agent.RootHelper.Refine.Calls.{
  Reached, Holding, put-Holding, append_audit-Holding, last_stored-put, last_stored-append_audit,
}

module _ {W : Type 0} (env : Env W) (approver : Bool) (v : View) where
  -- From a state with `Q` the method ends in a reached state.
  abbrev pub Ends : (Sys W → Type 0) → Handler W Response → Type 0
  Ends Q m = Leads Q m (λ _. Reached env approver v) (Reached env approver v)

  -- The state holds the change, and the store has just taken it.
  abbrev pub Stored : Change → Sys W → Type 0
  Stored c s = Holding env approver v c s × (last_stored s.trace ≡ some c)

  pub Ends-pure : (c : Change) (r : Response) → Ends (Holding env approver v c) (pure r)
  Ends-pure c r = Leads-pure r (λ s q. q.0)

  pub Ends-attempt_value :
      {A : Type 0} (c : Change) (r : Result A) (on_error : String → Response)
      (f : A → Handler W Response)
      → ((a : A) → Ends (Holding env approver v c) (f a))
      → Ends (Holding env approver v c) (attempt_value r on_error >>= f)
  Ends-attempt_value c r on_error f h =
      Leads-bind {R = λ _. Holding env approver v c} _ f
        (Leads-attempt_value r on_error (λ s a q _. q) (λ s q. q.0)) h

  module _ (peer : Credential) (request : Request) (event : Event) (c : Change) where
    pub Ends-audit :
        (on_error : String → Response) (f : String → Handler W Response)
        → ((id : String) → Ends (Holding env approver v c) (f id))
        → Ends
            (Holding env approver v c)
            (attempt (append_audit env peer request event) on_error >>= f)
    Ends-audit on_error f h =
        Leads-bind {R = λ _. Holding env approver v c} _ f
          (Leads-attempt _ on_error
            (λ s a q _. append_audit-Holding env approver v c peer request event s q)
            (λ s q. (append_audit-Holding env approver v c peer request event s q).0))
          h

    pub Ends-audit_Stored :
        (on_error : String → Response) (f : String → Handler W Response)
        → ((id : String) → Ends (Stored c) (f id))
        → Ends (Stored c) (attempt (append_audit env peer request event) on_error >>= f)
    Ends-audit_Stored on_error f h =
        Leads-bind {R = λ _. Stored c} _ f
          (Leads-attempt _ on_error
            (λ s a (q, last) _. (
              append_audit-Holding env approver v c peer request event s q,
              rw (last_stored-append_audit env peer request event s) last,
            ))
            (λ s (q, last). (append_audit-Holding env approver v c peer request event s q).0))
          h

    pub Ends-perform_audit :
        (f : Result String → Handler W Response)
        → ((r : Result String) → Ends (Holding env approver v c) (f r))
        → Ends (Holding env approver v c) (perform (append_audit env peer request event) >>= f)
    Ends-perform_audit f h =
        Leads-bind {R = λ _. Holding env approver v c} _ f
          (Leads-perform _ (λ s q. append_audit-Holding env approver v c peer request event s q)) h

  module _ (approved : approver ≡ true) (c d : Change) (same : SamePlan c d)
      (edge : c.state ⟶ d.state) where
    pub Ends-perform-put :
        (f : Error → Handler W Response)
        → ((e : Error) → Ends (Holding env approver v d) (f e))
        → Ends (Holding env approver v c) (perform (put env d) >>= f)
    Ends-perform-put f h =
        Leads-bind {R = λ _. Holding env approver v d} _ f
          (Leads-perform _ (λ s q. put-Holding env approver v approved c d s same edge q)) h

    pub Ends-check-put-Stored :
        (on_error : String → Response) (f : Unit {0} → Handler W Response)
        → ((u : Unit {0}) → Ends (Stored d) (f u))
        → Ends (Holding env approver v c) (check (put env d) on_error >>= f)
    Ends-check-put-Stored on_error f h =
        Leads-bind {R = λ _. Stored d} _ f
          (Leads-check _ on_error
            (λ s q taken. (
              put-Holding env approver v approved c d s same edge q,
              last_stored-put env d s taken,
            ))
            (λ s q. (put-Holding env approver v approved c d s same edge q).0))
          h

    pub Ends-check-put :
        (on_error : String → Response) (f : Unit {0} → Handler W Response)
        → ((u : Unit {0}) → Ends (Holding env approver v d) (f u))
        → Ends (Holding env approver v c) (check (put env d) on_error >>= f)
    Ends-check-put on_error f h =
        Ends-check-put-Stored on_error f (λ u. record { from = λ s q. (h u).from s q.0 })
