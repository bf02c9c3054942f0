-- ===== src/RootHelper/Refine/Preparation.antt =====
-- `prepare` of internal/roothelper/service.go as steps of the relation.
use pi_ops_agent.Base.{
  ◌<◌, ◌+◌, ap, ℕ, ◌≡◌, refl, String, ◌<>◌, Bool, List, Option, none, some, arith, ok, hex_text,
  string_eq,
}
use pi_ops_agent.Base.{Option-cases, inl, inr}
use pi_ops_agent.Base.Dict.{lookup}
use pi_ops_agent.Protocol.{Request, pending_approval}
use pi_ops_agent.Protocol.Operations.{Operation, validate, marshal_operation, parse_operation}
use pi_ops_agent.RootHelper.Change.{Change, Credential}
use pi_ops_agent.RootHelper.Machine.{Env, Sys, read_random, is_nil, put}
use pi_ops_agent.RootHelper.Handler.Keeps.{
  Leads-bind, Leads-guard, Leads-check, Leads-attempt, Leads-attempt_value, Leads-pure,
}
use pi_ops_agent.RootHelper.Service.Prepare.{new_change_id, new_change, prepare_change, prepare}
use pi_ops_agent.RootHelper.Spec.{View, IsPlan, next, create}
use pi_ops_agent.RootHelper.Refine.Calls.{
  Reached, Reached-later, append_audit-Reached, view-put, tick-put,
}
use pi_ops_agent.RootHelper.Refine.Fresh.{IsFresh, IsFresh-drawn}
use pi_ops_agent.RootHelper.Refine.Stages.{Ends}

-- What JSON gives: the request's operation, if it is valid, is read back as it was written.
pub record ReadsBack {W : Type 0} (env : Env W) (request : Request) : Type 0 where
  pub decode-json :
      (o : Operation)
      → request.operation ≡ some o
      → validate o ≡ none
      → env.decode_operation (env.operation_json o) ≡ ok o

module _ {W : Type 0} (env : Env W) (approver : Bool) (v : View) (peer : Credential)
    (request : Request) (reads : ReadsBack env request) where
  abbrev Fresh : Sys W → Type 0
  Fresh s = Reached env approver v s × IsFresh env s

  parse_operation-marshal_operation :
      (o : Option Operation) (payload : List ℕ)
      → request.operation ≡ o
      → marshal_operation env.operation_json o ≡ ok payload
      → (p : Operation) × (parse_operation env.decode_operation payload ≡ ok p)
  unfolding marshal_operation parse_operation
  parse_operation-marshal_operation none payload is h = ground arith
  parse_operation-marshal_operation (some o) payload is h = elim (Option-cases (validate o)) [
    | inl valid ↦ (o, ground (arith, reads.decode-json o is))
    | inr (e, invalid) ↦ ground arith
  ]

  new_change-IsPlan :
      (payload bytes : List ℕ) (now : String)
      → marshal_operation env.operation_json request.operation ≡ ok payload
      → IsPlan env (new_change env request payload bytes now)
  unfolding new_change
  new_change-IsPlan payload bytes now h = record {
    hashed = refl;
    readable = parse_operation-marshal_operation request.operation payload refl h;
  }

  -- The id was drawn by a call before.
  abbrev IsDrawn : String → Sys W → Type 0
  IsDrawn id s =
      (m : ℕ) × (bytes : List ℕ) × (m < s.tick)
      × (env.random m ≡ ok bytes)
      × (id ≡ "change-" <> hex_text bytes)

  put-Reached :
      (c : Change) (s : Sys W)
      → c.state ≡ pending_approval
      → IsPlan env c
      → lookup c.id s.store.memory.changes ≡ none
      → IsDrawn c.id s
      → Reached env approver v s
      → Reached env approver v (put env c s).1
  put-Reached c s pending plan unused (m, bytes, before, drawn, named) (moves, fresh) = (
    next moves (create c (is_nil (put env c s).0) pending plan unused (view-put env c s)),
    λ distinct.
        IsFresh-drawn env c s (put env c s).1 m bytes
          (ap (λ (w : View). w.changes) (view-put env c s)) (tick-put env c s) before drawn named
          distinct (fresh distinct),
  )

  prepare_change-Ends :
      (c : Change)
      → c.state ≡ pending_approval
      → IsPlan env c
      → Ends env approver v
          (λ s.
            Reached env approver v s × (lookup c.id s.store.memory.changes ≡ none) × IsDrawn c.id s)
          (prepare_change env peer request c)
  unfolding prepare_change
  prepare_change-Ends c pending plan =
      Leads-bind {R = λ _. Reached env approver v} _ _
        (Leads-check _ _ (λ s (r, unused, drawn) _. put-Reached c s pending plan unused drawn r)
          (λ s (r, unused, drawn). put-Reached c s pending plan unused drawn r))
        (λ _.
          Leads-bind {R = λ _. Reached env approver v} _ _
            (Leads-attempt _ _ (λ s a r _. append_audit-Reached env approver v peer request _ s r)
              (λ s r. append_audit-Reached env approver v peer request _ s r))
            (λ id. Leads-pure _ (λ s r. r)))

  -- From a state where the random ids are unused, `prepare` ends in a reached state.
  pub prepare-Ends : (now : String) → Ends env approver v Fresh (prepare env peer request now)
  unfolding prepare read_random
  prepare-Ends now =
      Leads-guard _ _ _ (λ s q. q.0)
        (λ permitted.
          Leads-bind {R = λ _. Fresh} _ _
            (record {
              from = λ s q.
                  (Leads-check {Q = Fresh} {P = Reached env approver v} {R = λ _. Fresh} _ _
                      (λ _ f _. f) (λ _ f. f.0)).from
                    s q;
            })
            (λ _.
              Leads-bind
                {R = λ payload s.
                  Fresh s × (marshal_operation env.operation_json request.operation ≡ ok payload)}
                _ _ (Leads-attempt_value _ _ (λ s a q e. (q, e)) (λ s q. q.0))
                (λ payload.
                  Leads-bind
                    {R = λ bytes s.
                      Reached env approver v s
                      × (lookup (new_change_id env bytes) s.store.memory.changes ≡ none)
                      × IsDrawn (new_change_id env bytes) s
                      × (marshal_operation env.operation_json request.operation ≡ ok payload)}
                    _ _
                    (Leads-attempt _ _
                      (λ s bytes ((r, fresh), e) drawn. (
                        Reached-later env approver v s (record s { tick = s.tick + 1 }) r.0 refl
                            (omega arith) r,
                        fresh.unused s.tick bytes (omega arith) drawn,
                        (s.tick, bytes, omega arith, drawn, refl),
                        e,
                      ))
                      (λ s q.
                        Reached-later env approver v s (record s { tick = s.tick + 1 }) q.0.0.0 refl
                          (omega arith) q.0.0))
                    (λ bytes. record {
                      from = λ s (r, unused, drawn, e).
                          (prepare_change-Ends (new_change env request payload bytes now) refl
                              (new_change-IsPlan payload bytes now e)).from
                            s (r, unused, drawn);
                    }))))
