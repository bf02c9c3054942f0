-- ===== src/RootHelper/Spec/Authority.antt =====
-- What one who is not the approver can bring about.
use pi_ops_agent.Base.{
  ◌≡◌, ◌∙◌, ◌⊎◌, inl, inr, refl, String, Bool, false, List, [], ◌∷◌, none, some, arith, string_eq,
}
use pi_ops_agent.Base.Dict.{lookup, insert, lookup-insert}
use pi_ops_agent.Protocol.{pending_approval}
use pi_ops_agent.RootHelper.Change.{Change}
use pi_ops_agent.RootHelper.Machine.{
  Env, Effect, stored, audited, prepared, executed, verified, rolled,
}
use pi_ops_agent.RootHelper.Spec.{
  View, Move, note, create, advance, call, mutate, Moves, here, next,
}

-- The calls of the executor among the effects.
pub executor_calls : List Effect → List Effect
executor_calls [] = []
executor_calls (stored c durable ∷ es) = executor_calls es
executor_calls (audited event ∷ es) = executor_calls es
executor_calls (prepared id operation ∷ es) = prepared id operation ∷ executor_calls es
executor_calls (executed id operation result ∷ es) =
    executed id operation result ∷ executor_calls es
executor_calls (verified id operation result ∷ es) =
    verified id operation result ∷ executor_calls es
executor_calls (rolled ctx id operation result ∷ es) =
    rolled ctx id operation result ∷ executor_calls es

-- Nothing but new pending changes: what was there is as it was, and the executor was not called.
pub record IsHarmless (v w : View) : Type 0 where
  pub kept :
      (id : String) (c : Change) → lookup id v.changes ≡ some c → lookup id w.changes ≡ some c
  pub added :
      (id : String) (c : Change)
      → lookup id w.changes ≡ some c
      → (lookup id v.changes ≡ some c) ⊎ (c.state ≡ pending_approval)
  pub calls : executor_calls w.trace ≡ executor_calls v.trace

pub IsHarmless-refl : (v : View) → IsHarmless v v
IsHarmless-refl v = record {
  kept = λ id c there. there;
  added = λ id c there. inl there;
  calls = refl;
}

pub IsHarmless-trans : (u v w : View) → IsHarmless u v → IsHarmless v w → IsHarmless u w
IsHarmless-trans u v w h k = record {
  kept = λ id c there. k.kept id c (h.kept id c there);
  added = λ id c there. elim (k.added id c there) [
    | inl before ↦ h.added id c before
    | inr pending ↦ inr pending
  ];
  calls = k.calls ∙ h.calls;
}

module _ {W : Type 0} (env : Env W) where
  create-IsHarmless :
      (v x w : View) (d : Change) (durable : Bool)
      → IsHarmless v x
      → d.state ≡ pending_approval
      → lookup d.id x.changes ≡ none
      → w ≡ record { changes = insert d.id d x.changes; trace = stored d durable ∷ x.trace }
      → IsHarmless v w
  unfolding executor_calls
  create-IsHarmless v x w d durable h pending unused e = rw e (record {
    kept = λ id c there. ground (arith, lookup-insert id d.id d x.changes, h.kept id c there);
    added = λ id c there. ground (arith, lookup-insert id d.id d x.changes, h.added id c);
    calls = h.calls;
  })

  Move-IsHarmless : (v x w : View) → Move env false x w → IsHarmless v x → IsHarmless v w
  unfolding executor_calls
  Move-IsHarmless v x w (note event e) h =
      rw e (record { kept = h.kept; added = h.added; calls = h.calls })
  Move-IsHarmless v x w (create d durable pending plan unused e) h =
      create-IsHarmless v x w d durable h pending unused e
  Move-IsHarmless v x w (advance c d durable approved held same edge e) h = cc
  Move-IsHarmless v x w (call y approved is e) h = cc
  Move-IsHarmless v x w (mutate c operation result approved held last covers e) h = cc

  pub Moves-IsHarmless : (v w : View) → Moves env false v w → IsHarmless v w
  Moves-IsHarmless v w here = IsHarmless-refl v
  Moves-IsHarmless v w (next {w = x} moves move) =
      Move-IsHarmless v x w move (Moves-IsHarmless v x moves)
