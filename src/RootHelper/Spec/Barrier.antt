-- ===== src/RootHelper/Spec/Barrier.antt =====
-- The executor changes the host only behind a stored change.
use pi_ops_agent.Base.{ℕ, ◌≡◌, Bool, List, [], ◌∷◌, some, refl}
use pi_ops_agent.RootHelper.Change.{Change}
use pi_ops_agent.RootHelper.Machine.{
  Env, Effect, stored, audited, prepared, executed, verified, rolled,
}
use pi_ops_agent.RootHelper.Spec.{
  View, Covers, IsExecutorCall, last_stored, Move, note, create, advance, call, mutate, Moves, here,
  next,
}

-- Before each `Execute` the last change given to the store was taken by it, has the same id, is
-- executing, was approved by the uid, and names the backup that `Execute` is called with.
abbrev pub IsBarred : ℕ → List Effect → Type 0
IsBarred uid [] = Unit
IsBarred uid (executed id operation result ∷ es) =
    ((c : Change) × (last_stored es ≡ some c) × (c.id ≡ id) × Covers uid c result) × IsBarred uid es
IsBarred uid (stored c durable ∷ es) = IsBarred uid es
IsBarred uid (audited event ∷ es) = IsBarred uid es
IsBarred uid (prepared id operation ∷ es) = IsBarred uid es
IsBarred uid (verified id operation result ∷ es) = IsBarred uid es
IsBarred uid (rolled ctx id operation result ∷ es) = IsBarred uid es

IsExecutorCall-IsBarred :
    (uid : ℕ) (e : Effect) (es : List Effect)
    → IsExecutorCall e
    → IsBarred uid es
    → IsBarred uid (e ∷ es)
IsExecutorCall-IsBarred uid (prepared id operation) es is h = h
IsExecutorCall-IsBarred uid (verified id operation result) es is h = h
IsExecutorCall-IsBarred uid (rolled ctx id operation result) es is h = h
IsExecutorCall-IsBarred uid (executed id operation result) es is h = absurd is
IsExecutorCall-IsBarred uid _ es is h = h

module _ {W : Type 0} (env : Env W) (approver : Bool) where
  Move-IsBarred :
      (v w : View)
      → Move env approver v w
      → IsBarred env.approver_uid v.trace
      → IsBarred env.approver_uid w.trace
  Move-IsBarred v w (note event e) h = rw e h
  Move-IsBarred v w (create c durable pending plan unused e) h = rw e h
  Move-IsBarred v w (advance c d durable approved held same edge e) h = rw e h
  Move-IsBarred v w (call x approved is e) h =
      rw e (IsExecutorCall-IsBarred env.approver_uid x v.trace is h)
  Move-IsBarred v w (mutate c operation result approved held last covers e) h =
      rw e ((c, last, refl, covers), h)

  pub Moves-IsBarred :
      (v w : View)
      → Moves env approver v w
      → IsBarred env.approver_uid v.trace
      → IsBarred env.approver_uid w.trace
  Moves-IsBarred v w here h = h
  Moves-IsBarred v w (next {w = x} moves move) h =
      Move-IsBarred x w move (Moves-IsBarred v x moves h)
