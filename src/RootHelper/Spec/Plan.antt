-- ===== src/RootHelper/Spec/Plan.antt =====
-- What the step relation keeps of each change: its plan, and the order of its states.
use pi_ops_agent.Base.{◌≡◌, ◌≢◌, ap, String, Bool, Option, some, arith, string_eq}
use pi_ops_agent.Base.Dict.{lookup, insert, lookup-insert}
use pi_ops_agent.RootHelper.Change.{Change}
use pi_ops_agent.RootHelper.Machine.{Env}
use pi_ops_agent.RootHelper.Spec.{
  View, ◌⟶◌, ◌⟶*◌, stay, follow, SamePlan, Move, note, create, advance, call, mutate, Moves, here,
  next,
}

-- The change is still there, with its plan, in a state that it can have come to.
pub record Continues (c : Change) (o : Option Change) : Type 0 where
  pub now : Change
  pub there : o ≡ some now
  pub same : SamePlan c now
  pub path : c.state ⟶* now.state

SamePlan-refl : (c : Change) → SamePlan c c
SamePlan-refl c = ground arith

SamePlan-trans : {c d e : Change} → SamePlan c d → SamePlan d e → SamePlan c e
SamePlan-trans p q = ground arith

module _ {W : Type 0} (env : Env W) (approver : Bool) (id : String) where
  Continues-elsewhere :
      (v w : View) (c d : Change)
      → Continues c (lookup id v.changes)
      → w.changes ≡ insert d.id d v.changes
      → d.id ≢ id
      → Continues c (lookup id w.changes)
  Continues-elsewhere v w c d k e differs = record {
    now = k.now;
    there = rw e (ground (arith, k.there, lookup-insert id d.id d v.changes));
    same = k.same;
    path = k.path;
  }

  Continues-advanced :
      (v w : View) (c d d' : Change)
      → Continues c (lookup id v.changes)
      → lookup d.id v.changes ≡ some d
      → SamePlan d d'
      → d.state ⟶ d'.state
      → w.changes ≡ insert d'.id d' v.changes
      → d'.id ≡ id
      → Continues c (lookup id w.changes)
  Continues-advanced v w c d d' k held same edge e is =
      let at : k.now ≡ d = ground (arith, k.there) in
      record {
        now = d';
        there = rw e (ground (arith, lookup-insert id d'.id d' v.changes));
        same = SamePlan-trans (rw at at k.same) same;
        path = follow (rw at at k.path) edge;
      }

  Move-Continues :
      (v w : View) (c : Change)
      → Move env approver v w
      → Continues c (lookup id v.changes)
      → Continues c (lookup id w.changes)
  Move-Continues v w c (note event e) k = rw e k
  Move-Continues v w c (create d durable pending plan unused e) k =
      Continues-elsewhere v w c d k (ap (λ (x : View). x.changes) e) (λ is. ground (arith, k.there))
  Move-Continues v w c (advance d d' durable approved held same edge e) k =
      let changed = ap (λ (x : View). x.changes) e in
      elim (string_eq.dec d'.id id) [
        | yes is ↦ Continues-advanced v w c d d' k held same edge changed is
        | no differs ↦ Continues-elsewhere v w c d' k changed differs
      ]
  Move-Continues v w c (call x approved is e) k = rw e k
  Move-Continues v w c (mutate d operation result approved held last covers e) k = rw e k

  -- A change that is there stays there, with its plan, and its state only follows edges.
  pub Moves-Continues :
      (v w : View) (c : Change)
      → Moves env approver v w
      → lookup id v.changes ≡ some c
      → Continues c (lookup id w.changes)
  Moves-Continues v w c here there = record {
    now = c;
    there = there;
    same = SamePlan-refl c;
    path = stay;
  }
  Moves-Continues v w c (next {w = x} moves move) there =
      Move-Continues x w c move (Moves-Continues v x c moves there)
