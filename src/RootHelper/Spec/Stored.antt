-- ===== src/RootHelper/Spec/Stored.antt =====
-- Every change that is stored can be loaded again: `OpenStore` of internal/roothelper/store.go.
use pi_ops_agent.Base.{
  ℕ, Result-cases, inl, inr, ◌≡◌, refl, ◌∙◌, String, Bool, List, [], ◌∷◌, none, some, arith, ◌==◌,
  string_eq, if-both, All, ok,
}
use mathlib.Core.Path.{subst}
use pi_ops_agent.Base.Dict.{Dict, lookup, insert}
use pi_ops_agent.Protocol.Operations.{Operation, parse_operation}
use pi_ops_agent.RootHelper.Change.{Change}
use pi_ops_agent.RootHelper.Machine.{Env}
use pi_ops_agent.RootHelper.Recovery.{check_changes, check_stored}
use pi_ops_agent.RootHelper.Spec.{
  View, IsKeyed, Move, note, create, advance, call, mutate, Moves, here, next,
}

module _ {W : Type 0} (env : Env W) where
  abbrev IsReadable : List ℕ → Type 0
  IsReadable payload = (o : Operation) × (parse_operation env.decode_operation payload ≡ ok o)

  -- An entry under its own id, whose operation can be read.
  abbrev IsEntry : String × Change → Type 0
  IsEntry (id, c) = (c.id ≡ id) × IsReadable c.operation

  abbrev pub IsSound : Dict String Change → Type 0
  IsSound = All IsEntry

  lookup-IsEntry :
      (id : String) (d : Dict String Change) (c : Change)
      → IsSound d
      → lookup id d ≡ some c
      → IsEntry (id, c)
  unfolding lookup
  lookup-IsEntry id [] c h e = cc
  lookup-IsEntry id ((j, x) ∷ d) c (entry, h) e = elim (string_eq.dec j id) [
    | yes is ↦
        let same : x ≡ c = ground arith in
        (ground arith, subst (λ (y : Change). IsReadable y.operation) same entry.1)
    | no differs ↦ lookup-IsEntry id d c h (ground arith)
  ]

  insert-IsSound :
      (id : String) (d : Dict String Change) (c : Change)
      → IsSound d
      → IsEntry (id, c)
      → IsSound (insert id c d)
  unfolding insert
  insert-IsSound id [] c h e = (e, tt)
  insert-IsSound id ((j, x) ∷ d) c (entry, h) e =
      if-both IsSound (j == id) _ _ (λ _. (e, h)) (λ _. (entry, insert-IsSound id d c h e))

  pub IsSound-IsKeyed : (d : Dict String Change) → IsSound d → IsKeyed env d
  IsSound-IsKeyed d h id c e = (lookup-IsEntry id d c h e).0

  -- The loop at the end of `OpenStore` finds nothing to object to.
  pub check_changes-IsSound :
      (d : Dict String Change)
      → IsSound d
      → check_changes (parse_operation env.decode_operation) d ≡ none
  unfolding check_changes check_stored
  check_changes-IsSound [] h = refl
  check_changes-IsSound ((id, c) ∷ d) ((is, (o, read)), h) =
      ground (arith, check_changes-IsSound d h)

  -- What `OpenStore` accepts is sound.
  pub IsSound-check_changes :
      (d : Dict String Change)
      → check_changes (parse_operation env.decode_operation) d ≡ none
      → IsSound d
  unfolding check_changes check_stored
  IsSound-check_changes [] h = tt
  IsSound-check_changes ((id, c) ∷ d) h =
      elim (Result-cases (parse_operation env.decode_operation c.operation)) [
        | inl (o, read) ↦ ((ground arith, (o, read)), IsSound-check_changes d (ground arith))
        | inr (e, failed) ↦ ground arith
      ]

  Move-IsSound :
      (approver : Bool) (v w : View) → Move env approver v w → IsSound v.changes → IsSound w.changes
  Move-IsSound approver v w (note event e) h = rw e h
  Move-IsSound approver v w (create c durable pending plan unused e) h =
      rw e (insert-IsSound c.id v.changes c h (refl, plan.readable))
  Move-IsSound approver v w (advance c d durable approved held same edge e) h = rw e (
      insert-IsSound d.id v.changes d h
        (refl, subst IsReadable same.operation (lookup-IsEntry c.id v.changes c h held).1))
  Move-IsSound approver v w (call x approved is e) h = rw e h
  Move-IsSound approver v w (mutate c operation result approved held last covers e) h = rw e h

  pub Moves-IsSound :
      (approver : Bool) (v w : View)
      → Moves env approver v w
      → IsSound v.changes
      → IsSound w.changes
  Moves-IsSound approver v w here h = h
  Moves-IsSound approver v w (next {w = x} moves move) h =
      Move-IsSound approver x w move (Moves-IsSound approver v x moves h)

  -- The changes as they are read back: the operations and the rollback data are embedded JSON,
  -- which `json.MarshalIndent` sets in lines of its own.
  abbrev pub reformatted : (List ℕ → List ℕ) → Dict String Change → Dict String Change
  reformatted format [] = []
  reformatted format ((id, c) ∷ d) =
      (id, record c { operation = format c.operation; rollback_data = format c.rollback_data })
      ∷ reformatted format d

  parse_operation-format :
      (format : List ℕ → List ℕ) (payload : List ℕ)
      → env.decode_operation (format payload) ≡ env.decode_operation payload
      → parse_operation env.decode_operation (format payload)
        ≡ parse_operation env.decode_operation payload
  unfolding parse_operation
  parse_operation-format format payload e = rw (e, parse_operation) refl

  pub reformatted-IsSound :
      (format : List ℕ → List ℕ) (d : Dict String Change)
      → ((payload : List ℕ) → env.decode_operation (format payload) ≡ env.decode_operation payload)
      → IsSound d
      → IsSound (reformatted format d)
  reformatted-IsSound format [] same h = tt
  reformatted-IsSound format ((id, c) ∷ d) same ((is, (o, read)), h) = (
    (is, (o, parse_operation-format format c.operation (same c.operation) ∙ read)),
    reformatted-IsSound format d same h,
  )
