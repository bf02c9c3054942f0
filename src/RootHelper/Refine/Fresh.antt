-- ===== src/RootHelper/Refine/Fresh.antt =====
-- The random ids of internal/roothelper/service.go that are not those of changes.
use pi_ops_agent.Base.{
  ◌≤◌, ◌<◌, ℕ, ◌≡◌, ◌≢◌, sym, ap, ◌∙◌, List, ◌<>◌, none, some, arith, ok, hex_text, Bool-cases, inl,
  inr, ◌==◌, ==_iff, string_eq,
}
use pi_ops_agent.Base.Dict.{lookup, insert, lookup-insert}
use pi_ops_agent.RootHelper.Change.{Change}
use pi_ops_agent.RootHelper.Machine.{Env, Sys}

module _ {W : Type 0} (env : Env W) where
  -- No random id that the outside gives from the next call on is that of a change.
  pub record IsFresh (s : Sys W) : Type 0 where
    pub unused :
        (n : ℕ) (bytes : List ℕ)
        → s.tick ≤ n
        → env.random n ≡ ok bytes
        → lookup ("change-" <> hex_text bytes) s.store.memory.changes ≡ none

  -- No random id is given twice.
  pub record IsDistinct : Type 0 where
    pub differ :
        (m n : ℕ) (a b : List ℕ)
        → m < n
        → env.random m ≡ ok a
        → env.random n ≡ ok b
        → "change-" <> hex_text a ≢ "change-" <> hex_text b

  -- Only calls have passed.
  pub IsFresh-later :
      (s t : Sys W)
      → t.store.memory.changes ≡ s.store.memory.changes
      → s.tick ≤ t.tick
      → IsFresh s
      → IsFresh t
  IsFresh-later s t same later fresh = record {
    unused =
        λ n bytes after drawn. rw same (fresh.unused n bytes (omega (arith, later, after)) drawn);
  }

  -- A change that the store holds is put in anew.
  pub IsFresh-held :
      (c d : Change) (s t : Sys W)
      → t.store.memory.changes ≡ insert d.id d s.store.memory.changes
      → s.tick ≤ t.tick
      → c.id ≡ d.id
      → lookup c.id s.store.memory.changes ≡ some c
      → IsFresh s
      → IsFresh t
  IsFresh-held c d s t is later same held fresh = record {
    unused = λ n bytes after drawn.
        let id = "change-" <> hex_text bytes in
        let new = fresh.unused n bytes (omega (arith, later, after)) drawn in
        rw is (
          lookup-insert id d.id d s.store.memory.changes ∙ elim (Bool-cases (d.id == id)) [
            | inl taken ↦
                let there : lookup id s.store.memory.changes ≡ some c =
                  ap (λ k. lookup k s.store.memory.changes) (sym (same ∙ (==_iff d.id id).0 taken))
                  ∙ held in
                cc (there, new)
            | inr free ↦ rw free new
          ]);
  }

  -- A change is put in under an id that was drawn before.
  pub IsFresh-drawn :
      (c : Change) (s t : Sys W) (m : ℕ) (a : List ℕ)
      → t.store.memory.changes ≡ insert c.id c s.store.memory.changes
      → s.tick ≤ t.tick
      → m < s.tick
      → env.random m ≡ ok a
      → c.id ≡ "change-" <> hex_text a
      → IsDistinct
      → IsFresh s
      → IsFresh t
  IsFresh-drawn c s t m a is later before drawn_before named distinct fresh = record {
    unused = λ n bytes after drawn.
        let id = "change-" <> hex_text bytes in
        let new = fresh.unused n bytes (omega (arith, later, after)) drawn in
        let differs =
          distinct.differ m n a bytes (omega (arith, before, later, after)) drawn_before drawn in
        rw is (
          lookup-insert id c.id c s.store.memory.changes ∙ elim (Bool-cases (c.id == id)) [
            | inl taken ↦ absurd (differs (sym named ∙ (==_iff c.id id).0 taken))
            | inr free ↦ rw free new
          ]);
  }
