-- ===== src/RootHelper/Handler.antt =====
-- How the methods of internal/roothelper/service.go are composed: each goes on with a value or
-- returns a response early, and the service's state is passed through either way.
pub mod Keeps
pub mod Succeeds
use pi_ops_agent.Base.{String, Bool, true, false, Option, none, some, Result, ok, err}
use pi_ops_agent.Protocol.{Response}
use pi_ops_agent.Protocol.Operations.{Error}
use pi_ops_agent.RootHelper.Machine.{Sys}

pub data Outcome (A : Type 0) : Type 0 where
  done : A → Outcome A
  reply : Response → Outcome A

abbrev pub Handler : Type 0 → Type 0 → Type 0
Handler W A = Sys W → Outcome A × Sys W

module _ {W A B : Type 0} where
  abbrev pub continue : Outcome A → (A → Handler W B) → Handler W B
  continue (done a) f s = f a s
  continue (reply r) f s = (reply r, s)

  infixl 10 ◌>>=◌ ◌>>◌
  unfoldable pub ◌>>=◌ : Handler W A → (A → Handler W B) → Handler W B
  ◌>>=◌ m f s = let (o, s') = m s in continue o f s'

  abbrev pub ◌>>◌ : Handler W A → Handler W B → Handler W B
  m >> n = m >>= λ _. n

pub outcome_of : {A : Type 0} → Result A → (String → Response) → Outcome A
outcome_of (ok a) on_error = done a
outcome_of (err e) on_error = reply (on_error e)

pub outcome_of_error : Error → (String → Response) → Outcome (Unit {0})
outcome_of_error none on_error = done tt
outcome_of_error (some e) on_error = reply (on_error e)

pub either : Outcome Response → Response
either (done r) = r
either (reply r) = r

module _ {W A : Type 0} where
  unfoldable pub pure : A → Handler W A
  pure a s = (done a, s)

  -- `return response`
  unfoldable pub return_early : Response → Handler W A
  return_early r s = (reply r, s)

  -- `v, err := call; if err != nil { return on_error(err) }`
  unfoldable pub attempt : (Sys W → Result A × Sys W) → (String → Response) → Handler W A
  unfolding outcome_of
  attempt call on_error s = let (r, s') = call s in (outcome_of r on_error, s')

  -- the same for a call that has not changed anything
  unfoldable pub attempt_value : Result A → (String → Response) → Handler W A
  unfolding outcome_of
  attempt_value r on_error s = (outcome_of r on_error, s)

  -- a call whose error is looked at, or ignored
  unfoldable pub perform : (Sys W → A × Sys W) → Handler W A
  perform call s = let (a, s') = call s in (done a, s')

module _ {W : Type 0} where
  -- `if err := call; err != nil { return on_error(err) }`
  unfoldable pub check : (Sys W → Error × Sys W) → (String → Response) → Handler W (Unit {0})
  unfolding outcome_of_error
  check call on_error s = let (e, s') = call s in (outcome_of_error e on_error, s')

  -- `if !test { return response }`
  unfoldable pub require : Bool → Response → Handler W (Unit {0})
  require true r s = (done tt, s)
  require false r s = (reply r, s)

  -- The response of a method, whether it came early or at the end.
  unfoldable pub run : Handler W Response → Sys W → Response × Sys W
  unfolding either
  run m s = let (o, s') = m s in (either o, s')
