-- ===== src/RootHelper/Handler/Succeeds.antt =====
-- Rules for what a success of a method of internal/roothelper/service.go shows: an early return
-- with an error is no success.
use pi_ops_agent.Base.{◌≡◌, refl, String, Bool, true, false, Result, ok, err, none, some}
use pi_ops_agent.Protocol.{Response}
use pi_ops_agent.Protocol.Operations.{Error}
use pi_ops_agent.RootHelper.Machine.{Sys}
use pi_ops_agent.RootHelper.Handler.{
  Outcome, done, reply, Handler, ◌>>=◌, attempt, attempt_value, perform, check, require, run,
  outcome_of, outcome_of_error, continue, either,
}

module _ {W : Type 0} (S : Response → Sys W → Type 0) where
  abbrev pub Succeeds : Outcome Response × Sys W → Type 0
  Succeeds (done r, s) = r.success ≡ true → S r s
  Succeeds (reply r, s) = r.success ≡ true → S r s

  either-Succeeds :
      (o : Outcome Response) (s : Sys W)
      → Succeeds (o, s)
      → (either o).success ≡ true
      → S (either o) s
  unfolding either
  either-Succeeds (done r) s h = h
  either-Succeeds (reply r) s h = h

  pub run-Succeeds :
      (m : Handler W Response) (s : Sys W)
      → Succeeds (m s)
      → (run m s).0.success ≡ true
      → S (run m s).0 (run m s).1
  unfolding run
  run-Succeeds m s h = either-Succeeds (m s).0 (m s).1 h

  -- An error's response tells no success.
  abbrev pub Fails : (String → Response) → Type 0
  Fails on_error = (e : String) → (on_error e).success ≡ false

  pub refused : (r : Response) (s : Sys W) → r.success ≡ false → r.success ≡ true → S r s
  refused r s unset success = cc (unset, success)

  module _ {A : Type 0} (f : A → Handler W Response) where
    Succeeds-outcome_of :
        (r : Result A) (on_error : String → Response) (s : Sys W)
        → Fails on_error
        → ((a : A) → r ≡ ok a → Succeeds (f a s))
        → Succeeds (continue (outcome_of r on_error) f s)
    unfolding outcome_of
    Succeeds-outcome_of (ok a) on_error s fails h = h a refl
    Succeeds-outcome_of (err e) on_error s fails h = refused (on_error e) s (fails e)

    pub Succeeds-attempt :
        (call : Sys W → Result A × Sys W) (on_error : String → Response) (s : Sys W)
        → Fails on_error
        → ((a : A) → (call s).0 ≡ ok a → Succeeds (f a (call s).1))
        → Succeeds ((attempt call on_error >>= f) s)
    unfolding attempt ◌>>=◌
    Succeeds-attempt call on_error s = Succeeds-outcome_of (call s).0 on_error (call s).1

    pub Succeeds-attempt_value :
        (r : Result A) (on_error : String → Response) (s : Sys W)
        → Fails on_error
        → ((a : A) → r ≡ ok a → Succeeds (f a s))
        → Succeeds ((attempt_value r on_error >>= f) s)
    unfolding attempt_value ◌>>=◌
    Succeeds-attempt_value r on_error s = Succeeds-outcome_of r on_error s

    pub Succeeds-perform :
        (call : Sys W → A × Sys W) (s : Sys W)
        → Succeeds (f (call s).0 (call s).1)
        → Succeeds ((perform call >>= f) s)
    unfolding perform ◌>>=◌
    Succeeds-perform call s h = h

  module _ (f : Unit {0} → Handler W Response) where
    Succeeds-outcome_of_error :
        (e : Error) (on_error : String → Response) (s : Sys W)
        → Fails on_error
        → (e ≡ none → Succeeds (f tt s))
        → Succeeds (continue (outcome_of_error e on_error) f s)
    unfolding outcome_of_error
    Succeeds-outcome_of_error none on_error s fails h = h refl
    Succeeds-outcome_of_error (some e) on_error s fails h = refused (on_error e) s (fails e)

    pub Succeeds-check :
        (call : Sys W → Error × Sys W) (on_error : String → Response) (s : Sys W)
        → Fails on_error
        → ((call s).0 ≡ none → Succeeds (f tt (call s).1))
        → Succeeds ((check call on_error >>= f) s)
    unfolding check ◌>>=◌
    Succeeds-check call on_error s = Succeeds-outcome_of_error (call s).0 on_error (call s).1

    pub Succeeds-require :
        (b : Bool) (r : Response) (s : Sys W)
        → r.success ≡ false
        → (b ≡ true → Succeeds (f tt s))
        → Succeeds ((require b r >>= f) s)
    unfolding require ◌>>=◌
    Succeeds-require true r s unset h = h refl
    Succeeds-require false r s unset h = refused r s unset
