-- ===== src/RootHelper/Handler/Keeps.antt =====
-- Rules for what holds of the state after a method of internal/roothelper/service.go, whether it
-- goes on or returns early.
use pi_ops_agent.Base.{◌≡◌, refl, String, Bool, true, false, Result, ok, err, none, some}
use pi_ops_agent.Protocol.{Response}
use pi_ops_agent.Protocol.Operations.{Error}
use pi_ops_agent.RootHelper.Machine.{Sys}
use pi_ops_agent.RootHelper.Handler.{
  Outcome, done, reply, Handler, ◌>>=◌, pure, return_early, attempt, attempt_value, perform, check,
  require, run, outcome_of, outcome_of_error, continue,
}

module _ {W A : Type 0} where
  abbrev pub Post : (A → Sys W → Type 0) → (Sys W → Type 0) → Outcome A × Sys W → Type 0
  Post R P (done a, s) = R a s
  Post R P (reply r, s) = P s

  -- From a state with `Q`, the method goes on with a value and a state with `R`, or returns in a
  -- state with `P`.
  pub record Leads (Q : Sys W → Type 0) (m : Handler W A) (R : A → Sys W → Type 0)
      (P : Sys W → Type 0) : Type 0 where
    pub from : (s : Sys W) → Q s → Post R P (m s)

module _ {W A : Type 0} (R : A → Sys W → Type 0) (P : Sys W → Type 0) where
  Post-outcome_of :
      (r : Result A) (on_error : String → Response) (s : Sys W)
      → ((a : A) → r ≡ ok a → R a s)
      → ((e : String) → r ≡ err e → P s)
      → Post R P (outcome_of r on_error, s)
  unfolding outcome_of
  Post-outcome_of (ok a) on_error s h k = h a refl
  Post-outcome_of (err e) on_error s h k = k e refl

  Post-continue :
      {B : Type 0} (S : B → Sys W → Type 0) (o : Outcome A) (s : Sys W) (f : A → Handler W B)
      → Post R P (o, s)
      → ((a : A) → Leads (R a) (f a) S P)
      → Post S P (continue o f s)
  Post-continue S (done a) s f h k = (k a).from s h
  Post-continue S (reply r) s f h k = h

module _ {W : Type 0} (R : Unit {0} → Sys W → Type 0) (P : Sys W → Type 0) where
  Post-outcome_of_error :
      (e : Error) (on_error : String → Response) (s : Sys W)
      → (e ≡ none → R tt s)
      → P s
      → Post R P (outcome_of_error e on_error, s)
  unfolding outcome_of_error
  Post-outcome_of_error none on_error s h k = h refl
  Post-outcome_of_error (some e) on_error s h k = k

module _ {W A : Type 0} (P : Sys W → Type 0) where
  Post-same : (o : Outcome A) (s : Sys W) → Post (λ _. P) P (o, s) → P s
  Post-same (done a) s h = h
  Post-same (reply r) s h = h

module _ {W A : Type 0} {Q P : Sys W → Type 0} {R : A → Sys W → Type 0} where
  pub Leads-pure : (a : A) → ((s : Sys W) → Q s → R a s) → Leads Q (pure a) R P
  unfolding pure
  Leads-pure a h = record { from = h }

  pub Leads-return_early :
      (r : Response) → ((s : Sys W) → Q s → P s) → Leads Q (return_early {A = A} r) R P
  unfolding return_early
  Leads-return_early r h = record { from = h }

  pub Leads-attempt :
      (call : Sys W → Result A × Sys W) (on_error : String → Response)
      → ((s : Sys W) (a : A) → Q s → (call s).0 ≡ ok a → R a (call s).1)
      → ((s : Sys W) → Q s → P (call s).1)
      → Leads Q (attempt call on_error) R P
  unfolding attempt
  Leads-attempt call on_error h k = record {
    from =
        λ s q. Post-outcome_of R P (call s).0 on_error (call s).1 (λ a e. h s a q e) (λ _ _. k s q);
  }

  pub Leads-attempt_value :
      (r : Result A) (on_error : String → Response)
      → ((s : Sys W) (a : A) → Q s → r ≡ ok a → R a s)
      → ((s : Sys W) → Q s → P s)
      → Leads Q (attempt_value r on_error) R P
  unfolding attempt_value
  Leads-attempt_value r on_error h k = record {
    from = λ s q. Post-outcome_of R P r on_error s (λ a e. h s a q e) (λ _ _. k s q);
  }

  pub Leads-perform :
      (call : Sys W → A × Sys W)
      → ((s : Sys W) → Q s → R (call s).0 (call s).1)
      → Leads Q (perform call) R P
  unfolding perform
  Leads-perform call h = record { from = h }

module _ {W : Type 0} {Q P : Sys W → Type 0} {R : Unit {0} → Sys W → Type 0} where
  pub Leads-check :
      (call : Sys W → Error × Sys W) (on_error : String → Response)
      → ((s : Sys W) → Q s → (call s).0 ≡ none → R tt (call s).1)
      → ((s : Sys W) → Q s → P (call s).1)
      → Leads Q (check call on_error) R P
  unfolding check
  Leads-check call on_error h k = record {
    from = λ s q. Post-outcome_of_error R P (call s).0 on_error (call s).1 (h s q) (k s q);
  }

  pub Leads-require :
      (b : Bool) (r : Response)
      → ((s : Sys W) → Q s → b ≡ true → R tt s)
      → ((s : Sys W) → Q s → P s)
      → Leads Q (require b r) R P
  unfolding require
  Leads-require true r h k = record { from = λ s q. h s q refl }
  Leads-require false r h k = record { from = k }

module _ {W A B : Type 0} {Q P : Sys W → Type 0} {R : A → Sys W → Type 0}
    {S : B → Sys W → Type 0} where
  pub Leads-bind :
      (m : Handler W A) (f : A → Handler W B)
      → Leads Q m R P
      → ((a : A) → Leads (R a) (f a) S P)
      → Leads Q (m >>= f) S P
  unfolding ◌>>=◌
  Leads-bind m f h k = record { from = λ s q. Post-continue R P S (m s).0 (m s).1 f (h.from s q) k }

module _ {W : Type 0} {Q P : Sys W → Type 0} where
  pub run-Leads :
      (m : Handler W Response) → Leads Q m (λ _. P) P → (s : Sys W) → Q s → P (run m s).1
  unfolding run
  run-Leads m h s q = Post-same P (m s).0 (m s).1 (h.from s q)

module _ {W A : Type 0} {Q P : Sys W → Type 0} {S : A → Sys W → Type 0} where
  -- What follows a guard may use that its test holds.
  pub Leads-guard :
      (b : Bool) (r : Response) (f : Unit {0} → Handler W A)
      → ((s : Sys W) → Q s → P s)
      → (b ≡ true → Leads Q (f tt) S P)
      → Leads Q (require b r >>= f) S P
  unfolding require ◌>>=◌
  Leads-guard true r f h k = record { from = (k refl).from }
  Leads-guard false r f h k = record { from = h }
