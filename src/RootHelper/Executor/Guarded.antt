-- ===== src/RootHelper/Executor/Guarded.antt =====
-- What commands `OSExecutor` of internal/roothelper/executor.go runs for packages, services and files.
use pi_ops_agent.Base.{
  ℕ, ◌+◌, ◌≡◌, refl, String, Bool, true, false, ◌||◌, ◌&&◌, List, [], ◌∷◌, All, Result, ok, err,
  ◌==◌, string_eq,
}
use pi_ops_agent.RootHelper.Host.{
  System, Host, Command, Action, ◌>>=◌, continue, pure, lift, look_path, with_tool, run, run_only,
}

abbrev pub is_one_of : List String → String → Bool
is_one_of [] s = false
is_one_of (t ∷ ts) s = s == t || is_one_of ts s

-- The words that may stand before "--".
abbrev pub fixed_words : List String
fixed_words =
    "install" ∷ "remove" ∷ "-y" ∷ "--no-install-recommends" ∷ "--non-interactive" ∷ "-W"
    ∷ "-f=${Status}\t${Version}" ∷ "-q" ∷ "--qf" ∷ "%{VERSION}-%{RELEASE}" ∷ "is-active" ∷ "start"
    ∷ "stop" ∷ "restart" ∷ "reload" ∷ []

abbrev pub tools : List String
tools = "apt-get" ∷ "dnf" ∷ "yum" ∷ "zypper" ∷ "dpkg-query" ∷ "rpm" ∷ "systemctl" ∷ []

-- Only fixed words stand before the "--" after which no argument is an option.
abbrev pub guarded : List String → Bool
guarded [] = false
guarded (a ∷ s) = a == "--" || (is_one_of fixed_words a && guarded s)

module _ (sys : System) where
  abbrev pub IsFound : List String → String → Type 0
  IsFound names path =
      (name : String) × (n : ℕ) × (is_one_of names name ≡ true) × (sys.look_path n name ≡ ok path)

  abbrev pub IsGuarded : Command → Type 0
  IsGuarded c = IsFound tools c.program × (guarded c.arguments ≡ true)

  abbrev pub IsSafe : Host → Type 0
  IsSafe h = All IsGuarded h.commands

  abbrev pub Keeps : {A : Type 0} → Action A → Type 0
  Keeps m = (h : Host) → IsSafe h → IsSafe (m h).1

  module _ {A B : Type 0} where
    Keeps-continue :
        (r : Result A) (f : A → Action B) → ((a : A) → Keeps (f a)) → Keeps (λ h. continue r f h)
    Keeps-continue (ok a) f kf h safe = kf a h safe
    Keeps-continue (err e) f kf h safe = safe

    pub Keeps-bind :
        (m : Action A) (f : A → Action B) → Keeps m → ((a : A) → Keeps (f a)) → Keeps (m >>= f)
    Keeps-bind m f km kf h safe = Keeps-continue (m h).0 f kf (m h).1 (km h safe)

  pub Keeps-run :
      (path : String) (arguments : List String)
      → IsFound tools path
      → guarded arguments ≡ true
      → Keeps (run sys path arguments)
  unfolding run
  Keeps-run path arguments found is h safe = ((found, is), safe)

  pub Keeps-run_only :
      (path : String) (arguments : List String)
      → IsFound tools path
      → guarded arguments ≡ true
      → Keeps (run_only sys path arguments)
  unfolding run_only
  Keeps-run_only path arguments found is h safe = ((found, is), safe)

  module _ {A : Type 0} (name : String) (found missing : String → Action A) where
    found_or_not :
        (n : ℕ) (r : Result String) (h : Host)
        → sys.look_path n name ≡ r
        → ((path : String) → sys.look_path n name ≡ ok path → Keeps (found path))
        → ((e : String) → Keeps (missing e))
        → IsSafe h
        → IsSafe (elim r as (λ _. Action A) [ ok path ↦ found path | err e ↦ missing e ] h).1
    found_or_not n (ok path) h is kf km safe = kf path is h safe
    found_or_not n (err e) h is kf km safe = km e h safe

    pub Keeps-with_tool :
        is_one_of tools name ≡ true
        → ((path : String) → IsFound tools path → Keeps (found path))
        → ((e : String) → Keeps (missing e))
        → Keeps (with_tool sys name found missing)
    unfolding with_tool look_path
    Keeps-with_tool known kf km h safe =
        found_or_not h.tick (sys.look_path h.tick name) (record h { tick = h.tick + 1 }) refl
          (λ path is. kf path (name, h.tick, known, is)) km safe

  pub Keeps-pure : {A : Type 0} (a : A) → Keeps (pure a)
  Keeps-pure a h safe = safe

  pub Keeps-lift : {A : Type 0} (r : Result A) → Keeps (lift r)
  Keeps-lift r h safe = safe
