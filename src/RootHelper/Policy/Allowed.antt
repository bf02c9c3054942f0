-- ===== src/RootHelper/Policy/Allowed.antt =====
-- What `ValidateOperation` of internal/roothelper/executor.go lets through.
use pi_ops_agent.Base.{
  ℕ, ◌≡◌, ◌≢◌, ◌⊎◌, inl, inr, refl, ap, ◌∙◌, sym, String, true, false, List, [], ◌∷◌, ◌++◌, Option,
  none, some, arith, Result, ok, Bool-cases, Result-cases, Option-cases, All, map,
}
use mathlib.Core.List.{Memᴰ}
use pi_ops_agent.Protocol.Pattern.{codes, same}
use pi_ops_agent.Protocol.FilePath.{
  slash, dot_dot, clean, clean_parts, dir, rel, rel_parts, climb, print_rel, join, is_abs,
}
use pi_ops_agent.Protocol.Operations.{
  Operation, package_install, service_action, file_write, breakglass_script,
}
use pi_ops_agent.RootHelper.Policy.{
  Config, critical_paths, critical_services, to_lower, has_prefix, is_in, is_at_or_below,
  is_critical_path, is_critical_service, stays_below, is_within, check_links, check_roots,
  ensure_allowed_path, ensure_allowed_paths, validate_operation,
}

-- Both paths are absolute or both relative, and the parts of the target begin with those of the
-- base.
pub record IsBelow (base target : List ℕ) : Type 0 where
  pub rooted : is_abs base ≡ is_abs target
  pub rest : List (List ℕ)
  pub parts : clean_parts target ≡ clean_parts base ++ rest

same_iff : (s t : List ℕ) → (same s t ≡ true) → s ≡ t
same_iff [] [] h = refl
same_iff [] (t ∷ ts) h = ground arith
same_iff (s ∷ ss) [] h = ground arith
same_iff (s ∷ ss) (t ∷ ts) h = ground (arith, same_iff ss ts)

-- The parts that remain begin with ".." unless the base's parts are all there.
rel_parts-append :
    (base target rest : List (List ℕ))
    → rel_parts base target ≡ some rest
    → (target ≡ base ++ rest) ⊎ ((more : List (List ℕ)) × (rest ≡ dot_dot ∷ more))
unfolding rel_parts
rel_parts-append [] target rest h = inl (ground arith)
rel_parts-append (b ∷ base) [] rest h = inr (climb base [], ground arith)
rel_parts-append (b ∷ base) (t ∷ target) rest h = elim (Bool-cases (same b t)) [
  | inr differs ↦ inr (climb base (t ∷ target), ground arith)
  | inl same ↦ elim (rel_parts-append base target rest (ground arith)) [
    | inl e ↦ inl (cc (e, same_iff b t same))
    | inr up ↦ inr up
  ]
]

stays_below-up : (more : List (List ℕ)) → stays_below (print_rel (some (dot_dot ∷ more))) ≡ false
unfolding join has_prefix
stays_below-up [] = refl
stays_below-up (p ∷ ps) = refl

stays_below-IsBelow :
    (base target : List ℕ) (o : Option (List (List ℕ)))
    → is_abs base ≡ is_abs target
    → rel_parts (clean_parts base) (clean_parts target) ≡ o
    → stays_below (print_rel o) ≡ true
    → IsBelow base target
stays_below-IsBelow base target none rooted e h = ground arith
stays_below-IsBelow base target (some rest) rooted e h =
    elim (rel_parts-append (clean_parts base) (clean_parts target) rest e) [
      | inl parts ↦ record { rooted = rooted; rest = rest; parts = parts }
      | inr (more, up) ↦
          let no : stays_below (print_rel (some rest)) ≡ false = rw up (stays_below-up more) in
          ground (arith, no)
    ]

is_within-IsBelow : (base target : List ℕ) → is_within base target ≡ true → IsBelow base target
unfolding is_within rel
is_within-IsBelow base target h =
    stays_below-IsBelow base target _ (ground arith) refl (ground arith)

same_self : (s : List ℕ) → same s s ≡ true
same_self [] = refl
same_self (c ∷ s) = ground (arith, same_self s)

has_prefix-append : (prefix more : List ℕ) → has_prefix (prefix ++ more) prefix ≡ true
unfolding has_prefix
has_prefix-append [] [] = refl
has_prefix-append [] (c ∷ more) = refl
has_prefix-append (c ∷ prefix) more = ground (arith, has_prefix-append prefix more)

append-slash : (denied more : List ℕ) → (denied ++ slash ∷ []) ++ more ≡ denied ++ slash ∷ more
append-slash [] more = refl
append-slash (c ∷ denied) more = ap (λ s. c ∷ s) (append-slash denied more)

-- Neither the path itself nor a directory above it.
abbrev pub IsApartFrom : List ℕ → List ℕ → Type 0
IsApartFrom path denied = (path ≢ denied) × ((more : List ℕ) → path ≢ denied ++ slash ∷ more)

is_at_or_below-IsApartFrom :
    (path : List ℕ) (denied : List (List ℕ))
    → is_at_or_below path denied ≡ false
    → All (IsApartFrom path) denied
unfolding is_at_or_below
is_at_or_below-IsApartFrom path [] h = tt
is_at_or_below-IsApartFrom path (d ∷ ds) h = (
  (
    λ same. ground (arith, same_self d),
    λ more same.
        let e : path ≡ (d ++ slash ∷ []) ++ more = same ∙ sym (append-slash d more) in
        ground (arith, has_prefix-append (d ++ slash ∷ []) more),
  ),
  is_at_or_below-IsApartFrom path ds (ground arith),
)

is_in-All : (s : List ℕ) (ts : List (List ℕ)) → is_in s ts ≡ false → All (λ t. s ≢ t) ts
unfolding is_in
is_in-All s [] h = tt
is_in-All s (t ∷ ts) h = (λ e. ground (arith, same_self t), is_in-All s ts (ground arith))

module _ (eval_symlinks : List ℕ → Result (List ℕ)) where
  -- The path is below a root by its name, and its parent is so once the symlinks are followed.
  pub record IsRooted (path : List ℕ) (root : List ℕ) : Type 0 where
    pub below : IsBelow root path
    pub parent : List ℕ
    pub resolved : List ℕ
    pub evaluated_parent : eval_symlinks (dir path) ≡ ok parent
    pub evaluated_root : eval_symlinks root ≡ ok resolved
    pub still_below : IsBelow resolved parent

  check_links-IsRooted :
      (path root : List ℕ)
      → IsBelow root path
      → check_links eval_symlinks root path ≡ none
      → IsRooted path root
  unfolding check_links
  check_links-IsRooted path root below h = elim (Result-cases (eval_symlinks (dir path))) [
    | inr (e, failed) ↦ ground arith
    | inl (parent, p) ↦ elim (Result-cases (eval_symlinks root)) [
      | inr (e, failed) ↦ ground arith
      | inl (resolved, q) ↦ record {
        below = below;
        parent = parent;
        resolved = resolved;
        evaluated_parent = p;
        evaluated_root = q;
        still_below = is_within-IsBelow resolved parent (ground arith);
      }
    ]
  ]

  check_roots-IsRooted :
      (path : List ℕ) (roots : List String)
      → check_roots eval_symlinks path roots ≡ none
      → (root : String) × Memᴰ root roots × IsRooted path (clean (codes root))
  unfolding check_roots
  check_roots-IsRooted path [] h = ground arith
  check_roots-IsRooted path (root ∷ roots) h =
      elim (Bool-cases (is_within (clean (codes root)) path)) [
        | inl within ↦ (
          root,
          Memᴰ.head refl,
          check_links-IsRooted path (clean (codes root))
              (is_within-IsBelow (clean (codes root)) path within) (ground arith),
        )
        | inr outside ↦
            let (r, there, is) = check_roots-IsRooted path roots (ground arith) in
            (r, Memᴰ.tail there, is)
      ]

  module _ (config : Config) where
    -- The path is not critical, and stands in an allowed root.
    abbrev pub IsAllowed : String → Type 0
    IsAllowed path =
        All (IsApartFrom (clean (codes path))) critical_paths
        × ((root : String) × Memᴰ root config.allowed_roots
            × IsRooted (clean (codes path)) (clean (codes root)))

    ensure_allowed_path-IsAllowed :
        (path : String) → ensure_allowed_path eval_symlinks config path ≡ none → IsAllowed path
    unfolding ensure_allowed_path is_critical_path
    ensure_allowed_path-IsAllowed path h =
        let p = clean (codes path) in
        elim (Bool-cases (is_at_or_below p critical_paths)) [
          | inl critical ↦ ground arith
          | inr free ↦ (
            is_at_or_below-IsApartFrom p critical_paths free,
            check_roots-IsRooted p config.allowed_roots (ground arith),
          )
        ]

    ensure_allowed_paths-IsAllowed :
        (paths : List String)
        → ensure_allowed_paths eval_symlinks config paths ≡ none
        → All IsAllowed paths
    unfolding ensure_allowed_paths
    ensure_allowed_paths-IsAllowed [] h = tt
    ensure_allowed_paths-IsAllowed (path ∷ paths) h =
        elim (Option-cases (ensure_allowed_path eval_symlinks config path)) [
          | inl fine ↦ (
            ensure_allowed_path-IsAllowed path fine,
            ensure_allowed_paths-IsAllowed paths (ground arith),
          )
          | inr (e, refused) ↦ ground arith
        ]

    abbrev pub IsPermitted : Option Operation → Type 0
    IsPermitted none = ⊥
    IsPermitted (some (package_install o)) = Unit
    IsPermitted (some (service_action o)) =
        All (λ unit. map to_lower (codes o.unit) ≢ unit) critical_services
    IsPermitted (some (file_write o)) = IsAllowed o.path
    IsPermitted (some (breakglass_script o)) =
        (config.allow_breakglass ≡ true) × (o.network ≡ false) × All IsAllowed o.backup_paths

    -- What `ValidateOperation` of the executor lets through is a package, an action on a service
    -- that is not critical, a file that is not critical by its name and stands in an allowed root
    -- by its name and once the symlinks of its parent are followed, or, where break-glass is
    -- enabled, a script without network whose backup paths all are such files.
    pub validate_operation-IsPermitted :
        (o : Option Operation) → validate_operation eval_symlinks config o ≡ none → IsPermitted o
    unfolding validate_operation is_critical_service
    validate_operation-IsPermitted none h = ground arith
    validate_operation-IsPermitted (some (package_install o)) h = tt
    validate_operation-IsPermitted (some (service_action o)) h =
        is_in-All (map to_lower (codes o.unit)) critical_services (ground arith)
    validate_operation-IsPermitted (some (file_write o)) h = ensure_allowed_path-IsAllowed o.path h
    validate_operation-IsPermitted (some (breakglass_script o)) h =
        (ground arith, ground arith, ensure_allowed_paths-IsAllowed o.backup_paths (ground arith))
