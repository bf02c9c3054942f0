-- ===== src/Protocol/FilePath.antt =====
-- `filepath.IsAbs`, `Clean`, `Dir` and `Rel` of Go's library for Unix, on code points: what
-- internal/protocol/messages.go and internal/roothelper/executor.go use of them.
use pi_ops_agent.Base.{ℕ, Bool, true, false, ◌||◌, Option, none, some, List, [], ◌∷◌, ◌++◌}
use pi_ops_agent.Base.{◌=?◌, if◌then◌else◌}
use mathlib.Core.List.{reverse}
use pi_ops_agent.Protocol.Pattern.{same}

abbrev pub slash : ℕ
slash = b'/'

abbrev pub dot : List ℕ
dot = b'.' ∷ []

abbrev pub dot_dot : List ℕ
dot_dot = b'.' ∷ b'.' ∷ []

unfoldable pub is_abs : List ℕ → Bool
is_abs [] = false
is_abs (c ∷ s) = c =? slash

abbrev onto_first : ℕ → List (List ℕ) → List (List ℕ)
onto_first c [] = (c ∷ []) ∷ []
onto_first c (p ∷ ps) = (c ∷ p) ∷ ps

-- The parts between the separators, the empty ones too.
unfoldable pub split : List ℕ → List (List ℕ)
split [] = [] ∷ []
split (c ∷ s) = let rest = split s in if c =? slash then [] ∷ rest else onto_first c rest

-- ".." against the parts kept so far, the last one first
unfoldable pub up : Bool → List (List ℕ) → List (List ℕ)
up true [] = []
up false [] = dot_dot ∷ []
up rooted (top ∷ stack) = if same top dot_dot then dot_dot ∷ top ∷ stack else stack

unfoldable pub resolve : Bool → List (List ℕ) → List ℕ → List (List ℕ)
unfolding up
resolve rooted stack part =
    if same part [] || same part dot
    then stack
    else if same part dot_dot
    then up rooted stack
    else part ∷ stack

unfoldable pub resolve_all : Bool → List (List ℕ) → List (List ℕ) → List (List ℕ)
resolve_all rooted stack [] = reverse stack
resolve_all rooted stack (part ∷ parts) = resolve_all rooted (resolve rooted stack part) parts

unfoldable pub join : List (List ℕ) → List ℕ
join [] = []
join (p ∷ []) = p
join (p ∷ q ∷ ps) = p ++ slash ∷ join (q ∷ ps)

-- The parts that `Clean` keeps.
unfoldable pub clean_parts : List ℕ → List (List ℕ)
unfolding is_abs split resolve resolve_all
clean_parts path = resolve_all (is_abs path) [] (split path)

abbrev pub print : Bool → List (List ℕ) → List ℕ
print true parts = slash ∷ join parts
print false [] = dot
print false (p ∷ ps) = join (p ∷ ps)

unfoldable pub clean : List ℕ → List ℕ
unfolding clean_parts join
clean path = print (is_abs path) (clean_parts path)

abbrev pub initial : List (List ℕ) → List (List ℕ)
initial [] = []
initial (p ∷ []) = []
initial (p ∷ q ∷ ps) = let rest = initial (q ∷ ps) in p ∷ rest

-- `filepath.Dir` of a clean path
unfoldable pub dir : List ℕ → List ℕ
unfolding clean
dir path = print (is_abs path) (initial (clean_parts path))

abbrev pub climb : List (List ℕ) → List (List ℕ) → List (List ℕ)
climb [] target = target
climb (b ∷ base) target = let rest = climb base target in dot_dot ∷ rest

-- What remains once the common leading parts are gone; a ".." left in the base is an error.
unfoldable pub rel_parts : List (List ℕ) → List (List ℕ) → Option (List (List ℕ))
rel_parts [] target = some target
rel_parts (b ∷ base) [] = if same b dot_dot then none else some (climb (b ∷ base) [])
rel_parts (b ∷ base) (t ∷ target) =
    let rest = rel_parts base target in
    if same b t then rest else if same b dot_dot then none else some (climb (b ∷ base) (t ∷ target))

abbrev pub print_rel : Option (List (List ℕ)) → Option (List ℕ)
print_rel none = none
print_rel (some parts) = some (print false parts)

abbrev pub same_root : Bool → Bool → Bool
same_root true true = true
same_root false false = true
same_root _ _ = false

-- `filepath.Rel`; `none` is its error.
unfoldable pub rel : List ℕ → List ℕ → Option (List ℕ)
unfolding clean_parts rel_parts join
rel base target =
    if same_root (is_abs base) (is_abs target)
    then print_rel (rel_parts (clean_parts base) (clean_parts target))
    else none
