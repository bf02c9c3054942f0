-- ===== src/Base/Trim.antt =====
-- `strings.TrimSpace` and `strings.Split` at one character, of Go's library, on the native texts.
use Prim.Native.Nat.{ℕ}
use Prim.Native.Char.{Char, code}
use Prim.Native.String.{String}
use mathlib.Core.Bool.{Bool, true, false, ◌||◌, ◌&&◌}
use mathlib.Core.List.{List, [], ◌∷◌}
use pi_ops_agent.Base.Tests.{leb, ◌=?◌, if◌then◌else◌}

-- `unicode.IsSpace`
unfoldable pub is_space : ℕ → Bool
is_space c =
    (leb 9 c && leb c 13)
    || c =? 32
    || c =? 133
    || c =? 160
    || c =? 5760
    || (leb 8192 c && leb c 8202)
    || c =? 8232
    || c =? 8233
    || c =? 8239
    || c =? 8287
    || c =? 12288

unfoldable pub trim_left : String → String
unfolding is_space
trim_left String.[] = ""
trim_left (String.◌∷◌ c s) =
    let rest = trim_left s in if is_space (code c) then rest else String.◌∷◌ c s

abbrev is_empty : String → Bool
is_empty String.[] = true
is_empty (String.◌∷◌ c s) = false

unfoldable pub trim_right : String → String
unfolding is_space
trim_right String.[] = ""
trim_right (String.◌∷◌ c s) =
    let rest = trim_right s in if is_empty rest && is_space (code c) then "" else String.◌∷◌ c rest

unfoldable pub trim_space : String → String
unfolding trim_left trim_right
trim_space s = trim_right (trim_left s)

abbrev onto_first : Char → List String → List String
onto_first c [] = String.◌∷◌ c "" ∷ []
onto_first c (p ∷ ps) = String.◌∷◌ c p ∷ ps

unfoldable pub split_at : ℕ → String → List String
split_at separator String.[] = "" ∷ []
split_at separator (String.◌∷◌ c s) =
    let rest = split_at separator s in if code c =? separator then "" ∷ rest else onto_first c rest
