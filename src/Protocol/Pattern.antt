-- ===== src/Protocol/Pattern.antt =====
-- The regular expressions of internal/protocol/messages.go, as tests on a text's code points.
use pi_ops_agent.Base.{ℕ, ◌-◌, Bool, true, false, ◌&&◌, ◌||◌, List, [], ◌∷◌, String}
use pi_ops_agent.Base.{leb, ◌=?◌, length, all, take, drop}
use Prim.Native.Char.{code}

-- The code points of a text.
abbrev pub codes : String → List ℕ
codes String.[] = []
codes (String.◌∷◌ c s) = code c ∷ codes s

abbrev pub same : List ℕ → List ℕ → Bool
same [] [] = true
same (a ∷ xs) (b ∷ ys) = a =? b && same xs ys
same _ _ = false

abbrev pub member : ℕ → List ℕ → Bool
member c [] = false
member c (x ∷ xs) = c =? x || member c xs

-- [a-zA-Z0-9]
unfoldable pub alphanumeric : ℕ → Bool
alphanumeric c =
    (leb b'a' c && leb c b'z') || (leb b'A' c && leb c b'Z') || (leb b'0' c && leb c b'9')

-- `[class]{low,high}`
abbrev pub repeated : (ℕ → Bool) → ℕ → ℕ → List ℕ → Bool
repeated ok low high s = leb low (length s) && leb (length s) high && all ok s

-- `[a-zA-Z0-9][class]{0,127}`
abbrev headed : (ℕ → Bool) → List ℕ → Bool
headed ok [] = false
headed ok (c ∷ s) = alphanumeric c && repeated ok 0 127 s

unfoldable pub request_id_pattern : List ℕ → Bool
unfolding alphanumeric
request_id_pattern = repeated (λ c. alphanumeric c || member c (codes "._:-")) 8 160

unfoldable pub change_id_pattern : List ℕ → Bool
unfolding alphanumeric
change_id_pattern = repeated (λ c. alphanumeric c || member c (codes "._-")) 8 160

unfoldable pub package_pattern : List ℕ → Bool
unfolding alphanumeric
package_pattern = headed (λ c. alphanumeric c || member c (codes "+._-"))

unfoldable pub version_pattern : List ℕ → Bool
unfolding alphanumeric
version_pattern = headed (λ c. alphanumeric c || member c (codes "+.:~_-"))

unfoldable pub unit_char : ℕ → Bool
unfolding alphanumeric
unit_char c = alphanumeric c || member c (codes "@_.:-")

abbrev pub dot_service : List ℕ
dot_service = codes ".service"

-- `^[a-zA-Z0-9@_.:-]{1,192}\.service$`: what stands before the last eight code points
unfoldable pub unit_pattern : List ℕ → Bool
unfolding unit_char
unit_pattern s =
    let stem = length s - 8 in
    leb 8 (length s) && same (drop stem s) dot_service && repeated unit_char 1 192 (take stem s)

abbrev octal : ℕ → Bool
octal c = leb b'0' c && leb c b'7'

-- `^0?[0-7]{3,4}$`: with the optional zero or without it
unfoldable pub mode_pattern : List ℕ → Bool
mode_pattern [] = false
mode_pattern (c ∷ s) = repeated octal 3 4 (c ∷ s) || (c =? b'0' && repeated octal 3 4 s)
