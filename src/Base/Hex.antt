-- ===== src/Base/Hex.antt =====
-- `hex.EncodeToString`: two lower-case digits for each byte.
use Prim.Native.Nat.{ℕ, zero, suc, ◌/◌, ◌%◌}
use Prim.Native.String.{String, ◌++◌}
use mathlib.Core.List.{List, [], ◌∷◌}

abbrev digits : List String
digits =
    "0" ∷ "1" ∷ "2" ∷ "3" ∷ "4" ∷ "5" ∷ "6" ∷ "7" ∷ "8" ∷ "9" ∷ "a" ∷ "b" ∷ "c" ∷ "d" ∷ "e" ∷ "f"
    ∷ []

abbrev digit_at : List String → ℕ → String
digit_at [] n = ""
digit_at (d ∷ ds) zero = d
digit_at (d ∷ ds) (suc n) = digit_at ds n

unfoldable pub hex_text : List ℕ → String
hex_text [] = ""
hex_text (b ∷ bs) = digit_at digits (b / 16 % 16) ++ (digit_at digits (b % 16) ++ hex_text bs)
