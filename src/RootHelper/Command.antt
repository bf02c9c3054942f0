-- ===== src/RootHelper/Command.antt =====
-- internal/roothelper/executor.go: the bounded output of a command, and the name of its unit.
pub mod Output
use Prim.Native.Char.{code}
use Prim.Native.String.{len}
use pi_ops_agent.Base.{
  ℕ, zero, suc, String, ◌*◌, ◌-◌, ◌+◌, Bool, true, false, ◌&&◌, ◌||◌, List, [], ◌∷◌, ◌++◌,
}
use pi_ops_agent.Base.{ltb, leb, ◌=?◌, length, take, if◌then◌else◌}

abbrev pub max_command_output : ℕ
max_command_output = 64 * 1024

-- `limitedBuffer`
pub record Buffer : Type 0 where
  pub payload : List ℕ
  pub truncated : Bool

-- How many bytes `Write` takes; what it holds never exceeds the limit.
abbrev pub taken : ℕ → ℕ → ℕ
taken remaining n = if ltb 0 remaining then if ltb n remaining then n else remaining else remaining

unfoldable pub write : List ℕ → Buffer → Buffer
write p b =
    let n = taken (max_command_output - length b.payload) (length p) in
    record {
      payload =
          if ltb 0 (max_command_output - length b.payload)
          then b.payload ++ take n p
          else b.payload;
      truncated = if ltb n (length p) then true else b.truncated;
    }

abbrev safe : ℕ → Bool
safe c =
    (leb b'a' c && leb c b'z')
    || (leb b'A' c && leb c b'Z')
    || (leb b'0' c && leb c b'9')
    || c =? b'-'

-- The loop of `safeUnitFragment`.
unfoldable pub keep_safe : String → String
keep_safe String.[] = ""
keep_safe (String.◌∷◌ c s) =
    let rest = keep_safe s in if safe (code c) then String.◌∷◌ c rest else rest

-- What is kept is one byte for each character.
unfoldable pub first : ℕ → String → String
first zero s = ""
first (suc n) String.[] = ""
first (suc n) (String.◌∷◌ c s) = String.◌∷◌ c (first n s)

unfoldable pub safe_unit_fragment : String → String
unfolding keep_safe first
safe_unit_fragment value = let s = keep_safe value in if ltb 48 (len s) then first 48 s else s
