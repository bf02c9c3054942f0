-- ===== src/Audit.antt =====
-- internal/audit/log.go: an append-only file of lines, each bound to the one before by its hash.
pub mod Lines
pub mod Chain
pub mod Append
pub mod Evidence
mod Examples
use pi_ops_agent.Base.{ℕ, ◌*◌, String, ◌<>◌, Bool, List, [], ◌∷◌, ◌++◌, Option, none, some}
use pi_ops_agent.Base.{
  Result, ok, err, ◌==◌, string_eq, ltb, ◌=?◌, length, hex_text, decimal, if◌then◌else◌, suc,
}

-- `zeroHash`
abbrev pub zero_hash : String
zero_hash = "0000000000000000000000000000000000000000000000000000000000000000"

pub record HashBody (E : Type 0) : Type 0 where
  pub audit_id : String
  pub timestamp : String
  pub previous_hash : String
  pub event : E

-- An entry holds the fields of its body, and the hash.
pub record Entry (E : Type 0) : Type 0 where
  pub body : HashBody E
  pub open body use *
  pub hash : String

pub record Log : Type 0 where
  pub file : List ℕ
  pub previous_hash : String

-- The library code that the log calls: JSON of a body and of an entry, and SHA-256.
pub record Encoding (E : Type 0) : Type 0 where
  pub body_json : HashBody E → List ℕ
  pub entry_json : Entry E → List ℕ
  pub parse_entry : List ℕ → Result (Entry E)
  pub sha256 : List ℕ → List ℕ

-- What the outside answers to the calls of one `Append`: the random bytes, the clock as text, and
-- the errors of `OpenFile`, `Write` (with the number of bytes that got through) and `Sync`.
pub record Answers : Type 0 where
  pub random : Result (List ℕ)
  pub time : String
  pub open_error : Option String
  pub write_error : Option (ℕ × String)
  pub sync_error : Option String

-- What `Open` finds: the error of `MkdirAll`, the bytes of the file, if it exists, or the error of
-- `os.Open`, and the error of reading it.
pub record Existing : Type 0 where
  pub directory : Option String
  pub file : Result (Option (List ℕ))
  pub read_error : Option String

abbrev newline : ℕ
newline = 10

abbrev onto_first : ℕ → List (List ℕ) → List (List ℕ)
onto_first c [] = (c ∷ []) ∷ []
onto_first c (l ∷ ls) = (c ∷ l) ∷ ls

-- The lines that `bufio.Scanner` gives; an unfinished last line counts. The scanner also drops a
-- carriage return at a line's end, which JSON reads as white space.
unfoldable pub lines : List ℕ → List (List ℕ)
lines [] = []
lines (c ∷ s) = let rest = lines s in if c =? newline then [] ∷ rest else onto_first c rest

abbrev max_line : ℕ
max_line = 1024 * 1024

abbrev take_bytes : ℕ → List ℕ → List ℕ
take_bytes = pi_ops_agent.Base.take

-- `randomID`, once `rand.Read` has given the bytes.
abbrev pub random_id : String → List ℕ → String
unfolding hex_text
random_id prefix value = prefix <> ("-" <> hex_text value)

module _ {E : Type 0} (enc : Encoding E) where
  unfoldable pub calculate_hash : HashBody E → String
  unfolding hex_text
  calculate_hash body = hex_text (enc.sha256 (enc.body_json body))

  check_entry : ℕ → String → Result (Entry E) → Result String
  unfolding calculate_hash
  check_entry line previous (err e) = err ("audit line " <> (decimal line <> (": " <> e)))
  check_entry line previous (ok entry) =
      if entry.previous_hash == previous
      then if entry.hash == calculate_hash entry.body
        then ok entry.hash
        else err ("audit line " <> (decimal line <> ": hash mismatch"))
      else err ("audit line " <> (decimal line <> ": previous hash mismatch"))

  -- The loop of `verifyExisting` from a line number and the hash of the line before; a line over
  -- the scanner's buffer ends it with `bufio.ErrTooLong`.
  unfoldable pub verify_from : ℕ → String → List (List ℕ) → Result String
  unfolding check_entry
  verify_from line previous [] = ok previous
  verify_from line previous (l ∷ ls) =
      if ltb (length l) max_line
      then elim (check_entry (suc line) previous (enc.parse_entry l)) [
        | ok hash ↦ verify_from (suc line) hash ls
        | err e ↦ err e
      ]
      else err "bufio.Scanner: token too long"

  -- `verifyExisting` on the bytes of the file; a missing file is an empty one.
  unfoldable pub verify_existing : List ℕ → Result String
  unfolding verify_from lines
  verify_existing file = verify_from 0 zero_hash (lines file)

  unfoldable pub open_log : List ℕ → Result Log
  unfolding verify_existing
  open_log file = elim (verify_existing file) [
    | ok previous ↦ ok (record { file = file; previous_hash = previous })
    | err e ↦ err e
  ]

  abbrev read_to_end : Option String → Result Log → Result Log
  read_to_end e (err x) = err x
  read_to_end none (ok log) = ok log
  read_to_end (some e) (ok log) = err e

  existing_log : Result (Option (List ℕ)) → Option String → Result Log
  unfolding open_log
  existing_log (err e) read_error = err e
  existing_log (ok none) read_error = open_log []
  existing_log (ok (some file)) read_error = read_to_end read_error (open_log file)

  -- `Open`. The scanner gives the bytes before an error of reading, and then the error.
  unfoldable pub open_at : Existing → Result Log
  unfolding existing_log
  open_at found = elim found.directory [
    | some e ↦ err e
    | none ↦ existing_log found.file found.read_error
  ]

  pub new_body : Answers → List ℕ → E → Log → HashBody E
  unfolding hex_text
  new_body a random event log = record {
    audit_id = random_id "audit" random;
    timestamp = a.time;
    previous_hash = log.previous_hash;
    event = event;
  }

  pub new_entry : HashBody E → Entry E
  unfolding calculate_hash
  new_entry body = record { body = body; hash = calculate_hash body }

  -- From `OpenFile` on; what `Write` got through stays in the file whatever happens next.
  write_entry : Answers → Entry E → Log → Result String × Log
  write_entry a entry log = elim a.open_error [
    | some e ↦ (err e, log)
    | none ↦ elim a.write_error [
      | some (n, e) ↦ (
        err e,
        record log { file = log.file ++ take_bytes n (enc.entry_json entry ++ newline ∷ []) },
      )
      | none ↦
          let file = log.file ++ (enc.entry_json entry ++ newline ∷ []) in
          elim a.sync_error [
            | some e ↦ (err e, record log { file = file })
            | none ↦ (ok entry.audit_id, record { file = file; previous_hash = entry.hash })
          ]
    ]
  ]

  unfoldable pub append : Answers → E → Log → Result String × Log
  unfolding new_body new_entry write_entry
  append a event log = elim a.random [
    | err e ↦ (err e, log)
    | ok random ↦ write_entry a (new_entry (new_body a random event log)) log
  ]
