-- ===== src/Audit/Append.antt =====
-- What `Append` of internal/audit/log.go leaves in the file, on each of its branches.
use pi_ops_agent.Base.{
  ℕ, ◌+◌, ◌≤◌, ◌<◌, ◌≡◌, ◌∙◌, ◌∙◌, ◌≢◌, refl, sym, ap, String, List, [], ◌∷◌, ◌++◌, some, none,
  arith, length, length-append, Result, ok, err, Result-cases, Option-cases, inl, inr, take,
}
use mathlib.Core.List.{append-nil}
use pi_ops_agent.Audit.{
  Entry, Encoding, Answers, Log, zero_hash, max_line, lines, newline, calculate_hash, append,
  open_log, new_body, new_entry, write_entry,
}
use pi_ops_agent.Audit.Lines.{NoNewline, IsSealed, lines-append_line, append-IsSealed}
use pi_ops_agent.Audit.Chain.{
  calculate_hash-digest, IsChain, IsChain-append, IsChain-last, open_log_iff,
}

-- What the library's JSON gives: the entry is read back as it was written, and takes one line.
pub record IsFaithful {E : Type 0} (enc : Encoding E) (entry : Entry E) : Type 0 where
  pub parse_entry-entry_json : enc.parse_entry (enc.entry_json entry) ≡ ok entry
  pub one_line : NoNewline (enc.entry_json entry)

-- A log that can be opened again, and goes on from the same hash.
pub record IsIntact {E : Type 0} (enc : Encoding E) (log : Log) : Type 0 where
  pub is_sealed : IsSealed log.file
  pub chain : IsChain enc zero_hash (lines log.file) log.previous_hash

module _ {E : Type 0} (enc : Encoding E) where
  -- One more line with an entry that follows the last one.
  line-IsIntact :
      (entry : Entry E) (log : Log)
      → IsFaithful enc entry
      → IsIntact enc log
      → entry.previous_hash ≡ log.previous_hash
      → entry.hash ≡ calculate_hash enc entry.body
      → length (enc.entry_json entry) < max_line
      → IsIntact enc (record {
        file = log.file ++ (enc.entry_json entry ++ newline ∷ []);
        previous_hash = entry.hash;
      })
  line-IsIntact entry log faithful intact before own fits = record {
    is_sealed = append-IsSealed (enc.entry_json entry) intact.is_sealed faithful.one_line;
    chain = rw (lines-append_line (enc.entry_json entry) intact.is_sealed faithful.one_line) (
        IsChain-append enc zero_hash log.previous_hash entry.hash (lines log.file)
          (enc.entry_json entry ∷ []) intact.chain
          (
            entry,
            faithful.parse_entry-entry_json,
            fits,
            before,
            own ∙ calculate_hash-digest enc entry.body,
            refl,
          ));
  }

  line_shorter :
      (file l : List ℕ)
      → length (file ++ (l ++ newline ∷ [])) ≤ length file + max_line
      → length l < max_line
  line_shorter file l h =
      omega (arith, length-append file (l ++ newline ∷ []), length-append l (newline ∷ []))

  -- The entry that an append writes, from the random bytes that it draws.
  abbrev pub written_entry : Answers → List ℕ → E → Log → Entry E
  written_entry a random event log = new_entry enc (new_body enc a random event log)

  -- Let a log be one that `Open` accepts as it stands, and its file be empty or end in a newline.
  -- After an append that returns an audit id this is so again, if the entry is read back as it was
  -- written and takes one line, and the file has grown by no more than the limit of the scanner.
  pub append-IsIntact :
      (a : Answers) (random : List ℕ) (event : E) (log : Log) (id : String)
      → a.random ≡ ok random
      → IsFaithful enc (written_entry a random event log)
      → IsIntact enc log
      → (append enc a event log).0 ≡ ok id
      → length (append enc a event log).1.file ≤ length log.file + max_line
      → IsIntact enc (append enc a event log).1
  unfolding append
  append-IsIntact a random event log id drawn faithful intact h bound =
      let entry = written_entry a random event log in
      ground (
        arith,
        line-IsIntact entry log faithful intact,
        line_shorter log.file (enc.entry_json entry),
      )

  write_entry_failed :
      (a : Answers) (entry : Entry E) (log : Log) (e : String)
      → (write_entry enc a entry log).0 ≡ err e
      → ((write_entry enc a entry log).1.previous_hash ≡ log.previous_hash)
        × ((extra : List ℕ) × ((write_entry enc a entry log).1.file ≡ log.file ++ extra))
  unfolding write_entry
  write_entry_failed a entry log e h = elim (Option-cases a.open_error) [
    | inr (x, failed) ↦ rw (failed, write_entry) (refl, ([], sym (append-nil log.file)))
    | inl opened ↦ elim (Option-cases a.write_error) [
      | inr ((n, x), torn) ↦
          rw (opened, torn, write_entry)
            (refl, (take n (enc.entry_json entry ++ newline ∷ []), refl))
      | inl written ↦ (ground arith, (enc.entry_json entry ++ newline ∷ [], ground arith))
    ]
  ]

  -- A failed append leaves the hash that the next entry will name, and every byte of the file.
  pub append_failed :
      (a : Answers) (event : E) (log : Log) (e : String)
      → (append enc a event log).0 ≡ err e
      → ((append enc a event log).1.previous_hash ≡ log.previous_hash)
        × ((extra : List ℕ) × ((append enc a event log).1.file ≡ log.file ++ extra))
  unfolding append
  append_failed a event log e h = elim (Result-cases a.random) [
    | inr (x, failed) ↦ rw (failed, append) (refl, ([], sym (append-nil log.file)))
    | inl (random, drawn) ↦
        rw (drawn, append)
          (write_entry_failed a (new_entry enc (new_body enc a random event log)) log e
            (rw (drawn, append) at h))
  ]

  -- A successful append adds one line, with the entry that it writes.
  append_ok :
      (a : Answers) (random : List ℕ) (event : E) (log : Log) (id : String)
      → a.random ≡ ok random
      → (append enc a event log).0 ≡ ok id
      → (append enc a event log).1.file
        ≡ log.file ++ (enc.entry_json (written_entry a random event log) ++ newline ∷ [])
  unfolding append
  append_ok a random event log id drawn h = ground arith

  -- Two entries that name the same hash before them cannot both stand in a chain, unless the
  -- first one's hash is that hash.
  two_lines-refused :
      (file : List ℕ) (first second : Entry E) (log : Log)
      → IsFaithful enc first
      → IsFaithful enc second
      → IsSealed file
      → first.hash ≢ second.previous_hash
      → open_log enc (
          (file ++ (enc.entry_json first ++ newline ∷ []))
          ++ (enc.entry_json second ++ newline ∷ []))
        ≢ ok log
  two_lines-refused file first second log f g s differs k =
      let l = enc.entry_json first in
      let m = enc.entry_json second in
      let (_, upto) =
        IsChain-last enc zero_hash log.previous_hash (lines (file ++ (l ++ newline ∷ []))) m second
          g.parse_entry-entry_json
          (rw (lines-append_line m (append-IsSealed l s f.one_line) g.one_line) at
            ((open_log_iff enc _ log).0 k).1) in
      let (ends, _) =
        IsChain-last enc zero_hash second.previous_hash (lines file) l first
          f.parse_entry-entry_json (rw (lines-append_line l s f.one_line) at upto) in
      differs ends

  -- The log after an append whose `Sync` fails.
  abbrev unsynced : Answers → List ℕ → E → Log → Log
  unsynced a random event log = record log {
    file = log.file ++ (enc.entry_json (written_entry a random event log) ++ newline ∷ []);
  }

  append-unsynced :
      (a : Answers) (random : List ℕ) (event : E) (log : Log) (e : String)
      → a.random ≡ ok random
      → a.open_error ≡ none
      → a.write_error ≡ none
      → a.sync_error ≡ some e
      → append enc a event log ≡ (err e, unsynced a random event log)
  unfolding append
  append-unsynced a random event log e drawn opened written failed = ground arith

  -- An entry whose `Sync` failed is in the file, but its hash is not in `previousHash`: if the
  -- next append succeeds, `Open` refuses the file. The file was empty or ended in a newline
  -- before, the entries are read back as they were written and take one line each, and the hash of
  -- the first is not the hash that it names.
  pub open_log-append_unsynced :
      (a b : Answers) (first_random random : List ℕ) (first second : E) (log : Log) (e id : String)
      → a.random ≡ ok first_random
      → a.open_error ≡ none
      → a.write_error ≡ none
      → a.sync_error ≡ some e
      → b.random ≡ ok random
      → IsSealed log.file
      → IsFaithful enc (written_entry a first_random first log)
      → IsFaithful enc (written_entry b random second (append enc a first log).1)
      → (written_entry a first_random first log).hash ≢ log.previous_hash
      → (append enc b second (append enc a first log).1).0 ≡ ok id
      → (reopened : Log)
      → open_log enc (append enc b second (append enc a first log).1).1.file ≢ ok reopened
  unfolding new_entry new_body
  open_log-append_unsynced a b r r' first second log e id drawn opened written failed drawn' s f g
        differs h reopened k =
      let lost =
        ap (λ (p : Result String × Log). p.1)
          (append-unsynced a r first log e drawn opened written failed) in
      two_lines-refused log.file (written_entry a r first log)
        (written_entry b r' second (unsynced a r first log)) reopened f (rw lost at g) s differs
        (rw lost at (rw (append_ok b r' second (append enc a first log).1 id drawn' h) at k))
