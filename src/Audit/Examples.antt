-- ===== src/Audit/Examples.antt =====
-- Runs of the audit log, internal/audit/log.go, and its theorems at concrete files.
use pi_ops_agent.Base.{
  ℕ, ◌≡◌, ◌≢◌, ◌↔◌, ◌⊎◌, refl, String, List, [], ◌∷◌, ◌++◌, none, some, arith, Result, ok, err,
  ◌=?◌, ◌==◌, ==_iff, false, nat_eq, string_eq, decimal, if◌then◌else◌,
}
use pi_ops_agent.Audit.{
  Entry, Encoding, Answers, Log, zero_hash, lines, new_entry, new_body, append, open_log,
}
use pi_ops_agent.Audit.Lines.{nil-IsSealed}
use pi_ops_agent.Audit.Chain.{IsChain, open_log_iff}
use pi_ops_agent.Audit.Append.{
  IsFaithful, IsIntact, written_entry, append-IsIntact, append_failed, open_log-append_unsynced,
}
use pi_ops_agent.Audit.Evidence.{Collision, entries, entries_determined}

abbrev entry_of : String → String → ℕ → String → Entry ℕ
entry_of id previous event hash = record {
  body = record { audit_id = id; timestamp = "t"; previous_hash = previous; event = event };
  hash = hash;
}

-- Two events that are written one after the other, with the first entry synced or not.
abbrev seventh : Entry ℕ
seventh = entry_of "audit-01" zero_hash 7 "07"

abbrev eighth : Entry ℕ
eighth = entry_of "audit-02" zero_hash 8 "08"

abbrev read_entry : List ℕ → Result (Entry ℕ)
read_entry (c ∷ []) = if c =? 7 then ok seventh else if c =? 8 then ok eighth else err "json"
read_entry _ = err "json"

-- An event is its own JSON and its own hash.
abbrev plain : Encoding ℕ
plain = record {
  body_json = λ b. b.event ∷ [];
  entry_json = λ e. e.event ∷ [];
  parse_entry = read_entry;
  sha256 = λ payload. payload;
}

abbrev fine : ℕ → Answers
fine n = record {
  random = ok (n ∷ []);
  time = "t";
  open_error = none;
  write_error = none;
  sync_error = none;
}

abbrev empty : Log
empty = record { file = []; previous_hash = zero_hash }

abbrev one_line : Log
one_line = record { file = 7 ∷ 10 ∷ []; previous_hash = "07" }

empty-IsIntact : IsIntact plain empty
unfolding lines
empty-IsIntact = record { is_sealed = nil-IsSealed; chain = refl }

append_once : append plain (fine 1) 7 empty ≡ (ok "audit-01", one_line)
unfolding append
append_once = refl

seventh-IsFaithful : IsFaithful plain (written_entry plain (fine 1) (1 ∷ []) 7 empty)
unfolding new_entry new_body
seventh-IsFaithful = record { parse_entry-entry_json = refl; one_line = (omega arith, tt) }

append-IsIntact_example : IsIntact plain (append plain (fine 1) 7 empty).1
unfolding append
append-IsIntact_example =
    append-IsIntact plain (fine 1) (1 ∷ []) 7 empty "audit-01" refl seventh-IsFaithful
      empty-IsIntact refl (omega arith)

abbrev unsynced : Answers
unsynced = record (fine 1) { sync_error = some "sync: input/output error" }

append_failed_example :
    ((append plain unsynced 7 empty).1.previous_hash ≡ zero_hash)
    × ((extra : List ℕ) × ((append plain unsynced 7 empty).1.file ≡ [] ++ extra))
unfolding append
append_failed_example = append_failed plain unsynced 7 empty "sync: input/output error" refl

-- The log after the event whose entry is in the file but was not synced.
abbrev lost : Log
lost = record { file = 7 ∷ 10 ∷ []; previous_hash = zero_hash }

append-lost : append plain unsynced 7 empty ≡ (err "sync: input/output error", lost)
unfolding append
append-lost = refl

eighth-IsFaithful :
    IsFaithful plain (written_entry plain (fine 2) (2 ∷ []) 8 (append plain unsynced 7 empty).1)
unfolding new_entry new_body append
eighth-IsFaithful = record { parse_entry-entry_json = refl; one_line = (omega arith, tt) }

differs : ◌≢◌ {A = String} "07" zero_hash
unfolding string_eq
differs same =
    let apart : ("07" == zero_hash) ≡ false = refl in
    ground (arith, apart, (==_iff "07" zero_hash).1 same)

open_log-append_unsynced_example :
    open_log plain (append plain (fine 2) 8 (append plain unsynced 7 empty).1).1.file
    ≢ ok (record { file = 7 ∷ 10 ∷ 8 ∷ 10 ∷ []; previous_hash = "08" })
unfolding append new_entry new_body
open_log-append_unsynced_example =
    open_log-append_unsynced plain unsynced (fine 2) (1 ∷ []) (2 ∷ []) 7 8 empty
      "sync: input/output error" "audit-02" refl refl refl refl refl nil-IsSealed seventh-IsFaithful
      eighth-IsFaithful differs refl (record { file = 7 ∷ 10 ∷ 8 ∷ 10 ∷ []; previous_hash = "08" })

open_log_iff_example :
    (open_log plain (7 ∷ 10 ∷ []) ≡ ok one_line)
    ↔ ((one_line.file ≡ 7 ∷ 10 ∷ []) × IsChain plain zero_hash (lines (7 ∷ 10 ∷ [])) "07")
open_log_iff_example = open_log_iff plain (7 ∷ 10 ∷ []) one_line

open_one_line : open_log plain (7 ∷ 10 ∷ []) ≡ ok one_line
unfolding open_log string_eq
open_one_line = refl

-- A line whose hash is not that of its body, and one that does not name the hash before it.
open_tampered : open_log plain (7 ∷ 10 ∷ 8 ∷ 10 ∷ []) ≡ err "audit line 2: previous hash mismatch"
unfolding open_log string_eq decimal
open_tampered = refl

entries_determined_example :
    (entries plain (7 ∷ 10 ∷ []) ≡ entries plain (7 ∷ []))
    ⊎ Collision plain (entries plain (7 ∷ 10 ∷ [])) (entries plain (7 ∷ []))
unfolding open_log string_eq
entries_determined_example =
    entries_determined plain nat_eq.dec (7 ∷ 10 ∷ []) (7 ∷ []) one_line
      (record { file = 7 ∷ []; previous_hash = "07" }) refl refl refl
