-- ===== src/RootHelper/FileChange/Calls.antt =====
-- What the calls of internal/roothelper/executor.go that copy and replace a file leave at the paths.
use pi_ops_agent.Base.{
  ℕ, ◌+◌, take, ◌≡◌, ◌≢◌, inl, inr, refl, String, List, Option, none, some, arith, ok, Result-cases,
  string_eq,
}
use pi_ops_agent.Base.Dict.{lookup, insert, lookup-insert, lookup-insert_self}
use pi_ops_agent.RootHelper.Host.{
  Node, regular, other, read_node, rewritten, Host, System, read_file,
}
use pi_ops_agent.RootHelper.FileChange.{copy_out, copy_file}

abbrev pub at : String → Host → Option Node
at path h = lookup path h.files

module _ (sys : System) where
  module _ (destination : String) (mode : ℕ) (payload : List ℕ) (h : Host) where
    -- What a copy leaves when it stops halfway, and at its end.
    abbrev pub part : Node
    part = rewritten (at destination h) mode (take (sys.partial (h.tick + 1)) payload)

    abbrev pub whole : Node
    whole = rewritten (at destination h) mode payload

    pub copy_out-elsewhere :
        (path : String)
        → destination ≢ path
        → at path (copy_out sys destination mode payload h).1 ≡ at path h
    unfolding copy_out
    copy_out-elsewhere path differs = ground (
      arith,
      lookup-insert path destination part h.files,
      lookup-insert path destination whole (insert destination part h.files),
    )

    pub copy_out-done :
        (copy_out sys destination mode payload h).0 ≡ ok tt
        → at destination (copy_out sys destination mode payload h).1 ≡ some whole
    unfolding copy_out
    copy_out-done fine =
        ground (arith, lookup-insert_self destination whole (insert destination part h.files))

  pub read_rewritten :
      (o : Option Node) (mode : ℕ) (payload : List ℕ)
      → read_node (some (rewritten o mode payload)) ≡ ok payload
  read_rewritten none mode payload = refl
  read_rewritten (some (regular f)) mode payload = refl
  read_rewritten (some (other r)) mode payload = refl

  pub read_file-ok :
      (path : String) (payload : List ℕ) (h : Host)
      → (read_file sys path h).0 ≡ ok payload
      → (read_node (at path h) ≡ ok payload) × ((read_file sys path h).1.files ≡ h.files)
  unfolding read_file
  read_file-ok path payload h fine = ground arith

  pub read_file-files : (path : String) (h : Host) → (read_file sys path h).1.files ≡ h.files
  unfolding read_file
  read_file-files path h = ground arith

  pub copy_file-elsewhere :
      (source destination path : String) (mode : ℕ) (h : Host)
      → destination ≢ path
      → at path (copy_file sys source destination mode h).1 ≡ at path h
  unfolding copy_file
  copy_file-elsewhere source destination path mode h differs =
      let r = read_file sys source h in
      elim (Result-cases r.0) [
        | inr (e, failed) ↦ ground (arith, read_file-files source h)
        | inl (payload, read) ↦ ground (
          arith,
          copy_out-elsewhere destination mode payload r.1 path differs,
          read_file-files source h,
        )
      ]

  -- Where a copy succeeds, its destination reads as its source did.
  pub copy_file-done :
      (source destination : String) (mode : ℕ) (h : Host)
      → (copy_file sys source destination mode h).0 ≡ ok tt
      → (payload : List ℕ) × (read_node (at source h) ≡ ok payload)
        × (read_node (at destination (copy_file sys source destination mode h).1) ≡ ok payload)
  unfolding copy_file
  copy_file-done source destination mode h fine =
      let r = read_file sys source h in
      elim (Result-cases r.0) [
        | inr (e, failed) ↦ ground arith
        | inl (payload, read) ↦ (
          payload,
          (read_file-ok source payload h read).0,
          ground (
            arith,
            copy_out-done destination mode payload r.1,
            read_rewritten (at destination r.1) mode payload,
          ),
        )
      ]
