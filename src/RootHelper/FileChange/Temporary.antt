-- ===== src/RootHelper/FileChange/Temporary.antt =====
-- What `atomicReplace` of internal/roothelper/executor.go does by way of its temporary file.
use pi_ops_agent.Base.{
  ℕ, ◌+◌, ◌*◌, ℤ, pos, negsuc, ◌≡◌, ◌⊎◌, inl, inr, refl, ap, ◌∙◌, Result, String, List, [], none,
  some, arith, ok, err, Result-cases, Option-cases, string_eq,
}
use pi_ops_agent.Base.Dict.{insert}
use pi_ops_agent.RootHelper.Host.{
  File, Node, regular, Host, System, Action, ◌>>◌, create_temporary, remove_temporary,
  removing_temporary,
}
use pi_ops_agent.RootHelper.FileChange.{
  perm, owned, set_temporary, write_temporary, prepare_temporary, install_temporary, atomic_replace,
}

-- The file that `atomicReplace` puts at its path.
abbrev pub placed : List ℕ → ℕ → ℤ → ℤ → Node
placed payload mode uid gid =
    regular (record { content = payload; mode = perm mode; uid = owned uid 0; gid = owned gid 0 })

module _ (sys : System) where
  set_temporary-done :
      (mode : ℕ) (uid gid : ℤ) (h : Host) (f : File)
      → h.temporary ≡ some f
      → (set_temporary sys mode uid gid h).0 ≡ ok tt
      → (set_temporary sys mode uid gid h).1.temporary
        ≡ some (record f { mode = perm mode; uid = owned uid f.uid; gid = owned gid f.gid })
  unfolding set_temporary
  set_temporary-done mode (pos u) (pos g) h f is fine = ground arith
  set_temporary-done mode (pos u) (negsuc g) h f is fine = ground arith
  set_temporary-done mode (negsuc u) (pos g) h f is fine = ground arith
  set_temporary-done mode (negsuc u) (negsuc g) h f is fine = ground arith

  set_temporary-files :
      (mode : ℕ) (uid gid : ℤ) (h : Host) → (set_temporary sys mode uid gid h).1.files ≡ h.files
  unfolding set_temporary
  set_temporary-files mode uid gid h = ground arith

  write_temporary-done :
      (payload : List ℕ) (h : Host) (f : File)
      → h.temporary ≡ some f
      → (write_temporary sys payload h).0 ≡ ok tt
      → (write_temporary sys payload h).1.temporary ≡ some (record f { content = payload })
  unfolding write_temporary
  write_temporary-done payload h f is fine = ground arith

  write_temporary-files :
      (payload : List ℕ) (h : Host) → (write_temporary sys payload h).1.files ≡ h.files
  unfolding write_temporary
  write_temporary-files payload h = ground arith

  pub prepare_temporary-files :
      (payload : List ℕ) (mode : ℕ) (uid gid : ℤ) (h : Host)
      → (prepare_temporary sys payload mode uid gid h).1.files ≡ h.files
  unfolding prepare_temporary
  prepare_temporary-files payload mode uid gid h = ground (
    arith,
    set_temporary-files mode uid gid h,
    write_temporary-files payload (set_temporary sys mode uid gid h).1,
  )

  -- The temporary file that is ready for the rename.
  abbrev made : List ℕ → ℕ → ℤ → ℤ → File
  made payload mode uid gid = record {
    content = payload;
    mode = perm mode;
    uid = owned uid 0;
    gid = owned gid 0;
  }

  abbrev empty : File
  empty = record { content = []; mode = 6 * 64; uid = 0; gid = 0 }

  prepare_temporary-done :
      (payload : List ℕ) (mode : ℕ) (uid gid : ℤ) (h : Host)
      → h.temporary ≡ some empty
      → (prepare_temporary sys payload mode uid gid h).0 ≡ ok tt
      → (prepare_temporary sys payload mode uid gid h).1.temporary
        ≡ some (made payload mode uid gid)
  unfolding prepare_temporary
  prepare_temporary-done payload mode uid gid h is fine =
      let t = set_temporary sys mode uid gid h in
      elim (Result-cases t.0) [
        | inr (e, failed) ↦ ground arith
        | inl (_, set) ↦ rw set (
            write_temporary-done payload t.1 _ (set_temporary-done mode uid gid h empty is set)
              (rw set at fine))
      ]

  remove_temporary-files : (h : Host) → (remove_temporary sys h).files ≡ h.files
  unfolding remove_temporary
  remove_temporary-files h = ground arith

  install_temporary-files :
      (path : String) (f : File) (h : Host)
      → h.temporary ≡ some f
      → ((install_temporary sys path h).1.files ≡ insert path (regular f) h.files)
        ⊎ ((e : String) × ((install_temporary sys path h).0 ≡ err e)
            × ((install_temporary sys path h).1.files ≡ h.files))
  unfolding install_temporary
  install_temporary-files path f h is = elim (Option-cases (sys.fault h.tick)) [
    | inr (e, failed) ↦ inr (e, ground arith, ground arith)
    | inl renamed ↦ inl (ground arith)
  ]

  -- From the making of the temporary file on.
  abbrev filling : String → List ℕ → ℕ → ℤ → ℤ → Action (Unit {0})
  filling path payload mode uid gid = do
    prepare_temporary sys payload mode uid gid
    install_temporary sys path

  filling-files :
      (path : String) (payload : List ℕ) (mode : ℕ) (uid gid : ℤ) (h : Host)
      → h.temporary ≡ some empty
      → let t = filling path payload mode uid gid h in
        (t.1.files ≡ insert path (placed payload mode uid gid) h.files)
        ⊎ ((e : String) × (t.0 ≡ err e) × (t.1.files ≡ h.files))
  filling-files path payload mode uid gid h is =
      let t = prepare_temporary sys payload mode uid gid h in
      let same = prepare_temporary-files payload mode uid gid h in
      elim (Result-cases t.0) [
        | inr (e, failed) ↦ inr (e, rw failed refl, rw failed same)
        | inl (_, ready) ↦
            let step : filling path payload mode uid gid h ≡ install_temporary sys path t.1 =
              rw ready refl in
            elim (install_temporary-files path (made payload mode uid gid) t.1
              (prepare_temporary-done payload mode uid gid h is ready)) [
                | inl put ↦ inl (
                    ap (λ (r : Result (Unit {0}) × Host). r.1.files) step
                    ∙ (put ∙ ap (insert path (placed payload mode uid gid)) same))
                | inr (e, failed, kept) ↦ inr (
                  e,
                  ap (λ (r : Result (Unit {0}) × Host). r.0) step ∙ failed,
                  ap (λ (r : Result (Unit {0}) × Host). r.1.files) step ∙ (kept ∙ same),
                )
              ]
      ]

  removing_temporary-result :
      (m : Action (Unit {0})) (h : Host)
      → ((removing_temporary sys m h).0 ≡ (m h).0)
        × ((removing_temporary sys m h).1.files ≡ (m h).1.files)
  unfolding removing_temporary
  removing_temporary-result m h = (refl, remove_temporary-files (m h).1)

  removing_temporary-gone :
      (m : Action (Unit {0})) (h : Host)
      → let t = (removing_temporary sys m h).1 in
        (t.temporary ≡ none) ⊎ ((n : ℕ) × (e : String) × (t.tick ≡ n + 1) × (sys.fault n ≡ some e))
  unfolding removing_temporary
  removing_temporary-gone m h = elim (Option-cases (sys.fault (m h).1.tick)) [
    | inl fine ↦ inl (rw (fine, remove_temporary) refl)
    | inr (e, failed) ↦ inr ((m h).1.tick, e, rw (failed, remove_temporary) refl, failed)
  ]

  atomic_replace-filling :
      (path : String) (payload : List ℕ) (mode : ℕ) (uid gid : ℤ) (h : Host)
      → sys.fault h.tick ≡ none
      → atomic_replace sys path payload mode uid gid h
        ≡ removing_temporary sys (filling path payload mode uid gid) (create_temporary sys h).1
  unfolding atomic_replace
  atomic_replace-filling path payload mode uid gid h fine = rw fine refl

  -- The file is in its place, or nothing has changed.
  pub atomic_replace-files :
      (path : String) (payload : List ℕ) (mode : ℕ) (uid gid : ℤ) (h : Host)
      → ((atomic_replace sys path payload mode uid gid h).1.files
          ≡ insert path (placed payload mode uid gid) h.files)
        ⊎ ((e : String) × ((atomic_replace sys path payload mode uid gid h).0 ≡ err e)
            × ((atomic_replace sys path payload mode uid gid h).1.files ≡ h.files))
  unfolding atomic_replace
  atomic_replace-files path payload mode uid gid h =
      let start = (create_temporary sys h).1 in
      let m = filling path payload mode uid gid in
      let (result, files) = removing_temporary-result m start in
      elim (Option-cases (sys.fault h.tick)) [
        | inr (e, failed) ↦ inr (e, rw failed refl, rw failed refl)
        | inl fine ↦
            let step = atomic_replace-filling path payload mode uid gid h fine in
            let empty_made : start.temporary ≡ some empty = rw (fine, create_temporary) refl in
            let same : start.files ≡ h.files = rw (fine, create_temporary) refl in
            elim (filling-files path payload mode uid gid start empty_made) [
              | inl put ↦ inl (
                  ap (λ (r : Result (Unit {0}) × Host). r.1.files) step
                  ∙ (files ∙ (put ∙ ap (insert path (placed payload mode uid gid)) same)))
              | inr (e, failed, kept) ↦ inr (
                e,
                ap (λ (r : Result (Unit {0}) × Host). r.0) step ∙ (result ∙ failed),
                ap (λ (r : Result (Unit {0}) × Host). r.1.files) step ∙ (files ∙ (kept ∙ same)),
              )
            ]
      ]

  -- What is left of the temporary file is removed, unless the last call, its removal, fails.
  pub atomic_replace-gone :
      (path : String) (payload : List ℕ) (mode : ℕ) (uid gid : ℤ) (h : Host)
      → let t = (atomic_replace sys path payload mode uid gid h).1 in
        (t.temporary ≡ none)
        ⊎ (t.temporary ≡ h.temporary)
        ⊎ ((n : ℕ) × (e : String) × (t.tick ≡ n + 1) × (sys.fault n ≡ some e))
  unfolding atomic_replace
  atomic_replace-gone path payload mode uid gid h = elim (Option-cases (sys.fault h.tick)) [
    | inr (e, failed) ↦ inr (inl (rw failed refl))
    | inl fine ↦
        let step = atomic_replace-filling path payload mode uid gid h fine in
        elim (removing_temporary-gone (filling path payload mode uid gid)
          (create_temporary sys h).1) [
            | inl gone ↦ inl (ap (λ (r : Result (Unit {0}) × Host). r.1.temporary) step ∙ gone)
            | inr (n, e, last, failed) ↦
                inr
                  (inr (n, e, ap (λ (r : Result (Unit {0}) × Host). r.1.tick) step ∙ last, failed))
          ]
  ]
