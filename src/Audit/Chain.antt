-- ===== src/Audit/Chain.antt =====
-- The chain that `verifyExisting` of internal/audit/log.go accepts, as a property of the lines.
use pi_ops_agent.Base.{
  ℕ, suc, ◌*◌, hex_text, ◌<◌, ◌≡◌, refl, ◌↔◌, String, List, [], ◌∷◌, ◌++◌, arith, length, ok,
  Result-cases, inl, inr,
}
use pi_ops_agent.Audit.{
  Entry, Encoding, Log, HashBody, zero_hash, lines, calculate_hash, verify_from, verify_existing,
  open_log,
}

module _ {E : Type 0} (enc : Encoding E) where
  -- SHA-256 of the JSON of a body, in hexadecimal digits.
  abbrev pub digest : HashBody E → String
  digest body = hex_text (enc.sha256 (enc.body_json body))

  pub calculate_hash-digest : (body : HashBody E) → calculate_hash enc body ≡ digest body
  unfolding calculate_hash
  calculate_hash-digest body = refl

  -- The lines are entries, each bound to the hash before it and to its own body; the hash of the
  -- last one is `last`.
  abbrev pub IsChain : String → List (List ℕ) → String → Type 0
  IsChain previous [] last = previous ≡ last
  IsChain previous (l ∷ ls) last =
      (entry : Entry E) × (enc.parse_entry l ≡ ok entry)
      × (length l < 1024 * 1024)
      × (entry.previous_hash ≡ previous)
      × (entry.hash ≡ digest entry.body)
      × IsChain entry.hash ls last

  pub IsChain-append :
      (p q r : String) (ls ms : List (List ℕ))
      → IsChain p ls q
      → IsChain q ms r
      → IsChain p (ls ++ ms) r
  IsChain-append p q r [] ms h k = rw h k
  IsChain-append p q r (l ∷ ls) ms (e, parsed, fits, before, own, h) k =
      (e, parsed, fits, before, own, IsChain-append e.hash q r ls ms h k)

  verify_from_sound :
      (n : ℕ) (p q : String) (ls : List (List ℕ)) → verify_from enc n p ls ≡ ok q → IsChain p ls q
  unfolding verify_from
  verify_from_sound n p q [] h = ground arith
  verify_from_sound n p q (l ∷ ls) h = elim (Result-cases (enc.parse_entry l)) [
    | inl (e, parsed) ↦ (
      e,
      parsed,
      ground arith,
      ground arith,
      ground (arith, calculate_hash-digest e.body),
      verify_from_sound (suc n) e.hash q ls (ground arith),
    )
    | inr (e, failed) ↦ ground arith
  ]

  verify_from_complete :
      (n : ℕ) (p q : String) (ls : List (List ℕ)) → IsChain p ls q → verify_from enc n p ls ≡ ok q
  unfolding verify_from
  verify_from_complete n p q [] h = ground arith
  verify_from_complete n p q (l ∷ ls) (e, parsed, fits, before, own, h) =
      ground (arith, verify_from_complete (suc n) e.hash q ls h, calculate_hash-digest e.body)

  -- `Open` accepts a file whose bytes can be read exactly when its lines are a chain from the zero
  -- hash, each a line of less than 1 MiB and an entry with the hash before it and the hash of its
  -- own body, and goes on from the hash of the last line.
  pub open_log_iff :
      (file : List ℕ) (log : Log)
      → (open_log enc file ≡ ok log)
        ↔ ((log.file ≡ file) × IsChain zero_hash (lines file) log.previous_hash)
  unfolding open_log verify_existing
  open_log_iff file log = (
    λ h. open_log-sound h,
    λ (same, chain).
        ground (arith, verify_from_complete 0 zero_hash log.previous_hash (lines file) chain),
  )
    where
      open_log-sound :
          open_log enc file ≡ ok log
          → (log.file ≡ file) × IsChain zero_hash (lines file) log.previous_hash
      open_log-sound h = elim (Result-cases (verify_from enc 0 zero_hash (lines file))) [
        | inl (q, verified) ↦
            let is : q ≡ log.previous_hash = ground arith in
            (ground arith, rw (← is) (verify_from_sound 0 zero_hash q (lines file) verified))
        | inr (e, failed) ↦ ground arith
      ]

  pub IsChain-split :
      (p r : String) (ls ms : List (List ℕ))
      → IsChain p (ls ++ ms) r
      → (q : String) × IsChain p ls q × IsChain q ms r
  IsChain-split p r [] ms h = (p, refl, h)
  IsChain-split p r (l ∷ ls) ms (e, parsed, fits, before, own, h) =
      let (q, left, right) = IsChain-split e.hash r ls ms h in
      (q, (e, parsed, fits, before, own, left), right)

  -- The last line of a chain.
  pub IsChain-last :
      (p r : String) (ls : List (List ℕ)) (l : List ℕ) (e : Entry E)
      → enc.parse_entry l ≡ ok e
      → IsChain p (ls ++ l ∷ []) r
      → (e.hash ≡ r) × IsChain p ls e.previous_hash
  IsChain-last p r ls l e is h =
      let (q, left, (e', parsed, fits, before, own, ends)) = IsChain-split p r ls (l ∷ []) h in
      let same : e' ≡ e = cc in (cc, rw (← same) (rw before left))
