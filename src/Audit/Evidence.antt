-- ===== src/Audit/Evidence.antt =====
-- What the chain of internal/audit/log.go shows: a file whose last hash is known cannot have been
-- rewritten without a collision of the hash.
use pi_ops_agent.Base.{
  ℕ, ◌≡◌, ◌≢◌, ◌⊎◌, refl, ap, String, List, [], ◌∷◌, ok, err, inl, inr, Result, string_eq,
}
use mathlib.Core.Logic.{dite}
use mathlib.Core.List.{Memᴰ}
use pi_ops_agent.Audit.{Entry, HashBody, Encoding, Log, zero_hash, lines, open_log}
use pi_ops_agent.Audit.Chain.{digest, IsChain, open_log_iff}

HashBody-discrete : {E : Type 0} → Discrete E → Discrete (HashBody E)
HashBody-discrete event b c =
    dite (string_eq.dec b.audit_id c.audit_id)
      (λ p.
        dite (string_eq.dec b.timestamp c.timestamp)
          (λ q.
            dite (string_eq.dec b.previous_hash c.previous_hash)
              (λ r.
                dite (event b.event c.event) (λ s. yes (cc (p, q, r, s))) (λ n. no (λ e. n (cc e))))
              (λ n. no (λ e. n (cc e))))
          (λ n. no (λ e. n (cc e))))
      (λ n. no (λ e. n (cc e)))

module _ {E : Type 0} (enc : Encoding E) where
  abbrev parsed_onto : List (Entry E) → Result (Entry E) → List (Entry E)
  parsed_onto es (ok e) = e ∷ es
  parsed_onto es (err x) = es

  -- The entries of the lines, the newest first, before others.
  abbrev pub entries_onto : List (Entry E) → List (List ℕ) → List (Entry E)
  entries_onto es [] = es
  entries_onto es (l ∷ ls) = entries_onto (parsed_onto es (enc.parse_entry l)) ls

  -- The entries of a file, the newest first.
  abbrev pub entries : List ℕ → List (Entry E)
  entries file = entries_onto [] (lines file)

  -- An entry of the one list and an entry of the other that differ and have one hash, or an entry
  -- of either whose hash is that of the empty log.
  abbrev pub Collision : List (Entry E) → List (Entry E) → Type 0
  Collision es fs =
      ((e : Entry E) × (f : Entry E) × Memᴰ e es
        × Memᴰ f fs
        × (e.body ≢ f.body)
        × (digest enc e.body ≡ digest enc f.body))
      ⊎ ((e : Entry E) × (Memᴰ e es ⊎ Memᴰ e fs) × (digest enc e.body ≡ zero_hash))

  Collision-older :
      (e f : Entry E) (es fs : List (Entry E)) → Collision es fs → Collision (e ∷ es) (f ∷ fs)
  Collision-older e f es fs (inl (a, b, m, n, differ, same)) =
      inl (a, b, Memᴰ.tail m, Memᴰ.tail n, differ, same)
  Collision-older e f es fs (inr (a, inl m, zero)) = inr (a, inl (Memᴰ.tail m), zero)
  Collision-older e f es fs (inr (a, inr m, zero)) = inr (a, inr (Memᴰ.tail m), zero)

  -- The chain again, from its last entry backwards.
  abbrev Back : List (Entry E) → String → Type 0
  Back [] last = last ≡ zero_hash
  Back (e ∷ es) last = (e.hash ≡ last) × (e.hash ≡ digest enc e.body) × Back es e.previous_hash

  Back-entries :
      (es : List (Entry E)) (p q : String) (ls : List (List ℕ))
      → Back es p
      → IsChain enc p ls q
      → Back (entries_onto es ls) q
  Back-entries es p q [] back h = rw (← h) back
  Back-entries es p q (l ∷ ls) back (e, parsed, fits, before, own, h) =
      rw parsed (Back-entries (e ∷ es) e.hash q ls (refl, own, rw before back) h)

  Back-unique :
      Discrete (HashBody E)
      → (es fs : List (Entry E)) (last : String) → Back es last
      → Back fs last
      → (es ≡ fs) ⊎ Collision es fs
  Back-unique dec [] [] last h k = inl refl
  Back-unique dec [] (f ∷ fs) last h (at, own, back) = inr (inr (f, inr (Memᴰ.head refl), cc))
  Back-unique dec (e ∷ es) [] last (at, own, back) k = inr (inr (e, inl (Memᴰ.head refl), cc))
  Back-unique dec (e ∷ es) (f ∷ fs) last (at, own, back) (at', own', back') =
      dite (dec e.body f.body)
        (λ same.
          elim (Back-unique dec es fs e.previous_hash back
            (rw (ap (λ (b : HashBody E). b.previous_hash) same) back')) [
              | inl older ↦ inl (cc (older, at, at', same))
              | inr found ↦ inr (Collision-older e f es fs found)
            ])
        (λ differ. inr (inl (e, f, Memᴰ.head refl, Memᴰ.head refl, differ, cc)))

  -- Two files that `Open` accepts and that end in the same hash hold the same entries, or show a
  -- collision among their own entries: an entry of the one and an entry of the other that differ
  -- in what is hashed and have the same SHA-256, or an entry of either whose SHA-256 is 64 zeros,
  -- the hash that a chain starts from. Events can be compared.
  pub entries_determined :
      Discrete E
      → (file other : List ℕ) (log log' : Log) → open_log enc file ≡ ok log
      → open_log enc other ≡ ok log'
      → log.previous_hash ≡ log'.previous_hash
      → (entries file ≡ entries other) ⊎ Collision (entries file) (entries other)
  entries_determined dec file other log log' h k same =
      Back-unique (HashBody-discrete dec) (entries file) (entries other) log'.previous_hash
        (rw same at (
          Back-entries [] zero_hash log.previous_hash (lines file) refl
            ((open_log_iff enc file log).0 h).1))
        (Back-entries [] zero_hash log'.previous_hash (lines other) refl
          ((open_log_iff enc other log').0 k).1)
