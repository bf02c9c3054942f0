-- ===== src/RootHelper/Command/Output.antt =====
-- What `limitedBuffer` of internal/roothelper/executor.go keeps of what is written to it.
mod Examples
use pi_ops_agent.Base.{
  ℕ, zero, suc, Bool-cases, inl, inr, take_all, ◌+◌, ◌-◌, ◌≤◌, ◌<◌, ◌≡◌, refl, sym, ap, ◌∙◌, Bool,
  true, false, List, [], ◌∷◌, ◌++◌, arith, ltb, length, length-append, length-take, take,
  if◌then◌else◌,
}
use Prim.Native.Nat.{min}
use mathlib.Core.List.{append-nil, append_assoc}
use pi_ops_agent.RootHelper.Command.{Buffer, max_command_output, taken, write}

-- The buffer after writes, one after the other.
unfoldable pub write_all : List (List ℕ) → Buffer → Buffer
unfolding write
write_all [] b = b
write_all (p ∷ ps) b = write_all ps (write p b)

abbrev pub concat : List (List ℕ) → List ℕ
concat [] = []
concat (p ∷ ps) = p ++ concat ps

abbrev pub empty : Buffer
empty = record { payload = []; truncated = false }

-- The buffer holds as much of a text as there is room for, and says whether some is missing.
pub record Holds (text : List ℕ) (b : Buffer) : Type 0 where
  pub payload : b.payload ≡ take max_command_output text
  pub truncated : b.truncated ≡ ltb max_command_output (length text)

take-append_short : (n : ℕ) (s t : List ℕ) → n ≤ length s → take n (s ++ t) ≡ take n s
take-append_short zero s t h = refl
take-append_short (suc n) [] t h = absurd (omega arith)
take-append_short (suc n) (c ∷ s) t h = ap (λ u. c ∷ u) (take-append_short n s t (omega arith))

take-append_long :
    (n : ℕ) (s t : List ℕ) → length s ≤ n → take n (s ++ t) ≡ s ++ take (n - length s) t
take-append_long n [] t h = ap (λ k. take k t) (omega arith)
take-append_long zero (c ∷ s) t h = absurd (omega arith)
take-append_long (suc n) (c ∷ s) t h =
    ap (λ u. c ∷ u) (take-append_long n s t (omega arith) ∙ ap (λ k. s ++ take k t) (omega arith))

take-taken : (r : ℕ) (p : List ℕ) → take (taken r (length p)) p ≡ take r p
take-taken r p = elim (Bool-cases (ltb (length p) r)) [
  | inl shorter ↦
      ap (λ k. take k p) (ground arith)
      ∙ (take_all (length p) p (omega arith) ∙ sym (take_all r p (ground arith)))
  | inr longer ↦ ap (λ k. take k p) (ground arith)
]

-- What `Write` leaves in a buffer with some bytes, for any limit.
abbrev grown : ℕ → List ℕ → List ℕ → List ℕ
grown m s p = if ltb 0 (m - length s) then s ++ take (taken (m - length s) (length p)) p else s

grown-take : (m : ℕ) (text p : List ℕ) → grown m (take m text) p ≡ take m (text ++ p)
grown-take m text p = elim (Bool-cases (ltb (length text) m)) [
  | inl room ↦
      let some_room : ltb 0 (m - length text) ≡ true = ground arith in
      rw (take_all m text (ground arith)) (
        ap (λ (b : Bool). if b then text ++ take (taken (m - length text) (length p)) p else text)
          some_room
        ∙ (ap (λ u. text ++ u) (take-taken (m - length text) p)
            ∙ sym (take-append_long m text p (ground arith))))
  | inr full ↦
      let no_room : ltb 0 (m - length (take m text)) ≡ false = ground (arith, length-take m text) in
      rw no_room (sym (take-append_short m text p (ground arith)))
]

missing-sum :
    (m n l q : ℕ) (was : Bool)
    → n ≡ min m l
    → was ≡ ltb m l
    → (if ltb (taken (m - n) q) q then true else was) ≡ ltb m (l + q)
missing-sum m n l q was h k = elim (Bool-cases (ltb l m)) [
  | inl room ↦ ground arith
  | inr full ↦ ground arith
]

write-Holds : (text p : List ℕ) (b : Buffer) → Holds text b → Holds (text ++ p) (write p b)
unfolding write
write-Holds text p b h = record {
  payload = ap (λ s. grown max_command_output s p) h.payload ∙ grown-take max_command_output text p;
  truncated =
      missing-sum max_command_output (length b.payload) (length text) (length p) b.truncated
        (ap length h.payload ∙ length-take max_command_output text) h.truncated
      ∙ ap (ltb max_command_output) (sym (length-append text p));
}

write_all-Holds :
    (ps : List (List ℕ)) (text : List ℕ) (b : Buffer)
    → Holds text b
    → Holds (text ++ concat ps) (write_all ps b)
unfolding write_all
write_all-Holds [] text b h = rw (append-nil text) h
write_all-Holds (p ∷ ps) text b h =
    rw (← append_assoc text p (concat ps))
      (write_all-Holds ps (text ++ p) (write p b) (write-Holds text p b h))

-- Whatever pieces a command writes its output in, the buffer ends with the first 64 KiB of the
-- whole, and is marked as truncated exactly if there was more.
pub write_all-concat :
    (ps : List (List ℕ))
    → write_all ps empty ≡ record {
      payload = take max_command_output (concat ps);
      truncated = ltb max_command_output (length (concat ps));
    }
write_all-concat ps =
    let h = write_all-Holds ps [] empty (record { payload = refl; truncated = refl }) in
    cc (h.payload, h.truncated)
