-- ===== src/Audit/Lines.antt =====
-- The lines of a file that grows by whole lines, internal/audit/log.go.
use pi_ops_agent.Base.{ℕ, ◌≡◌, refl, ap, sym, ◌∙◌, ◌≢◌, List, [], ◌∷◌, ◌++◌, arith, All}
use mathlib.Core.Path.{◌≡⟨◌⟩◌, ◌∎}
use mathlib.Core.List.{append_assoc}
use pi_ops_agent.Audit.{lines, newline}

abbrev pub NoNewline : List ℕ → Type 0
NoNewline = All (λ c. c ≢ newline)

-- The file is empty or ends in a newline: what is appended begins a line of its own.
pub record IsSealed (file : List ℕ) : Type 0 where
  pub apart : (more : List ℕ) → lines (file ++ more) ≡ lines file ++ lines more

pub lines-line : (l more : List ℕ) → NoNewline l → lines (l ++ newline ∷ more) ≡ l ∷ lines more
unfolding lines
lines-line [] more h = refl
lines-line (c ∷ l) more (h, hs) = ground (arith, lines-line l more hs)

pub nil-IsSealed : IsSealed []
unfolding lines
nil-IsSealed = record { apart = λ more. refl }

pub lines-append_line :
    {file : List ℕ} (l : List ℕ)
    → IsSealed file
    → NoNewline l
    → lines (file ++ (l ++ newline ∷ [])) ≡ lines file ++ l ∷ []
unfolding lines
lines-append_line {file} l s h =
    s.apart (l ++ newline ∷ []) ∙ ap (λ t. lines file ++ t) (lines-line l [] h)

pub append-IsSealed :
    {file : List ℕ} (l : List ℕ)
    → IsSealed file
    → NoNewline l
    → IsSealed (file ++ (l ++ newline ∷ []))
append-IsSealed {file} l s h = record {
  apart = λ more.
      lines ((file ++ (l ++ newline ∷ [])) ++ more)
      ≡⟨ ap lines (
          append_assoc file (l ++ newline ∷ []) more
          ∙ ap (λ t. file ++ t) (append_assoc l (newline ∷ []) more)) ⟩
        lines (file ++ (l ++ newline ∷ more))
      ≡⟨ s.apart (l ++ newline ∷ more) ⟩ lines file ++ lines (l ++ newline ∷ more)
      ≡⟨ ap (λ t. lines file ++ t) (lines-line l more h) ⟩ lines file ++ l ∷ lines more
      ≡⟨ sym (append_assoc (lines file) (l ∷ []) (lines more)) ⟩
        (lines file ++ l ∷ []) ++ lines more
      ≡⟨ ap (λ t. t ++ lines more) (sym (lines-append_line l s h)) ⟩
        lines (file ++ (l ++ newline ∷ [])) ++ lines more ∎;
}
