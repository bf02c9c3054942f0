-- ===== src/Programs/Lifetime/Printing.antt =====
-- A concrete printing of operations as numbers, which is read back, for runs of the root helper.
use Prim.Native.Nat.{Ordering, compare}
use Prim.Native.Char.{char, IsLt, IsScalar}
use text.Mathlib.TextEquality.{Char-path}
use pi_ops_agent.Base.{
  ℕ, zero, suc, ◌≡◌, refl, ap, ◌∙◌, String, Bool, true, false, List, [], ◌∷◌, ◌++◌, Result, ok, err,
  length, take, drop, take-append, drop-append,
}
use pi_ops_agent.Protocol.Pattern.{codes}
use pi_ops_agent.Protocol.Operations.{
  Operation, package_install, service_action, file_write, breakglass_script,
}

abbrev Both : Ordering → Ordering → Type 0
Both Ordering.lt o = IsLt o
Both Ordering.eq _ = ⊥
Both Ordering.gt _ = ⊥

-- `IsScalar n` is this of three comparisons.
abbrev Scalar : Ordering → Ordering → Ordering → Type 0
Scalar Ordering.lt _ _ = Unit
Scalar Ordering.eq o p = Both o p
Scalar Ordering.gt o p = Both o p

is_lt : (o : Ordering) → Dec (IsLt o)
is_lt Ordering.lt = yes tt
is_lt Ordering.eq = no (λ h. h)
is_lt Ordering.gt = no (λ h. h)

are_both : (o p : Ordering) → Dec (Both o p)
unfolding is_lt
are_both Ordering.lt p = is_lt p
are_both Ordering.eq p = no (λ h. h)
are_both Ordering.gt p = no (λ h. h)

is_scalar : (o p q : Ordering) → Dec (Scalar o p q)
unfolding are_both
is_scalar Ordering.lt p q = yes tt
is_scalar Ordering.eq p q = are_both p q
is_scalar Ordering.gt p q = are_both p q

char_if : (n : ℕ) → Dec (IsScalar n) → String → String
char_if n (yes h) s = String.◌∷◌ (char n h) s
char_if n (no h) s = s

text_of : List ℕ → String
unfolding char_if is_scalar
text_of [] = String.[]
text_of (n ∷ ns) =
    char_if n (is_scalar (compare n 55296) (compare 57343 n) (compare n 1114112)) (text_of ns)

char_if_lem :
    (n : ℕ) (h : IsScalar n) (d : Dec (IsScalar n)) (s : String)
    → char_if n d s ≡ String.◌∷◌ (char n h) s
unfolding char_if
char_if_lem n h (yes k) s = ap (λ c. String.◌∷◌ c s) (Char-path (char n k) (char n h) refl)
char_if_lem n h (no k) s = absurd (k h)

text_of-codes : (s : String) → text_of (codes s) ≡ s
unfolding text_of
text_of-codes String.[] = refl
text_of-codes (String.◌∷◌ (char n h) s) =
    char_if_lem n h (is_scalar (compare n 55296) (compare 57343 n) (compare n 1114112)) _
    ∙ ap (String.◌∷◌ (char n h)) (text_of-codes s)

-- A text with its length in front.
put_text : String → List ℕ → List ℕ
put_text s rest = length (codes s) ∷ codes s ++ rest

take_text : List ℕ → String × List ℕ
unfolding text_of
take_text [] = ("", [])
take_text (n ∷ xs) = (text_of (take n xs), drop n xs)

take_text-put_text : (s : String) (rest : List ℕ) → take_text (put_text s rest) ≡ (s, rest)
unfolding take_text put_text
take_text-put_text s rest = λ i.
    ((ap text_of (take-append (codes s) rest) ∙ text_of-codes s) i, drop-append (codes s) rest i)

put_texts : List String → List ℕ → List ℕ
put_texts [] rest = rest
put_texts (s ∷ ss) rest = put_text s (put_texts ss rest)

take_texts : ℕ → List ℕ → List String × List ℕ
take_texts zero xs = ([], xs)
take_texts (suc n) xs = let (s, ys) = take_text xs in let (ss, zs) = take_texts n ys in (s ∷ ss, zs)

take_texts-put_texts :
    (ss : List String) (rest : List ℕ) → take_texts (length ss) (put_texts ss rest) ≡ (ss, rest)
unfolding take_texts put_texts
take_texts-put_texts [] rest = refl
take_texts-put_texts (s ∷ ss) rest =
    rw (take_text-put_text s (put_texts ss rest)) (rw (take_texts-put_texts ss rest) refl)

number_of : Bool → ℕ
number_of true = 1
number_of false = 0

is_one : ℕ → Bool
is_one zero = false
is_one (suc n) = true

is_one-number_of : (b : Bool) → is_one (number_of b) ≡ b
unfolding is_one number_of
is_one-number_of true = refl
is_one-number_of false = refl

unfoldable pub print : Operation → List ℕ
unfolding put_texts put_text number_of
print (package_install o) = 0 ∷ put_texts (o.operation_kind ∷ o.package_name ∷ o.version ∷ []) []
print (service_action o) = 1 ∷ put_texts (o.operation_kind ∷ o.unit ∷ o.action ∷ []) []
print (file_write o) = 2 ∷ put_texts (o.operation_kind ∷ o.path ∷ o.content ∷ o.mode ∷ []) []
print (breakglass_script o) =
    3
    ∷ length o.backup_paths
    ∷ number_of o.network
    ∷ put_texts o.backup_paths (put_texts (o.operation_kind ∷ o.script ∷ o.verify_script ∷ []) [])

-- The operation of a number and the texts behind it.
of_texts : ℕ → List String → Result Operation
of_texts zero (k ∷ name ∷ version ∷ []) =
    ok (package_install (record { operation_kind = k; package_name = name; version = version }))
of_texts (suc zero) (k ∷ unit ∷ action ∷ []) =
    ok (service_action (record { operation_kind = k; unit = unit; action = action }))
of_texts (suc (suc zero)) (k ∷ path ∷ content ∷ mode ∷ []) =
    ok (file_write (record { operation_kind = k; path = path; content = content; mode = mode }))
of_texts _ _ = err "json"

of_breakglass : List String → ℕ → List String → Result Operation
of_breakglass paths network (k ∷ script ∷ verify ∷ []) = ok (
    breakglass_script (record {
      operation_kind = k;
      script = script;
      backup_paths = paths;
      verify_script = verify;
      network = is_one network;
    }))
of_breakglass _ _ _ = err "json"

read_breakglass : List ℕ → Result Operation
read_breakglass (n ∷ network ∷ xs) =
    let (paths, ys) = take_texts n xs in of_breakglass paths network (take_texts 3 ys).0
read_breakglass _ = err "json"

unfoldable pub read_operation : List ℕ → Result Operation
unfolding of_texts read_breakglass of_breakglass take_texts take_text text_of is_one
read_operation [] = err "json"
read_operation (zero ∷ xs) = of_texts 0 (take_texts 3 xs).0
read_operation (suc zero ∷ xs) = of_texts 1 (take_texts 3 xs).0
read_operation (suc (suc zero) ∷ xs) = of_texts 2 (take_texts 4 xs).0
read_operation (suc (suc (suc n)) ∷ xs) = read_breakglass xs

pub read_operation-print : (o : Operation) → read_operation (print o) ≡ ok o
unfolding read_operation print
read_operation-print (package_install o) =
    ap (λ (p : List String × List ℕ). of_texts 0 p.0)
      (take_texts-put_texts (o.operation_kind ∷ o.package_name ∷ o.version ∷ []) [])
read_operation-print (service_action o) =
    ap (λ (p : List String × List ℕ). of_texts 1 p.0)
      (take_texts-put_texts (o.operation_kind ∷ o.unit ∷ o.action ∷ []) [])
read_operation-print (file_write o) =
    ap (λ (p : List String × List ℕ). of_texts 2 p.0)
      (take_texts-put_texts (o.operation_kind ∷ o.path ∷ o.content ∷ o.mode ∷ []) [])
read_operation-print (breakglass_script o) =
    let texts = o.operation_kind ∷ o.script ∷ o.verify_script ∷ [] in
    let n = number_of o.network in
    ap (λ (p : List String × List ℕ). of_breakglass p.0 n (take_texts 3 p.1).0)
      (take_texts-put_texts o.backup_paths (put_texts texts []))
    ∙ (ap (λ (p : List String × List ℕ). of_breakglass o.backup_paths n p.0)
          (take_texts-put_texts texts [])
        ∙ ap (λ b. ok (breakglass_script (record o { network = b }))) (is_one-number_of o.network))
