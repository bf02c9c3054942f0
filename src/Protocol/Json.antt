-- ===== src/Protocol/Json.antt =====
-- What internal/protocol/messages.go uses of encoding/json: the decoding of a JSON value into the fields of
-- a struct, and `strictDecode`.
use pi_ops_agent.Base.{
  ℕ, ◌+◌, ◌^◌, ℤ, pos, negsuc, String, ◌<>◌, Bool, true, false, ◌&&◌, List, [], ◌∷◌, map, Option,
  none, some, Result, ok, err, leb, ltb, ◌=?◌, if◌then◌else◌, ◌==◌, string_eq,
}
use pi_ops_agent.Protocol.Pattern.{codes, same}

-- A number is an integer in decimal digits, or any other number; a member carries the bytes of its value.
mutual
  pub data Json : Type 0 where
    null : Json
    boolean : Bool → Json
    integer : ℤ → Json
    fraction : Json
    text : String → Json
    array : Items → Json
    object : Members → Json

  pub data Items : Type 0 where
    no_items : Items
    item : Json → Items → Items

  pub data Members : Type 0 where
    no_members : Members
    member : String → List ℕ → Json → Members → Members

-- What the decoder finds next: the end after white space, a value and what follows it, or an error.
pub data Scan : Type 0 where
  end : Scan
  found : Json → List ℕ → Scan
  malformed : String → Scan

infixl 10 ◌>>=◌ ◌>>◌
abbrev pub ◌>>=◌ : {A B : Type 0} → Result A → (A → Result B) → Result B
ok a >>= f = f a
err e >>= f = err e

abbrev pub ◌>>◌ : {A B : Type 0} → Result A → Result B → Result B
m >> n = m >>= λ _. n

abbrev pub require : Bool → String → Result (Unit {0})
require true e = ok tt
require false e = err e

-- A field of a struct: its name in JSON, and what a value with these bytes makes of it.
pub record Field (S : Type 0) : Type 0 where
  pub name : String
  pub set : List ℕ → Json → S → Result S

-- The case of names is folded: the long s and the Kelvin sign are the letters s and k.
abbrev fold : ℕ → ℕ
fold c =
    if leb b'A' c && leb c b'Z'
    then c + 32
    else if c =? 383
    then b's'
    else if c =? 8490
    then b'k'
    else c

unfoldable pub same_folded : String → String → Bool
same_folded s t = same (map fold (codes s)) (map fold (codes t))

abbrev mismatch : {S : Type 0} → Result S
mismatch = err "json: cannot unmarshal value into Go struct field"

-- A null leaves a field as it is, but for a slice.
abbrev text_or : {S : Type 0} → (String → S → S) → Json → S → Result S
text_or put null s = ok s
text_or put (text t) s = ok (put t s)
text_or put _ s = mismatch

abbrev is_int64 : ℤ → Bool
is_int64 (pos n) = ltb n (2 ^ 63)
is_int64 (negsuc n) = ltb n (2 ^ 63)

abbrev integer_or : {S : Type 0} → (ℤ → S → S) → Json → S → Result S
integer_or put null s = ok s
integer_or put (integer n) s = if is_int64 n then ok (put n s) else mismatch
integer_or put _ s = mismatch

abbrev boolean_or : {S : Type 0} → (Bool → S → S) → Json → S → Result S
boolean_or put null s = ok s
boolean_or put (boolean b) s = ok (put b s)
boolean_or put _ s = mismatch

unfoldable pub texts_of : Items → Result (List String)
texts_of no_items = ok []
texts_of (item (text t) is) = texts_of is >>= λ ts. ok (t ∷ ts)
texts_of (item null is) = texts_of is >>= λ ts. ok ("" ∷ ts)
texts_of (item _ is) = mismatch

abbrev texts_or : {S : Type 0} → (List String → S → S) → Json → S → Result S
texts_or put null s = ok (put [] s)
texts_or put (array is) s = texts_of is >>= λ ts. ok (put ts s)
texts_or put _ s = mismatch

module _ {S : Type 0} where
  abbrev pub text_field : String → (String → S → S) → Field S
  text_field name put = record { name = name; set = λ raw. text_or put }

  abbrev pub integer_field : String → (ℤ → S → S) → Field S
  integer_field name put = record { name = name; set = λ raw. integer_or put }

  abbrev pub boolean_field : String → (Bool → S → S) → Field S
  boolean_field name put = record { name = name; set = λ raw. boolean_or put }

  abbrev pub texts_field : String → (List String → S → S) → Field S
  texts_field name put = record { name = name; set = λ raw. texts_or put }

  -- `json.RawMessage`
  abbrev pub raw_field : String → (List ℕ → S → S) → Field S
  raw_field name put = record { name = name; set = λ raw value s. ok (put raw s) }

  unfoldable pub find : (String → Bool) → List (Field S) → Option (Field S)
  find test [] = none
  find test (f ∷ fs) = let rest = find test fs in if test f.name then some f else rest

  -- The field of that name, or one whose name differs only in case.
  unfoldable pub field_of : List (Field S) → String → Option (Field S)
  unfolding find same_folded
  field_of fs key = elim (find (λ name. name == key) fs) [
    | some f ↦ some f
    | none ↦ find (λ name. same_folded name key) fs
  ]

  -- Later members overwrite earlier ones; an unknown one is an error where `strict`.
  unfoldable pub set_members : Bool → List (Field S) → Members → S → Result S
  unfolding field_of
  set_members strict fs no_members s = ok s
  set_members strict fs (member key raw value ms) s = elim (field_of fs key) [
    | some f ↦ f.set raw value s >>= set_members strict fs ms
    | none ↦
        if strict
        then err ("json: unknown field \"" <> (key <> "\""))
        else set_members strict fs ms s
  ]

  abbrev pub decode_value : Bool → List (Field S) → Json → S → Result S
  decode_value strict fs null s = ok s
  decode_value strict fs (object ms) s = set_members strict fs ms s
  decode_value strict fs _ s = err "json: cannot unmarshal value into Go value of type struct"

-- The value of a text that holds one value and nothing else.
abbrev whole : (List ℕ → Scan) → Scan → Result Json
whole next_value end = err "unexpected end of JSON input"
whole next_value (malformed e) = err e
whole next_value (found v rest) = elim (next_value rest) [
  | end ↦ ok v
  | _ ↦ err "invalid character after top-level value"
]

-- What the second `Decode`, into a struct without fields, answers.
abbrev trailing : Result (Unit {0}) → String
trailing (ok tt) = "strict JSON decode: trailing value"
trailing (err e) = "strict JSON decode: " <> e

abbrev expect_end : Scan → Result (Unit {0})
expect_end end = ok tt
expect_end (found v rest) = err (trailing (decode_value true [] v tt))
expect_end (malformed e) = err ("strict JSON decode: " <> e)

module _ {S : Type 0} (next_value : List ℕ → Scan) where
  -- `json.Unmarshal`
  unfoldable pub unmarshal : List (Field S) → List ℕ → S → Result S
  unfolding set_members
  unmarshal fs payload s = do v ← whole next_value (next_value payload); decode_value false fs v s

  abbrev strict : Result S → Result S
  strict (ok s) = ok s
  strict (err e) = err ("strict JSON decode: " <> e)

  abbrev decode_scanned : List (Field S) → S → Scan → Result S
  decode_scanned fs s end = err "strict JSON decode: EOF"
  decode_scanned fs s (malformed e) = err ("strict JSON decode: " <> e)
  decode_scanned fs s (found v rest) = do
    t ← strict (decode_value true fs v s)
    expect_end (next_value rest)
    ok t

  unfoldable pub strict_decode : List (Field S) → List ℕ → S → Result S
  unfolding set_members
  strict_decode fs payload s = decode_scanned fs s (next_value payload)
