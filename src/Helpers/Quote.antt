-- ===== src/Helpers/Quote.antt =====
-- How the database reads the literals that `pqQuoteLiteral` (helpers.go) makes.
use text.Mathlib.TextLemmas.{nil-append, cons-append}
use terraform_provider_redsh.Base.{
  Char, code, String, ◌<>◌, true, false, nat_eq, ◌||◌, if◌then◌else◌, Option, none, some, ◌≡◌, refl,
  arith, ◌≢◌, Bool-cases, inl, inr,
}
use terraform_provider_redsh.Strings.{double_char}
use terraform_provider_redsh.Helpers.{pq_quote_literal}

pub data Mode : Type 0 where
  plain after_quote after_backslash : Mode

abbrev push : Char → Option (String × String) → Option (String × String)
push c none = none
push c (some (s, rest)) = some (String.◌∷◌ c s, rest)

-- How the database reads a literal after its opening quote: two quotes stand for one, a backslash
-- stands for the character behind it, and one quote ends the literal. The answer is the text and
-- what follows the literal; there is none if the literal does not end.
unfoldable pub read_literal : Mode → String → Option (String × String)
read_literal plain String.[] = none
read_literal after_quote String.[] = some ("", "")
read_literal after_backslash String.[] = none
read_literal plain (String.◌∷◌ c s) = elim (nat_eq (code c) b'\'') [
  | true ↦ read_literal after_quote s
  | false ↦ elim (nat_eq (code c) b'\\') [
    | true ↦ read_literal after_backslash s
    | false ↦ push c (read_literal plain s)
  ]
]
read_literal after_quote (String.◌∷◌ c s) = elim (nat_eq (code c) b'\'') [
  | true ↦ push c (read_literal plain s)
  | false ↦ some ("", String.◌∷◌ c s)
]
read_literal after_backslash (String.◌∷◌ c s) = push c (read_literal plain s)

-- The text does not go on with a quote.
abbrev pub EndsLiteral : String → Type 0
EndsLiteral String.[] = Unit
EndsLiteral (String.◌∷◌ c s) = code c ≢ b'\''

read_literal_end :
    (rest : String) → EndsLiteral rest → read_literal plain ("'" <> rest) ≡ some ("", rest)
unfolding read_literal
read_literal_end String.[] h = refl
read_literal_end (String.◌∷◌ c s) h = rw cons-append (rw nil-append (ground arith))

-- A quote and a backslash are doubled.
pub quote_cons :
    (c : Char) (s : String)
    → pq_quote_literal (String.◌∷◌ c s) ≡ (
        if nat_eq (code c) b'\'' || nat_eq (code c) b'\\'
        then String.◌∷◌ c (String.◌∷◌ c (pq_quote_literal s))
        else String.◌∷◌ c (pq_quote_literal s))
unfolding pq_quote_literal double_char
quote_cons c s = ground arith

pub quote_nil : pq_quote_literal "" ≡ ""
unfolding pq_quote_literal double_char
quote_nil = refl

-- Whatever the text, the quoted form followed by a quote is read as exactly that text, and nothing
-- of the text is left over as part of the statement.
pub read_literal-pq_quote_literal :
    (s rest : String)
    → EndsLiteral rest
    → read_literal plain (pq_quote_literal s <> ("'" <> rest)) ≡ some (s, rest)
unfolding read_literal
read_literal-pq_quote_literal String.[] rest h =
    rw (quote_nil, nil-append) (read_literal_end rest h)
read_literal-pq_quote_literal (String.◌∷◌ c s) rest h =
    let ih = read_literal-pq_quote_literal s rest h in
    rw quote_cons (elim (Bool-cases (nat_eq (code c) b'\'')) [
      | inl q ↦ rw (q, cons-append, cons-append) (ground (arith, ih))
      | inr n ↦ elim (Bool-cases (nat_eq (code c) b'\\')) [
        | inl b ↦ rw (n, b, cons-append, cons-append) (ground (arith, ih))
        | inr m ↦ rw (n, m, cons-append) (ground (arith, ih))
      ]
    ])
