-- ===== src/Helpers/Literals.antt =====
-- The literals of a statement, as the database reads them, if they were made with `pqQuoteLiteral`
-- (helpers.go).
use text.Mathlib.TextLemmas.{nil-append, cons-append}
use terraform_provider_redsh.Base.{
  Bool, Char, code, String, ◌<>◌, true, false, nat_eq, Option, none, some, ◌≡◌, refl, arith,
  Bool-cases, inl, inr, List, [], ◌∷◌, ◌++◌, ◌∙◌, sym, ap, subst, append_assoc, append-nil,
}
use terraform_provider_redsh.Strings.Laws.{Lacks, is_without, is_without-Lacks}
use terraform_provider_redsh.Strings.{join}
use terraform_provider_redsh.Helpers.{pq_quote_literal}
use terraform_provider_redsh.Helpers.Quote.{Mode, EndsLiteral, quote_cons, quote_nil}

-- Outside of the literals, or in one.
pub data Place : Type 0 where
  outside : Place
  inside : Mode → Place

abbrev push : Char → Option (List String) → Option (List String)
push c none = none
push c (some []) = none
push c (some (s ∷ rest)) = some (String.◌∷◌ c s ∷ rest)

abbrev add_literals : List String → Option (List String) → Option (List String)
add_literals found none = none
add_literals found (some rest) = some (found ++ rest)

-- The literals from a place on: a quote begins one, and it ends as in `read_literal`. There are
-- none if the last one does not end.
unfoldable pub literals_from : Place → String → Option (List String)
literals_from outside String.[] = some []
literals_from (inside Mode.plain) String.[] = none
literals_from (inside Mode.after_quote) String.[] = some ("" ∷ [])
literals_from (inside Mode.after_backslash) String.[] = none
literals_from outside (String.◌∷◌ c s) = elim (nat_eq (code c) b'\'') [
  | true ↦ literals_from (inside Mode.plain) s
  | false ↦ literals_from outside s
]
literals_from (inside Mode.plain) (String.◌∷◌ c s) = elim (nat_eq (code c) b'\'') [
  | true ↦ literals_from (inside Mode.after_quote) s
  | false ↦ elim (nat_eq (code c) b'\\') [
    | true ↦ literals_from (inside Mode.after_backslash) s
    | false ↦ push c (literals_from (inside Mode.plain) s)
  ]
]
literals_from (inside Mode.after_quote) (String.◌∷◌ c s) = elim (nat_eq (code c) b'\'') [
  | true ↦ push c (literals_from (inside Mode.plain) s)
  | false ↦ add_literals ("" ∷ []) (literals_from outside s)
]
literals_from (inside Mode.after_backslash) (String.◌∷◌ c s) =
    push c (literals_from (inside Mode.plain) s)

abbrev pub literals : String → Option (List String)
literals = literals_from outside

after_quote_end :
    (rest : String)
    → EndsLiteral rest
    → literals_from (inside Mode.plain) ("'" <> rest) ≡ add_literals ("" ∷ []) (literals rest)
unfolding literals_from
after_quote_end String.[] h = refl
after_quote_end (String.◌∷◌ c s) h = rw cons-append (rw nil-append (ground arith))

push-add_literals :
    (c : Char) (s : String) (o : Option (List String))
    → push c (add_literals (s ∷ []) o) ≡ add_literals (String.◌∷◌ c s ∷ []) o
push-add_literals c s none = refl
push-add_literals c s (some rest) = refl

literals_inside :
    (s rest : String)
    → EndsLiteral rest
    → literals_from (inside Mode.plain) (pq_quote_literal s <> ("'" <> rest))
      ≡ add_literals (s ∷ []) (literals rest)
unfolding literals_from
literals_inside String.[] rest h = rw (quote_nil, nil-append) (after_quote_end rest h)
literals_inside (String.◌∷◌ c s) rest h =
    let ih = ap (push c) (literals_inside s rest h) ∙ push-add_literals c s (literals rest) in
    rw quote_cons (elim (Bool-cases (nat_eq (code c) b'\'')) [
      | inl q ↦ rw (q, cons-append, cons-append) (ground (arith, ih))
      | inr n ↦ elim (Bool-cases (nat_eq (code c) b'\\')) [
        | inl b ↦ rw (n, b, cons-append, cons-append) (ground (arith, ih))
        | inr m ↦ rw (n, m, cons-append) (ground (arith, ih))
      ]
    ])

-- The fragment adds the literals to those of whatever statement it begins.
pub record Adds (fragment : String) (found : List String) : Type 0 where
  pub adds :
      (rest : String)
      → EndsLiteral rest
      → literals (fragment <> rest) ≡ add_literals found (literals rest)
  pub ends : (rest : String) → EndsLiteral rest → EndsLiteral (fragment <> rest)

add_literals_nil : (o : Option (List String)) → add_literals [] o ≡ o
add_literals_nil none = refl
add_literals_nil (some rest) = refl

add_literals-append :
    (xs ys : List String) (o : Option (List String))
    → add_literals xs (add_literals ys o) ≡ add_literals (xs ++ ys) o
add_literals-append xs ys none = refl
add_literals-append xs ys (some rest) = ap some (sym (append_assoc xs ys rest))

pub Adds-append :
    (f g : String) (xs ys : List String) → Adds f xs → Adds g ys → Adds (f <> g) (xs ++ ys)
Adds-append f g xs ys a b = record {
  adds = λ rest h.
      ap literals (text.Mathlib.TextLemmas.append_assoc f g rest)
      ∙ (a.adds (g <> rest) (b.ends rest h)
          ∙ (ap (add_literals xs) (b.adds rest h) ∙ add_literals-append xs ys (literals rest)));
  ends = λ rest h.
      subst EndsLiteral (sym (text.Mathlib.TextLemmas.append_assoc f g rest))
        (a.ends (g <> rest) (b.ends rest h));
}

literals_of_words :
    (words rest : String) → Lacks b'\'' words → literals (words <> rest) ≡ literals rest
unfolding literals_from
literals_of_words String.[] rest h = rw nil-append refl
literals_of_words (String.◌∷◌ c s) rest (p, h) =
    let ih = literals_of_words s rest h in rw cons-append (ground (arith, ih, p))

ends_of_words :
    (words rest : String) → Lacks b'\'' words → EndsLiteral rest → EndsLiteral (words <> rest)
ends_of_words String.[] rest h k = rw nil-append k
ends_of_words (String.◌∷◌ c s) rest (p, h) k = rw cons-append p

pub Adds-words : (words : String) → Lacks b'\'' words → Adds words []
Adds-words words h = record {
  adds = λ rest k. literals_of_words words rest h ∙ sym (add_literals_nil (literals rest));
  ends = λ rest k. ends_of_words words rest h k;
}

literals_quote : (rest : String) → literals ("'" <> rest) ≡ literals_from (inside Mode.plain) rest
unfolding literals_from
literals_quote rest = rw (cons-append, nil-append) refl

-- Words that begin with something other than a quote, and a literal.
pub Adds-literal :
    (words s : String)
    → Lacks b'\'' words
    → ((rest : String) → EndsLiteral (words <> rest))
    → Adds (words <> ("'" <> (pq_quote_literal s <> "'"))) (s ∷ [])
Adds-literal words s h e =
    let flat = λ (rest : String).
      text.Mathlib.TextLemmas.append_assoc words ("'" <> (pq_quote_literal s <> "'")) rest
      ∙ ap (λ t. words <> t)
          (text.Mathlib.TextLemmas.append_assoc "'" (pq_quote_literal s <> "'") rest
            ∙ ap (λ t. "'" <> t)
                (text.Mathlib.TextLemmas.append_assoc (pq_quote_literal s) "'" rest)) in
    record {
      adds = λ rest k.
          ap literals (flat rest)
          ∙ (literals_of_words words _ h
              ∙ (literals_quote (pq_quote_literal s <> ("'" <> rest)) ∙ literals_inside s rest k));
      ends = λ rest k. subst EndsLiteral (sym (flat rest)) (e _);
    }

pub EndsLiteral-blank : (rest : String) → EndsLiteral (" " <> rest)
EndsLiteral-blank rest = rw cons-append (λ e. omega (arith, e))

-- Words without quotes, and some of them.
abbrev pub are_words : String → Bool
are_words String.[] = false
are_words (String.◌∷◌ c words) = is_without b'\'' (String.◌∷◌ c words)

pub are_words-Lacks : (words : String) → are_words words ≡ true → Lacks b'\'' words
are_words-Lacks String.[] h = tt
are_words-Lacks (String.◌∷◌ c words) h = is_without-Lacks b'\'' (String.◌∷◌ c words) h

pub EndsLiteral-words : (words rest : String) → are_words words ≡ true → EndsLiteral (words <> rest)
EndsLiteral-words String.[] rest h = absurd (ground (arith, h))
EndsLiteral-words (String.◌∷◌ c words) rest h =
    rw cons-append (is_without-Lacks b'\'' (String.◌∷◌ c words) h).0

-- Words and a literal, the quote that opens it standing with the words.
pub Adds-quoted :
    (words s : String)
    → are_words words ≡ true
    → Adds ((words <> "'") <> (pq_quote_literal s <> "'")) (s ∷ [])
Adds-quoted words s h =
    subst (λ t. Adds t (s ∷ []))
      (sym (text.Mathlib.TextLemmas.append_assoc words "'" (pq_quote_literal s <> "'")))
      (Adds-literal words s (are_words-Lacks words h) (λ rest. EndsLiteral-words words rest h))

-- Texts that add literals, one after the other.
pub data AddsAll : List String → List String → Type 0 where
  done : AddsAll [] []
  next :
      (f : String) (fs xs ys : List String)
      → Adds f xs
      → AddsAll fs ys
      → AddsAll (f ∷ fs) (xs ++ ys)

pub AddsAll-append :
    (fs gs xs ys : List String) → AddsAll fs xs → AddsAll gs ys → AddsAll (fs ++ gs) (xs ++ ys)
AddsAll-append _ gs _ ys AddsAll.done b = b
AddsAll-append _ gs _ ys (AddsAll.next f fs xs zs a rest) b =
    subst (AddsAll (f ∷ (fs ++ gs))) (sym (append_assoc xs zs ys))
      (AddsAll.next f (fs ++ gs) xs (zs ++ ys) a (AddsAll-append fs gs zs ys rest b))

-- They stay so when they are joined by blanks.
pub Adds-join : (fs xs : List String) → AddsAll fs xs → Adds (join " " fs) xs
unfolding join
Adds-join _ _ AddsAll.done = Adds-words "" tt
Adds-join _ _ (AddsAll.next f [] xs _ a AddsAll.done) = subst (Adds f) (sym (append-nil xs)) a
Adds-join _ _ (AddsAll.next f (g ∷ fs) xs ys a rest) = Adds-append f _ xs ys a (
    Adds-append " " _ [] ys (Adds-words " " (is_without-Lacks b'\'' " " refl))
      (Adds-join (g ∷ fs) ys rest))

-- What a whole statement adds are its literals.
pub literals_of_Adds : (q : String) (found : List String) → Adds q found → literals q ≡ some found
unfolding literals_from
literals_of_Adds q found a =
    ap literals (sym (text.Mathlib.TextLemmas.append-nil q))
    ∙ (a.adds "" tt ∙ ap some (append-nil found))
