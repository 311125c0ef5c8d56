-- ===== src/User/ValidUntil.antt =====
-- `validateAndAdjustValidUntil` and `permanentUsername` of resource_redshift_user.go.
use text.Mathlib.TextLemmas.{nil-append, cons-append}
use terraform_provider_redsh.Base.{
  String, ◌<>◌, Bool, true, false, ◌&&◌, List, [], ◌∷◌, ◌++◌, string_dec, if◌then◌else◌, nat_eq,
  ◌≡◌, inl, inr, refl, ap, subst, arith, Bool-cases,
}
use terraform_provider_redsh.Strings.Laws.{Lacks}
use terraform_provider_redsh.Errors.{ok}
use terraform_provider_redsh.User.{permanent_username}
use terraform_provider_redsh.User.Timestamps.{
  Piece, matches, datetime, offset, is_data_api_datetime, is_correct_datetime, check_datetime,
  validate_and_adjust_valid_until,
}

-- No piece of the expression is a plus.
abbrev without_plus : List Piece → Bool
without_plus [] = true
without_plus (Piece.exactly k ∷ ps) = (if nat_eq k b'+' then false else true) && without_plus ps
without_plus (p ∷ ps) = without_plus ps

Lacks-of_matches :
    (ps : List Piece) (s : String) → without_plus ps ≡ true → matches ps s ≡ true → Lacks b'+' s
unfolding matches
Lacks-of_matches [] String.[] h m = tt
Lacks-of_matches [] (String.◌∷◌ c s) h m = absurd (ground arith)
Lacks-of_matches (p ∷ ps) String.[] h m = tt
Lacks-of_matches (Piece.digits ∷ ps) (String.◌∷◌ c s) h m = (
  ground arith,
  elim (Bool-cases (matches (Piece.digits ∷ ps) s)) [
    | inl more ↦ Lacks-of_matches (Piece.digits ∷ ps) s h more
    | inr last ↦ Lacks-of_matches ps s h (ground arith)
  ],
)
Lacks-of_matches (Piece.digit ∷ ps) (String.◌∷◌ c s) h m =
    (ground arith, Lacks-of_matches ps s h (ground arith))
Lacks-of_matches (Piece.exactly k ∷ ps) (String.◌∷◌ c s) h m =
    (ground arith, Lacks-of_matches ps s (ground arith) (ground arith))

not_Lacks-of_matches :
    (ps qs : List Piece) (s : String)
    → matches (ps ++ (Piece.exactly b'+' ∷ qs)) s ≡ true
    → Lacks b'+' s
    → ⊥
unfolding matches
not_Lacks-of_matches [] qs String.[] m l = ground arith
not_Lacks-of_matches [] qs (String.◌∷◌ c s) m (n, l) = n (ground arith)
not_Lacks-of_matches (p ∷ ps) qs String.[] m l = ground arith
not_Lacks-of_matches (Piece.digits ∷ ps) qs (String.◌∷◌ c s) m (n, l) =
    elim (Bool-cases (matches (Piece.digits ∷ (ps ++ (Piece.exactly b'+' ∷ qs))) s)) [
      | inl more ↦ not_Lacks-of_matches (Piece.digits ∷ ps) qs s more l
      | inr last ↦ not_Lacks-of_matches ps qs s (ground arith) l
    ]
not_Lacks-of_matches (Piece.digit ∷ ps) qs (String.◌∷◌ c s) m (n, l) =
    not_Lacks-of_matches ps qs s (ground arith) l
not_Lacks-of_matches (Piece.exactly k ∷ ps) qs (String.◌∷◌ c s) m (n, l) =
    not_Lacks-of_matches ps qs s (ground arith) l

-- A text is not both a date without and one with an offset.
not_both : (s : String) → is_data_api_datetime s ≡ true → is_correct_datetime s ≡ true → ⊥
unfolding is_data_api_datetime is_correct_datetime
not_both s a c =
    let l = Lacks-of_matches datetime s refl a in
    elim (Bool-cases (matches (datetime ++ offset) s)) [
      | inl plain_date ↦
          not_Lacks-of_matches datetime (Piece.exactly b'0' ∷ Piece.exactly b'0' ∷ []) s plain_date
            l
      | inr fraction ↦
          not_Lacks-of_matches (datetime ++ (Piece.exactly b'.' ∷ Piece.digits ∷ []))
            (Piece.exactly b'0' ∷ Piece.exactly b'0' ∷ []) s (ground arith) l
    ]

data_api_infinity : is_correct_datetime "2038-01-19 03:14:04" ≡ false
unfolding is_correct_datetime matches
data_api_infinity = refl

stable_of_correct :
    (t : String) → is_correct_datetime t ≡ true → validate_and_adjust_valid_until t ≡ ok t
unfolding validate_and_adjust_valid_until
stable_of_correct t c = elim (string_dec t "2038-01-19 03:14:04") [
  | yes p ↦ absurd (ground (arith, data_api_infinity, ap is_correct_datetime p))
  | no p ↦ elim (Bool-cases (is_data_api_datetime t)) [
    | inl a ↦ absurd (not_both t a c)
    | inr n ↦ ground arith
  ]
]

of_check : (s t : String) → check_datetime s ≡ ok t → (s ≡ t) × (is_correct_datetime t ≡ true)
of_check s t e = elim (Bool-cases (is_correct_datetime s)) [
  | inl c ↦ let p : s ≡ t = ground arith in (p, subst (λ x. is_correct_datetime x ≡ true) p c)
  | inr n ↦ absurd (ground arith)
]

infinity_stable : validate_and_adjust_valid_until "infinity" ≡ ok "infinity"
unfolding validate_and_adjust_valid_until
infinity_stable = ground arith

-- What a read of the user adjusts is stable: adjusting the adjusted text succeeds, and gives it
-- again. So a read after the text was applied finds no change.
pub validate_and_adjust_valid_until_idem :
    (s t : String)
    → validate_and_adjust_valid_until s ≡ ok t
    → validate_and_adjust_valid_until t ≡ ok t
unfolding validate_and_adjust_valid_until
validate_and_adjust_valid_until_idem s t e = elim (string_dec s "infinity") [
  | yes p ↦ ground arith
  | no p ↦ elim (string_dec s "2038-01-19 03:14:04") [
    | yes q ↦ ground (arith, infinity_stable)
    | no q ↦ elim (Bool-cases (is_data_api_datetime s)) [
      | inl a ↦ stable_of_correct t (of_check (s <> "+00") t (ground arith)).1
      | inr n ↦ stable_of_correct t (of_check s t (ground arith)).1
    ]
  ]
]

-- The name behind temporary credentials is the name without the prefix, for both prefixes.
permanent_username-prefix :
    (s : String) → (permanent_username ("IAM:" <> s) ≡ s) × (permanent_username ("IAMA:" <> s) ≡ s)
unfolding permanent_username
permanent_username-prefix s = (
  rw (cons-append, cons-append, cons-append, cons-append, nil-append) refl,
  rw (cons-append, cons-append, cons-append, cons-append, cons-append, nil-append) refl,
)
