-- ===== src/Validation/Patterns.antt =====
-- What the expressions of redshift/validation.go say of a text that they match.
use text.Mathlib.TextLemmas.{nil-append, cons-append}
use terraform_provider_redsh.Base.{
  ℕ, zero, suc, String, ◌<>◌, Bool, true, false, not, ◌&&◌, ◌||◌, List, [], ◌∷◌, all, length, code,
  nat_eq, ◌↔◌, ◌≡◌, refl, ap, arith,
}
use terraform_provider_redsh.Strings.Laws.{Lacks}
use terraform_provider_redsh.Strings.Decimal.{is_digit}
use terraform_provider_redsh.Validation.{
  Class, times, matches_all, has_char, aws_account_id, uuid, is_aws_account_id, is_uuid, is_hex,
  db_group_acceptable_characters,
}

-- `utf8.RuneCountInString`
abbrev rune_count : String → ℕ
rune_count String.[] = zero
rune_count (String.◌∷◌ c s) = suc (rune_count s)

-- A class for each character.
rune_count_of_matches_all :
    (ps : List Class) (s : String) → matches_all ps s ≡ true → rune_count s ≡ length ps
unfolding matches_all
rune_count_of_matches_all [] String.[] h = refl
rune_count_of_matches_all [] (String.◌∷◌ c s) h = cc
rune_count_of_matches_all (p ∷ ps) String.[] h = cc
rune_count_of_matches_all (p ∷ ps) (String.◌∷◌ c s) h =
    ground (arith, rune_count_of_matches_all ps s)

-- A character that no class has.
Lacks-matches_all :
    (n : ℕ) (ps : List Class) (s : String)
    → all (λ p. not (p n)) ps ≡ true
    → matches_all ps s ≡ true
    → Lacks n s
unfolding matches_all
Lacks-matches_all n [] String.[] out h = tt
Lacks-matches_all n [] (String.◌∷◌ c s) out h = cc
Lacks-matches_all n (p ∷ ps) String.[] out h = cc
Lacks-matches_all n (p ∷ ps) (String.◌∷◌ c s) out h =
    (λ e. absurd (ground (arith, ap p e)), Lacks-matches_all n ps s (ground arith) (ground arith))

abbrev all_digits : String → Bool
all_digits String.[] = true
all_digits (String.◌∷◌ c s) = is_digit (code c) && all_digits s

has_char-append : (p : Class) (s t : String) → has_char p (s <> t) ≡ (has_char p s || has_char p t)
unfolding has_char
has_char-append p String.[] t = rw nil-append refl
has_char-append p (String.◌∷◌ c s) t = rw cons-append (ground (arith, has_char-append p s t))

-- The expression of the acceptable characters of a group name accepts whatever holds a text that it
-- accepts, with any characters before it and after it.
db_group_acceptable_characters-append :
    (before s after : String)
    → db_group_acceptable_characters s ≡ true
    → db_group_acceptable_characters (before <> (s <> after)) ≡ true
unfolding db_group_acceptable_characters
db_group_acceptable_characters-append before s after h =
    rw has_char-append (rw has_char-append (ground arith))

matches_all-times :
    (n : ℕ) (s : String)
    → (matches_all (times n is_digit) s ≡ true) ↔ ((rune_count s ≡ n) × (all_digits s ≡ true))
unfolding matches_all
matches_all-times zero String.[] = (λ h. (refl, refl), λ h. refl)
matches_all-times zero (String.◌∷◌ c s) = (λ h. cc, λ h. absurd (omega (arith, h.0)))
matches_all-times (suc n) String.[] = (λ h. cc, λ h. absurd (omega (arith, h.0)))
matches_all-times (suc n) (String.◌∷◌ c s) =
    let ih = matches_all-times n s in (λ h. ground (arith, ih.0), λ h. ground (arith, ih.1))

-- The expression for an AWS account id accepts exactly the texts of twelve decimal digits.
is_aws_account_id_iff :
    (s : String) → (is_aws_account_id s ≡ true) ↔ ((rune_count s ≡ 12) × (all_digits s ≡ true))
unfolding is_aws_account_id
is_aws_account_id_iff s = matches_all-times 12 s

-- A namespace has 36 characters.
rune_count_of_is_uuid : (s : String) → is_uuid s ≡ true → rune_count s ≡ 36
unfolding is_uuid
rune_count_of_is_uuid s h = rune_count_of_matches_all uuid s h

pub Lacks-is_aws_account_id :
    (n : ℕ) (s : String) → is_digit n ≡ false → is_aws_account_id s ≡ true → Lacks n s
unfolding is_aws_account_id
Lacks-is_aws_account_id n s d h = Lacks-matches_all n aws_account_id s (ground arith) h

pub Lacks-is_uuid :
    (n : ℕ) (s : String) → is_hex n ≡ false → nat_eq n b'-' ≡ false → is_uuid s ≡ true → Lacks n s
unfolding is_uuid
Lacks-is_uuid n s d e h = Lacks-matches_all n uuid s (ground arith) h
