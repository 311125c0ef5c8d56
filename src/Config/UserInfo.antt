-- ===== src/Config/UserInfo.antt =====
-- The user and the password in the connection string (redshift/config_pq_proxy.go), as lib/pq reads
-- them by `url.Parse`.
use terraform_provider_redsh.Base.{
  ℕ, ◌/◌, ◌%◌, ◌<◌, code, String, ◌<>◌, true, false, List, [], ◌∷◌, all, none, some, leb, nat_eq,
  ◌≡◌, ◌≢◌, refl, sym, ap, ◌∙◌, arith, Bool-cases, inl, inr, Bool, ◌||◌, subst,
}
use terraform_provider_redsh.Strings.{split}
use terraform_provider_redsh.Strings.Laws.{Lacks, Lacks-append, cut, split_of_Lacks}
use terraform_provider_redsh.Strings.Escape.{
  utf8, bytes, is_unreserved, hex_digit, percent, query_escape, unhex, read_parts,
}
use terraform_provider_redsh.Strings.Escape.UserInfo.{
  plus_for_space, read_escapes-query_escape, unhex-hex_digit, utf8_small,
}
use terraform_provider_redsh.Config.Settings.{user_info}

-- A character that escaping does not produce.
record IsDelimiter (n : ℕ) : Type 0 where
  no_digit : unhex n ≡ none
  reserved : is_unreserved n ≡ false
  no_plus : nat_eq n b'+' ≡ false
  no_percent : nat_eq n b'%' ≡ false

hex_digit-ne : (n k : ℕ) → IsDelimiter n → k < 16 → code (hex_digit k) ≢ n
hex_digit-ne n k d h e =
    let f : none ≡ some k = sym d.no_digit ∙ (ap unhex (sym e) ∙ unhex-hex_digit k h) in cc

Lacks-percent :
    (n : ℕ) (bs : List ℕ) (rest : String)
    → IsDelimiter n
    → all (λ b. leb b 255) bs ≡ true
    → Lacks n rest
    → Lacks n (percent bs rest)
Lacks-percent n [] rest d h k = k
Lacks-percent n (b ∷ bs) rest d h k = (
  λ e. ground (arith, e, d.no_percent),
  (
    hex_digit-ne n (b / 16) d (ground arith),
    (hex_digit-ne n (b % 16) d (omega arith), Lacks-percent n bs rest d (ground arith) k),
  ),
)

Lacks-query_escape : (n : ℕ) (s : String) → IsDelimiter n → Lacks n (query_escape s)
unfolding query_escape
Lacks-query_escape n String.[] d = tt
Lacks-query_escape n (String.◌∷◌ c s) d =
    let ih = Lacks-query_escape n s d in
    elim (Bool-cases (is_unreserved (code c))) [
      | inl u ↦ rw u (λ e. ground (arith, ap is_unreserved e, d.reserved), ih)
      | inr u ↦ elim (Bool-cases (nat_eq (code c) b' ')) [
        | inl p ↦ rw (u, p) (λ e. ground (arith, e, d.no_plus), ih)
        | inr p ↦ rw (u, p) (Lacks-percent n (utf8 (code c)) (query_escape s) d (utf8_small c) ih)
      ]
    ]

colon : IsDelimiter b':'
colon = record { no_digit = refl; reserved = refl; no_plus = refl; no_percent = refl }

at_sign : IsDelimiter b'@'
at_sign = record { no_digit = refl; reserved = refl; no_plus = refl; no_percent = refl }

slash : IsDelimiter b'/'
slash = record { no_digit = refl; reserved = refl; no_plus = refl; no_percent = refl }

question_mark : IsDelimiter b'?'
question_mark = record { no_digit = refl; reserved = refl; no_plus = refl; no_percent = refl }

number_sign : IsDelimiter b'#'
number_sign = record { no_digit = refl; reserved = refl; no_plus = refl; no_percent = refl }

-- The characters that end the user and the password, or all that precedes the path, in a URL.
abbrev pub is_ending : ℕ → Bool
is_ending n = nat_eq n b'@' || (nat_eq n b'/' || (nat_eq n b'?' || nat_eq n b'#'))

ending_cases :
    (P : ℕ → Type 0) → P b'@' → P b'/' → P b'?' → P b'#' → (n : ℕ) → is_ending n ≡ true → P n
ending_cases P a b c d n h = elim (Bool-cases (nat_eq n b'@')) [
  | inl e ↦ let q : b'@' ≡ n = ground arith in subst P q a
  | inr x ↦ elim (Bool-cases (nat_eq n b'/')) [
    | inl e ↦ let q : b'/' ≡ n = ground arith in subst P q b
    | inr y ↦ elim (Bool-cases (nat_eq n b'?')) [
      | inl e ↦ let q : b'?' ≡ n = ground arith in subst P q c
      | inr z ↦ let q : b'#' ≡ n = ground (arith, h, x, y, z) in subst P q d
    ]
  ]
]

Lacks-user_info :
    (username password : String) (n : ℕ)
    → IsDelimiter n
    → nat_eq n b':' ≡ false
    → Lacks n (user_info username password)
unfolding user_info
Lacks-user_info username password n d ne =
    Lacks-append n (query_escape username) (":" <> query_escape password)
      (Lacks-query_escape n username d)
      (Lacks-append n ":" (query_escape password) (λ e. ground (arith, e, ne), tt)
        (Lacks-query_escape n password d))

-- Whatever the user name and the password, the text between `postgres://` and the host is read as
-- the two of them, with every space of theirs read as a plus sign; and it has none of the characters
-- at sign, slash, question mark and number sign, which would end it early in the URL.
pub read_parts-user_info :
    (username password : String) (n : ℕ)
    → is_ending n ≡ true
    → (read_parts (split b':' (user_info username password))
        ≡ some (bytes (plus_for_space username), bytes (plus_for_space password)))
      × Lacks n (user_info username password)
unfolding user_info
read_parts-user_info username password n h = (
  rw
      (
        cut (query_escape username) (query_escape password)
            (Lacks-query_escape b':' username colon),
        split_of_Lacks b':' (query_escape password) (Lacks-query_escape b':' password colon),
        read_escapes-query_escape username,
        read_escapes-query_escape password,
      )
      refl,
  ending_cases (λ k. Lacks k (user_info username password))
      (Lacks-user_info username password b'@' at_sign refl)
      (Lacks-user_info username password b'/' slash refl)
      (Lacks-user_info username password b'?' question_mark refl)
      (Lacks-user_info username password b'#' number_sign refl) n h,
)
