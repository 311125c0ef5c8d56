-- ===== src/Strings/Digits.antt =====
-- What `%d` prints, and `strconv.Atoi` of it.
use Prim.Native.String.{char_at}
use text.Mathlib.TextLemmas.{nil-append, cons-append}
use mathlib.Core.WellFounded.{Acc}
use native.Mathlib.Decide.{dec_lt}
use terraform_provider_redsh.Base.{
  dite, ℕ, zero, suc, ◌+◌, ◌-◌, ◌*◌, ◌/◌, ◌%◌, ◌<◌, ◌≤◌, code, String, ◌<>◌, Bool, true, ◌&&◌, some,
  nat_eq, ◌≡◌, refl, ap, arith, ◌∙◌, false, ◌≢◌, Bool-cases, inl, inr,
}
use terraform_provider_redsh.Errors.{ok}
use terraform_provider_redsh.Strings.Laws.{Lacks, Lacks-append}
use terraform_provider_redsh.Strings.Decimal.{
  ℤ, digit_text, acc_below, show_digits, show_nat, show_int, is_digit, scan_digits, unsigned,
  positive, negative, atoi,
}

digits_below : ℕ → Bool
digits_below zero = true
digits_below (suc n) = nat_eq (code (char_at "0123456789" n)) (b'0' + n) && digits_below n

digits_below_sound :
    (n k : ℕ) → digits_below n ≡ true → k < n → code (char_at "0123456789" k) ≡ b'0' + k
unfolding digits_below
digits_below_sound zero k h lt = elim lt [ ]
digits_below_sound (suc n) k h lt = ground (arith, digits_below_sound n k)

digits_all : digits_below 10 ≡ true
unfolding digits_below
digits_all = refl

digit_code : (k : ℕ) → k < 10 → code (char_at "0123456789" k) ≡ b'0' + k
digit_code k h = digits_below_sound 10 k digits_all h

scan_digit :
    (k : ℕ) (rest : String) (m : ℕ)
    → k < 10
    → scan_digits (digit_text k <> rest) m ≡ scan_digits rest (m * 10 + k)
scan_digit k rest m h =
    let e : is_digit (code (char_at "0123456789" k)) ≡ true = ground (arith, digit_code k h) in
    let f : m * 10 + (code (char_at "0123456789" k) - b'0') ≡ m * 10 + k =
      omega (arith, digit_code k h) in
    rw (cons-append, nil-append, e, f) refl

scan_show :
    (n : ℕ) (a : Acc ◌<◌ n) (rest : String)
    → scan_digits (show_digits n a rest) 0 ≡ scan_digits rest n
scan_show n (Acc.intro _ smaller) rest =
    elim (dec_lt 9 n)
      as (λ d.
        scan_digits
          (dite d
            (λ h.
              show_digits (n / 10) (smaller (n / 10) (omega arith)) (digit_text (n % 10) <> rest))
            (λ _. digit_text n <> rest))
          0
        ≡ scan_digits rest n) [
          | yes h ↦
              let e : n / 10 * 10 + n % 10 ≡ n = omega arith in
              scan_show (n / 10) (smaller (n / 10) (omega arith)) (digit_text (n % 10) <> rest)
              ∙ (scan_digit (n % 10) rest (n / 10) (omega arith) ∙ ap (scan_digits rest) e)
          | no h ↦
              let e : 0 * 10 + n ≡ n = omega arith in
              scan_digit n rest 0 (omega (arith, h)) ∙ ap (scan_digits rest) e
        ]

-- The text begins with a digit.
record Leads (s : String) : Type 0 where
  head : ℕ
  tail : String
  small : head < 10
  whole : s ≡ digit_text head <> tail

show_digits-Leads : (n : ℕ) (a : Acc ◌<◌ n) (rest : String) → Leads (show_digits n a rest)
show_digits-Leads n (Acc.intro _ smaller) rest =
    elim (dec_lt 9 n)
      as (λ d. Leads (
        dite d
          (λ h. show_digits (n / 10) (smaller (n / 10) (omega arith)) (digit_text (n % 10) <> rest))
          (λ _. digit_text n <> rest))) [
            | yes h ↦
                show_digits-Leads (n / 10) (smaller (n / 10) (omega arith))
                  (digit_text (n % 10) <> rest)
            | no h ↦ record { head = n; tail = rest; small = omega (arith, h); whole = refl }
          ]

-- A text that begins with a digit has neither sign, and is not empty.
unsigned_of_Leads : (s : String) → Leads s → unsigned s ≡ scan_digits s 0
unsigned_of_Leads s l = rw (l.whole, cons-append) refl

atoi_of_Leads : (s : String) → Leads s → atoi s ≡ positive (scan_digits s 0)
unfolding atoi
atoi_of_Leads s l = rw (l.whole, cons-append) (ground (arith, digit_code l.head l.small))

scan-show_nat : (n : ℕ) → scan_digits (show_nat n) 0 ≡ some n
unfolding show_nat
scan-show_nat n = scan_show n (acc_below (suc n) n (omega arith)) ""

show_nat-Leads : (n : ℕ) → Leads (show_nat n)
unfolding show_nat
show_nat-Leads n = show_digits-Leads n (acc_below (suc n) n (omega arith)) ""

-- The integers of 64 bits.
abbrev pub IsInt64 : ℤ → Type 0
IsInt64 (ℤ.pos n) = n ≤ 9223372036854775807
IsInt64 (ℤ.negsuc n) = n ≤ 9223372036854775807

atoi_of_minus : (s : String) → atoi ("-" <> s) ≡ negative (unsigned s)
unfolding atoi
atoi_of_minus s = rw (cons-append, nil-append) refl

negative_lem : (n : ℕ) → n ≤ 9223372036854775807 → negative (some (n + 1)) ≡ ok (ℤ.negsuc n)
negative_lem n h = let e : n + 1 ≡ suc n = omega arith in rw e (ground arith)

-- An integer of 64 bits that is printed in decimal is read back by `atoi`.
pub atoi-show_int : (z : ℤ) → IsInt64 z → atoi (show_int z) ≡ ok z
unfolding show_int
atoi-show_int (ℤ.pos n) h =
    atoi_of_Leads (show_nat n) (show_nat-Leads n) ∙ rw (scan-show_nat n) (ground arith)
atoi-show_int (ℤ.negsuc n) h =
    atoi_of_minus (show_nat (n + 1))
    ∙ rw (unsigned_of_Leads (show_nat (n + 1)) (show_nat-Leads (n + 1)), scan-show_nat (n + 1))
        (negative_lem n h)

scan_digits-Lacks :
    (n : ℕ) (s : String) (m k : ℕ) → is_digit n ≡ false → scan_digits s m ≡ some k → Lacks n s
scan_digits-Lacks n String.[] m k h e = tt
scan_digits-Lacks n (String.◌∷◌ c s) m k h e = elim (Bool-cases (is_digit (code c))) [
  | inl d ↦
      let f : code c ≢ n = λ q. ground (arith, q, d, h) in
      (f, scan_digits-Lacks n s (m * 10 + (code c - b'0')) k h (ground (arith, d, e)))
  | inr d ↦ absurd (ground (arith, d, e))
]

-- A number is printed in digits, behind a minus sign at most.
pub Lacks-show_int :
    (n : ℕ) (z : ℤ) → is_digit n ≡ false → nat_eq n b'-' ≡ false → Lacks n (show_int z)
unfolding show_int
Lacks-show_int n (ℤ.pos k) h e = scan_digits-Lacks n (show_nat k) 0 k h (scan-show_nat k)
Lacks-show_int n (ℤ.negsuc k) h e =
    Lacks-append n "-" (show_nat (k + 1)) (λ q. ground (arith, q, e), tt)
      (scan_digits-Lacks n (show_nat (k + 1)) 0 (k + 1) h (scan-show_nat (k + 1)))
