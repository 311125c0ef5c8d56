-- ===== src/Strings/Decimal.antt =====
-- Go's `%d` and `strconv.Atoi`, of integers of 64 bits.
use Prim.Native.String.{char_at}
use terraform_provider_redsh.Base.{
  ℕ, zero, suc, ◌+◌, ◌-◌, ◌*◌, ◌/◌, ◌%◌, ◌<◌, code, String, ◌<>◌, Bool, false, ◌&&◌, Option, none,
  some, leb, nat_eq, if◌then◌else◌, arith, dite,
}
use mathlib.Core.WellFounded.{Acc}
use native.Mathlib.Decide.{dec_lt}
use terraform_provider_redsh.Errors.{plain, Result, ok, err}

-- `pos n` is n, and `negsuc n` is -(n + 1).
pub data ℤ : Type 0 where
  pos negsuc : ℕ → ℤ

abbrev pub digit_text : ℕ → String
digit_text n = String.◌∷◌ (char_at "0123456789" n) ""

unfoldable pub acc_below : (k n : ℕ) → n < k → Acc ◌<◌ n
acc_below zero n h = absurd (omega arith)
acc_below (suc k) n h = Acc.intro n λ m lt. acc_below k m (omega arith)

-- The digits in front of a text, the last first; a number below ten ends them.
abbrev pub show_digits : (n : ℕ) → Acc ◌<◌ n → String → String
show_digits n (Acc.intro _ smaller) rest =
    dite (dec_lt 9 n)
      (λ h. show_digits (n / 10) (smaller (n / 10) (omega arith)) (digit_text (n % 10) <> rest))
      (λ _. digit_text n <> rest)

unfoldable pub show_nat : ℕ → String
unfolding acc_below
show_nat n = show_digits n (acc_below (suc n) n (omega arith)) ""

unfoldable pub show_int : ℤ → String
show_int (ℤ.pos n) = show_nat n
show_int (ℤ.negsuc n) = "-" <> show_nat (n + 1)

abbrev pub int_eq : ℤ → ℤ → Bool
int_eq (ℤ.pos m) (ℤ.pos n) = nat_eq m n
int_eq (ℤ.negsuc m) (ℤ.negsuc n) = nat_eq m n
int_eq _ _ = false

abbrev pub is_digit : ℕ → Bool
is_digit c = leb b'0' c && leb c b'9'

abbrev pub scan_digits : String → ℕ → Option ℕ
scan_digits String.[] n = some n
scan_digits (String.◌∷◌ c s) n =
    if is_digit (code c) then scan_digits s (n * 10 + (code c - b'0')) else none

abbrev pub unsigned : String → Option ℕ
unsigned String.[] = none
unsigned (String.◌∷◌ c s) = scan_digits (String.◌∷◌ c s) 0

abbrev pub positive : Option ℕ → Result ℤ
positive none = err (plain "invalid syntax")
positive (some n) =
    if leb n 9223372036854775807 then ok (ℤ.pos n) else err (plain "value out of range")

abbrev pub negative : Option ℕ → Result ℤ
negative none = err (plain "invalid syntax")
negative (some zero) = ok (ℤ.pos 0)
negative (some (suc n)) =
    if leb (suc n) 9223372036854775808 then ok (ℤ.negsuc n) else err (plain "value out of range")

unfoldable pub atoi : String → Result ℤ
atoi String.[] = err (plain "invalid syntax")
atoi (String.◌∷◌ c s) =
    if nat_eq (code c) b'-'
    then negative (unsigned s)
    else if nat_eq (code c) b'+'
    then positive (unsigned s)
    else positive (unsigned (String.◌∷◌ c s))
