-- ===== src/Strings/Escape/UserInfo.antt =====
-- The user and the password that a URL with escaped parts is read with.
use Prim.Native.Char.{Char, char, code, IsLt}
use Prim.Native.Nat.{compare, Ordering}
use Prim.Native.String.{char_at}
use native.Mathlib.Omega.{compare-lt}
use terraform_provider_redsh.Base.{
  ℕ, zero, suc, ◌+◌, ◌*◌, ◌/◌, ◌%◌, ◌<◌, String, Bool, true, false, ◌&&◌, List, [], ◌∷◌, all,
  Option, none, some, leb, nat_eq, if◌then◌else◌, ◌≡◌, refl, arith, Bool-cases, inl, inr,
}
use terraform_provider_redsh.Strings.Escape.{
  utf8, bytes, is_unreserved, hex_digit, percent, query_escape, unhex, EscapeMode, push_all,
  read_escapes,
}

abbrev BothLt : Ordering → Ordering → Type 0
BothLt Ordering.lt q = IsLt q
BothLt _ q = ⊥

-- `IsScalar`, of its three comparisons
abbrev ScalarOf : Ordering → Ordering → Ordering → Type 0
ScalarOf Ordering.lt p q = Unit
ScalarOf Ordering.eq p q = BothLt p q
ScalarOf Ordering.gt p q = BothLt p q

scalar_lt :
    (n : ℕ) (o p q : Ordering)
    → compare n 55296 ≡ o
    → compare n 1114112 ≡ q
    → ScalarOf o p q
    → n < 1114112
scalar_lt n Ordering.lt p q e f s = let l = compare-lt n 55296 e in omega (arith, l)
scalar_lt n Ordering.eq Ordering.lt Ordering.lt e f s = compare-lt n 1114112 f
scalar_lt n Ordering.gt Ordering.lt Ordering.lt e f s = compare-lt n 1114112 f
scalar_lt n _ _ _ e f s = absurd s

code_lt : (c : Char) → code c < 1114112
code_lt (char n p) = scalar_lt n (compare n 55296) (compare 57343 n) (compare n 1114112) refl refl p

pub utf8_small : (c : Char) → all (λ b. leb b 255) (utf8 (code c)) ≡ true
utf8_small c = ground (arith, code_lt c)

-- A digit is read back.
is_value : Option ℕ → ℕ → Bool
is_value none n = false
is_value (some m) n = nat_eq m n

hex_below : ℕ → Bool
hex_below zero = true
hex_below (suc n) = is_value (unhex (code (hex_digit n))) n && hex_below n

hex_below_sound :
    (n k : ℕ) → hex_below n ≡ true → k < n → is_value (unhex (code (hex_digit k))) k ≡ true
unfolding hex_below
hex_below_sound zero k h lt = elim lt [ ]
hex_below_sound (suc n) k h lt = elim (Bool-cases (nat_eq k n)) [
  | inl e ↦ let p : k ≡ n = ground arith in rw p (ground arith)
  | inr e ↦ hex_below_sound n k (ground arith) (ground arith)
]

hex_all : hex_below 16 ≡ true
unfolding hex_below is_value
hex_all = refl

some_of_is_value : (o : Option ℕ) (n : ℕ) → is_value o n ≡ true → o ≡ some n
unfolding is_value
some_of_is_value none n h = cc
some_of_is_value (some m) n h = let e : m ≡ n = ground arith in rw e refl

pub unhex-hex_digit : (k : ℕ) → k < 16 → unhex (code (hex_digit k)) ≡ some k
unhex-hex_digit k h = some_of_is_value _ k (hex_below_sound 16 k hex_all h)

push_all_nil : (o : Option (List ℕ)) → o ≡ push_all [] o
push_all_nil none = refl
push_all_nil (some rest) = refl

push_all_cons :
    (a b : ℕ) (bs : List ℕ) (o : Option (List ℕ))
    → a ≡ b
    → push_all (a ∷ []) (push_all bs o) ≡ push_all (b ∷ bs) o
push_all_cons a b bs none e = refl
push_all_cons a b bs (some rest) e = rw e refl

read-percent :
    (bs : List ℕ) (rest : String)
    → all (λ b. leb b 255) bs ≡ true
    → read_escapes EscapeMode.outside (percent bs rest)
      ≡ push_all bs (read_escapes EscapeMode.outside rest)
unfolding read_escapes
read-percent [] rest h = push_all_nil _
read-percent (b ∷ bs) rest h =
    rw
      (
        unhex-hex_digit (b / 16) (ground arith),
        unhex-hex_digit (b % 16) (omega arith),
        read-percent bs rest (ground arith),
      )
      (push_all_cons (b / 16 * 16 + b % 16) b bs _ (omega arith))

-- What a space becomes.
unfoldable pub plus_for_space : String → String
plus_for_space String.[] = ""
plus_for_space (String.◌∷◌ c s) =
    let rest = plus_for_space s in
    if nat_eq (code c) b' ' then String.◌∷◌ (char_at "+" 0) rest else String.◌∷◌ c rest

pub read_escapes-query_escape :
    (s : String)
    → read_escapes EscapeMode.outside (query_escape s) ≡ some (bytes (plus_for_space s))
unfolding query_escape read_escapes plus_for_space
read_escapes-query_escape String.[] = refl
read_escapes-query_escape (String.◌∷◌ c s) = elim (Bool-cases (is_unreserved (code c))) [
  | inl u ↦
      let n : nat_eq (code c) b' ' ≡ false = ground arith in
      let m : nat_eq (code c) b'%' ≡ false = ground arith in
      rw (u, n, m, read_escapes-query_escape s) refl
  | inr u ↦ elim (Bool-cases (nat_eq (code c) b' ')) [
    | inl p ↦ rw (u, p, read_escapes-query_escape s) refl
    | inr n ↦
        rw
          (
            u,
            n,
            read-percent (utf8 (code c)) (query_escape s) (utf8_small c),
            read_escapes-query_escape s,
          )
          refl
  ]
]
