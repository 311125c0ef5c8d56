-- ===== src/Strings/Laws.antt =====
-- Splitting what was joined, and changing case.
use Prim.Native.String.{char_at}
use text.Mathlib.TextLemmas.{nil-append, cons-append}
use terraform_provider_redsh.Base.{
  ℕ, zero, suc, ◌-◌, ◌≤◌, ◌<◌, Char, code, String, ◌<>◌, Bool, true, ◌&&◌, [], ◌∷◌, leb, not,
  nat_eq, ◌≡◌, ◌≢◌, refl, arith,
}
use terraform_provider_redsh.Strings.{lower_char, to_lower, split, lower_letters}

-- No character of the text has the code.
abbrev pub Lacks : ℕ → String → Type 0
Lacks n String.[] = Unit
Lacks n (String.◌∷◌ c s) = (code c ≢ n) × Lacks n s

-- The same as a test.
abbrev pub is_without : ℕ → String → Bool
is_without n String.[] = true
is_without n (String.◌∷◌ c s) = not (nat_eq (code c) n) && is_without n s

pub is_without-Lacks : (n : ℕ) (s : String) → is_without n s ≡ true → Lacks n s
is_without-Lacks n String.[] h = tt
is_without-Lacks n (String.◌∷◌ c s) h =
    (λ e. ground (arith, e, h), is_without-Lacks n s (ground (arith, h)))

pub split_of_Lacks : (sep : ℕ) (s : String) → Lacks sep s → split sep s ≡ s ∷ []
unfolding split
split_of_Lacks sep String.[] h = refl
split_of_Lacks sep (String.◌∷◌ c s) (p, h) = rw (split_of_Lacks sep s h) (ground arith)

-- The text up to the first separator is the first part.
split-append :
    (c : Char) (s t : String)
    → Lacks (code c) s
    → split (code c) (s <> String.◌∷◌ c t) ≡ s ∷ split (code c) t
unfolding split
split-append c String.[] t h = rw nil-append (ground arith)
split-append c (String.◌∷◌ d s) t (p, h) = rw cons-append (rw (split-append c s t h) (ground arith))

-- The part before a colon.
pub cut : (a rest : String) → Lacks b':' a → split b':' (a <> (":" <> rest)) ≡ a ∷ split b':' rest
cut a rest p = rw (cons-append, nil-append) (split-append ":" a rest p)

pub Lacks-append : (n : ℕ) (s t : String) → Lacks n s → Lacks n t → Lacks n (s <> t)
Lacks-append n String.[] t h k = rw nil-append k
Lacks-append n (String.◌∷◌ c s) t (p, h) k = rw cons-append (p, Lacks-append n s t h k)

-- A letter that was mapped stays as it is.
lower_below : ℕ → Bool
lower_below zero = true
lower_below (suc n) =
    (leb b'a' (code (char_at lower_letters n)) && leb (code (char_at lower_letters n)) b'z')
    && lower_below n

lower_below_sound :
    (n k : ℕ)
    → lower_below n ≡ true
    → k < n
    → (b'a' ≤ code (char_at lower_letters k)) × (code (char_at lower_letters k) ≤ b'z')
unfolding lower_below
lower_below_sound zero k h lt = elim lt [ ]
lower_below_sound (suc n) k h lt = ground (arith, lower_below_sound n k)

lower_all : lower_below 26 ≡ true
unfolding lower_below
lower_all = refl

letter_bounds :
    (k : ℕ)
    → k < 26
    → (b'a' ≤ code (char_at lower_letters k)) × (code (char_at lower_letters k) ≤ b'z')
letter_bounds k h = lower_below_sound 26 k lower_all h

module _ (table : Char → Char) where
  -- No character becomes the code `n`, which is neither a letter nor a character of the text.
  lower_char-ne :
      (n : ℕ) (c : Char)
      → n < b'a'
      → ((d : Char) → 127 < code d → code (table d) ≢ n)
      → code c ≢ n
      → code (lower_char table c) ≢ n
  unfolding lower_char
  lower_char-ne n c small off p = ground (arith, off c, letter_bounds (code c - b'A'))

  pub Lacks-to_lower :
      (n : ℕ) (s : String)
      → n < b'a'
      → ((d : Char) → 127 < code d → code (table d) ≢ n)
      → Lacks n s
      → Lacks n (to_lower table s)
  unfolding to_lower
  Lacks-to_lower n String.[] small off h = tt
  Lacks-to_lower n (String.◌∷◌ c s) small off (p, h) =
      (lower_char-ne n c small off p, Lacks-to_lower n s small off h)
