-- ===== src/Strings.antt =====
-- The functions of Go's package `strings` that the provider calls, over Unicode texts.
pub mod Laws
pub mod Decimal
pub mod Csv
pub mod Escape
pub mod Digits
use terraform_provider_redsh.Base.{
  ℕ, ◌-◌, Char, code, String, ◌<>◌, Bool, true, false, ◌&&◌, ◌||◌, List, [], ◌∷◌, leb, nat_eq,
  if◌then◌else◌,
}
use Prim.Native.String
use Prim.Native.String.{char_at}
use text.Mathlib.Text.{starts_with}

abbrev lower_letters : String
lower_letters = "abcdefghijklmnopqrstuvwxyz"

abbrev upper_letters : String
upper_letters = "ABCDEFGHIJKLMNOPQRSTUVWXYZ"

abbrev is_upper : Char → Bool
is_upper c = leb b'A' (code c) && leb (code c) b'Z'

abbrev is_lower : Char → Bool
is_lower c = leb b'a' (code c) && leb (code c) b'z'

-- `unicode.ToLower` for ASCII, and a table for the rest.
pub lower_char : (Char → Char) → Char → Char
lower_char table c =
    if leb (code c) 127
    then (if is_upper c then char_at lower_letters (code c - b'A') else c)
    else table c

upper_char : (Char → Char) → Char → Char
upper_char table c =
    if leb (code c) 127
    then (if is_lower c then char_at upper_letters (code c - b'a') else c)
    else table c

unfoldable pub to_lower : (Char → Char) → String → String
unfolding lower_char
to_lower table String.[] = ""
to_lower table (String.◌∷◌ c s) = String.◌∷◌ (lower_char table c) (to_lower table s)

unfoldable pub to_upper : (Char → Char) → String → String
unfolding upper_char
to_upper table String.[] = ""
to_upper table (String.◌∷◌ c s) = String.◌∷◌ (upper_char table c) (to_upper table s)

-- `strings.ReplaceAll(s, old, old + old)` where `old` is one character.
unfoldable pub double_char : ℕ → String → String
double_char old String.[] = ""
double_char old (String.◌∷◌ c s) =
    let rest = String.◌∷◌ c (double_char old s) in
    if nat_eq (code c) old then String.◌∷◌ c rest else rest

-- `strings.Join`
unfoldable pub join : String → List String → String
join sep [] = ""
join sep (s ∷ []) = s
join sep (s ∷ t ∷ rest) = s <> (sep <> join sep (t ∷ rest))

abbrev grow_first : Char → List String → List String
grow_first c [] = String.◌∷◌ c "" ∷ []
grow_first c (s ∷ rest) = String.◌∷◌ c s ∷ rest

-- `strings.Split` where the separator is one character.
unfoldable pub split : ℕ → String → List String
split sep String.[] = "" ∷ []
split sep (String.◌∷◌ c s) =
    let rest = split sep s in if nat_eq (code c) sep then "" ∷ rest else grow_first c rest

-- `strings.Contains`
unfoldable pub has_substring : String → String → Bool
has_substring String.[] part = starts_with "" part
has_substring (String.◌∷◌ c s) part = starts_with (String.◌∷◌ c s) part || has_substring s part
