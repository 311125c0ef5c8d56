-- ===== src/Strings/Escape.antt =====
-- Go's `url.QueryEscape`, and how `url.Parse` reads the user and the password of a URL.
pub mod UserInfo
use Prim.Native.Char.{Char, code}
use Prim.Native.String.{char_at}
use terraform_provider_redsh.Base.{
  ℕ, ◌+◌, ◌-◌, ◌*◌, ◌/◌, ◌%◌, String, ◌<>◌, Bool, true, false, ◌&&◌, ◌||◌, List, [], ◌∷◌, ◌++◌,
  Option, none, some, leb, nat_eq, if◌then◌else◌,
}
use terraform_provider_redsh.Strings.Decimal.{is_digit}

-- The bytes of a character in UTF-8.
abbrev pub utf8 : ℕ → List ℕ
utf8 c =
    if leb c 0x7f
    then c ∷ []
    else if leb c 0x7ff
    then (0xc0 + c / 64) ∷ (0x80 + c % 64) ∷ []
    else if leb c 0xffff
    then (0xe0 + c / 4096) ∷ (0x80 + c / 64 % 64) ∷ (0x80 + c % 64) ∷ []
    else (0xf0 + c / 262144) ∷ (0x80 + c / 4096 % 64) ∷ (0x80 + c / 64 % 64) ∷ (0x80 + c % 64) ∷ []

abbrev pub bytes : String → List ℕ
bytes String.[] = []
bytes (String.◌∷◌ c s) = utf8 (code c) ++ bytes s

abbrev pub is_unreserved : ℕ → Bool
is_unreserved c =
    (leb b'a' c && leb c b'z')
    || ((leb b'A' c && leb c b'Z')
        || (is_digit c || (nat_eq c b'-' || (nat_eq c b'_' || (nat_eq c b'.' || nat_eq c b'~')))))

abbrev pub hex_digit : ℕ → Char
hex_digit n = char_at "0123456789ABCDEF" n

-- `%XX` for each byte, before the rest of a text
abbrev pub percent : List ℕ → String → String
percent [] rest = rest
percent (b ∷ bs) rest =
    String.◌∷◌ (char_at "%" 0)
      (String.◌∷◌ (hex_digit (b / 16)) (String.◌∷◌ (hex_digit (b % 16)) (percent bs rest)))

-- `url.QueryEscape`
unfoldable pub query_escape : String → String
query_escape String.[] = ""
query_escape (String.◌∷◌ c s) =
    let rest = query_escape s in
    if is_unreserved (code c)
    then String.◌∷◌ c rest
    else if nat_eq (code c) b' '
    then String.◌∷◌ (char_at "+" 0) rest
    else percent (utf8 (code c)) rest

abbrev pub unhex : ℕ → Option ℕ
unhex c =
    if is_digit c
    then some (c - b'0')
    else if leb b'A' c && leb c b'F'
    then some (c - b'A' + 10)
    else if leb b'a' c && leb c b'f'
    then some (c - b'a' + 10)
    else none

-- Where the reader stands: outside of an escape, before its first digit, or behind the first one.
pub data EscapeMode : Type 0 where
  outside high : EscapeMode
  low : ℕ → EscapeMode

abbrev pub push_all : List ℕ → Option (List ℕ) → Option (List ℕ)
push_all bs none = none
push_all bs (some rest) = some (bs ++ rest)

-- The bytes that an escaped user or password stands for; a plus sign stands for itself. There are
-- none if an escape is broken.
unfoldable pub read_escapes : EscapeMode → String → Option (List ℕ)
read_escapes EscapeMode.outside String.[] = some []
read_escapes _ String.[] = none
read_escapes EscapeMode.outside (String.◌∷◌ c s) =
    let inside = read_escapes EscapeMode.high s in
    let rest = read_escapes EscapeMode.outside s in
    if nat_eq (code c) b'%' then inside else push_all (utf8 (code c)) rest
read_escapes EscapeMode.high (String.◌∷◌ c s) = elim (unhex (code c)) [
  | none ↦ none
  | some h ↦ read_escapes (EscapeMode.low h) s
]
read_escapes (EscapeMode.low h) (String.◌∷◌ c s) =
    let rest = read_escapes EscapeMode.outside s in
    elim (unhex (code c)) [ none ↦ none | some l ↦ push_all ((h * 16 + l) ∷ []) rest ]

abbrev pub both : Option (List ℕ) → Option (List ℕ) → Option (List ℕ × List ℕ)
both (some a) (some b) = some (a, b)
both _ _ = none

abbrev pub read_parts : List String → Option (List ℕ × List ℕ)
read_parts (user ∷ password ∷ []) =
    both (read_escapes EscapeMode.outside user) (read_escapes EscapeMode.outside password)
read_parts _ = none
