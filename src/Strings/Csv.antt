-- ===== src/Strings/Csv.antt =====
-- The first record that a `csv.Reader` of Go's package `encoding/csv` reads with its default settings,
-- and `strings.TrimSpace`.
use terraform_provider_redsh.Base.{
  ℕ, Char, code, String, Bool, true, ◌&&◌, ◌||◌, List, [], ◌∷◌, leb, nat_eq, ◌==◌, if◌then◌else◌,
}
use terraform_provider_redsh.Errors.{plain, Result, ok, err}

-- Where the reader stands in a field; after the quote of a quoted field it may go on with another.
pub data CsvMode : Type 0 where
  field_start unquoted quoted after_quote : CsvMode

-- A carriage return is dropped before a line feed and at the end.
unfoldable pub normalize_newlines : String → String
normalize_newlines String.[] = ""
normalize_newlines (String.◌∷◌ c s) =
    let rest = normalize_newlines s in
    if nat_eq (code c) b'\r' && before_line_end s then rest else String.◌∷◌ c rest
  where
    before_line_end : String → Bool
    before_line_end String.[] = true
    before_line_end (String.◌∷◌ d t) = nat_eq (code d) b'\n'

-- Empty lines before the record are skipped.
unfoldable pub skip_empty_lines : String → String
skip_empty_lines String.[] = ""
skip_empty_lines (String.◌∷◌ c s) =
    let rest = skip_empty_lines s in if nat_eq (code c) b'\n' then rest else String.◌∷◌ c s

abbrev grow_field : Char → Result (List String) → Result (List String)
grow_field c (ok (f ∷ fields)) = ok (String.◌∷◌ c f ∷ fields)
grow_field c (ok []) = ok (String.◌∷◌ c "" ∷ [])
grow_field c (err e) = err e

abbrev next_field : Result (List String) → Result (List String)
next_field (ok fields) = ok ("" ∷ fields)
next_field (err e) = err e

abbrev bare_quote : Result (List String)
bare_quote = err (plain "bare \" in non-quoted-field")

abbrev extraneous_quote : Result (List String)
extraneous_quote = err (plain "extraneous or missing \" in quoted-field")

-- The rest of the field that the reader is in, and the fields behind it.
unfoldable pub read_fields : CsvMode → String → Result (List String)
read_fields CsvMode.quoted String.[] = extraneous_quote
read_fields _ String.[] = ok ("" ∷ [])
read_fields CsvMode.quoted (String.◌∷◌ c s) =
    let after = read_fields CsvMode.after_quote s in
    let inside = grow_field c (read_fields CsvMode.quoted s) in
    if nat_eq (code c) b'"' then after else inside
read_fields CsvMode.after_quote (String.◌∷◌ c s) =
    let inside = grow_field c (read_fields CsvMode.quoted s) in
    let next = next_field (read_fields CsvMode.field_start s) in
    if nat_eq (code c) b'"'
    then inside
    else if nat_eq (code c) b','
    then next
    else if nat_eq (code c) b'\n'
    then ok ("" ∷ [])
    else extraneous_quote
read_fields CsvMode.field_start (String.◌∷◌ c s) =
    let inside = read_fields CsvMode.quoted s in
    let next = next_field (read_fields CsvMode.field_start s) in
    let on = grow_field c (read_fields CsvMode.unquoted s) in
    if nat_eq (code c) b'"'
    then inside
    else if nat_eq (code c) b','
    then next
    else if nat_eq (code c) b'\n'
    then ok ("" ∷ [])
    else on
read_fields CsvMode.unquoted (String.◌∷◌ c s) =
    let next = next_field (read_fields CsvMode.field_start s) in
    let on = grow_field c (read_fields CsvMode.unquoted s) in
    if nat_eq (code c) b'"'
    then bare_quote
    else if nat_eq (code c) b','
    then next
    else if nat_eq (code c) b'\n'
    then ok ("" ∷ [])
    else on

-- `csv.NewReader(strings.NewReader(s)).Read()`
unfoldable pub csv_read : String → Result (List String)
csv_read s =
    let lines = skip_empty_lines (normalize_newlines s) in
    if lines == "" then err (plain "EOF") else read_fields CsvMode.field_start lines

-- `unicode.IsSpace`
abbrev pub is_space : ℕ → Bool
is_space c =
    (leb 9 c && leb c 13)
    || (nat_eq c 32
        || (nat_eq c 0x85
            || (nat_eq c 0xa0
                || (nat_eq c 0x1680
                    || ((leb 0x2000 c && leb c 0x200a)
                        || (nat_eq c 0x2028
                            || (nat_eq c 0x2029
                                || (nat_eq c 0x202f || (nat_eq c 0x205f || nat_eq c 0x3000)))))))))

unfoldable pub trim_left : String → String
trim_left String.[] = ""
trim_left (String.◌∷◌ c s) =
    let rest = trim_left s in if is_space (code c) then rest else String.◌∷◌ c s

unfoldable pub trim_right : String → String
trim_right String.[] = ""
trim_right (String.◌∷◌ c s) =
    let rest = trim_right s in if is_space (code c) && rest == "" then "" else String.◌∷◌ c rest

-- `strings.TrimSpace`
unfoldable pub trim_space : String → String
trim_space s = trim_right (trim_left s)
