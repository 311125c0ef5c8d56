-- ===== src/Helpers/SplitCsv.antt =====
-- `splitCsvAndTrim` (helpers.go) on texts that `strings.Join` has made.
use text.Mathlib.TextLemmas.{nil-append, cons-append, cons≢nil}
use terraform_provider_redsh.Base.{
  ℕ, Char, code, String, ◌<>◌, Bool, true, false, not, ◌&&◌, List, [], ◌∷◌, all, nat_eq, ◌==◌,
  string_dec, if◌then◌else◌, ◌≡◌, refl, ap, ◌∙◌, arith,
}
use terraform_provider_redsh.Strings.{join}
use terraform_provider_redsh.Strings.Csv.{
  CsvMode, normalize_newlines, skip_empty_lines, read_fields, csv_read, is_space, trim_left,
  trim_right, trim_space,
}
use terraform_provider_redsh.Errors.{ok, err, plain}
use terraform_provider_redsh.Helpers.{trim_fields, split_csv_and_trim}

-- No white space, no quote, no comma.
abbrev is_plain_char : ℕ → Bool
is_plain_char c = not (is_space c) && (not (nat_eq c b'"') && not (nat_eq c b','))

abbrev is_plain_text : String → Bool
is_plain_text String.[] = true
is_plain_text (String.◌∷◌ c s) = is_plain_char (code c) && is_plain_text s

-- A text of at least one character, all of them plain.
abbrev pub is_plain : String → Bool
is_plain String.[] = false
is_plain (String.◌∷◌ c s) = is_plain_char (code c) && is_plain_text s

-- Plain texts and the commas between them.
abbrev has_no_line_end : String → Bool
has_no_line_end String.[] = true
has_no_line_end (String.◌∷◌ c s) =
    (not (nat_eq (code c) b'\r') && not (nat_eq (code c) b'\n')) && has_no_line_end s

has_no_line_end-plain : (s : String) → is_plain_text s ≡ true → has_no_line_end s ≡ true
has_no_line_end-plain String.[] h = refl
has_no_line_end-plain (String.◌∷◌ c s) h = ground (arith, has_no_line_end-plain s)

has_no_line_end-append :
    (s t : String)
    → is_plain_text s ≡ true
    → has_no_line_end t ≡ true
    → has_no_line_end (s <> t) ≡ true
has_no_line_end-append String.[] t h k = rw nil-append k
has_no_line_end-append (String.◌∷◌ c s) t h k =
    rw cons-append (ground (arith, has_no_line_end-append s t))

text_of_plain : (s : String) → is_plain s ≡ true → is_plain_text s ≡ true
text_of_plain String.[] h = refl
text_of_plain (String.◌∷◌ c s) h = h

has_no_line_end-join :
    (items : List String) → all is_plain items ≡ true → has_no_line_end (join "," items) ≡ true
unfolding join
has_no_line_end-join [] h = refl
has_no_line_end-join (s ∷ []) h = has_no_line_end-plain s (text_of_plain s (ground arith))
has_no_line_end-join (s ∷ t ∷ rest) h =
    has_no_line_end-append s ("," <> join "," (t ∷ rest)) (text_of_plain s (ground arith))
      (rw (cons-append, nil-append) (has_no_line_end-join (t ∷ rest) (ground arith)))

normalize_of_no_line_end : (s : String) → has_no_line_end s ≡ true → normalize_newlines s ≡ s
unfolding normalize_newlines
normalize_of_no_line_end String.[] h = refl
normalize_of_no_line_end (String.◌∷◌ c s) h =
    rw (normalize_of_no_line_end s (ground arith)) (ground arith)

skip_of_no_line_end : (s : String) → has_no_line_end s ≡ true → skip_empty_lines s ≡ s
unfolding skip_empty_lines
skip_of_no_line_end String.[] h = refl
skip_of_no_line_end (String.◌∷◌ c s) h = ground arith

trim_right_of_plain : (s : String) → is_plain_text s ≡ true → trim_right s ≡ s
unfolding trim_right
trim_right_of_plain String.[] h = refl
trim_right_of_plain (String.◌∷◌ c s) h = rw (trim_right_of_plain s (ground arith)) (ground arith)

trim_left_of_plain : (s : String) → is_plain_text s ≡ true → trim_left s ≡ s
unfolding trim_left
trim_left_of_plain String.[] h = refl
trim_left_of_plain (String.◌∷◌ c s) h = ground arith

trim_space_of_plain : (s : String) → is_plain_text s ≡ true → trim_space s ≡ s
unfolding trim_space
trim_space_of_plain s h = rw (trim_left_of_plain s h) (trim_right_of_plain s h)

nonempty : (c : Char) (s : String) → (String.◌∷◌ c s == "") ≡ false
nonempty c s = ground (arith, λ (p : String.◌∷◌ c s ≡ ""). cons≢nil p)

is_empty_of_plain : (s : String) → is_plain s ≡ true → (s == "") ≡ false
is_empty_of_plain String.[] h = cc
is_empty_of_plain (String.◌∷◌ c s) h = nonempty c s

trim_fields_of_plain : (items : List String) → all is_plain items ≡ true → trim_fields items ≡ items
trim_fields_of_plain [] h = refl
trim_fields_of_plain (s ∷ rest) h =
    rw
      (
        trim_space_of_plain s (text_of_plain s (ground arith)),
        is_empty_of_plain s (ground arith),
        trim_fields_of_plain rest (ground arith),
      )
      refl

read_unquoted : (s : String) → is_plain_text s ≡ true → read_fields CsvMode.unquoted s ≡ ok (s ∷ [])
unfolding read_fields
read_unquoted String.[] h = refl
read_unquoted (String.◌∷◌ c s) h = rw (read_unquoted s (ground arith)) (ground arith)

read_unquoted_then :
    (s t : String) (fields : List String)
    → is_plain_text s ≡ true
    → read_fields CsvMode.field_start t ≡ ok fields
    → read_fields CsvMode.unquoted (s <> ("," <> t)) ≡ ok (s ∷ fields)
unfolding read_fields
read_unquoted_then String.[] t fields h k = rw (nil-append, cons-append, nil-append, k) refl
read_unquoted_then (String.◌∷◌ c s) t fields h k =
    rw (cons-append, read_unquoted_then s t fields (ground arith) k) (ground arith)

read_join :
    (items : List String)
    → all is_plain items ≡ true
    → (s : String) → is_plain s ≡ true
    → read_fields CsvMode.field_start (join "," (s ∷ items)) ≡ ok (s ∷ items)
unfolding join read_fields
read_join [] h (String.◌∷◌ c s) k = rw (read_unquoted s (ground arith)) (ground arith)
read_join (t ∷ rest) h (String.◌∷◌ c s) k =
    rw
      (
        cons-append,
        read_unquoted_then s (join "," (t ∷ rest)) (t ∷ rest) (ground arith)
            (read_join rest (ground arith) t (ground arith)),
      )
      (ground arith)
read_join _ h String.[] k = cc

join_nonempty :
    (items : List String) (s : String) → is_plain s ≡ true → (join "," (s ∷ items) == "") ≡ false
unfolding join
join_nonempty [] s h = is_empty_of_plain s h
join_nonempty (t ∷ rest) String.[] h = cc
join_nonempty (t ∷ rest) (String.◌∷◌ c s) h =
    rw cons-append (nonempty c (s <> ("," <> join "," (t ∷ rest))))

csv_read_of_no_line_end :
    (s : String)
    → has_no_line_end s ≡ true
    → (s == "") ≡ false
    → csv_read s ≡ read_fields CsvMode.field_start s
unfolding csv_read
csv_read_of_no_line_end s h e =
    ap (λ l. if l == "" then err (plain "EOF") else read_fields CsvMode.field_start l)
      (ap skip_empty_lines (normalize_of_no_line_end s h) ∙ skip_of_no_line_end s h)
    ∙ rw e refl

split_csv_and_trim_of_nothing : split_csv_and_trim (join "," []) ≡ ok []
unfolding split_csv_and_trim join string_dec
split_csv_and_trim_of_nothing = refl

-- A list of texts without white space, quotes and commas, none of them empty, is what
-- `split_csv_and_trim` makes of the texts joined by commas.
pub split_csv_and_trim-join :
    (items : List String)
    → all is_plain items ≡ true
    → split_csv_and_trim (join "," items) ≡ ok items
unfolding split_csv_and_trim
split_csv_and_trim-join [] h = split_csv_and_trim_of_nothing
split_csv_and_trim-join (s ∷ rest) h =
    let filled = join_nonempty rest s (ground arith) in
    let lines = has_no_line_end-join (s ∷ rest) h in
    rw
      (
        filled,
        csv_read_of_no_line_end (join "," (s ∷ rest)) lines filled,
        read_join rest (ground arith) s (ground arith),
        trim_fields_of_plain (s ∷ rest) h,
      )
      refl
