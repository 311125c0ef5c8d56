-- ===== src/Validation.antt =====
-- redshift/validation.go and redshift/custom_diff.go: the checks of attribute values.
pub mod Patterns
use terraform_provider_redsh.Base.{
  ℕ, zero, suc, String, Bool, true, false, not, ◌&&◌, ◌||◌, List, [], ◌∷◌, ◌++◌, length, code, leb,
  nat_eq, if◌then◌else◌,
}
use terraform_provider_redsh.Strings.Decimal.{is_digit}

abbrev reserved_words : List String
reserved_words =
    "aes128" ∷ "aes256" ∷ "all" ∷ "allowoverwrite" ∷ "analyse" ∷ "analyze" ∷ "and" ∷ "any" ∷ "array"
    ∷ "as" ∷ "asc" ∷ "authorization" ∷ "az64" ∷ "backup" ∷ "between" ∷ "binary" ∷ "blanksasnull"
    ∷ "both" ∷ "bytedict" ∷ "bzip2" ∷ "case" ∷ "cast" ∷ "check" ∷ "collate" ∷ "column"
    ∷ "constraint" ∷ "create" ∷ "credentials" ∷ "cross" ∷ "current_date" ∷ "current_time"
    ∷ "current_timestamp" ∷ "current_user" ∷ "current_user_id" ∷ "default" ∷ "deferrable"
    ∷ "deflate" ∷ "defrag" ∷ "delta" ∷ "delta32k" ∷ "desc" ∷ "disable" ∷ "distinct" ∷ "do" ∷ "drop"
    ∷ "else" ∷ "emptyasnull" ∷ "enable" ∷ "encode" ∷ "encrypt     " ∷ "encryption" ∷ "end"
    ∷ "except" ∷ "explicit" ∷ "false" ∷ "for" ∷ "foreign" ∷ "freeze" ∷ "from" ∷ "full"
    ∷ "globaldict256" ∷ "globaldict64k" ∷ "grant" ∷ "group" ∷ "gzip" ∷ "having" ∷ "identity"
    ∷ "ignore" ∷ "ilike" ∷ "in" ∷ "initially" ∷ "inner" ∷ "intersect" ∷ "into" ∷ "is" ∷ "isnull"
    ∷ "join" ∷ "language" ∷ "leading" ∷ "left" ∷ "like" ∷ "limit" ∷ "localtime" ∷ "localtimestamp"
    ∷ "lun" ∷ "luns" ∷ "lzo" ∷ "lzop" ∷ "minus" ∷ "mostly16" ∷ "mostly32" ∷ "mostly8" ∷ "natural"
    ∷ "new" ∷ "not" ∷ "notnull" ∷ "null" ∷ "nulls" ∷ "off" ∷ "offline" ∷ "offset" ∷ "oid" ∷ "old"
    ∷ "on" ∷ "only" ∷ "open" ∷ "or" ∷ "order" ∷ "outer" ∷ "overlaps" ∷ "parallel" ∷ "partition"
    ∷ "percent" ∷ "permissions" ∷ "placing" ∷ "primary" ∷ "raw" ∷ "readratio" ∷ "recover"
    ∷ "references" ∷ "respect" ∷ "rejectlog" ∷ "resort" ∷ "restore" ∷ "right" ∷ "rule" ∷ "select"
    ∷ "session_user" ∷ "similar" ∷ "snapshot " ∷ "some" ∷ "sysdate" ∷ "system" ∷ "table" ∷ "tag"
    ∷ "tdes" ∷ "text255" ∷ "text32k" ∷ "then" ∷ "timestamp" ∷ "to" ∷ "top" ∷ "trailing" ∷ "trigger"
    ∷ "true" ∷ "truncatecolumns" ∷ "union" ∷ "unique" ∷ "user" ∷ "using" ∷ "verbose" ∷ "wallet"
    ∷ "when" ∷ "where" ∷ "with" ∷ "without" ∷ []

-- A class of characters, by their code.
abbrev pub Class : Type 0
Class = ℕ → Bool

abbrev is_small : Class
is_small c = leb b'a' c && leb c b'z'

abbrev is_capital : Class
is_capital c = leb b'A' c && leb c b'Z'

-- An expression between `^` and `$` that has a class for each character.
unfoldable pub matches_all : List Class → String → Bool
matches_all [] String.[] = true
matches_all [] (String.◌∷◌ c s) = false
matches_all (p ∷ ps) String.[] = false
matches_all (p ∷ ps) (String.◌∷◌ c s) = p (code c) && matches_all ps s

-- An expression without `^` and `$` whose least match is one character of a class.
unfoldable pub has_char : Class → String → Bool
has_char p String.[] = false
has_char p (String.◌∷◌ c s) = p (code c) || has_char p s

-- `{n}`
abbrev pub times : ℕ → Class → List Class
times zero p = []
times (suc n) p = p ∷ times n p

-- `[a-z1-9_+.@-]{1,64}`
unfoldable pub db_group_acceptable_characters : String → Bool
db_group_acceptable_characters = has_char λ c.
    is_small c
    || ((leb b'1' c && leb c b'9')
        || (nat_eq c b'_'
            || (nat_eq c b'+' || (nat_eq c b'.' || (nat_eq c b'@' || nat_eq c b'-')))))

-- `[a-zA-Z].*`
unfoldable starts_with_letter : String → Bool
starts_with_letter = has_char λ c. is_small c || is_capital c

abbrev pub is_hex : Class
is_hex c = (leb b'a' c && leb c b'f') || ((leb b'A' c && leb c b'F') || is_digit c)

abbrev dash : List Class
dash = (λ c. nat_eq c b'-') ∷ []

abbrev pub aws_account_id : List Class
aws_account_id = times 12 is_digit

abbrev pub uuid : List Class
uuid =
    times 8 is_hex
    ++ (dash
        ++ (times 4 is_hex
            ++ (dash
                ++ (times 4 is_hex ++ (dash ++ (times 4 is_hex ++ (dash ++ times 12 is_hex)))))))

unfoldable pub is_aws_account_id : String → Bool
is_aws_account_id = matches_all aws_account_id

unfoldable pub is_uuid : String → Bool
is_uuid = matches_all uuid

-- The checks of Terraform's SDK that the provider puts together.
pub record SdkChecks : Type 0 where
  pub string_len_between : ℕ → ℕ → String → Bool
  pub string_does_not_contain_any : String → String → Bool
  pub string_not_in_slice : List String → Bool → String → Bool

unfoldable db_group_validate : SdkChecks → String → Bool
db_group_validate sdk s =
    sdk.string_len_between 1 64 s
    && (db_group_acceptable_characters s
        && (starts_with_letter s
            && (sdk.string_does_not_contain_any ":/" s
                && sdk.string_not_in_slice reserved_words true s)))

unfoldable pub list_size_changed {ℓ} : {A : Type ℓ} → List A → List A → Bool
list_size_changed old new = not (nat_eq (length old) (length new))
