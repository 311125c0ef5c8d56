-- ===== src/User/Timestamps.antt =====
-- `validateAndAdjustValidUntil`, and its regular expressions.
use terraform_provider_redsh.Base.{
  ℕ, code, String, ◌<>◌, Bool, true, false, ◌&&◌, ◌||◌, List, [], ◌∷◌, ◌++◌, ◌==◌, if◌then◌else◌,
  nat_eq,
}
use terraform_provider_redsh.Strings.Decimal.{is_digit}
use terraform_provider_redsh.Errors.{plain, Result, ok, err}

-- `\d+`, `\d`, and one character as it is.
pub data Piece : Type 0 where
  digits digit : Piece
  exactly : ℕ → Piece

-- An expression between `^` and `$`.
unfoldable pub matches : List Piece → String → Bool
matches [] String.[] = true
matches [] (String.◌∷◌ c s) = false
matches (p ∷ ps) String.[] = false
matches (Piece.digits ∷ ps) (String.◌∷◌ c s) =
    is_digit (code c) && (matches (Piece.digits ∷ ps) s || matches ps s)
matches (Piece.digit ∷ ps) (String.◌∷◌ c s) = is_digit (code c) && matches ps s
matches (Piece.exactly k ∷ ps) (String.◌∷◌ c s) = nat_eq (code c) k && matches ps s

abbrev two : Piece → List Piece
two p = p ∷ Piece.digit ∷ Piece.digit ∷ []

abbrev pub datetime : List Piece
datetime =
    Piece.digits ∷ two (Piece.exactly b'-')
    ++ (two (Piece.exactly b'-')
        ++ (two (Piece.exactly b' ') ++ (two (Piece.exactly b':') ++ two (Piece.exactly b':'))))

abbrev pub offset : List Piece
offset = Piece.exactly b'+' ∷ Piece.exactly b'0' ∷ Piece.exactly b'0' ∷ []

-- `redshiftDataApiDatetimeRegexp`
unfoldable pub is_data_api_datetime : String → Bool
is_data_api_datetime = matches datetime

-- `correctDatetimeRegexp`, without and with the fraction
unfoldable pub is_correct_datetime : String → Bool
is_correct_datetime s =
    matches (datetime ++ offset) s
    || matches (datetime ++ (Piece.exactly b'.' ∷ Piece.digits ∷ offset)) s

abbrev pub check_datetime : String → Result String
check_datetime s =
    if is_correct_datetime s
    then ok s
    else err (plain "received invalid date format for valid_until")

unfoldable pub validate_and_adjust_valid_until : String → Result String
validate_and_adjust_valid_until valid_until =
    if valid_until == "infinity"
    then ok valid_until
    else if valid_until == "2038-01-19 03:14:04"
    then ok "infinity"
    else if is_data_api_datetime valid_until
    then check_datetime (valid_until <> "+00")
    else check_datetime valid_until
