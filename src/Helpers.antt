-- ===== src/Helpers.antt =====
-- redshift/helpers.go: quoting, lists of identifiers, the privileges of an object type, the lookups
-- of ids by name, and the retry of failed handlers.
pub mod Retry
pub mod Quote
pub mod Privileges
pub mod SplitCsv
pub mod Rounds
pub mod Literals
use terraform_provider_redsh.Base.{
  ℕ, zero, suc, ◌+◌, String, ◌<>◌, Bool, true, false, not, ◌&&◌, ◌||◌, List, [], ◌∷◌, ◌++◌, map,
  all, contains, is_empty, length, ◌==◌, string_dec, if◌then◌else◌, Option, none, some,
}
use terraform_provider_redsh.Strings.{to_lower, to_upper, double_char, join, split}
use terraform_provider_redsh.Strings.Csv.{csv_read, trim_space}
use terraform_provider_redsh.Errors.{Error, as_pq, Result, ok, err}
use terraform_provider_redsh.External.{Env, number, str, sql}
use terraform_provider_redsh.Effects.{
  M, ◌>>=◌, ◌>>◌, continue, pure, fail, attempt, lift, sleep, tx_query_row,
}

unfoldable pub pq_quote_literal : String → String
pq_quote_literal in_text = double_char b'\'' (double_char b'\\' in_text)

abbrev pq_error_code_concurrent : String
pq_error_code_concurrent = "XX000"

abbrev pub pq_error_code_invalid_schema_name : String
pq_error_code_invalid_schema_name = "3F000"

abbrev pq_error_code_deadlock : String
pq_error_code_deadlock = "40P01"

abbrev pq_error_code_failed_transaction : String
pq_error_code_failed_transaction = "25P02"

abbrev pub pq_error_code_duplicate_schema : String
pq_error_code_duplicate_schema = "42P06"

unfoldable pub is_retryable_pq_error : String → Bool
is_retryable_pq_error = contains (
    pq_error_code_concurrent ∷ pq_error_code_invalid_schema_name ∷ pq_error_code_deadlock
    ∷ pq_error_code_failed_transaction ∷ [])

-- `errors.As(err, &pqErr) && isRetryablePQError(string(pqErr.Code))`
unfoldable pub is_retryable : Error → Bool
is_retryable e = elim (as_pq e) [ none ↦ false | some code ↦ is_retryable_pq_error code ]

unfoldable pub set_to_pg_ident_list_not_quoted : List String → String → String
set_to_pg_ident_list_not_quoted identifiers prefix =
    join "," (map (λ s. if prefix == "" then s else prefix <> ("." <> s)) identifiers)

abbrev first_or_empty : List String → String
first_or_empty [] = ""
first_or_empty (s ∷ rest) = s

-- `make([]string, n)`
abbrev blanks : List String → List String
blanks [] = []
blanks (s ∷ rest) = "" ∷ blanks rest

-- The names are appended to as many empty texts.
unfoldable pub strip_arguments_from_callables_definitions : List String → List String
strip_arguments_from_callables_definitions defs =
    blanks defs ++ map (λ s. first_or_empty (split b'(' s)) defs

unfoldable pub append_if_true : Bool → String → List String → List String
append_if_true condition item list = if condition then list ++ item ∷ [] else list

-- The `switch` of one round: the object type and the privilege, in capitals.
unfoldable pub is_allowed : String → String → Bool
is_allowed kind p =
    if kind == "SCHEMA"
    then contains ("CREATE" ∷ "USAGE" ∷ []) p
    else if kind == "TABLE"
    then contains
        ("SELECT" ∷ "UPDATE" ∷ "INSERT" ∷ "DELETE" ∷ "DROP" ∷ "REFERENCES" ∷ "RULE" ∷ "TRIGGER"
          ∷ [])
        p
    else if kind == "DATABASE"
    then contains ("CREATE" ∷ "TEMPORARY" ∷ "USAGE" ∷ []) p
    else if kind == "PROCEDURE" || kind == "FUNCTION"
    then contains ("EXECUTE" ∷ []) p
    else if kind == "LANGUAGE"
    then contains ("USAGE" ∷ []) p
    else false

-- The loop of `splitCsvAndTrim`.
abbrev pub trim_fields : List String → List String
trim_fields [] = []
trim_fields (s ∷ rest) =
    let fields = trim_fields rest in if trim_space s == "" then fields else trim_space s ∷ fields

unfoldable pub split_csv_and_trim : String → Result (List String)
split_csv_and_trim raw =
    if raw == ""
    then ok []
    else elim (csv_read raw) [ err e ↦ err e | ok fields ↦ ok (trim_fields fields) ]

module _ (env : Env) where
  abbrev pub lower : String → String
  lower = to_lower env.lower_table

  abbrev pub upper : String → String
  upper = to_upper env.upper_table

  unfoldable pub set_to_pg_ident_list : List String → String → String
  set_to_pg_ident_list identifiers prefix = join "," (
      map
        (λ s.
          if prefix == ""
          then env.quote_identifier s
          else env.quote_identifier prefix <> ("." <> env.quote_identifier s))
        identifiers)

  unfoldable pub validate_privileges : List String → String → Bool
  validate_privileges privileges object_type =
      if object_type == "language" && is_empty privileges
      then false
      else all (λ p. is_allowed (upper object_type) (upper p)) privileges

  module _ {D : Type 0} where
    unfoldable pub get_group_id_from_name : String → M env D ℕ
    get_group_id_from_name group_name = do
      row ←
          tx_query_row (number ∷ [])
            (sql "SELECT grosysid FROM pg_group WHERE groname = $1" (str group_name ∷ []))
      pure row.0

    unfoldable pub get_user_id_from_name : String → M env D ℕ
    get_user_id_from_name user_name = do
      row ←
          tx_query_row (number ∷ [])
            (sql "SELECT usesysid FROM pg_user WHERE usename = $1" (str user_name ∷ []))
      pure row.0

    unfoldable pub get_schema_id_from_name : String → M env D ℕ
    get_schema_id_from_name schema_name = do
      row ←
          tx_query_row (number ∷ [])
            (sql "SELECT oid FROM pg_namespace WHERE nspname = $1" (str schema_name ∷ []))
      pure row.0

    -- `ResourceFunc`: connect, and run the handler.
    unfoldable pub resource_func : M env D (Unit {0}) → M env D (Unit {0})
    resource_func fn w = elim (env.connect w.state) [ err e ↦ (err e, w) | ok _ ↦ fn w ]

    -- The loop of `ResourceRetryOnPQErrors`, with the rounds that are left and `i`. An error that
    -- the last round meets is dropped.
    unfoldable pub retry_from : ℕ → ℕ → M env D (Unit {0}) → M env D (Unit {0})
    retry_from zero i fn = pure tt
    retry_from (suc left) i fn = do
      r ← attempt fn
      elim r [
        | ok _ ↦ pure tt
        | err e ↦ elim (is_retryable e) [
          | true ↦ sleep (i + 1) >> retry_from left (i + 1) fn
          | false ↦ fail e
        ]
      ]

    unfoldable pub resource_retry_on_pq_errors : M env D (Unit {0}) → M env D (Unit {0})
    resource_retry_on_pq_errors = retry_from 10 0
