-- ===== src/Config.antt =====
-- redshift/config.go: the check for Redshift Serverless, with its cache.
pub mod Serverless
pub mod Settings
pub mod UserInfo
pub mod Credentials
pub mod Registry
use terraform_provider_redsh.Base.{String, Bool, true, false, ◌==◌, string_dec, if◌then◌else◌}
use terraform_provider_redsh.Errors.{Error, pq, Result, ok, err}

-- The fields `isServerless` and `checkedForServerless`.
pub record ServerlessCache : Type 0 where
  pub is_serverless : Bool
  pub checked_for_serverless : Bool

-- As `NewConfig` leaves them.
abbrev pub new_cache : ServerlessCache
new_cache = record { is_serverless = false; checked_for_serverless = false }

-- A type assertion that fails panics.
pub data Outcome : Type 0 where
  answer : Result Bool → Outcome
  panic : Outcome

abbrev pg_error_code_insufficient_privileges : String
pg_error_code_insufficient_privileges = "42501"

-- `isPqErrorWithCode`, whose assertion does not look behind a wrapped error
unfoldable pub is_pq_error_with_code : Error → String → Result Bool
is_pq_error_with_code (pq code _) wanted = ok (code == wanted)
is_pq_error_with_code e wanted = err e

-- What the first query leads to if it fails; the second one is sent if privileges are missing.
unfoldable pub classify : Error → Result (Unit {0}) → Outcome × ServerlessCache
classify e svl_query = elim (is_pq_error_with_code e pg_error_code_insufficient_privileges) [
  | err _ ↦ (Outcome.panic, record { is_serverless = false; checked_for_serverless = true })
  | ok true ↦ elim svl_query [
    | err _ ↦
        (Outcome.answer (ok true), record { is_serverless = true; checked_for_serverless = true })
    | ok _ ↦
        (Outcome.answer (ok false), record { is_serverless = false; checked_for_serverless = true })
  ]
  | ok false ↦
      (Outcome.answer (err e), record { is_serverless = false; checked_for_serverless = true })
]

-- `IsServerless`, with what the queries on SYS_SERVERLESS_USAGE and SVL_QUERY_SUMMARY answer. The
-- flag is false until a check sets it.
unfoldable pub is_serverless_call :
    ServerlessCache → Result (Unit {0}) → Result (Unit {0}) → Outcome × ServerlessCache
is_serverless_call cache sys_query svl_query =
    if cache.checked_for_serverless
    then (Outcome.answer (ok cache.is_serverless), cache)
    else elim sys_query [
      | ok _ ↦
          (Outcome.answer (ok true), record { is_serverless = true; checked_for_serverless = true })
      | err e ↦ classify e svl_query
    ]
