-- ===== src/Tests/Grants.antt =====
-- Grants, literals, privileges and the retry.
use terraform_provider_redsh.Base.{
  true, none, ◌+◌, String, ◌<>◌, Bool, false, List, [], ◌∷◌, All, some, string_dec, ◌≡◌, ◌≢◌, ap,
  sym, ◌⊎◌, refl, arith,
}
use terraform_provider_redsh.Base.{length, ◌≤◌}
use terraform_provider_redsh.Helpers.Rounds.{resource_retry_on_pq_errors_rounds}
use terraform_provider_redsh.Strings.{to_upper, double_char}
use terraform_provider_redsh.Errors.{Error, pq, Result, ok, err}
use terraform_provider_redsh.External.{Column, text, flag, Cells}
use terraform_provider_redsh.Effects.{World, M}
use terraform_provider_redsh.Effects.Finish.{AllOrNothing}
use terraform_provider_redsh.Samples.{default_cells, sample, sample-IsTransactional}
use terraform_provider_redsh.Helpers.{
  is_retryable, is_retryable_pq_error, pq_quote_literal, resource_retry_on_pq_errors,
  validate_privileges,
}
use terraform_provider_redsh.Helpers.Retry.{resource_retry_on_pq_errors_exhausted}
use terraform_provider_redsh.Helpers.Quote.{read_literal, Mode, read_literal-pq_quote_literal}
use terraform_provider_redsh.Grant.{GrantData, grantee, generate_grant_id}
use terraform_provider_redsh.Grant.Read.{read_table_grants, table_privileges}
use terraform_provider_redsh.Grant.Handlers.{resource_redshift_grant_create}
use terraform_provider_redsh.Grant.Atomic.{
  grant_script, resource_redshift_grant_create-AllOrNothing,
}
use terraform_provider_redsh.Grant.Drift.{Selected, Agrees, Drift, read_table_grants_lem}
use terraform_provider_redsh.Grant.Statements.{
  Known, SameTarget, same_target, generate_grant_id_of_roles,
}
use terraform_provider_redsh.Grant.Read.{resource_redshift_grant_read_impl}
use terraform_provider_redsh.Grant.Handlers.{validate_parameters}
use terraform_provider_redsh.Helpers.{is_allowed}
use terraform_provider_redsh.Grant.Success.{resource_redshift_grant_create-Takes}
use terraform_provider_redsh.Effects.Sends.{session_after}
use terraform_provider_redsh.Samples.{sample-Takes}
use terraform_provider_redsh.Grant.Read.{schema_privileges, database_privileges}
use terraform_provider_redsh.Grant.Reported.{validate_privileges-reported}
use terraform_provider_redsh.Samples.{sample-HasSets}
use terraform_provider_redsh.Tests.{fresh, differ}

abbrev table_grant : GrantData
table_grant = record {
  id = "";
  user = "";
  group = "staff";
  role = "";
  schema = "sales";
  database = "";
  object_type = "table";
  objects = "orders" ∷ "t" ∷ [];
  privileges = "select" ∷ "update" ∷ [];
}

abbrev grant_world : World sample GrantData
grant_world = fresh ("CREATE SCHEMA sales" ∷ []) table_grant

create_grant_example :
    AllOrNothing sample sample-IsTransactional
      (resource_redshift_grant_create sample "dev" grant_world)
      (λ _. grant_script sample "dev" table_grant)
      grant_world
create_grant_example =
    resource_redshift_grant_create-AllOrNothing sample sample-IsTransactional "dev" grant_world refl

same_target_example : SameTarget sample table_grant "dev" "REVOKE ALL PRIVILEGES ON "
unfolding to_upper
same_target_example = same_target sample table_grant "dev" (Known.table refl)

grant_id_example :
    (generate_grant_id sample (record table_grant { group = ""; role = "reader" })
      ≡ generate_grant_id sample (record table_grant { group = ""; role = "writer" }))
    × (grantee sample (record table_grant { group = ""; role = "reader" })
        ≢ grantee sample (record table_grant { group = ""; role = "writer" }))
unfolding double_char string_dec
grant_id_example =
    generate_grant_id_of_roles sample (record table_grant { group = "" }) "reader" "writer" refl
      refl (differ refl) (differ refl) (differ refl)

abbrev table_columns : List Column
table_columns = flag ∷ flag ∷ flag ∷ flag ∷ flag ∷ flag ∷ flag ∷ flag ∷ []

-- The one row of the sample: the table `t`, with every privilege.
abbrev table_rows : List (Cells (text ∷ table_columns))
table_rows = default_cells (text ∷ table_columns) ∷ []

read_table_grants_example :
    (All
        (λ x.
          Selected sample table_columns (table_privileges sample) grant_world x
          → Agrees sample table_columns (table_privileges sample) grant_world x)
        table_rows
      × (read_table_grants sample grant_world ≡ (ok tt, grant_world)))
    ⊎ Drift sample table_columns
        (table_privileges sample)
        grant_world
        table_rows
        (read_table_grants sample grant_world)
read_table_grants_example = read_table_grants_lem sample grant_world table_rows refl

read_literal_example :
    read_literal Mode.plain (pq_quote_literal "o'brien\\" <> ("'" <> " VALID"))
    ≡ some ("o'brien\\", " VALID")
read_literal_example = read_literal-pq_quote_literal "o'brien\\" " VALID" (omega arith)

-- A handler that fails with the given code of lib/pq.
abbrev failing : String → M sample GrantData (Unit {0})
failing number w = (err (pq number "refused"), w)

abbrev retryable_of : Result (Unit {0}) → Bool
retryable_of (ok u) = false
retryable_of (err e) = is_retryable e

fatal : (e : Error) → (failing "42501" grant_world).0 ≡ err e → is_retryable e ≡ false
unfolding is_retryable is_retryable_pq_error string_dec
fatal e h = sym (ap retryable_of h)

retry_exhausted_example :
    ((resource_retry_on_pq_errors sample (failing "XX000") grant_world).0 ≡ ok tt)
    × ((resource_retry_on_pq_errors sample (failing "XX000") grant_world).1.slept ≡ 0 + 55)
unfolding is_retryable is_retryable_pq_error
retry_exhausted_example =
    resource_retry_on_pq_errors_exhausted sample (failing "XX000") grant_world
      (λ v. (pq "XX000" "refused", refl, ground arith)) (λ v. refl)

table_grant_valid : validate_parameters sample table_grant ≡ none
unfolding validate_parameters validate_privileges is_allowed to_upper string_dec
table_grant_valid = refl

taken_grant_example :
    resource_redshift_grant_create sample "dev" grant_world
    ≡ resource_redshift_grant_read_impl sample "dev" (record grant_world {
      state =
          (session_after sample
            (grant_script sample "dev" table_grant)
            ("CREATE SCHEMA sales" ∷ [], "CREATE SCHEMA sales" ∷ [])).1;
      tx = none;
      d = record table_grant { id = generate_grant_id sample table_grant };
    })
taken_grant_example =
    resource_redshift_grant_create-Takes sample "dev" grant_world
      (session_after sample (grant_script sample "dev" table_grant)
        ("CREATE SCHEMA sales" ∷ [], "CREATE SCHEMA sales" ∷ [])).1
      table_grant_valid
      (sample-Takes (grant_script sample "dev" table_grant) ("CREATE SCHEMA sales" ∷ []))

reported_example :
    (validate_privileges sample (table_privileges sample (default_cells table_columns)) "table"
      ≡ true)
    × ((validate_privileges sample (schema_privileges sample (true, (false, tt))) "schema" ≡ true)
        × (validate_privileges sample
              (database_privileges sample (false, (true, (true, tt))))
              "database"
            ≡ true))
reported_example =
    validate_privileges-reported sample sample-HasSets (default_cells table_columns)
      (true, (false, tt)) (false, (true, (true, tt)))

-- A handler that is refused, and writes down each attempt.
abbrev counting : M sample GrantData (Unit {0})
counting w = (err (pq "XX000" "refused"), record w { state = "attempt" ∷ w.state })

attempts_example :
    length (resource_retry_on_pq_errors sample counting grant_world).1.state
    ≤ length grant_world.state + 10
attempts_example =
    resource_retry_on_pq_errors_rounds sample counting (λ v. length v.state) grant_world
      (λ v. omega arith) (λ v n. refl)
