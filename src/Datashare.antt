-- ===== src/Datashare.antt =====
-- redshift/resource_redshift_datashare.go
pub mod Handlers
pub mod Sends
pub mod Atomic
pub mod Read
use terraform_provider_redsh.Base.{
  String, ◌<>◌, Bool, true, false, not, List, [], ◌∷◌, is_empty, ◌==◌, string_dec, if◌then◌else◌,
  Option, none, some,
}
use terraform_provider_redsh.Errors.{Error, as_pq, is_no_rows, Result, ok, err}
use terraform_provider_redsh.External.{Env, Cells, text, flag, str, Query, sql}
use terraform_provider_redsh.Effects.{
  M, ◌>>=◌, ◌>>◌, continue, pure, fail, gets, modify, lift, wrapped, attempt, start_transaction,
  deferred_rollback, tx_exec, for_each, tx_commit, tx_query, tx_query_row,
}
use terraform_provider_redsh.Helpers.{
  lower, pq_error_code_duplicate_schema, pq_error_code_invalid_schema_name,
}

-- The attributes; those that an update compares have their value in the state beside it (`old_…`).
pub record DatashareData : Type 0 where
  pub id : String
  pub name : String
  pub old_owner : String
  pub owner : String
  pub old_publicly_accessible : Bool
  pub publicly_accessible : Bool
  pub old_schemas : List String
  pub schemas : List String
  pub producer_account : String
  pub producer_namespace : String
  pub created : String

-- `%t`
abbrev pub show_bool : Bool → String
show_bool true = "true"
show_bool false = "false"

abbrev pub share_id_by_name : String → Query
share_id_by_name name =
    sql "SELECT share_id FROM SVV_DATASHARES WHERE share_type = 'OUTBOUND' AND share_name = $1"
      (str name ∷ [])

abbrev pub share_name_by_id : String → Query
share_name_by_id id =
    sql "SELECT share_name FROM svv_datashares WHERE share_type='OUTBOUND' AND share_id=$1"
      (str id ∷ [])

abbrev pub share_by_id : String → Query
share_by_id id =
    sql
      "SELECT TRIM(svv_datashares.share_name), TRIM(pg_user.usename), svv_datashares.is_publicaccessible, TRIM(COALESCE(svv_datashares.producer_account, '')), TRIM(COALESCE(svv_datashares.producer_namespace, '')), REPLACE(TO_CHAR(svv_datashares.createdate, 'YYYY-MM-DD HH24:MI:SS'), ' ', 'T') || 'Z' FROM svv_datashares LEFT JOIN pg_user ON svv_datashares.share_owner = pg_user.usesysid WHERE share_type = 'OUTBOUND' AND share_id = $1"
      (str id ∷ [])

abbrev pub schemas_of_share : String → Query
schemas_of_share share_name =
    sql
      "SELECT object_name FROM svv_datashare_objects WHERE share_type = 'OUTBOUND' AND object_type = 'schema' AND share_name = $1"
      (str share_name ∷ [])

module _ (env : Env) where
  -- `ALTER DATASHARE share action schema`
  unfoldable pub alter_query : String → String → String → String
  alter_query share_name action schema_name =
      "ALTER DATASHARE "
      <> (env.quote_identifier share_name
          <> (" " <> (action <> (" " <> env.quote_identifier schema_name))))

  unfoldable pub create_datashare_query : String → Bool → String
  create_datashare_query share_name publicly_accessible =
      "CREATE DATASHARE "
      <> (env.quote_identifier share_name
          <> (" SET PUBLICACCESSIBLE = " <> show_bool publicly_accessible))

  abbrev pub drop_datashare_query : String → String
  drop_datashare_query share_name = "DROP DATASHARE " <> env.quote_identifier share_name

  -- What `add_schema` does about an error: that the share has the schema already is no error.
  unfoldable pub tolerate_duplicate : Result (Unit {0}) → M env DatashareData (Unit {0})
  tolerate_duplicate (ok _) = pure tt
  tolerate_duplicate (err e) = elim (as_pq e) [
    | some code ↦ if code == pq_error_code_duplicate_schema then pure tt else fail e
    | none ↦ fail e
  ]

  -- What `remove_schema` does about an error; one that is not of lib/pq is dropped.
  unfoldable pub tolerate_missing : Result (Unit {0}) → M env DatashareData (Unit {0})
  tolerate_missing (ok _) = pure tt
  tolerate_missing (err e) = elim (as_pq e) [
    | some code ↦ if code == pq_error_code_invalid_schema_name then pure tt else fail e
    | none ↦ pure tt
  ]

  unfoldable pub add_schema : String → String → M env DatashareData (Unit {0})
  add_schema share_name schema_name = do
    r ← attempt (tx_exec (alter_query share_name "ADD SCHEMA" schema_name))
    tolerate_duplicate r
    tx_exec (alter_query share_name "SET INCLUDENEW = TRUE FOR SCHEMA" schema_name)

  unfoldable pub add_all_tables : String → String → M env DatashareData (Unit {0})
  add_all_tables share_name schema_name =
      tx_exec (alter_query share_name "ADD ALL TABLES IN SCHEMA" schema_name)

  unfoldable pub add_all_functions : String → String → M env DatashareData (Unit {0})
  add_all_functions share_name schema_name =
      tx_exec (alter_query share_name "ADD ALL FUNCTIONS IN SCHEMA" schema_name)

  unfoldable pub add_schema_to_datashare : String → String → M env DatashareData (Unit {0})
  add_schema_to_datashare share_name schema_name = do
    add_schema share_name schema_name
    add_all_tables share_name schema_name
    add_all_functions share_name schema_name

  unfoldable pub remove_all_functions : String → String → M env DatashareData (Unit {0})
  remove_all_functions share_name schema_name =
      tx_exec (alter_query share_name "REMOVE ALL FUNCTIONS IN SCHEMA" schema_name)

  unfoldable pub remove_all_tables : String → String → M env DatashareData (Unit {0})
  remove_all_tables share_name schema_name =
      tx_exec (alter_query share_name "REMOVE ALL TABLES IN SCHEMA" schema_name)

  unfoldable pub remove_schema : String → String → M env DatashareData (Unit {0})
  remove_schema share_name schema_name = do
    r ← attempt (tx_exec (alter_query share_name "REMOVE SCHEMA" schema_name))
    tolerate_missing r

  unfoldable pub remove_schema_from_datashare : String → String → M env DatashareData (Unit {0})
  remove_schema_from_datashare share_name schema_name = do
    remove_all_functions share_name schema_name
    remove_all_tables share_name schema_name
    remove_schema share_name schema_name

  -- The loop over the rows, which collects the names in a set.
  unfoldable pub collect_schemas :
      List (Result (Cells (text ∷ []))) → List String → Result (List String)
  collect_schemas [] found = ok found
  collect_schemas (err e ∷ rows) found = err e
  collect_schemas (ok row ∷ rows) found = collect_schemas rows (env.set_add row.0 found)

  unfoldable pub read_datashare_schemas : String → M env DatashareData (Unit {0})
  read_datashare_schemas share_name = do
    rows ← tx_query (text ∷ []) (schemas_of_share share_name)
    found ← lift (collect_schemas rows [])
    modify (λ d. record d { schemas = found })

  unfoldable pub read_in_transaction : M env DatashareData (Unit {0})
  read_in_transaction = do
    d ← gets (λ d. d)
    row ← tx_query_row (text ∷ text ∷ flag ∷ text ∷ text ∷ text ∷ []) (share_by_id d.id)
    modify (λ d. record d {
      name = row.0;
      owner = row.1.0;
      publicly_accessible = row.1.1.0;
      producer_account = row.1.1.1.0;
      producer_namespace = row.1.1.1.1.0;
      created = row.1.1.1.1.1.0;
    })
    read_datashare_schemas row.0

  unfoldable pub resource_redshift_datashare_read : M env DatashareData (Unit {0})
  resource_redshift_datashare_read =
      start_transaction >> deferred_rollback (read_in_transaction >> (tx_commit >> pure tt))
