-- ===== src/Schema/Read.antt =====
-- The reads of redshift/resource_redshift_schema.go.
use terraform_provider_redsh.Base.{String, ◌<>◌, Bool, false, List, [], ◌∷◌, ◌==◌, if◌then◌else◌}
use terraform_provider_redsh.Strings.Decimal.{ℤ, atoi}
use terraform_provider_redsh.Errors.{plain, is_no_rows, Result, ok, err, wrapping}
use terraform_provider_redsh.External.{Env, Column, Cells, text, number, str, Query, sql}
use terraform_provider_redsh.Effects.{
  M, ◌>>=◌, ◌>>◌, pure, fail, gets, modify, lift, attempt, db_query, db_query_row,
}
use terraform_provider_redsh.Helpers.{split_csv_and_trim}
use terraform_provider_redsh.Config.{Outcome, is_serverless_call}
use terraform_provider_redsh.Schema.{ExternalSchema, SchemaData}

abbrev pub schema_by_oid : String → String → Query
schema_by_oid database id =
    sql
      "SELECT TRIM(svv_all_schemas.schema_name), TRIM(pg_user_info.usename), TRIM(svv_all_schemas.schema_type) FROM svv_all_schemas INNER JOIN pg_namespace ON (svv_all_schemas.database_name = $1 AND svv_all_schemas.schema_name = pg_namespace.nspname) LEFT JOIN pg_user_info ON (svv_all_schemas.database_name = $1 AND pg_user_info.usesysid = svv_all_schemas.schema_owner) WHERE svv_all_schemas.database_name = $1 AND pg_namespace.oid = $2"
      (str database ∷ str id ∷ [])

abbrev serverless_quota : String → String → Query
serverless_quota database name =
    sql
      "SELECT COALESCE(quota, 0) FROM svv_redshift_schema_quota WHERE database_name = $1 AND schema_name = $2"
      (str database ∷ str name ∷ [])

abbrev provisioned_quota : String → Query
provisioned_quota id =
    sql "SELECT COALESCE(quota, 0) FROM svv_schema_quota_state WHERE schema_id = $1" (str id ∷ [])

abbrev pub external_by_oid : String → Query
external_by_oid id =
    sql
      "SELECT CASE WHEN eskind = 1 THEN 'data_catalog_source' WHEN eskind = 2 THEN 'hive_metastore_source' WHEN eskind = 3 THEN 'rds_postgres_source' WHEN eskind = 4 THEN 'redshift_source' WHEN eskind = 7 THEN 'rds_mysql_source' ELSE 'unknown' END, TRIM(databasename), COALESCE(CASE WHEN is_valid_json(esoptions) THEN json_extract_path_text(esoptions, 'IAM_ROLE') END, ''), COALESCE(CASE WHEN is_valid_json(esoptions) THEN json_extract_path_text(esoptions, 'CATALOG_ROLE') END, ''), COALESCE(CASE WHEN is_valid_json(esoptions) THEN json_extract_path_text(esoptions, 'REGION') END, ''), COALESCE(CASE WHEN is_valid_json(esoptions) THEN json_extract_path_text(esoptions, 'SCHEMA') END, ''), COALESCE(CASE WHEN is_valid_json(esoptions) THEN json_extract_path_text(esoptions, 'URI') END, ''), COALESCE(CASE WHEN is_valid_json(esoptions) THEN json_extract_path_text(esoptions, 'PORT') END, ''), COALESCE(CASE WHEN is_valid_json(esoptions) THEN json_extract_path_text(esoptions, 'SECRET_ARN') END, '') FROM svv_external_schemas WHERE esoid = $1"
      (str id ∷ [])

-- The columns of that query.
pub record ExternalRow : Type 0 where
  pub source_type : String
  pub source_db_name : String
  pub iam_role : String
  pub catalog_role : String
  pub region : String
  pub source_schema : String
  pub host_name : String
  pub port : String
  pub secret_arn : String

abbrev pub external_columns : List Column
external_columns = text ∷ text ∷ text ∷ text ∷ text ∷ text ∷ text ∷ text ∷ text ∷ []

abbrev pub external_row : Cells external_columns → ExternalRow
external_row row = record {
  source_type = row.0;
  source_db_name = row.1.0;
  iam_role = row.1.1.0;
  catalog_role = row.1.1.1.0;
  region = row.1.1.1.1.0;
  source_schema = row.1.1.1.1.1.0;
  host_name = row.1.1.1.1.1.1.0;
  port = row.1.1.1.1.1.1.1.0;
  secret_arn = row.1.1.1.1.1.1.1.1.0;
}

abbrev bind {ℓ κ} : {A : Type ℓ} {B : Type κ} → Result A → (A → Result B) → Result B
bind (ok a) f = f a
bind (err e) f = err e

-- A port that is not there is left unset.
unfoldable pub port_number : String → String → Result ℤ
port_number source port = if port == "" then ok (ℤ.pos 0) else elim (atoi port) [
  | ok n ↦ ok n
  | err _ ↦ err (plain (source <> " port was not an integer"))
]

abbrev iam_roles : ExternalRow → Result (List String)
iam_roles row = wrapping "error parsing iam_role_arns" (split_csv_and_trim row.iam_role)

abbrev pub without_sources : String → ExternalSchema
without_sources database_name = record {
  database_name = database_name;
  data_catalog_source = [];
  hive_metastore_source = [];
  rds_postgres_source = [];
  rds_mysql_source = [];
  redshift_source = [];
}

abbrev read_data_catalog : ExternalRow → Result ExternalSchema
read_data_catalog row = bind (iam_roles row) λ arns.
    bind (wrapping "error parsing catalog_role_arns" (split_csv_and_trim row.catalog_role)) λ roles.
      ok (record (without_sources row.source_db_name) {
        data_catalog_source =
            record {
              region = row.region;
              iam_role_arns = arns;
              catalog_role_arns = roles;
              create_external_database_if_not_exists = false;
            }
            ∷ [];
      })

abbrev read_hive_metastore : ExternalRow → Result ExternalSchema
read_hive_metastore row = bind (port_number "hive_metastore_source" row.port) λ port.
    bind (iam_roles row) λ arns. ok (record (without_sources row.source_db_name) {
      hive_metastore_source =
          record { hostname = row.host_name; port = port; iam_role_arns = arns } ∷ [];
    })

abbrev read_rds_postgres : ExternalRow → Result ExternalSchema
read_rds_postgres row = bind (port_number "rds_postgres_source" row.port) λ port.
    bind (iam_roles row) λ arns. ok (record (without_sources row.source_db_name) {
      rds_postgres_source =
          record {
            hostname = row.host_name;
            port = port;
            schema = row.source_schema;
            iam_role_arns = arns;
            secret_arn = row.secret_arn;
          }
          ∷ [];
    })

abbrev read_rds_mysql : ExternalRow → Result ExternalSchema
read_rds_mysql row = bind (port_number "rds_mysql_source" row.port) λ port.
    bind (iam_roles row) λ arns. ok (record (without_sources row.source_db_name) {
      rds_mysql_source =
          record {
            hostname = row.host_name;
            port = port;
            iam_role_arns = arns;
            secret_arn = row.secret_arn;
          }
          ∷ [];
    })

-- The `switch` on the source's type.
unfoldable pub read_source : ExternalRow → Result ExternalSchema
read_source row =
    if row.source_type == "data_catalog_source"
    then read_data_catalog row
    else if row.source_type == "hive_metastore_source"
    then read_hive_metastore row
    else if row.source_type == "rds_postgres_source"
    then read_rds_postgres row
    else if row.source_type == "rds_mysql_source"
    then read_rds_mysql row
    else if row.source_type == "redshift_source"
    then ok (record (without_sources row.source_db_name) {
      redshift_source = record { schema = row.source_schema } ∷ [];
    })
    else err (plain ("unsupported source database type: \"" <> (row.source_type <> "\"")))

module _ (env : Env) where
  abbrev answered : String → M env SchemaData (Result (Unit {0}))
  answered query = do
    r ← attempt (db_query (number ∷ []) (sql query []))
    elim r [ ok _ ↦ pure (ok tt) | err e ↦ pure (err e) ]

  -- `IsServerless` of the client's configuration. A query changes nothing, so the answers to both are
  -- there, and the call uses those that it asks for. A panic unwinds the handler as an error does.
  unfoldable pub is_serverless : M env SchemaData Bool
  is_serverless = do
    d ← gets (λ d. d)
    sys ← answered "SELECT 1 FROM SYS_SERVERLESS_USAGE"
    svl ← answered "SELECT 1 FROM SVL_QUERY_SUMMARY"
    modify (λ d. record d { cache = (is_serverless_call d.cache sys svl).1 })
    elim (is_serverless_call d.cache sys svl).0 [
      | Outcome.answer r ↦ lift r
      | Outcome.panic ↦ fail (plain "panic: interface conversion")
    ]

  -- The quota is 0 if there is no row.
  unfoldable pub set_quota : Result (Cells (number ∷ [])) → M env SchemaData (Unit {0})
  set_quota (ok row) = modify (λ d. record d { quota = ℤ.pos row.0; external_schema = [] })
  set_quota (err e) =
      if is_no_rows e
      then modify (λ d. record d { quota = ℤ.pos 0; external_schema = [] })
      else fail e

  unfoldable pub resource_redshift_schema_read_local : M env SchemaData (Unit {0})
  resource_redshift_schema_read_local = do
    serverless ← is_serverless
    d ← gets (λ d. d)
    r ← attempt (
        db_query_row (number ∷ [])
          (if serverless then serverless_quota d.database d.name else provisioned_quota d.id))
    set_quota r

  unfoldable pub resource_redshift_schema_read_external : M env SchemaData (Unit {0})
  resource_redshift_schema_read_external = do
    d ← gets (λ d. d)
    row ← db_query_row external_columns (external_by_oid d.id)
    source ← lift (read_source (external_row row))
    modify (λ d. record d { quota = ℤ.pos 0; external_schema = source ∷ [] })

  -- The `switch` on the schema's type.
  unfoldable pub read_by_type : String → M env SchemaData (Unit {0})
  read_by_type schema_type =
      if schema_type == "local"
      then resource_redshift_schema_read_local
      else if schema_type == "external"
      then resource_redshift_schema_read_external
      else fail (
          plain (
            "unsupported schema type \""
            <> (schema_type <> "\": supported types are \"local\" and \"external\"")))

  unfoldable pub resource_redshift_schema_read_impl : M env SchemaData (Unit {0})
  resource_redshift_schema_read_impl = do
    d ← gets (λ d. d)
    row ← db_query_row (text ∷ text ∷ text ∷ []) (schema_by_oid d.database d.id)
    modify (λ d. record d { name = row.0; owner = row.1.0 })
    read_by_type row.1.1.0
