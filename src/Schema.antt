-- ===== src/Schema.antt =====
-- redshift/resource_redshift_schema.go: the attributes, and the texts of the statements.
pub mod Read
pub mod Handlers
pub mod Atomic
pub mod Retried
pub mod Roles
pub mod Literals
use terraform_provider_redsh.Base.{
  String, ◌<>◌, Bool, true, false, not, ◌&&◌, ◌||◌, List, [], ◌∷◌, is_empty, ◌==◌, string_dec,
  if◌then◌else◌, Option, none, some,
}
use terraform_provider_redsh.Strings.{join}
use terraform_provider_redsh.Strings.Decimal.{ℤ, show_int, int_eq, show_nat}
use terraform_provider_redsh.External.{Env, str, Query, sql}
use terraform_provider_redsh.Helpers.{pq_quote_literal}
use terraform_provider_redsh.Config.{ServerlessCache}
use terraform_provider_redsh.Validation.{list_size_changed}

pub record DataCatalogSource : Type 0 where
  pub region : String
  pub iam_role_arns : List String
  pub catalog_role_arns : List String
  pub create_external_database_if_not_exists : Bool

-- A port that is not set is 0.
pub record HiveMetastoreSource : Type 0 where
  pub hostname : String
  pub port : ℤ
  pub iam_role_arns : List String

pub record RdsPostgresSource : Type 0 where
  pub hostname : String
  pub port : ℤ
  pub schema : String
  pub iam_role_arns : List String
  pub secret_arn : String

pub record RdsMysqlSource : Type 0 where
  pub hostname : String
  pub port : ℤ
  pub iam_role_arns : List String
  pub secret_arn : String

pub record RedshiftSource : Type 0 where
  pub schema : String

-- Each list has one element at most.
pub record ExternalSchema : Type 0 where
  pub database_name : String
  pub data_catalog_source : List DataCatalogSource
  pub hive_metastore_source : List HiveMetastoreSource
  pub rds_postgres_source : List RdsPostgresSource
  pub rds_mysql_source : List RdsMysqlSource
  pub redshift_source : List RedshiftSource

-- The attributes, with the parts of the client's configuration that the handlers use: the name of
-- the database, and what is known of Redshift Serverless.
pub record SchemaData : Type 0 where
  pub id : String
  pub old_name : String
  pub name : String
  pub old_owner : String
  pub owner : String
  pub old_quota : ℤ
  pub quota : ℤ
  pub cascade_on_delete : Bool
  pub old_external_schema : List ExternalSchema
  pub external_schema : List ExternalSchema
  pub database : String
  pub cache : ServerlessCache

-- the `CustomizeDiff`
unfoldable needs_new_schema : SchemaData → Bool
needs_new_schema d = list_size_changed d.old_external_schema d.external_schema

-- the `DiffSuppressFunc` of `create_external_database_if_not_exists`
unfoldable suppress_create_external_database : String → String → Bool
suppress_create_external_database old new = if old == "" && not (new == "") then false else true

abbrev pub oid_by_schema_name : String → Query
oid_by_schema_name name = sql "SELECT oid FROM pg_namespace WHERE nspname = $1" (str name ∷ [])

-- ` WORD 'text'`, and the same for a text that is set
abbrev pub literal_option : String → String → String
literal_option word s = " " <> (word <> (" '" <> (pq_quote_literal s <> "'")))

abbrev pub optional_literal : String → String → String
optional_literal word s = if s == "" then "" else literal_option word s

abbrev pub optional_port : ℤ → String
optional_port port = if int_eq port (ℤ.pos 0) then "" else " PORT " <> show_int port

unfoldable pub get_data_catalog_config_query_part : DataCatalogSource → String → String
get_data_catalog_config_query_part s source_db_name =
    "FROM DATA CATALOG DATABASE '"
    <> (pq_quote_literal source_db_name
        <> ("'"
            <> (optional_literal "REGION" s.region
                <> (literal_option "IAM_ROLE" (join "," s.iam_role_arns)
                    <> ((if is_empty s.catalog_role_arns
                          then ""
                          else literal_option "CATALOG_ROLE" (join "," s.catalog_role_arns))
                        <> (if s.create_external_database_if_not_exists
                            then " CREATE EXTERNAL DATABASE IF NOT EXISTS"
                            else ""))))))

unfoldable pub get_hive_metastore_config_query_part : HiveMetastoreSource → String → String
get_hive_metastore_config_query_part s source_db_name =
    "FROM HIVE METASTORE DATABASE '"
    <> (pq_quote_literal source_db_name
        <> ("'"
            <> (literal_option "URI" s.hostname
                <> (optional_port s.port <> literal_option "IAM_ROLE" (join "," s.iam_role_arns)))))

unfoldable pub get_rds_postgres_config_query_part : RdsPostgresSource → String → String
get_rds_postgres_config_query_part s source_db_name =
    "FROM POSTGRES DATABASE '"
    <> (pq_quote_literal source_db_name
        <> ("'"
            <> (optional_literal "SCHEMA" s.schema
                <> (literal_option "URI" s.hostname
                    <> (optional_port s.port
                        <> (literal_option "IAM_ROLE" (join "," s.iam_role_arns)
                            <> literal_option "SECRET_ARN" s.secret_arn))))))

unfoldable pub get_rds_mysql_config_query_part : RdsMysqlSource → String → String
get_rds_mysql_config_query_part s source_db_name =
    "FROM MYSQL DATABASE '"
    <> (pq_quote_literal source_db_name
        <> ("'"
            <> (literal_option "URI" s.hostname
                <> (optional_port s.port
                    <> (literal_option "IAM_ROLE" (join "," s.iam_role_arns)
                        <> literal_option "SECRET_ARN" s.secret_arn)))))

unfoldable pub get_redshift_config_query_part : RedshiftSource → String → String
get_redshift_config_query_part s source_db_name =
    "FROM REDSHIFT DATABASE '"
    <> (pq_quote_literal source_db_name <> ("'" <> optional_literal "SCHEMA" s.schema))

-- The first source that is configured; there may be none.
unfoldable pub config_query : ExternalSchema → Option String
config_query e = elim e.data_catalog_source [
  | s ∷ _ ↦ some (get_data_catalog_config_query_part s e.database_name)
  | [] ↦ elim e.hive_metastore_source [
    | s ∷ _ ↦ some (get_hive_metastore_config_query_part s e.database_name)
    | [] ↦ elim e.rds_postgres_source [
      | s ∷ _ ↦ some (get_rds_postgres_config_query_part s e.database_name)
      | [] ↦ elim e.rds_mysql_source [
        | s ∷ _ ↦ some (get_rds_mysql_config_query_part s e.database_name)
        | [] ↦ elim e.redshift_source [
          | s ∷ _ ↦ some (get_redshift_config_query_part s e.database_name)
          | [] ↦ none
        ]
      ]
    ]
  ]
]

-- `quota > 0`
abbrev is_positive : ℤ → Bool
is_positive (ℤ.pos n) = not (int_eq (ℤ.pos n) (ℤ.pos 0))
is_positive (ℤ.negsuc n) = false

module _ (env : Env) where
  unfoldable pub create_internal_query : SchemaData → String
  create_internal_query d =
      let quota =
        if is_positive d.quota
        then "QUOTA " <> (show_int d.quota <> " GB")
        else "QUOTA UNLIMITED" in
      "CREATE SCHEMA "
      <> (env.quote_identifier d.name
          <> (" "
              <> join " " (
                  if d.owner == ""
                  then quota ∷ []
                  else ("AUTHORIZATION " <> env.quote_identifier d.owner) ∷ quota ∷ [])))

  abbrev pub create_external_query : SchemaData → String → String
  create_external_query d config =
      "CREATE EXTERNAL SCHEMA " <> (env.quote_identifier d.name <> (" " <> config))

  abbrev pub schema_owner_query : SchemaData → String
  schema_owner_query d =
      "ALTER SCHEMA "
      <> (env.quote_identifier d.name <> (" OWNER TO " <> env.quote_identifier d.owner))

  abbrev pub rename_schema_query : String → String → String
  rename_schema_query old_value new_value =
      "ALTER SCHEMA "
      <> (env.quote_identifier old_value <> (" RENAME TO " <> env.quote_identifier new_value))

  abbrev pub schema_quota_query : SchemaData → String
  schema_quota_query d =
      "ALTER SCHEMA "
      <> (env.quote_identifier d.name
          <> (" QUOTA "
              <> (if is_positive d.quota then show_int d.quota <> " GB" else "UNLIMITED")))

  abbrev pub drop_schema_query : SchemaData → String
  drop_schema_query d =
      "DROP SCHEMA "
      <> (env.quote_identifier d.name
          <> (" " <> (if d.cascade_on_delete then "CASCADE" else "RESTRICT")))
