-- ===== src/DataSources.antt =====
-- The data sources: redshift/data_source_redshift_group.go, data_source_redshift_user.go,
-- data_source_redshift_namespace.go, data_source_redshift_database.go and
-- data_source_redshift_schema.go.
pub mod ReadOnly
use terraform_provider_redsh.Base.{
  String, ◌<>◌, Bool, List, [], ◌∷◌, ◌++◌, is_empty, ◌==◌, if◌then◌else◌,
}
use terraform_provider_redsh.Strings.Decimal.{ℤ, atoi}
use terraform_provider_redsh.Errors.{Error, wrap, Result, ok, err}
use terraform_provider_redsh.External.{Env, Cells, text, flag, str, Query, sql}
use terraform_provider_redsh.Effects.{
  M, ◌>>=◌, ◌>>◌, continue, pure, gets, modify, lift, db_query, db_query_row,
}
use terraform_provider_redsh.User.Handlers.{connection_limit_number}
use terraform_provider_redsh.Database.{connection_limit_of}
use terraform_provider_redsh.Schema.{SchemaData}
use terraform_provider_redsh.Schema.Read.{read_by_type}

pub record GroupSource : Type 0 where
  pub id : String
  pub name : String
  pub users : List String

pub record UserSource : Type 0 where
  pub id : String
  pub name : String
  pub valid_until : String
  pub create_database : Bool
  pub connection_limit : ℤ
  pub syslog_access : String
  pub superuser : Bool
  pub session_timeout : ℤ

pub record NamespaceSource : Type 0 where
  pub id : String

-- A producer's share, under `datashare_source`.
pub record ShareSource : Type 0 where
  pub share_name : String
  pub namespace : String
  pub account : String

pub record DatabaseSource : Type 0 where
  pub id : String
  pub name : String
  pub owner : String
  pub connection_limit : ℤ
  pub datashare_source : List ShareSource

-- The loop over the rows of the members: the id of the last row, and the users.
unfoldable pub scan_users :
    String
    → List (Result (Cells (text ∷ text ∷ [])))
    → String
    → List String
    → Result (String × List String)
scan_users group_name [] group_id group_users = ok (group_id, group_users)
scan_users group_name (err e ∷ rows) group_id group_users =
    err (wrap ("could not read group members for group name \"" <> (group_name <> "\"")) e)
scan_users group_name (ok row ∷ rows) group_id group_users =
    scan_users group_name rows row.1.0 (group_users ++ row.0 ∷ [])

abbrev pub users_of_group : String → Query
users_of_group name =
    sql
      "SELECT u.usename, g.grosysid FROM pg_user_info u, pg_group g WHERE g.groname = $1 AND u.usesysid = ANY(g.grolist);"
      (str name ∷ [])

abbrev pub id_of_group : String → Query
id_of_group name = sql "SELECT grosysid FROM pg_group WHERE groname = $1;" (str name ∷ [])

abbrev pub user_info_by_name : String → Query
user_info_by_name name =
    sql
      "SELECT user_id,createdb,superuser,syslog_access,COALESCE(connection_limit::TEXT, 'UNLIMITED'),session_timeout FROM svv_user_info WHERE user_name = $1"
      (str name ∷ [])

abbrev pub valid_until_by_id : String → Query
valid_until_by_id id =
    sql "SELECT COALESCE(valuntil, 'infinity') FROM pg_user_info WHERE usesysid = $1" (str id ∷ [])

abbrev pub database_by_name : String → Query
database_by_name name =
    sql
      "SELECT pg_database_info.datid, TRIM(pg_user_info.usename), COALESCE(pg_database_info.datconnlimit::text, 'UNLIMITED'), svv_redshift_databases.database_type, TRIM(COALESCE(svv_datashares.share_name, '')), TRIM(COALESCE(svv_datashares.producer_account, '')), TRIM(COALESCE(svv_datashares.producer_namespace, '')) FROM svv_redshift_databases LEFT JOIN pg_database_info ON svv_redshift_databases.database_name=pg_database_info.datname LEFT JOIN pg_user_info ON pg_user_info.usesysid = svv_redshift_databases.database_owner LEFT JOIN svv_datashares ON (svv_redshift_databases.database_name = svv_datashares.consumer_database AND svv_redshift_databases.database_type = 'shared' AND svv_datashares.share_type = 'INBOUND') WHERE svv_redshift_databases.database_name = $1"
      (str name ∷ [])

abbrev pub schema_by_name : String → String → Query
schema_by_name database name =
    sql
      "SELECT pg_namespace.oid, TRIM(pg_user_info.usename), TRIM(svv_all_schemas.schema_type) FROM svv_all_schemas INNER JOIN pg_namespace ON (svv_all_schemas.database_name = $1 AND svv_all_schemas.schema_name = pg_namespace.nspname) LEFT JOIN pg_user_info ON (svv_all_schemas.database_name = $1 AND pg_user_info.usesysid = svv_all_schemas.schema_owner) WHERE svv_all_schemas.database_name = $1 AND svv_all_schemas.schema_name = $2"
      (str database ∷ str name ∷ [])

abbrev share_sources : String → String → String → String → List ShareSource
share_sources database_type share_name producer_account producer_namespace =
    if database_type == "shared"
    then record {
      share_name = share_name;
      namespace = producer_namespace;
      account = producer_account;
    }
      ∷ []
    else []

module _ (env : Env) where
  unfoldable pub set_group : String → List String → M env GroupSource (Unit {0})
  set_group group_id group_users = modify (λ d. record d { id = group_id; users = group_users })

  -- What follows the loop: a group without users has had no row to take its id from.
  unfoldable pub finish_group : String × List String → M env GroupSource (Unit {0})
  finish_group (group_id, group_users) = do
    d ← gets (λ d. d)
    if is_empty group_users
        then (db_query_row (text ∷ []) (id_of_group d.name) >>= λ row. set_group row.0 group_users)
        else set_group group_id group_users

  unfoldable pub data_source_redshift_group_read : M env GroupSource (Unit {0})
  data_source_redshift_group_read = do
    d ← gets (λ d. d)
    rows ← db_query (text ∷ text ∷ []) (users_of_group d.name)
    found ← lift (scan_users d.name rows "" [])
    finish_group found

  unfoldable pub data_source_redshift_user_read : M env UserSource (Unit {0})
  data_source_redshift_user_read = do
    d ← gets (λ d. d)
    row ← db_query_row (text ∷ flag ∷ flag ∷ text ∷ text ∷ text ∷ []) (user_info_by_name d.name)
    until ← db_query_row (text ∷ []) (valid_until_by_id row.0)
    limit ← lift (connection_limit_number row.1.1.1.1.0)
    timeout ← lift (atoi row.1.1.1.1.1.0)
    modify (λ d. record d {
      id = row.0;
      create_database = row.1.0;
      superuser = row.1.1.0;
      syslog_access = row.1.1.1.0;
      connection_limit = limit;
      valid_until = until.0;
      session_timeout = timeout;
    })

  unfoldable pub data_source_redshift_namespace_read : M env NamespaceSource (Unit {0})
  data_source_redshift_namespace_read = do
    row ← db_query_row (text ∷ []) (sql "SELECT CURRENT_NAMESPACE" [])
    modify (λ d. record d { id = row.0 })

  unfoldable pub data_source_redshift_database_read : M env DatabaseSource (Unit {0})
  data_source_redshift_database_read = do
    d ← gets (λ d. d)
    row ←
        db_query_row (text ∷ text ∷ text ∷ text ∷ text ∷ text ∷ text ∷ []) (database_by_name d.name)
    limit ← lift (connection_limit_of row.1.1.0)
    modify (λ d. record d {
      id = row.0;
      owner = row.1.0;
      connection_limit = limit;
      datashare_source = share_sources row.1.1.1.0 row.1.1.1.1.0 row.1.1.1.1.1.0 row.1.1.1.1.1.1.0;
    })

  -- The attributes are those of the resource.
  unfoldable pub data_source_redshift_schema_read : M env SchemaData (Unit {0})
  data_source_redshift_schema_read = do
    d ← gets (λ d. d)
    row ← db_query_row (text ∷ text ∷ text ∷ []) (schema_by_name d.database d.name)
    modify (λ d. record d { id = row.0; owner = row.1.0 })
    read_by_type env row.1.1.0
