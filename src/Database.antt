-- ===== src/Database.antt =====
-- redshift/resource_redshift_database.go
pub mod Atomic
pub mod Create
use terraform_provider_redsh.Base.{
  String, ◌<>◌, Bool, true, false, not, List, [], ◌∷◌, ◌==◌, string_dec, if◌then◌else◌,
}
use terraform_provider_redsh.Strings.Decimal.{ℤ, pos, negsuc, show_int, int_eq, atoi}
use terraform_provider_redsh.Errors.{Error, plain, Result, ok, err}
use terraform_provider_redsh.External.{Env, text, str, Query, sql}
use terraform_provider_redsh.Effects.{
  M, ◌>>=◌, ◌>>◌, continue, pure, fail, gets, modify, lift, wrapped, start_transaction,
  deferred_rollback, tx_exec, tx_commit, db_exec, db_query_row,
}
use terraform_provider_redsh.Helpers.{lower, pq_quote_literal}
use terraform_provider_redsh.Validation.{list_size_changed}

-- An element of `datashare_source`.
pub record DatashareSource : Type 0 where
  pub share_name : String
  pub namespace : String
  pub account : String
  pub with_permissions : Bool

pub record DatabaseData : Type 0 where
  pub id : String
  pub old_name : String
  pub name : String
  pub old_owner : String
  pub owner : String
  pub old_connection_limit : ℤ
  pub connection_limit : ℤ
  pub old_datashare_source : List DatashareSource
  pub datashare_source : List DatashareSource

-- `d.Get` below `datashare_source.0`
abbrev first_source : List DatashareSource → DatashareSource
first_source (s ∷ rest) = s
first_source [] = record { share_name = ""; namespace = ""; account = ""; with_permissions = false }

-- the `CustomizeDiff`
unfoldable needs_new_database : DatabaseData → Bool
needs_new_database d = list_size_changed d.old_datashare_source d.datashare_source

abbrev pub oid_by_name : String → Query
oid_by_name name = sql "SELECT oid FROM pg_database WHERE datname = $1" (str name ∷ [])

abbrev pub database_by_oid : String → Query
database_by_oid id =
    sql
      "SELECT TRIM(svv_redshift_databases.database_name), TRIM(pg_user_info.usename), COALESCE(pg_database_info.datconnlimit::text, 'UNLIMITED'), svv_redshift_databases.database_type, TRIM(COALESCE(svv_datashares.share_name, '')), TRIM(COALESCE(svv_datashares.producer_account, '')), TRIM(COALESCE(svv_datashares.producer_namespace, '')) FROM svv_redshift_databases LEFT JOIN pg_database_info ON svv_redshift_databases.database_name=pg_database_info.datname LEFT JOIN pg_user_info ON pg_user_info.usesysid = svv_redshift_databases.database_owner LEFT JOIN svv_datashares ON (svv_redshift_databases.database_name = svv_datashares.consumer_database AND svv_redshift_databases.database_type = 'shared' AND svv_datashares.share_type = 'INBOUND') WHERE pg_database_info.datid = $1"
      (str id ∷ [])

unfoldable pub connection_limit_of : String → Result ℤ
connection_limit_of limit = if limit == "UNLIMITED" then ok (ℤ.negsuc 0) else atoi limit

module _ (env : Env) where
  unfoldable pub create_from_datashare_query : DatabaseData → String
  create_from_datashare_query d =
      let s = first_source d.datashare_source in
      let created = "CREATE DATABASE " <> env.quote_identifier d.name in
      let permitted = if s.with_permissions then created <> " WITH PERMISSIONS" else created in
      let shared =
        permitted <> (" FROM DATASHARE " <> (env.quote_identifier s.share_name <> " OF")) in
      let of_account =
        if s.account == ""
        then shared
        else shared <> (" ACCOUNT '" <> (pq_quote_literal s.account <> "'")) in
      of_account <> (" NAMESPACE '" <> (pq_quote_literal s.namespace <> "'"))

  unfoldable pub create_internal_query : DatabaseData → String
  create_internal_query d =
      let created = "CREATE DATABASE " <> env.quote_identifier d.name in
      let owned =
        if d.owner == "" then created else created <> (" OWNER " <> env.quote_identifier d.owner) in
      if int_eq d.connection_limit (ℤ.pos 0)
      then owned
      else owned <> (" CONNECTION LIMIT " <> show_int d.connection_limit)

  abbrev pub alter_owner_query : String → String → String
  alter_owner_query name owner =
      "ALTER DATABASE "
      <> (env.quote_identifier name <> (" OWNER TO " <> env.quote_identifier owner))

  abbrev pub alter_limit_query : String → ℤ → String
  alter_limit_query name limit =
      "ALTER DATABASE " <> (env.quote_identifier name <> (" CONNECTION LIMIT " <> show_int limit))

  abbrev pub rename_database_query : String → String → String
  rename_database_query old_value new_value =
      "ALTER DATABASE "
      <> (env.quote_identifier old_value <> (" RENAME TO " <> env.quote_identifier new_value))

  -- The source of a shared database, with the flag that the catalog does not show.
  abbrev pub read_source :
      String → String → String → String → List DatashareSource → List DatashareSource
  read_source database_type share_name producer_account producer_namespace configured =
      if database_type == "shared"
      then record {
        share_name = share_name;
        namespace = producer_namespace;
        account = producer_account;
        with_permissions = (first_source configured).with_permissions;
      }
        ∷ []
      else []

  unfoldable pub resource_redshift_database_read : M env DatabaseData (Unit {0})
  resource_redshift_database_read = do
    d ← gets (λ d. d)
    row ← db_query_row (text ∷ text ∷ text ∷ text ∷ text ∷ text ∷ text ∷ []) (database_by_oid d.id)
    limit ← lift (connection_limit_of row.1.1.0)
    modify (λ d. record d {
      name = row.0;
      owner = row.1.0;
      connection_limit = limit;
      datashare_source =
          read_source row.1.1.1.0 row.1.1.1.1.0 row.1.1.1.1.1.0 row.1.1.1.1.1.1.0
            d.datashare_source;
    })

  unfoldable pub alter_owner : DatabaseData → M env DatabaseData (Unit {0})
  alter_owner d = if d.owner == "" then pure tt else tx_exec (alter_owner_query d.name d.owner)

  unfoldable pub alter_limit : DatabaseData → M env DatabaseData (Unit {0})
  alter_limit d =
      if int_eq d.connection_limit (ℤ.pos 0)
      then pure tt
      else tx_exec (alter_limit_query d.name d.connection_limit)

  -- The transaction of a create from a datashare.
  unfoldable pub alter_created : M env DatabaseData (Unit {0})
  alter_created = do
    d ← gets (λ d. d)
    alter_owner d >> alter_limit d
    tx_commit
    resource_redshift_database_read

  -- What precedes that transaction; the database is created outside of one.
  unfoldable pub create_and_identify : String → M env DatabaseData (Unit {0})
  create_and_identify query = do
    d ← gets (λ d. d)
    db_exec query
    row ← db_query_row (text ∷ []) (oid_by_name (lower env d.name))
    modify (λ d. record d { id = row.0 })

  unfoldable pub resource_redshift_database_create_from_datashare : M env DatabaseData (Unit {0})
  resource_redshift_database_create_from_datashare = do
    d ← gets (λ d. d)
    create_and_identify (create_from_datashare_query d)
    start_transaction >> deferred_rollback alter_created

  unfoldable resource_redshift_database_create_internal : M env DatabaseData (Unit {0})
  resource_redshift_database_create_internal = do
    d ← gets (λ d. d)
    create_and_identify (create_internal_query d)
    resource_redshift_database_read

  unfoldable resource_redshift_database_create : M env DatabaseData (Unit {0})
  resource_redshift_database_create = do
    d ← gets (λ d. d)
    if (first_source d.datashare_source).share_name == ""
        then resource_redshift_database_create_internal
        else resource_redshift_database_create_from_datashare

  unfoldable pub set_database_name : DatabaseData → M env DatabaseData (Unit {0})
  set_database_name d =
      if d.old_name == d.name
      then pure tt
      else if d.name == ""
      then fail (plain "error setting database name to an empty string")
      else wrapped "error updating database NAME"
          (tx_exec (rename_database_query d.old_name d.name))

  unfoldable pub set_database_owner : DatabaseData → M env DatabaseData (Unit {0})
  set_database_owner d =
      if d.old_owner == d.owner then pure tt else tx_exec (alter_owner_query d.name d.owner)

  unfoldable pub set_database_conn_limit : DatabaseData → M env DatabaseData (Unit {0})
  set_database_conn_limit d =
      if int_eq d.old_connection_limit d.connection_limit
      then pure tt
      else tx_exec (alter_limit_query d.name d.connection_limit)

  -- The part of an update before the commit.
  unfoldable pub send_changes : DatabaseData → M env DatabaseData (Unit {0})
  send_changes d = do set_database_name d; set_database_owner d; set_database_conn_limit d

  unfoldable pub apply_update : M env DatabaseData (Unit {0})
  apply_update = do
    d ← gets (λ d. d)
    send_changes d
    wrapped "could not commit transaction" tx_commit
    resource_redshift_database_read

  unfoldable pub resource_redshift_database_update : M env DatabaseData (Unit {0})
  resource_redshift_database_update = start_transaction >> deferred_rollback apply_update

  -- The name is doubled at its quotes and backslashes, and not quoted.
  abbrev drop_database_query : String → String
  drop_database_query name = "DROP DATABASE " <> pq_quote_literal name

  unfoldable resource_redshift_database_delete : M env DatabaseData (Unit {0})
  resource_redshift_database_delete = do d ← gets (λ d. d); db_exec (drop_database_query d.name)
