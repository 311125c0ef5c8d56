-- ===== src/User/Handlers.antt =====
-- Read, create, update and delete of resource_redshift_user.go.
use terraform_provider_redsh.Base.{
  String, Bool, true, false, not, ◌&&◌, ◌||◌, List, [], ◌∷◌, ◌==◌, if◌then◌else◌,
}
use terraform_provider_redsh.Strings.Decimal.{ℤ, negsuc, int_eq, atoi}
use terraform_provider_redsh.Errors.{is_no_rows, plain, wrap, Result, ok, err}
use terraform_provider_redsh.External.{Env, Cells, text, flag, str, Query, sql}
use terraform_provider_redsh.Effects.{
  M, ◌>>=◌, ◌>>◌, pure, fail, gets, modify, lift, wrapped, attempt, start_transaction,
  deferred_rollback, tx_exec, tx_exec_all, tx_commit, tx_query, tx_query_row, db_query_row,
}
use terraform_provider_redsh.Cleanup.{Rows, cleaned_schemas, each_row}
use terraform_provider_redsh.User.{
  UserData, permanent_username, create_user_query, rename_user_query, password_query,
  connection_limit_query, session_timeout_query, create_database_query, superuser_query,
  valid_until_query, syslog_access_computed, syslog_access_query, clean_schema, drop_user_query,
}
use terraform_provider_redsh.User.Timestamps.{validate_and_adjust_valid_until}

abbrev pub bool_eq : Bool → Bool → Bool
bool_eq true b = b
bool_eq false b = not b

abbrev pub user_by_name : String → Query
user_by_name name = sql "SELECT usesysid FROM pg_user_info WHERE usename = $1" (str name ∷ [])

-- The query of `reassignOwnerGenerator`, whose text is long: one statement for each object that the
-- user owns.
abbrev pub reassign_owner_generator : String → String → Query
reassign_owner_generator id owner = sql "SELECT owner.ddl FROM …" (str id ∷ str owner ∷ [])

-- The loop that collects the statements before any of them is sent.
unfoldable pub scan_statements : Rows → Result (List String)
scan_statements [] = ok []
scan_statements (err e ∷ rows) = err e
scan_statements (ok row ∷ rows) = elim (scan_statements rows) [
  | ok rest ↦ ok (row.0 ∷ rest)
  | err e ↦ err e
]

unfoldable pub connection_limit_number : String → Result ℤ
connection_limit_number limit = if limit == "UNLIMITED" then ok (negsuc 0) else atoi limit

module _ (env : Env) where
  abbrev pub UserCells : Type 0
  UserCells = Cells (text ∷ flag ∷ flag ∷ text ∷ text ∷ text ∷ [])

  -- The calls of `d.Set` that end a read.
  unfoldable pub set_attributes : UserCells → String → ℤ → ℤ → M env UserData (Unit {0})
  set_attributes row valid_until limit timeout = modify (λ d. record d {
    new = record d.new {
      name = row.0;
      create_database = row.1.0;
      superuser = row.1.1.0;
      syslog_access = row.1.1.1.0;
      connection_limit = limit;
      valid_until = valid_until;
      session_timeout = timeout;
    };
  })

  -- A row that is missing clears the id; otherwise the rest of the read follows.
  unfoldable pub found_or_gone :
      {A : Type 0} → Result A → (A → M env UserData (Unit {0})) → M env UserData (Unit {0})
  found_or_gone r next = elim r [
    | ok row ↦ next row
    | err e ↦
        if is_no_rows e
        then modify (λ d. record d { id = "" })
        else fail (wrap "error reading User" e)
  ]

  unfoldable pub finish_read : UserCells → String → M env UserData (Unit {0})
  finish_read row until = do
    valid_until ← lift (validate_and_adjust_valid_until until)
    limit ← lift (connection_limit_number row.1.1.1.1.0)
    timeout ← lift (atoi row.1.1.1.1.1.0)
    set_attributes row valid_until limit timeout

  unfoldable pub read_valid_until : UserCells → M env UserData (Unit {0})
  read_valid_until row = do
    d ← gets (λ d. d)
    r ← attempt (
        db_query_row (text ∷ []) (
          sql "SELECT COALESCE(valuntil, 'infinity') FROM pg_user_info WHERE usesysid = $1"
            (str d.id ∷ [])))
    found_or_gone r (λ cell. finish_read row cell.0)

  unfoldable pub resource_redshift_user_read_impl : M env UserData (Unit {0})
  resource_redshift_user_read_impl = do
    d ← gets (λ d. d)
    r ← attempt (
        db_query_row (text ∷ flag ∷ flag ∷ text ∷ text ∷ text ∷ []) (
          sql
            "SELECT user_name,createdb,superuser,syslog_access,COALESCE(connection_limit::TEXT, 'UNLIMITED'),session_timeout FROM svv_user_info WHERE user_id = $1"
            (str d.id ∷ [])))
    found_or_gone r read_valid_until

  unfoldable pub apply_create : M env UserData (Unit {0})
  apply_create = do
    d ← gets (λ d. d)
    wrapped "error creating user" (tx_exec (create_user_query env d.new))
    row ←
        wrapped "user does not exist in pg_user_info table"
          (tx_query_row (text ∷ []) (user_by_name d.new.name))
    modify (λ d. record d { id = row.0 })
    wrapped "could not commit transaction" tx_commit
    resource_redshift_user_read_impl

  unfoldable pub resource_redshift_user_create : M env UserData (Unit {0})
  resource_redshift_user_create = do start_transaction; deferred_rollback apply_create

  unfoldable pub set_user_name : UserData → M env UserData (Unit {0})
  set_user_name d =
      if d.old.name == d.new.name
      then pure tt
      else if d.new.name == ""
      then fail (plain "error setting user name to an empty string")
      else wrapped "error updating User NAME"
          (tx_exec (rename_user_query env d.old.name d.new.name))

  unfoldable pub set_user_password : UserData → M env UserData (Unit {0})
  set_user_password d =
      if d.old.password == d.new.password && d.old.name == d.new.name
      then pure tt
      else wrapped "error updating user password" (tx_exec (password_query env d.new))

  unfoldable pub set_user_conn_limit : UserData → M env UserData (Unit {0})
  set_user_conn_limit d =
      if int_eq d.old.connection_limit d.new.connection_limit
      then pure tt
      else wrapped "error updating user CONNECTION LIMIT"
          (tx_exec (connection_limit_query env d.new))

  unfoldable pub set_user_create_db : UserData → M env UserData (Unit {0})
  set_user_create_db d =
      if bool_eq d.old.create_database d.new.create_database
      then pure tt
      else wrapped "error updating user CREATEDB" (tx_exec (create_database_query env d.new))

  unfoldable pub set_user_superuser : UserData → M env UserData (Unit {0})
  set_user_superuser d =
      if bool_eq d.old.superuser d.new.superuser
      then pure tt
      else wrapped "error updating user SUPERUSER" (tx_exec (superuser_query env d.new))

  unfoldable pub set_user_valid_until : UserData → M env UserData (Unit {0})
  set_user_valid_until d =
      if d.old.valid_until == d.new.valid_until || d.new.valid_until == ""
      then pure tt
      else wrapped "error updating user VALID UNTIL" (tx_exec (valid_until_query env d.new))

  unfoldable pub set_user_syslog_access : UserData → M env UserData (Unit {0})
  set_user_syslog_access d =
      if d.new.syslog_access == syslog_access_computed d.new
        && d.old.syslog_access == d.new.syslog_access
      then pure tt
      else wrapped "error updating user SYSLOG ACCESS" (tx_exec (syslog_access_query env d.new))

  unfoldable pub set_user_session_timeout : UserData → M env UserData (Unit {0})
  set_user_session_timeout d =
      if int_eq d.old.session_timeout d.new.session_timeout
      then pure tt
      else wrapped "error updating user SESSION TIMEOUT" (tx_exec (session_timeout_query env d.new))

  -- The setters of an update, in the source's order.
  unfoldable pub set_user : UserData → M env UserData (Unit {0})
  set_user d = do
    set_user_name d
    set_user_password d
    set_user_conn_limit d
    set_user_create_db d
    set_user_superuser d
    set_user_valid_until d
    set_user_syslog_access d
    set_user_session_timeout d

  unfoldable pub apply_update : M env UserData (Unit {0})
  apply_update = do
    d ← gets (λ d. d)
    set_user d
    wrapped "could not commit transaction" tx_commit
    resource_redshift_user_read_impl

  unfoldable pub resource_redshift_user_update : M env UserData (Unit {0})
  resource_redshift_user_update = do start_transaction; deferred_rollback apply_update

  -- `Config.GetUsername`, with the name that the configuration has cached
  unfoldable pub get_username : String → M env UserData String
  get_username retrieved_username =
      if not (retrieved_username == "")
      then pure retrieved_username
      else (db_query_row (text ∷ []) (sql "SELECT current_user;" []) >>= λ row. pure row.0)

  -- The transaction of a delete, from the query for the schemas on.
  unfoldable pub clean_and_drop : UserData → M env UserData (Unit {0})
  clean_and_drop d = do
    schemas ← tx_query (text ∷ []) cleaned_schemas
    each_row (clean_schema env d.new.name) schemas
    tx_exec (drop_user_query env d.new.name)
    tx_commit
    pure tt

  -- The whole transaction, with the user who takes over what the deleted user owns.
  unfoldable pub apply_delete : String → M env UserData (Unit {0})
  apply_delete new_owner_name = do
    d ← gets (λ d. d)
    owned ←
        tx_query (text ∷ []) (reassign_owner_generator d.id (env.quote_identifier new_owner_name))
    statements ← lift (scan_statements owned)
    tx_exec_all statements
    clean_and_drop d

  unfoldable pub resource_redshift_user_delete : String → M env UserData (Unit {0})
  resource_redshift_user_delete retrieved_username = do
    raw_username ← wrapped "error retrieving username" (get_username retrieved_username)
    start_transaction
    deferred_rollback (apply_delete (permanent_username raw_username))
