-- ===== src/Group.antt =====
-- redshift/resource_redshift_group.go
pub mod Scripts
pub mod Atomic
use terraform_provider_redsh.Base.{
  String, ◌<>◌, Bool, true, false, not, List, [], ◌∷◌, ◌++◌, map, is_empty, ◌==◌, string_dec,
  if◌then◌else◌,
}
use terraform_provider_redsh.Strings.{join}
use terraform_provider_redsh.Errors.{Error, error_text, is_no_rows, plain, wrap, Result, ok, err}
use terraform_provider_redsh.External.{Env, Cells, text, number, str, Query, sql}
use terraform_provider_redsh.Effects.{
  M, ◌>>=◌, ◌>>◌, continue, pure, fail, gets, modify, lift, wrapped, attempt, start_transaction,
  deferred_rollback, tx_exec, tx_exec_all, tx_commit, tx_query, tx_query_row, db_query,
  db_query_row,
}
use terraform_provider_redsh.Helpers.{lower}
use terraform_provider_redsh.Cleanup.{Rows, cleaned_schemas, each_row}

-- The attributes with their values in the state (`old_…`) and in the configuration.
pub record GroupData : Type 0 where
  pub id : String
  pub old_name : String
  pub name : String
  pub old_users : List String
  pub users : List String

abbrev pub group_by_name : String → Query
group_by_name name = sql "SELECT grosysid FROM pg_group WHERE groname = $1" (str name ∷ [])

-- The loop over the rows of the members: the name of the last row, and the users.
unfoldable pub scan_members :
    List (Result (Cells (text ∷ text ∷ []))) → String → List String → Result (String × List String)
scan_members [] group_name group_users = ok (group_name, group_users)
scan_members (err e ∷ rows) group_name group_users =
    err (wrap "could not read group members for group id" e)
scan_members (ok row ∷ rows) group_name group_users =
    scan_members rows row.0 (group_users ++ row.1.0 ∷ [])

module _ (env : Env) where
  unfoldable pub set_group : String → List String → M env GroupData (Unit {0})
  set_group group_name group_users =
      modify (λ d. record d { name = group_name; users = group_users })

  -- What follows the loop: a group without users has had no row to take its name from.
  unfoldable pub finish_read : String × List String → M env GroupData (Unit {0})
  finish_read (group_name, group_users) = do
    d ← gets (λ d. d)
    if is_empty group_users
        then (db_query_row (text ∷ [])
              (sql "SELECT groname FROM pg_group WHERE grosysid = $1;" (str d.id ∷ []))
            >>= λ row. set_group row.0 group_users)
        else set_group group_name group_users

  unfoldable pub resource_redshift_group_read_impl : M env GroupData (Unit {0})
  resource_redshift_group_read_impl = do
    d ← gets (λ d. d)
    rows ← db_query (text ∷ text ∷ []) (
        sql
          "SELECT groname, u.usename FROM pg_user_info u, pg_group g WHERE g.grosysid = $1 AND u.usesysid = ANY(g.grolist);"
          (str d.id ∷ []))
    found ← lift (scan_members rows "" [])
    finish_read found

  unfoldable pub create_group_query : String → List String → String
  create_group_query name users =
      let query = "CREATE GROUP " <> env.quote_identifier name in
      if is_empty users
      then query
      else query <> (" WITH USER " <> join ", " (map env.quote_identifier users))

  unfoldable pub apply_create : M env GroupData (Unit {0})
  apply_create = do
    d ← gets (λ d. d)
    wrapped "could not create redshift group" (tx_exec (create_group_query d.name d.users))
    row ←
        wrapped "could not get redshift group id"
          (tx_query_row (text ∷ []) (group_by_name (lower env d.name)))
    modify (λ d. record d { id = row.0 })
    wrapped "could not commit transaction" tx_commit
    resource_redshift_group_read_impl

  unfoldable pub resource_redshift_group_create : M env GroupData (Unit {0})
  resource_redshift_group_create = do start_transaction; deferred_rollback apply_create

  -- The two statements of a round of the loop of a delete.
  abbrev pub clean_schema : String → String → List String
  clean_schema group_name schema =
      ("REVOKE ALL ON ALL TABLES IN SCHEMA "
        <> (env.quote_identifier schema <> (" FROM GROUP " <> env.quote_identifier group_name)))
      ∷ ("ALTER DEFAULT PRIVILEGES IN SCHEMA "
          <> (env.quote_identifier schema
              <> (" REVOKE ALL ON TABLES FROM GROUP " <> env.quote_identifier group_name)))
      ∷ []

  unfoldable pub drop_group_query : String → String
  drop_group_query group_name = "DROP GROUP " <> env.quote_identifier group_name

  unfoldable pub apply_delete : M env GroupData (Unit {0})
  apply_delete = do
    d ← gets (λ d. d)
    rows ← tx_query (text ∷ []) cleaned_schemas
    each_row (clean_schema d.name) rows
    tx_exec (drop_group_query d.name)
    tx_commit
    pure tt

  unfoldable pub resource_redshift_group_delete : M env GroupData (Unit {0})
  resource_redshift_group_delete = do start_transaction; deferred_rollback apply_delete

  unfoldable pub rename_group_query : String → String → String
  rename_group_query old_value new_value =
      "ALTER GROUP "
      <> (env.quote_identifier old_value <> (" RENAME TO " <> env.quote_identifier new_value))

  unfoldable pub set_group_name : GroupData → M env GroupData (Unit {0})
  set_group_name d =
      if d.old_name == d.name
      then pure tt
      else if d.name == ""
      then fail (plain "error setting group name to an empty string")
      else wrapped "error updating Group NAME" (tx_exec (rename_group_query d.old_name d.name))

  abbrev pub user_by_name : String → Query
  user_by_name name = sql "SELECT 1 FROM pg_user_info WHERE usename=$1" (str name ∷ [])

  unfoldable pub check_if_user_exists : String → M env GroupData Bool
  check_if_user_exists name = do
    r ← attempt (tx_query_row (number ∷ []) (user_by_name name))
    elim r [
      | ok _ ↦ pure true
      | err e ↦
          if is_no_rows e
          then pure false
          else fail (plain ("error reading info about user: " <> error_text e))
    ]

  -- The loop over the removed users: those that exist, quoted.
  unfoldable pub quote_existing : List String → M env GroupData (List String)
  quote_existing [] = pure []
  quote_existing (name ∷ names) = do
    user_exists ← check_if_user_exists name
    rest ← quote_existing names
    pure (if user_exists then env.quote_identifier name ∷ rest else rest)

  unfoldable pub drop_users_query : String → List String → String
  drop_users_query group_name names_safe =
      "ALTER GROUP " <> (env.quote_identifier group_name <> (" DROP USER " <> join ", " names_safe))

  unfoldable pub add_users_query : String → List String → String
  add_users_query group_name names_safe =
      "ALTER GROUP " <> (env.quote_identifier group_name <> (" ADD USER " <> join ", " names_safe))

  unfoldable pub drop_existing : String → List String → M env GroupData (Unit {0})
  drop_existing group_name names_safe =
      if is_empty names_safe then pure tt else tx_exec (drop_users_query group_name names_safe)

  unfoldable pub drop_removed : String → List String → M env GroupData (Unit {0})
  drop_removed group_name removed =
      if is_empty removed then pure tt else (quote_existing removed >>= drop_existing group_name)

  unfoldable pub add_added : String → List String → M env GroupData (Unit {0})
  add_added group_name added =
      if is_empty added
      then pure tt
      else tx_exec (add_users_query group_name (map env.quote_identifier added))

  unfoldable pub set_users_names : GroupData → M env GroupData (Unit {0})
  set_users_names d =
      if env.set_equal d.old_users d.users
      then pure tt
      else (drop_removed d.name (env.difference d.old_users d.users)
          >> add_added d.name (env.difference d.users d.old_users))

  unfoldable pub apply_update : M env GroupData (Unit {0})
  apply_update = do
    d ← gets (λ d. d)
    set_group_name d
    set_users_names d
    wrapped "could not commit transaction" tx_commit
    resource_redshift_group_read_impl

  unfoldable pub resource_redshift_group_update : M env GroupData (Unit {0})
  resource_redshift_group_update = do start_transaction; deferred_rollback apply_update
