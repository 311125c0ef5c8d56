-- ===== src/Role.antt =====
-- redshift/resource_redshift_role.go
pub mod Atomic
pub mod Outcomes
use terraform_provider_redsh.Base.{
  String, ◌<>◌, Bool, true, false, not, List, [], ◌∷◌, ◌==◌, string_dec, if◌then◌else◌,
}
use terraform_provider_redsh.Errors.{Error, is_no_rows, wrap, Result, ok, err}
use terraform_provider_redsh.External.{Env, text, flag, str, Query, sql}
use terraform_provider_redsh.Effects.{
  M, ◌>>=◌, ◌>>◌, continue, pure, fail, gets, modify, wrapped, attempt, start_transaction,
  deferred_rollback, tx_exec, tx_commit, tx_query_row, db_query_row,
}
use terraform_provider_redsh.Helpers.{lower}

pub record RoleData : Type 0 where
  pub id : String
  pub old_name : String
  pub name : String

abbrev pub role_by_name : String → Query
role_by_name name = sql "SELECT role_name FROM SVV_ROLES WHERE role_name = $1" (str name ∷ [])

abbrev pub role_exists : String → Query
role_exists name = sql "SELECT EXISTS(SELECT 1 FROM SVV_ROLES WHERE role_name = $1)" (str name ∷ [])

module _ (env : Env) where
  abbrev pub create_role_query : String → String
  create_role_query name = "CREATE ROLE " <> env.quote_identifier name

  abbrev pub drop_role_query : String → String
  drop_role_query name = "DROP ROLE " <> env.quote_identifier name

  abbrev pub rename_role_query : String → String → String
  rename_role_query old_name new_name =
      "ALTER ROLE "
      <> (env.quote_identifier old_name <> (" RENAME TO " <> env.quote_identifier new_name))

  unfoldable pub resource_redshift_role_read : M env RoleData (Unit {0})
  resource_redshift_role_read = do
    d ← gets (λ d. d)
    r ← attempt (db_query_row (text ∷ []) (role_by_name d.id))
    elim r [
      | ok row ↦ modify (λ d. record d { name = row.0 })
      | err e ↦
          if is_no_rows e
          then modify (λ d. record d { id = "" })
          else fail (wrap "error reading role" e)
    ]

  unfoldable pub apply_create : M env RoleData (Unit {0})
  apply_create = do
    d ← gets (λ d. d)
    wrapped "could not create redshift role" (tx_exec (create_role_query d.name))
    row ←
        wrapped "could not verify role creation"
          (tx_query_row (text ∷ []) (role_by_name (lower env d.name)))
    modify (λ d. record d { id = lower env d.name })
    wrapped "could not commit transaction" tx_commit
    resource_redshift_role_read

  unfoldable pub resource_redshift_role_create : M env RoleData (Unit {0})
  resource_redshift_role_create = do start_transaction; deferred_rollback apply_create

  -- What follows the commit of a new name.
  unfoldable pub after_rename : M env RoleData (Unit {0})
  after_rename = do modify (λ d. record d { id = lower env d.name }); resource_redshift_role_read

  unfoldable pub apply_rename : M env RoleData (Unit {0})
  apply_rename = do
    d ← gets (λ d. d)
    wrapped "error renaming role" (tx_exec (rename_role_query d.old_name d.name))
    wrapped "could not commit transaction" tx_commit
    after_rename

  unfoldable pub resource_redshift_role_update : M env RoleData (Unit {0})
  resource_redshift_role_update = do
    d ← gets (λ d. d)
    if not (d.old_name == d.name)
        then (start_transaction >> deferred_rollback apply_rename)
        else resource_redshift_role_read

  unfoldable pub apply_drop : M env RoleData (Unit {0})
  apply_drop = do
    d ← gets (λ d. d)
    wrapped "error dropping role" (tx_exec (drop_role_query d.id))
    wrapped "could not commit transaction" tx_commit
    pure tt

  unfoldable pub drop_if_exists : M env RoleData (Unit {0})
  drop_if_exists = do
    d ← gets (λ d. d)
    row ← tx_query_row (flag ∷ []) (role_exists d.id)
    if row.0 then apply_drop else pure tt

  unfoldable pub resource_redshift_role_delete : M env RoleData (Unit {0})
  resource_redshift_role_delete = do start_transaction; deferred_rollback drop_if_exists
