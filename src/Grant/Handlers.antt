-- ===== src/Grant/Handlers.antt =====
-- Create (which also updates) and delete of resource_redshift_grant.go.
use terraform_provider_redsh.Base.{
  String, Option, none, some, not, ◌&&◌, ◌||◌, is_empty, ◌==◌, if◌then◌else◌,
}
use terraform_provider_redsh.External.{Env}
use terraform_provider_redsh.Effects.{
  M, ◌>>=◌, ◌>>◌, pure, gets, modify, wrapped, check, start_transaction, deferred_rollback, tx_exec,
  tx_commit,
}
use terraform_provider_redsh.Helpers.{validate_privileges}
use terraform_provider_redsh.Grant.{
  GrantData, get_database_name, create_grants_query, create_grants_revoke_query, generate_grant_id,
}
use terraform_provider_redsh.Grant.Read.{resource_redshift_grant_read_impl}

module _ (env : Env) where
  unfoldable pub revoke_grants : String → M env GrantData (Unit {0})
  revoke_grants database_name = do
    d ← gets (λ d. d)
    tx_exec (create_grants_revoke_query env d database_name)

  unfoldable pub create_grants : String → M env GrantData (Unit {0})
  create_grants database_name = do
    d ← gets (λ d. d)
    if is_empty d.privileges then pure tt else tx_exec (create_grants_query env d database_name)

  -- The checks before the transaction, in order: the message of the first that fails.
  unfoldable pub validate_parameters : GrantData → Option String
  validate_parameters d =
      if (d.object_type == "table" || d.object_type == "function" || d.object_type == "procedure")
        && d.schema == ""
      then some "parameter `schema` is required for objects of type table, function and procedure"
      else if (d.object_type == "database" || d.object_type == "schema") && not (is_empty d.objects)
      then some "cannot specify `objects` when `object_type` is `database` or `schema`"
      else if d.object_type == "language" && is_empty d.objects
      then some "parameter `objects` is required for objects of type language"
      else if not (validate_privileges env d.privileges d.object_type)
      then some "invalid privileges list"
      else none

  -- What follows the commit.
  unfoldable pub after_commit : String → M env GrantData (Unit {0})
  after_commit configured = do
    modify (λ d. record d { id = generate_grant_id env d })
    resource_redshift_grant_read_impl env configured

  unfoldable pub apply_grants : String → String → M env GrantData (Unit {0})
  apply_grants configured database_name = do
    revoke_grants database_name
    create_grants database_name
    wrapped "could not commit transaction" tx_commit
    after_commit configured

  unfoldable pub resource_redshift_grant_create : String → M env GrantData (Unit {0})
  resource_redshift_grant_create configured = do
    d ← gets (λ d. d)
    check (validate_parameters d)
    start_transaction
    deferred_rollback (apply_grants configured (get_database_name configured d))

  unfoldable pub remove_grants : String → M env GrantData (Unit {0})
  remove_grants configured = do
    d ← gets (λ d. d)
    revoke_grants (get_database_name configured d)
    wrapped "could not commit transaction" tx_commit
    pure tt

  unfoldable pub resource_redshift_grant_delete : String → M env GrantData (Unit {0})
  resource_redshift_grant_delete configured = do
    start_transaction
    deferred_rollback (remove_grants configured)
