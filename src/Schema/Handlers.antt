-- ===== src/Schema/Handlers.antt =====
-- The handlers of redshift/resource_redshift_schema.go that change a schema.
use terraform_provider_redsh.Base.{String, List, [], ◌∷◌, ◌==◌, if◌then◌else◌, Option, none, some}
use terraform_provider_redsh.Strings.Decimal.{int_eq}
use terraform_provider_redsh.Errors.{plain}
use terraform_provider_redsh.External.{Env, text}
use terraform_provider_redsh.Effects.{
  M, ◌>>=◌, ◌>>◌, pure, fail, gets, modify, wrapped, start_transaction, deferred_rollback, tx_exec,
  tx_commit, tx_query_row,
}
use terraform_provider_redsh.Helpers.{lower, resource_retry_on_pq_errors}
use terraform_provider_redsh.Schema.{
  ExternalSchema, SchemaData, oid_by_schema_name, config_query, create_internal_query,
  create_external_query, schema_owner_query, rename_schema_query, schema_quota_query,
  drop_schema_query,
}
use terraform_provider_redsh.Schema.Read.{resource_redshift_schema_read_impl, without_sources}

-- `d.Get` below `external_schema.0`
abbrev pub first_external : List ExternalSchema → ExternalSchema
first_external (e ∷ rest) = e
first_external [] = without_sources ""

module _ (env : Env) where
  -- The lookup of the id, at the end of both creates.
  unfoldable pub identify : SchemaData → M env SchemaData (Unit {0})
  identify d = do
    row ← tx_query_row (text ∷ []) (oid_by_schema_name (lower env d.name))
    modify (λ d. record d { id = row.0 })

  unfoldable pub resource_redshift_schema_create_internal : SchemaData → M env SchemaData (Unit {0})
  resource_redshift_schema_create_internal d = do tx_exec (create_internal_query env d); identify d

  -- The optional owner of a new external schema.
  unfoldable pub create_owner : SchemaData → M env SchemaData (Unit {0})
  create_owner d = if d.owner == "" then pure tt else tx_exec (schema_owner_query env d)

  unfoldable pub create_with_config : SchemaData → Option String → M env SchemaData (Unit {0})
  create_with_config d none =
      fail (plain "can't create external schema: no source configuration found")
  create_with_config d (some config) = do
    tx_exec (create_external_query env d config)
    create_owner d
    identify d

  unfoldable pub resource_redshift_schema_create_external : SchemaData → M env SchemaData (Unit {0})
  resource_redshift_schema_create_external d =
      create_with_config d (config_query (first_external d.external_schema))

  -- The part of a create before the commit.
  unfoldable pub create_by_kind : SchemaData → M env SchemaData (Unit {0})
  create_by_kind d =
      if (first_external d.external_schema).database_name == ""
      then resource_redshift_schema_create_internal d
      else resource_redshift_schema_create_external d

  unfoldable pub apply_create : M env SchemaData (Unit {0})
  apply_create = do
    d ← gets (λ d. d)
    create_by_kind d
    wrapped "could not commit transaction" tx_commit
    resource_redshift_schema_read_impl env

  unfoldable pub resource_redshift_schema_create : M env SchemaData (Unit {0})
  resource_redshift_schema_create = start_transaction >> deferred_rollback apply_create

  unfoldable pub set_schema_name : SchemaData → M env SchemaData (Unit {0})
  set_schema_name d =
      if d.old_name == d.name
      then pure tt
      else if d.name == ""
      then fail (plain "error setting schema name to an empty string")
      else wrapped "error updating schema NAME"
          (tx_exec (rename_schema_query env d.old_name d.name))

  unfoldable pub set_schema_owner : SchemaData → M env SchemaData (Unit {0})
  set_schema_owner d =
      if d.old_owner == d.owner then pure tt else tx_exec (schema_owner_query env d)

  unfoldable pub set_schema_quota : SchemaData → M env SchemaData (Unit {0})
  set_schema_quota d =
      if int_eq d.old_quota d.quota then pure tt else tx_exec (schema_quota_query env d)

  -- The part of an update before the commit.
  unfoldable pub send_changes : SchemaData → M env SchemaData (Unit {0})
  send_changes d = do set_schema_name d; set_schema_owner d; set_schema_quota d

  unfoldable pub apply_update : M env SchemaData (Unit {0})
  apply_update = do
    d ← gets (λ d. d)
    send_changes d
    wrapped "could not commit transaction" tx_commit
    resource_redshift_schema_read_impl env

  unfoldable pub resource_redshift_schema_update : M env SchemaData (Unit {0})
  resource_redshift_schema_update = start_transaction >> deferred_rollback apply_update

  unfoldable pub apply_drop : M env SchemaData (Unit {0})
  apply_drop = do d ← gets (λ d. d); tx_exec (drop_schema_query env d); tx_commit >> pure tt

  unfoldable pub resource_redshift_schema_delete : M env SchemaData (Unit {0})
  resource_redshift_schema_delete = start_transaction >> deferred_rollback apply_drop

  -- The `DeleteContext`.
  unfoldable pub delete_context : M env SchemaData (Unit {0})
  delete_context = resource_retry_on_pq_errors env resource_redshift_schema_delete
