-- ===== src/Datashare/Handlers.antt =====
-- The handlers of redshift/resource_redshift_datashare.go that change a share.
use terraform_provider_redsh.Base.{
  String, ◌<>◌, Bool, true, false, not, [], ◌∷◌, ◌==◌, if◌then◌else◌,
}
use terraform_provider_redsh.Errors.{is_no_rows, Result, ok, err}
use terraform_provider_redsh.External.{Env, Cells, text}
use terraform_provider_redsh.Effects.{
  M, ◌>>=◌, ◌>>◌, pure, fail, gets, modify, wrapped, attempt, start_transaction, deferred_rollback,
  tx_exec, for_each, tx_commit, tx_query_row,
}
use terraform_provider_redsh.Helpers.{lower}
use terraform_provider_redsh.Datashare.{
  DatashareData, show_bool, share_id_by_name, share_name_by_id, create_datashare_query,
  drop_datashare_query, add_schema_to_datashare, remove_schema_from_datashare,
  resource_redshift_datashare_read,
}

module _ (env : Env) where
  abbrev pub create_owner_query : DatashareData → String
  create_owner_query d =
      "ALTER DATASHARE "
      <> (env.quote_identifier (lower env d.name)
          <> (" OWNER TO " <> env.quote_identifier (lower env d.owner)))

  -- The optional owner of a new share.
  unfoldable pub create_owner : DatashareData → M env DatashareData (Unit {0})
  create_owner d = if d.owner == "" then pure tt else tx_exec (create_owner_query d)

  -- The part of a create before the commit.
  unfoldable pub create_and_fill : DatashareData → M env DatashareData (Unit {0})
  create_and_fill d = do
    tx_exec (create_datashare_query env d.name d.publicly_accessible)
    row ← tx_query_row (text ∷ []) (share_id_by_name (lower env d.name))
    modify (λ d. record d { id = row.0 })
    create_owner d
    for_each (add_schema_to_datashare env d.name) d.schemas

  unfoldable pub apply_create : M env DatashareData (Unit {0})
  apply_create = do
    d ← gets (λ d. d)
    create_and_fill d
    wrapped "could not commit transaction" tx_commit
    resource_redshift_datashare_read env

  unfoldable pub resource_redshift_datashare_create : M env DatashareData (Unit {0})
  resource_redshift_datashare_create = start_transaction >> deferred_rollback apply_create

  abbrev pub owner_query : DatashareData → String
  owner_query d =
      "ALTER DATASHARE "
      <> (env.quote_identifier d.name
          <> (" OWNER TO "
              <> (if d.owner == "" then "CURRENT_USER" else env.quote_identifier d.owner)))

  unfoldable pub set_datashare_owner : DatashareData → M env DatashareData (Unit {0})
  set_datashare_owner d =
      if d.old_owner == d.owner
      then pure tt
      else wrapped "error updating datashare OWNER" (tx_exec (owner_query d))

  abbrev pub publicly_accessible_query : DatashareData → String
  publicly_accessible_query d =
      "ALTER DATASHARE "
      <> (env.quote_identifier d.name
          <> (" SET PUBLICACCESSIBLE " <> show_bool d.publicly_accessible))

  -- `!d.HasChange` of the flag
  abbrev pub is_same_flag : Bool → Bool → Bool
  is_same_flag true b = b
  is_same_flag false b = not b

  unfoldable pub set_datashare_publicly_accessible : DatashareData → M env DatashareData (Unit {0})
  set_datashare_publicly_accessible d =
      if is_same_flag d.old_publicly_accessible d.publicly_accessible
      then pure tt
      else wrapped "error updating datashare PUBLICACCESSBILE"
          (tx_exec (publicly_accessible_query d))

  unfoldable pub set_datashare_schemas : DatashareData → M env DatashareData (Unit {0})
  set_datashare_schemas d =
      if env.set_equal d.old_schemas d.schemas
      then pure tt
      else (for_each (add_schema_to_datashare env d.name) (env.difference d.schemas d.old_schemas)
          >> for_each (remove_schema_from_datashare env d.name)
              (env.difference d.old_schemas d.schemas))

  -- The part of an update before the commit.
  unfoldable pub send_changes : DatashareData → M env DatashareData (Unit {0})
  send_changes d = do
    set_datashare_owner d
    set_datashare_publicly_accessible d
    set_datashare_schemas d

  unfoldable pub apply_update : M env DatashareData (Unit {0})
  apply_update = do
    d ← gets (λ d. d)
    send_changes d
    wrapped "could not commit transaction" tx_commit
    resource_redshift_datashare_read env

  unfoldable pub resource_redshift_datashare_update : M env DatashareData (Unit {0})
  resource_redshift_datashare_update = start_transaction >> deferred_rollback apply_update

  -- What follows the lookup of the name of a deleted share; a share that is gone is done.
  unfoldable pub drop_found : Result (Cells (text ∷ [])) → M env DatashareData (Unit {0})
  drop_found (ok row) = do
    tx_exec (drop_datashare_query env row.0)
    wrapped "could not commit transaction" tx_commit
    pure tt
  drop_found (err e) = if is_no_rows e then pure tt else fail e

  unfoldable pub apply_delete : M env DatashareData (Unit {0})
  apply_delete = do
    d ← gets (λ d. d)
    r ← attempt (tx_query_row (text ∷ []) (share_name_by_id d.id))
    drop_found r

  unfoldable pub resource_redshift_datashare_delete : M env DatashareData (Unit {0})
  resource_redshift_datashare_delete = start_transaction >> deferred_rollback apply_delete
