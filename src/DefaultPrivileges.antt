-- ===== src/DefaultPrivileges.antt =====
-- redshift/resource_redshift_default_privileges.go
pub mod Atomic
pub mod Success
use terraform_provider_redsh.Base.{
  ℕ, String, ◌<>◌, Bool, true, false, not, ◌&&◌, ◌||◌, List, [], ◌∷◌, ◌++◌, Option, none, some, map,
  is_empty, ◌==◌, string_dec, if◌then◌else◌,
}
use terraform_provider_redsh.Strings.{join}
use terraform_provider_redsh.Errors.{Error, is_no_rows, wrap, Result, ok, err}
use terraform_provider_redsh.External.{Env, Cells, text, flag, str, num, acl, user, group, defaults}
use terraform_provider_redsh.Effects.{
  M, ◌>>=◌, ◌>>◌, continue, pure, fail, gets, modify, lift, wrapped, attempt, check,
  start_transaction, deferred_rollback, tx_exec, tx_commit, tx_query_row,
}
use terraform_provider_redsh.Helpers.{
  upper, append_if_true, validate_privileges, get_group_id_from_name, get_user_id_from_name,
  get_schema_id_from_name,
}

pub record DefaultPrivilegesData : Type 0 where
  pub id : String
  pub schema : String
  pub group_name : String
  pub user_name : String
  pub owner : String
  pub object_type : String
  pub privileges : List String

-- `d.GetOk` of a text
abbrev is_set : String → Bool
is_set s = not (s == "")

unfoldable pub generate_default_privileges_id : DefaultPrivilegesData → String
generate_default_privileges_id d = join "_" (
    (if is_set d.group_name
      then "gn:" <> d.group_name
      else if is_set d.user_name
      then "un:" <> d.user_name
      else "")
    ∷ (if is_set d.schema then "sn:" <> d.schema else "noschema")
    ∷ ("on:" <> d.owner)
    ∷ ("ot:" <> d.object_type)
    ∷ [])

abbrev Flags : Type 0
Flags = Cells (flag ∷ flag ∷ flag ∷ flag ∷ flag ∷ flag ∷ flag ∷ flag ∷ [])

-- The variables as they stand when there is no row.
abbrev no_flags : Flags
no_flags = (false, (false, (false, (false, (false, (false, (false, (false, tt))))))))

unfoldable pub collect_privileges : Flags → List String
collect_privileges
      (select, (update, (insert, (delete, (drop, (references, (rule, (trigger, _)))))))) =
    append_if_true trigger "trigger" (
      append_if_true rule "rule" (
        append_if_true references "references" (
          append_if_true drop "drop" (
            append_if_true delete "delete" (
              append_if_true insert "insert"
                (append_if_true update "update" (append_if_true select "select" [])))))))

module _ (env : Env) where
  abbrev entity_name : DefaultPrivilegesData → String
  entity_name d =
      if is_set d.group_name then d.group_name else if is_set d.user_name then d.user_name else ""

  -- `ALTER DEFAULT PRIVILEGES` up to the schema
  abbrev alter_query : DefaultPrivilegesData → String
  alter_query d =
      let query = "ALTER DEFAULT PRIVILEGES FOR USER " <> env.quote_identifier d.owner in
      if is_set d.schema then query <> (" IN SCHEMA " <> env.quote_identifier d.schema) else query

  abbrev indicator : DefaultPrivilegesData → String
  indicator d = if is_set d.group_name then "GROUP" else ""

  unfoldable pub create_alter_defaults_grant_query : DefaultPrivilegesData → List String → String
  create_alter_defaults_grant_query d privileges =
      alter_query d
      <> (" GRANT "
          <> (join "," privileges
              <> (" ON "
                  <> (upper env d.object_type
                      <> ("S TO "
                          <> (indicator d <> (" " <> env.quote_identifier (entity_name d))))))))

  unfoldable pub create_alter_defaults_revoke_query : DefaultPrivilegesData → String
  create_alter_defaults_revoke_query d =
      alter_query d
      <> (" REVOKE ALL PRIVILEGES ON "
          <> (upper env d.object_type
              <> ("S FROM " <> (indicator d <> (" " <> env.quote_identifier (entity_name d))))))

  -- A row that is missing leaves every privilege out.
  unfoldable pub set_privileges_of_row : Result Flags → M env DefaultPrivilegesData (Unit {0})
  set_privileges_of_row r = elim r [
    | ok row ↦ modify (λ d. record d { privileges = collect_privileges row })
    | err e ↦
        if is_no_rows e
        then modify (λ d. record d { privileges = collect_privileges no_flags })
        else fail (wrap "failed to collect privileges" e)
  ]

  unfoldable pub read_group_table_default_privileges :
      (entity_id schema_id owner_id : ℕ) → Bool → M env DefaultPrivilegesData (Unit {0})
  read_group_table_default_privileges entity_id schema_id owner_id entity_is_user = do
    r ← attempt (
        tx_query_row (flag ∷ flag ∷ flag ∷ flag ∷ flag ∷ flag ∷ flag ∷ flag ∷ []) (
          acl defaults (if entity_is_user then user else group) "rwadDxRt"
            (num schema_id ∷ num entity_id ∷ str "r" ∷ num owner_id ∷ [])))
    set_privileges_of_row r

  unfoldable pub look_up_schema : DefaultPrivilegesData → M env DefaultPrivilegesData ℕ
  look_up_schema d =
      if is_set d.schema
      then wrapped "failed to get schema ID" (get_schema_id_from_name env d.schema)
      else pure 0

  -- The id of the group or of the user, and whether it is a user.
  unfoldable pub look_up_entity : DefaultPrivilegesData → M env DefaultPrivilegesData (ℕ × Bool)
  look_up_entity d =
      if is_set d.group_name
      then (wrapped "failed to get group ID" (get_group_id_from_name env d.group_name) >>= λ id.
          pure (id, false))
      else if is_set d.user_name
      then (wrapped "failed to get user ID" (get_user_id_from_name env d.user_name) >>= λ id.
          pure (id, true))
      else pure (0, false)

  -- What a read does in its transaction, up to the commit.
  unfoldable pub read_in_transaction : M env DefaultPrivilegesData (Unit {0})
  read_in_transaction = do
    d ← gets (λ d. d)
    schema_id ← look_up_schema d
    entity ← look_up_entity d
    owner_id ← wrapped "failed to get user ID" (get_user_id_from_name env d.owner)
    if upper env d.object_type == "TABLE"
        then wrapped "failed to read table privileges"
            (read_group_table_default_privileges entity.0 schema_id owner_id entity.1)
        else pure tt

  unfoldable pub resource_redshift_default_privileges_read_impl :
      M env DefaultPrivilegesData (Unit {0})
  resource_redshift_default_privileges_read_impl = do
    start_transaction
    deferred_rollback
        (read_in_transaction >> (wrapped "could not commit transaction" tx_commit >> pure tt))

  unfoldable pub apply_revoke : M env DefaultPrivilegesData (Unit {0})
  apply_revoke = do
    d ← gets (λ d. d)
    tx_exec (create_alter_defaults_revoke_query d)
    tx_commit
    pure tt

  unfoldable pub resource_redshift_default_privileges_delete :
      M env DefaultPrivilegesData (Unit {0})
  resource_redshift_default_privileges_delete = do start_transaction; deferred_rollback apply_revoke

  unfoldable pub grant_defaults :
      DefaultPrivilegesData → List String → M env DefaultPrivilegesData (Unit {0})
  grant_defaults d privileges =
      if is_empty privileges
      then pure tt
      else tx_exec (create_alter_defaults_grant_query d privileges)

  unfoldable pub after_commit : M env DefaultPrivilegesData (Unit {0})
  after_commit = do
    modify (λ d. record d { id = generate_default_privileges_id d })
    resource_redshift_default_privileges_read_impl

  unfoldable pub apply_defaults : M env DefaultPrivilegesData (Unit {0})
  apply_defaults = do
    d ← gets (λ d. d)
    tx_exec (create_alter_defaults_revoke_query d)
    grant_defaults d (map (upper env) d.privileges)
    tx_commit
    after_commit

  unfoldable pub resource_redshift_default_privileges_create :
      M env DefaultPrivilegesData (Unit {0})
  resource_redshift_default_privileges_create = do
    d ← gets (λ d. d)
    check (
        if validate_privileges env (map (upper env) d.privileges) d.object_type
        then none
        else some "invalid privileges list")
    start_transaction
    deferred_rollback apply_defaults
