-- ===== src/RoleGrant.antt =====
-- redshift/resource_redshift_role_grant.go
pub mod Id
pub mod Atomic
pub mod Success
use terraform_provider_redsh.Base.{
  String, ◌<>◌, Bool, true, false, List, [], ◌∷◌, Option, none, some, ◌==◌, string_dec,
  if◌then◌else◌,
}
use terraform_provider_redsh.Strings.{split, has_substring}
use terraform_provider_redsh.Errors.{Error, error_text, is_no_rows, plain, wrap, Result, ok, err}
use terraform_provider_redsh.External.{Env, number, str, sql}
use terraform_provider_redsh.Effects.{
  M, ◌>>=◌, ◌>>◌, continue, pure, fail, gets, modify, wrapped, attempt, start_transaction,
  deferred_rollback, tx_exec, tx_commit, db_query_row,
}
use terraform_provider_redsh.Helpers.{lower, upper}

pub record RoleGrantData : Type 0 where
  pub id : String
  pub role_name : String
  pub grant_to_type : String
  pub grant_to_name : String

-- `strings.Split(d.Id(), ":")`, which must have four parts; the first is not looked at.
unfoldable pub id_parts : String → Option (String × String × String)
id_parts id = elim (split b':' id) [
  | _ ∷ role ∷ type ∷ name ∷ [] ↦ some (role, type, name)
  | _ ↦ none
]

module _ (env : Env) where
  unfoldable pub generate_role_grant_id : String → String → String → String
  generate_role_grant_id role_name grant_to_type grant_to_name =
      "role:"
      <> (lower env role_name
          <> (":" <> (lower env grant_to_type <> (":" <> lower env grant_to_name))))

  -- The two texts take the type of the grantee in capitals.
  unfoldable pub grant_role_query : String → String → String → String
  grant_role_query role_name grant_to_type grant_to_name =
      if grant_to_type == "USER"
      then "GRANT ROLE "
        <> (env.quote_identifier role_name <> (" TO " <> env.quote_identifier grant_to_name))
      else "GRANT ROLE "
        <> (env.quote_identifier role_name
            <> (" TO " <> (grant_to_type <> (" " <> env.quote_identifier grant_to_name))))

  unfoldable pub revoke_role_query : String → String → String → String
  revoke_role_query role_name grant_to_type grant_to_name =
      if grant_to_type == "USER"
      then "REVOKE ROLE "
        <> (env.quote_identifier role_name <> (" FROM " <> env.quote_identifier grant_to_name))
      else "REVOKE ROLE "
        <> (env.quote_identifier role_name
            <> (" FROM " <> (grant_to_type <> (" " <> env.quote_identifier grant_to_name))))

  abbrev user_grants_query : String
  user_grants_query =
      "SELECT 1 FROM SVV_USER_GRANTS WHERE LOWER(role_name) = LOWER($1) AND LOWER(user_name) = LOWER($2)"

  abbrev role_grants_query : String
  role_grants_query =
      "SELECT 1 FROM SVV_ROLE_GRANTS WHERE LOWER(granted_role_name) = LOWER($1) AND LOWER(role_name) = LOWER($2)"

  -- The lookup of the grant: its absence clears the id, any other error is returned.
  unfoldable pub look_up_grant : String → RoleGrantData → M env RoleGrantData (Unit {0})
  look_up_grant query d = do
    r ←
        attempt
          (db_query_row (number ∷ []) (sql query (str d.role_name ∷ str d.grant_to_name ∷ [])))
    elim r [
      | ok _ ↦ pure tt
      | err e ↦
          if is_no_rows e
          then modify (λ d. record d { id = "" })
          else fail (wrap "error reading role grant" e)
    ]

  unfoldable pub resource_redshift_role_grant_read : M env RoleGrantData (Unit {0})
  resource_redshift_role_grant_read = do
    d ← gets (λ d. d)
    if upper env d.grant_to_type == "USER"
        then look_up_grant user_grants_query d
        else if upper env d.grant_to_type == "ROLE"
        then look_up_grant role_grants_query d
        else if upper env d.grant_to_type == "GROUP"
        then pure tt
        else fail (plain ("unsupported grant_to_type: " <> d.grant_to_type))

  unfoldable pub after_commit : M env RoleGrantData (Unit {0})
  after_commit = do
    modify (λ d. record d {
      id = generate_role_grant_id d.role_name (upper env d.grant_to_type) d.grant_to_name;
    })
    resource_redshift_role_grant_read

  unfoldable pub apply_role_grant : M env RoleGrantData (Unit {0})
  apply_role_grant = do
    d ← gets (λ d. d)
    wrapped "could not grant role"
        (tx_exec (grant_role_query d.role_name (upper env d.grant_to_type) d.grant_to_name))
    wrapped "could not commit transaction" tx_commit
    after_commit

  unfoldable pub resource_redshift_role_grant_create : M env RoleGrantData (Unit {0})
  resource_redshift_role_grant_create = do start_transaction; deferred_rollback apply_role_grant

  -- A role or a grantee that is gone is no error.
  unfoldable pub remove_role_grant : String → M env RoleGrantData (Unit {0})
  remove_role_grant query = do
    r ← attempt (tx_exec query)
    elim r [
      | ok _ ↦ wrapped "could not commit transaction" tx_commit
      | err e ↦
          if has_substring (error_text e) "does not exist"
          then wrapped "could not commit transaction" tx_commit
          else fail (wrap "could not revoke role" e)
    ]

  unfoldable pub resource_redshift_role_grant_delete : M env RoleGrantData (Unit {0})
  resource_redshift_role_grant_delete = do
    d ← gets (λ d. d)
    elim (id_parts d.id) [
      | none ↦ fail (plain ("invalid role grant ID format: " <> d.id))
      | some (role, type, name) ↦ do
        start_transaction
        deferred_rollback (remove_role_grant (revoke_role_query role (upper env type) name))
    ]
