-- ===== src/GroupMembership.antt =====
-- redshift/resource_redshift_group_membership.go
pub mod Diff
pub mod Update
use terraform_provider_redsh.Base.{
  String, ◌<>◌, Bool, true, false, not, List, [], ◌∷◌, map, foldl, contains, is_empty, ◌==◌,
  string_dec, if◌then◌else◌,
}
use terraform_provider_redsh.Strings.{join}
use terraform_provider_redsh.Errors.{Error, plain}
use terraform_provider_redsh.External.{Env, number, sql}
use terraform_provider_redsh.Effects.{
  M, ◌>>=◌, ◌>>◌, continue, pure, fail, gets, modify, wrapped, db_exec, db_query,
}
use terraform_provider_redsh.Helpers.{lower}

-- The attributes with their values in the state (`old_…`) and in the configuration.
pub record MembershipData : Type 0 where
  pub id : String
  pub old_name : String
  pub name : String
  pub old_users : List String
  pub users : List String

-- One of the two loops: the names of the first list that the second lacks.
unfoldable pub missing_from : List String → List String → List String
missing_from others [] = []
missing_from others (name ∷ names) =
    let rest = missing_from others names in if contains others name then rest else name ∷ rest

unfoldable pub calculate_user_names_diff : List String → List String → List String × List String
calculate_user_names_diff old_user_names new_user_names =
    (missing_from new_user_names old_user_names, missing_from old_user_names new_user_names)

module _ (env : Env) where
  unfoldable pub build_user_string_array : List String → Bool → String
  build_user_string_array user_names encode_as_literal = join ", " (
      map
        (λ name.
          if encode_as_literal
          then env.quote_literal (lower env name)
          else env.quote_identifier (lower env name))
        user_names)

  unfoldable pub generate_group_membership_id : String → List String → String
  generate_group_membership_id group_name user_names =
      foldl (λ id name. id <> ("_" <> lower env name)) group_name user_names

  abbrev pub add_statement : String → List String → String
  add_statement group users =
      "ALTER GROUP "
      <> (env.quote_identifier group
          <> (" ADD USER " <> (build_user_string_array users false <> ";")))

  abbrev pub drop_statement : String → List String → String
  drop_statement group users =
      "ALTER GROUP "
      <> (env.quote_identifier group
          <> (" DROP USER " <> (build_user_string_array users false <> ";")))

  unfoldable pub add_users_to_group : String → List String → M env MembershipData (Unit {0})
  add_users_to_group group users =
      if is_empty users
      then pure tt
      else wrapped "could not add users to group" (db_exec (add_statement group users))

  unfoldable pub drop_users_from_group : String → List String → M env MembershipData (Unit {0})
  drop_users_from_group group users =
      if is_empty users
      then pure tt
      else wrapped "could not remove users from group" (db_exec (drop_statement group users))

  unfoldable pub resource_redshift_group_membership_read : M env MembershipData (Unit {0})
  resource_redshift_group_membership_read = do
    d ← gets (λ d. d)
    rows ← db_query (number ∷ []) (
        sql
          ("SELECT 1 FROM pg_group pgg JOIN pg_user pgu ON pgu.usesysid = ANY(pgg.grolist) WHERE pgg.groname = "
            <> (env.quote_literal d.name
                <> (" AND pgu.usename IN (" <> (build_user_string_array d.users true <> ");"))))
          [])
    modify (λ d. record d {
      id = if is_empty rows then "" else generate_group_membership_id d.name d.users;
    })

  unfoldable pub resource_redshift_group_membership_create : M env MembershipData (Unit {0})
  resource_redshift_group_membership_create = do
    d ← gets (λ d. d)
    if is_empty d.users
        then fail (plain "at least one user must be specified in \"users\"")
        else pure tt
    add_users_to_group d.name d.users
    resource_redshift_group_membership_read

  unfoldable pub resource_redshift_group_membership_delete : M env MembershipData (Unit {0})
  resource_redshift_group_membership_delete = do
    d ← gets (λ d. d)
    drop_users_from_group d.name d.users

  -- The branch of an update that changes the name of the group.
  unfoldable pub move_membership : M env MembershipData (Unit {0})
  move_membership = do
    wrapped "error deleting group membership while updating the resource"
        resource_redshift_group_membership_delete
    wrapped "error creating group membership while updating the resource"
        resource_redshift_group_membership_create

  -- The branch that changes the users.
  unfoldable pub change_members : M env MembershipData (Unit {0})
  change_members = do
    d ← gets (λ d. d)
    wrapped "error removing users from group while updating the resource"
        (drop_users_from_group d.name (calculate_user_names_diff d.old_users d.users).0)
    wrapped "error adding users to group while updating the resource"
        (add_users_to_group d.name (calculate_user_names_diff d.old_users d.users).1)
    resource_redshift_group_membership_read

  unfoldable pub resource_redshift_group_membership_update : M env MembershipData (Unit {0})
  resource_redshift_group_membership_update = do
    d ← gets (λ d. d)
    if is_empty d.users
        then fail (plain "at least one user must be specified in \"users\"")
        else pure tt
    if not (d.old_name == d.name) then move_membership else change_members
