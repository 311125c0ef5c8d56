-- ===== src/Grant.antt =====
-- redshift/resource_redshift_grant.go: the resource's data, its GRANT and REVOKE statements, its id.
pub mod Read
pub mod Handlers
pub mod Atomic
pub mod Statements
pub mod Drift
pub mod Success
pub mod Reported
use terraform_provider_redsh.Base.{
  String, ◌<>◌, Bool, true, false, not, ◌&&◌, ◌||◌, List, [], ◌∷◌, ◌++◌, is_empty, ◌==◌, string_dec,
  if◌then◌else◌,
}
use terraform_provider_redsh.Strings.{join, to_lower, to_upper}
use terraform_provider_redsh.External.{Env}
use terraform_provider_redsh.Helpers.{
  lower, upper, set_to_pg_ident_list, set_to_pg_ident_list_not_quoted,
}

-- The attributes of the resource: a text that is not set is empty, and a set is its list.
pub record GrantData : Type 0 where
  pub id : String
  pub user : String
  pub group : String
  pub role : String
  pub schema : String
  pub database : String
  pub object_type : String
  pub objects : List String
  pub privileges : List String

-- The second result of `d.GetOk` on a text attribute.
abbrev pub is_set : String → Bool
is_set s = not (s == "")

-- `getDatabaseName`, with the database of the provider's configuration.
unfoldable pub get_database_name : String → GrantData → String
get_database_name configured d = if is_set d.database then d.database else configured

module _ (env : Env) where
  unfoldable pub is_grant_to_public : GrantData → Bool
  is_grant_to_public d = if is_set d.group then lower env d.group == "public" else false

  -- `toWhomIndicator` and `entityName`, before the test for `PUBLIC`.
  unfoldable pub named_grantee : GrantData → String × String
  named_grantee d =
      if is_set d.group
      then ("GROUP", d.group)
      else if is_set d.user
      then ("", d.user)
      else if is_set d.role
      then ("ROLE", d.role)
      else ("", "")

  -- `toWhomIndicator` and `fromEntityName` (`toEntityName`), as they enter the statements.
  unfoldable pub grantee : GrantData → String × String
  grantee d =
      if is_grant_to_public d
      then ("", "PUBLIC")
      else ((named_grantee d).0, env.quote_identifier (named_grantee d).1)

  unfoldable pub create_grants_revoke_query : GrantData → String → String
  create_grants_revoke_query d database_name =
      let kind = upper env d.object_type in
      let from_whom = (grantee d).0 <> (" " <> (grantee d).1) in
      if kind == "DATABASE"
      then "REVOKE ALL PRIVILEGES ON DATABASE "
        <> (env.quote_identifier database_name <> (" FROM " <> from_whom))
      else if kind == "SCHEMA"
      then "REVOKE ALL PRIVILEGES ON SCHEMA "
        <> (env.quote_identifier d.schema <> (" FROM " <> from_whom))
      else if kind == "TABLE"
      then (if not (is_empty d.objects)
          then "REVOKE ALL PRIVILEGES ON "
            <> (kind
                <> (" "
                    <> (set_to_pg_ident_list env d.objects d.schema <> (" FROM " <> from_whom))))
          else "REVOKE ALL PRIVILEGES ON ALL "
            <> (kind
                <> ("S IN SCHEMA " <> (env.quote_identifier d.schema <> (" FROM " <> from_whom)))))
      else if kind == "FUNCTION" || kind == "PROCEDURE"
      then (if not (is_empty d.objects)
          then "REVOKE ALL PRIVILEGES ON "
            <> (kind
                <> (" "
                    <> (set_to_pg_ident_list_not_quoted d.objects d.schema
                        <> (" FROM " <> from_whom))))
          else "REVOKE ALL PRIVILEGES ON ALL "
            <> (kind
                <> ("S IN SCHEMA " <> (env.quote_identifier d.schema <> (" FROM " <> from_whom)))))
      else if kind == "LANGUAGE"
      then "REVOKE USAGE ON LANGUAGE "
        <> (set_to_pg_ident_list env d.objects "" <> (" FROM " <> from_whom))
      else ""

  unfoldable pub create_grants_query : GrantData → String → String
  create_grants_query d database_name =
      let kind = upper env d.object_type in
      let to_whom = (grantee d).0 <> (" " <> (grantee d).1) in
      let privileges = join "," d.privileges in
      if kind == "DATABASE"
      then "GRANT "
        <> (privileges
            <> (" ON DATABASE " <> (env.quote_identifier database_name <> (" TO " <> to_whom))))
      else if kind == "SCHEMA"
      then "GRANT "
        <> (privileges <> (" ON SCHEMA " <> (env.quote_identifier d.schema <> (" TO " <> to_whom))))
      else if kind == "TABLE" || kind == "LANGUAGE"
      then (if not (is_empty d.objects)
          then "GRANT "
            <> (privileges
                <> (" ON "
                    <> (kind
                        <> (" "
                            <> (set_to_pg_ident_list env d.objects d.schema
                                <> (" TO " <> to_whom))))))
          else "GRANT "
            <> (privileges
                <> (" ON ALL "
                    <> (kind
                        <> ("S IN SCHEMA "
                            <> (env.quote_identifier d.schema <> (" TO " <> to_whom)))))))
      else if kind == "FUNCTION" || kind == "PROCEDURE"
      then (if not (is_empty d.objects)
          then "GRANT "
            <> (privileges
                <> (" ON "
                    <> (kind
                        <> (" "
                            <> (set_to_pg_ident_list_not_quoted d.objects d.schema
                                <> (" TO " <> to_whom))))))
          else "GRANT "
            <> (privileges
                <> (" ON ALL "
                    <> (kind
                        <> ("S IN SCHEMA "
                            <> (env.quote_identifier d.schema <> (" TO " <> to_whom)))))))
      else ""

  unfoldable pub generate_grant_id : GrantData → String
  generate_grant_id d =
      let object_type = "ot:" <> d.object_type in
      let group_part =
        if is_set d.group
        then ("gn:" <> (if is_grant_to_public d then lower env d.group else d.group)) ∷ []
        else [] in
      let user_part = if is_set d.user then ("un:" <> d.user) ∷ [] else [] in
      let schema_part =
        if not (object_type == "ot:database") && not (object_type == "ot:language")
        then d.schema ∷ []
        else [] in
      join "_" (group_part ++ (user_part ++ (object_type ∷ (schema_part ++ d.objects))))
