-- ===== src/User.antt =====
-- redshift/resource_redshift_user.go: the attributes, and the statements that the handlers send.
pub mod Literals
pub mod Diff
pub mod Timestamps
pub mod Handlers
pub mod Atomic
pub mod Delete
pub mod ValidUntil
pub mod Success
use Prim.Native.String
use terraform_provider_redsh.Base.{
  code, String, ◌<>◌, Bool, true, false, not, ◌&&◌, ◌||◌, List, [], ◌∷◌, ◌++◌, Option, none, some,
  ◌==◌, string_dec, if◌then◌else◌, nat_eq,
}
use terraform_provider_redsh.Strings.{join}
use terraform_provider_redsh.Strings.Decimal.{ℤ, pos, show_int, int_eq}
use terraform_provider_redsh.External.{Env}
use terraform_provider_redsh.Helpers.{lower, pq_quote_literal}

pub record UserAttributes : Type 0 where
  pub name : String
  pub password : String
  pub valid_until : String
  pub create_database : Bool
  pub connection_limit : ℤ
  pub syslog_access : String
  pub superuser : Bool
  pub session_timeout : ℤ

-- `old` is what the state has, and `new` what the configuration has.
pub record UserData : Type 0 where
  pub id : String
  pub old : UserAttributes
  pub new : UserAttributes

abbrev after_prefix : String → String → Option String
after_prefix String.[] s = some s
after_prefix (String.◌∷◌ c p) String.[] = none
after_prefix (String.◌∷◌ c p) (String.◌∷◌ d s) =
    if nat_eq (code c) (code d) then after_prefix p s else none

-- The text without what `^(?:IAMA?:)` matches.
unfoldable pub permanent_username : String → String
permanent_username username = elim (after_prefix "IAM:" username) [
  | some rest ↦ rest
  | none ↦ elim (after_prefix "IAMA:" username) [ some rest ↦ rest | none ↦ username ]
]

unfoldable pub get_default_syslog_access : UserAttributes → String
get_default_syslog_access a = if a.superuser then "UNRESTRICTED" else "RESTRICTED"

unfoldable pub syslog_access_computed : UserAttributes → String
syslog_access_computed a =
    if a.superuser
    then "UNRESTRICTED"
    else if a.syslog_access == ""
    then "RESTRICTED"
    else a.syslog_access

module _ (env : Env) where
  -- The loops over the options of a CREATE USER, option by option.
  unfoldable pub string_options : UserAttributes → List String
  string_options a =
      ((if a.password == ""
          then "PASSWORD DISABLE"
          else "PASSWORD '" <> (pq_quote_literal a.password <> "'"))
        ∷ [])
      ++ ((if a.valid_until == ""
            then []
            else if lower env a.valid_until == "infinity"
            then "VALID UNTIL 'infinity'" ∷ []
            else ("VALID UNTIL '" <> (pq_quote_literal a.valid_until <> "'")) ∷ [])
          ++ ((if a.syslog_access == ""
                then (if a.superuser
                    then "SYSLOG ACCESS UNRESTRICTED"
                    else "SYSLOG ACCESS RESTRICTED")
                else "SYSLOG ACCESS " <> a.syslog_access)
              ∷ []))

  unfoldable pub int_options : UserAttributes → List String
  int_options a =
      ("CONNECTION LIMIT " <> show_int a.connection_limit)
      ∷ (if int_eq a.session_timeout (pos 0)
          then []
          else ("SESSION TIMEOUT " <> show_int a.session_timeout) ∷ [])

  unfoldable pub bool_options : UserAttributes → List String
  bool_options a =
      (if a.superuser then "CREATEUSER" else "NOCREATEUSER")
      ∷ (if a.create_database then "CREATEDB" else "NOCREATEDB")
      ∷ []

  unfoldable pub create_user_query : UserAttributes → String
  create_user_query a =
      "CREATE USER "
      <> (env.quote_identifier a.name
          <> (" WITH " <> join " " (string_options a ++ (int_options a ++ bool_options a))))

  abbrev alter_user : String → String → String
  alter_user name change = "ALTER USER " <> (env.quote_identifier name <> (" " <> change))

  unfoldable pub rename_user_query : String → String → String
  rename_user_query old_value new_value =
      alter_user old_value ("RENAME TO " <> env.quote_identifier new_value)

  unfoldable pub password_query : UserAttributes → String
  password_query a = alter_user a.name (
      if a.password == ""
      then "PASSWORD DISABLE"
      else "PASSWORD '" <> (pq_quote_literal a.password <> "'"))

  unfoldable pub connection_limit_query : UserAttributes → String
  connection_limit_query a = alter_user a.name ("CONNECTION LIMIT " <> show_int a.connection_limit)

  unfoldable pub session_timeout_query : UserAttributes → String
  session_timeout_query a = alter_user a.name (
      if int_eq a.session_timeout (pos 0)
      then "RESET SESSION TIMEOUT"
      else "SESSION TIMEOUT " <> show_int a.session_timeout)

  unfoldable pub create_database_query : UserAttributes → String
  create_database_query a =
      alter_user a.name ("WITH " <> (if a.create_database then "CREATEDB" else "NOCREATEDB"))

  unfoldable pub superuser_query : UserAttributes → String
  superuser_query a =
      alter_user a.name ("WITH " <> (if a.superuser then "CREATEUSER" else "NOCREATEUSER"))

  unfoldable pub valid_until_query : UserAttributes → String
  valid_until_query a = alter_user a.name (
      "VALID UNTIL '"
      <> (pq_quote_literal
            (if lower env a.valid_until == "infinity" then "infinity" else a.valid_until)
          <> "'"))

  unfoldable pub syslog_access_query : UserAttributes → String
  syslog_access_query a = alter_user a.name ("WITH SYSLOG ACCESS " <> syslog_access_computed a)

  abbrev pub clean_schema : String → String → List String
  clean_schema user_name schema =
      ("REVOKE ALL ON ALL TABLES IN SCHEMA "
        <> (env.quote_identifier schema <> (" FROM " <> env.quote_identifier user_name)))
      ∷ ("ALTER DEFAULT PRIVILEGES IN SCHEMA "
          <> (env.quote_identifier schema
              <> (" REVOKE ALL ON TABLES FROM " <> env.quote_identifier user_name)))
      ∷ []

  unfoldable pub drop_user_query : String → String
  drop_user_query user_name = "DROP USER " <> env.quote_identifier user_name
