-- ===== src/DatasharePrivilege.antt =====
-- redshift/resource_redshift_datashare_privilege.go
pub mod Consumers
use terraform_provider_redsh.Base.{
  String, ◌<>◌, Bool, true, false, not, ◌&&◌, ◌||◌, [], ◌∷◌, List, ◌++◌, ◌==◌, string_dec,
  if◌then◌else◌, Option, none, some,
}
use terraform_provider_redsh.Strings.{join}
use terraform_provider_redsh.Errors.{Error, plain, ok, err}
use terraform_provider_redsh.External.{Env, text, str, Query, sql}
use terraform_provider_redsh.Effects.{
  M, ◌>>=◌, ◌>>◌, continue, pure, fail, gets, modify, db_exec, db_query_row,
}
use terraform_provider_redsh.Helpers.{pq_quote_literal}

-- An attribute that is not set is the empty text.
pub record DatasharePrivilegeData : Type 0 where
  pub id : String
  pub share_name : String
  pub namespace : String
  pub account : String
  pub share_date : String

-- `GetOk` of a text
abbrev pub is_set : String → Bool
is_set s = not (s == "")

-- The `CustomizeDiff`: none, or the error.
unfoldable pub customize_diff : DatasharePrivilegeData → Option String
customize_diff d =
    if (is_set d.namespace && not (is_set d.account))
      || (is_set d.account && not (is_set d.namespace))
    then none
    else some "exactly one of namespace or account must be set"

unfoldable pub generate_datashare_privileges_id : DatasharePrivilegeData → String
generate_datashare_privileges_id d = join "." (
    d.share_name
    ∷ (if is_set d.namespace
        then d.namespace ∷ []
        else if is_set d.account
        then d.account ∷ []
        else []))

abbrev namespace_consumer : String → String → Query
namespace_consumer share_name namespace =
    sql
      "SELECT REPLACE(TO_CHAR(share_date, 'YYYY-MM-DD HH24:MI:SS'), ' ', 'T') || 'Z' FROM svv_datashare_consumers WHERE share_name = $1 AND consumer_namespace = $2"
      (str share_name ∷ str namespace ∷ [])

abbrev account_consumer : String → String → Query
account_consumer share_name account =
    sql
      "SELECT REPLACE(TO_CHAR(share_date, 'YYYY-MM-DD HH24:MI:SS'), ' ', 'T') || 'Z' FROM svv_datashare_consumers WHERE share_name = $1 AND consumer_account = $2"
      (str share_name ∷ str account ∷ [])

abbrev required : Error
required = plain "either namespace or account is required"

module _ (env : Env) where
  -- The statement of a create; there is none without a consumer.
  unfoldable pub grant_usage_query : DatasharePrivilegeData → Option String
  grant_usage_query d =
      let query = "GRANT USAGE ON DATASHARE " <> (env.quote_identifier d.share_name <> " TO ") in
      if is_set d.namespace
      then some (query <> (" NAMESPACE '" <> (pq_quote_literal d.namespace <> "'")))
      else if is_set d.account
      then some (query <> (" ACCOUNT '" <> (pq_quote_literal d.account <> "'")))
      else none

  -- The statement of a delete.
  unfoldable pub revoke_usage_query : DatasharePrivilegeData → String
  revoke_usage_query d =
      let query = "REVOKE USAGE ON DATASHARE " <> (env.quote_identifier d.share_name <> " FROM") in
      if is_set d.namespace
      then query <> (" NAMESPACE '" <> (pq_quote_literal d.namespace <> "'"))
      else if is_set d.account
      then query <> (" ACCOUNT '" <> (d.account <> "'"))
      else query

  unfoldable namespace_read : String → String → M env DatasharePrivilegeData (Unit {0})
  namespace_read share_name namespace = do
    row ← db_query_row (text ∷ []) (namespace_consumer share_name namespace)
    modify (λ d. record d { share_date = row.0 })

  unfoldable account_read : String → String → M env DatasharePrivilegeData (Unit {0})
  account_read share_name account = do
    row ← db_query_row (text ∷ []) (account_consumer share_name account)
    modify (λ d. record d { share_date = row.0 })

  unfoldable resource_redshift_datashare_privilege_read : M env DatasharePrivilegeData (Unit {0})
  resource_redshift_datashare_privilege_read = do
    d ← gets (λ d. d)
    if is_set d.namespace
        then namespace_read d.share_name d.namespace
        else if is_set d.account
        then account_read d.share_name d.account
        else fail required

  unfoldable send_grant : Option String → M env DatasharePrivilegeData (Unit {0})
  send_grant none = fail required
  send_grant (some query) = db_exec query

  unfoldable resource_redshift_datashare_privilege_create : M env DatasharePrivilegeData (Unit {0})
  resource_redshift_datashare_privilege_create = do
    d ← gets (λ d. d)
    send_grant (grant_usage_query d)
    modify (λ d. record d { id = generate_datashare_privileges_id d })
    resource_redshift_datashare_privilege_read

  unfoldable resource_redshift_datashare_privilege_delete : M env DatasharePrivilegeData (Unit {0})
  resource_redshift_datashare_privilege_delete = do
    d ← gets (λ d. d)
    db_exec (revoke_usage_query d)
