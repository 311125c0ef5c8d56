-- ===== src/Tests/Datashares.antt =====
-- Datashares and their privileges.
use terraform_provider_redsh.Base.{
  String, Bool, true, false, [], ◌∷◌, ◌++◌, some, ◌==◌, string_dec, ◌<>◌, contains, ◌≡◌, refl,
}
use terraform_provider_redsh.Errors.{pq, is_ok}
use terraform_provider_redsh.External.{Env, text}
use terraform_provider_redsh.Effects.{World, tx_query}
use terraform_provider_redsh.Effects.Finish.{AllOrNothing}
use terraform_provider_redsh.Samples.{
  sample, sample-HasSets, aborting, aborting-IsTransactional, aborting-HasIdleCommit,
  aborting-FailsAfterError, aborting-AbortsAfterError,
}
use terraform_provider_redsh.Strings.{double_char}
use terraform_provider_redsh.Validation.{matches_all, is_uuid, is_aws_account_id}
use terraform_provider_redsh.Cleanup.{rows_or_none}
use terraform_provider_redsh.Datashare.{
  DatashareData, schemas_of_share, add_schema, read_datashare_schemas, alter_query, collect_schemas,
}
use terraform_provider_redsh.Datashare.Handlers.{resource_redshift_datashare_update}
use terraform_provider_redsh.Datashare.Sends.{
  owner_script, publicly_accessible_script, schemas_script,
}
use terraform_provider_redsh.Datashare.Atomic.{
  add_schema_of_failed, resource_redshift_datashare_update-AllOrNothing,
}
use terraform_provider_redsh.Datashare.Read.{row_names, contains-read_datashare_schemas}
use terraform_provider_redsh.DatasharePrivilege.{
  DatasharePrivilegeData, generate_datashare_privileges_id, grant_usage_query, revoke_usage_query,
  customize_diff,
}
use terraform_provider_redsh.DatasharePrivilege.Consumers.{
  IsPlanned, consumer, consumer_clause, usage_queries_agree,
  generate_datashare_privileges_id-injective,
}
use terraform_provider_redsh.Tests.{fresh}

abbrev share : DatashareData
share = record {
  id = "1";
  name = "sales";
  old_owner = "ann";
  owner = "bob";
  old_publicly_accessible = false;
  publicly_accessible = true;
  old_schemas = "old" ∷ [];
  schemas = "new" ∷ [];
  producer_account = "";
  producer_namespace = "";
  created = "";
}

-- A database in which the share has the schema `new` already.
abbrev refused : String → Bool
refused q = q == "ALTER DATASHARE \"sales\" ADD SCHEMA \"new\""

abbrev store : Env
store = aborting refused

abbrev share_world : World store DatashareData
share_world = fresh [] share

update_datashare_example :
    AllOrNothing store
      (aborting-IsTransactional refused)
      (resource_redshift_datashare_update store share_world)
      (λ _.
        owner_script store share
        ++ (publicly_accessible_script store share ++ schemas_script store share))
      share_world
update_datashare_example =
    resource_redshift_datashare_update-AllOrNothing store (aborting-IsTransactional refused)
      (aborting-HasIdleCommit refused) (aborting-FailsAfterError refused)
      (aborting-AbortsAfterError refused) share_world refl

add_schema_example :
    is_ok (add_schema store "sales" "new" (record share_world { tx = some ([], ([], false)) })).0
    ≡ false
unfolding string_dec alter_query double_char
add_schema_example =
    add_schema_of_failed store (aborting-FailsAfterError refused)
      (aborting-AbortsAfterError refused) "sales" "new"
      (record share_world { tx = some ([], ([], false)) }) ([], ([], false))
      (pq "42P06" "schema is already added") refl refl

read_schemas_example :
    contains
      (read_datashare_schemas sample "sales"
        (record (fresh [] share) { tx = some ([], []) })).1.d.schemas
      "t"
    ≡ contains
        (row_names (rows_or_none (sample.query (text ∷ []) (schemas_of_share "sales") ([], []))))
        "t"
unfolding read_datashare_schemas collect_schemas tx_query
read_schemas_example =
    contains-read_datashare_schemas sample sample-HasSets "sales"
      (record (fresh [] share) { tx = some ([], []) }) ([], []) "t" refl refl

abbrev to_account : DatasharePrivilegeData
to_account = record {
  id = "";
  share_name = "sales.eu";
  namespace = "";
  account = "123456789012";
  share_date = "";
}

abbrev to_namespace : DatasharePrivilegeData
to_namespace = record {
  id = "";
  share_name = "sales.eu";
  namespace = "0a1b2c3d-0a1b-0a1b-0a1b-0a1b2c3d4e5f";
  account = "";
  share_date = "";
}

to_account-IsPlanned : IsPlanned to_account
unfolding string_dec customize_diff is_aws_account_id matches_all
to_account-IsPlanned = record { one = refl; account = λ h. refl; namespace = λ h. cc }

to_namespace-IsPlanned : IsPlanned to_namespace
unfolding string_dec customize_diff is_uuid matches_all
to_namespace-IsPlanned = record { one = refl; account = λ h. cc; namespace = λ h. refl }

usage_example :
    (grant_usage_query sample to_account
      ≡ some (
          ("GRANT USAGE ON DATASHARE " <> ("\"sales.eu\"" <> " TO "))
          <> consumer_clause to_account))
    × (revoke_usage_query sample to_account
        ≡ ("REVOKE USAGE ON DATASHARE " <> ("\"sales.eu\"" <> " FROM"))
          <> consumer_clause to_account)
unfolding double_char
usage_example = usage_queries_agree sample to_account to_account-IsPlanned

privilege_id_example :
    (to_namespace.share_name ≡ "sales.eu")
    × (consumer to_namespace ≡ consumer (record to_namespace { id = "7" }))
unfolding customize_diff generate_datashare_privileges_id
privilege_id_example =
    generate_datashare_privileges_id-injective to_namespace (record to_namespace { id = "7" })
      to_namespace-IsPlanned
      (record {
        one = to_namespace-IsPlanned.one;
        account = to_namespace-IsPlanned.account;
        namespace = to_namespace-IsPlanned.namespace;
      })
      refl
