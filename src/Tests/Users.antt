-- ===== src/Tests/Users.antt =====
-- Users and default privileges.
use terraform_provider_redsh.Base.{true, false, [], ◌∷◌, string_dec, ◌≡◌, refl}
use terraform_provider_redsh.Errors.{ok}
use terraform_provider_redsh.Effects.{World}
use terraform_provider_redsh.Effects.Finish.{AllOrNothing}
use terraform_provider_redsh.Samples.{sample, sample-IsTransactional, sample-HasIdleCommit}
use terraform_provider_redsh.User.{UserAttributes, UserData, permanent_username}
use terraform_provider_redsh.User.Handlers.{
  resource_redshift_user_update, resource_redshift_user_delete,
}
use terraform_provider_redsh.User.Timestamps.{
  validate_and_adjust_valid_until, is_data_api_datetime, is_correct_datetime, matches,
}
use terraform_provider_redsh.User.ValidUntil.{validate_and_adjust_valid_until_idem}
use terraform_provider_redsh.User.Atomic.{
  update_user_script, resource_redshift_user_update-AllOrNothing,
}
use terraform_provider_redsh.User.Delete.{
  delete_user_script, resource_redshift_user_delete-AllOrNothing,
}
use terraform_provider_redsh.Strings.Decimal.{pos, negsuc}
use terraform_provider_redsh.DefaultPrivileges.{
  DefaultPrivilegesData, resource_redshift_default_privileges_create,
}
use terraform_provider_redsh.DefaultPrivileges.Atomic.{
  defaults_script, resource_redshift_default_privileges_create-AllOrNothing,
}
use terraform_provider_redsh.User.Handlers.{resource_redshift_user_read_impl}
use terraform_provider_redsh.User.Success.{resource_redshift_user_update-Takes}
use terraform_provider_redsh.Effects.Sends.{session_after}
use terraform_provider_redsh.Samples.{sample-Takes}
use terraform_provider_redsh.Base.{some}
use terraform_provider_redsh.Strings.{double_char, to_lower}
use terraform_provider_redsh.User.{create_user_query, password_query, valid_until_query}
use terraform_provider_redsh.Helpers.Literals.{literals}
use terraform_provider_redsh.User.Literals.{literals-user_queries}
use terraform_provider_redsh.Tests.{fresh}

abbrev ann : UserAttributes
ann = record {
  name = "ann";
  password = "s3cret";
  valid_until = "infinity";
  create_database = false;
  connection_limit = negsuc 0;
  syslog_access = "RESTRICTED";
  superuser = false;
  session_timeout = pos 0;
}

abbrev user_data : UserData
user_data = record {
  id = "101";
  old = ann;
  new = record ann { name = "anna"; superuser = true; connection_limit = pos 5 };
}

abbrev user_world : World sample UserData
user_world = fresh [] user_data

update_user_example :
    AllOrNothing sample sample-IsTransactional
      (resource_redshift_user_update sample user_world)
      (λ _. update_user_script sample user_data)
      user_world
update_user_example =
    resource_redshift_user_update-AllOrNothing sample sample-IsTransactional user_world refl

delete_user_example :
    AllOrNothing sample sample-IsTransactional
      (resource_redshift_user_delete sample "IAM:admin" user_world)
      (delete_user_script sample user_data (permanent_username "IAM:admin"))
      user_world
unfolding string_dec
delete_user_example =
    resource_redshift_user_delete-AllOrNothing sample sample-IsTransactional "IAM:admin" user_world
      refl refl

valid_until_example :
    validate_and_adjust_valid_until "2030-01-02 03:04:05+00" ≡ ok "2030-01-02 03:04:05+00"
unfolding validate_and_adjust_valid_until is_data_api_datetime is_correct_datetime matches
    string_dec
valid_until_example =
    validate_and_adjust_valid_until_idem "2030-01-02 03:04:05" "2030-01-02 03:04:05+00" refl

abbrev default_privileges : DefaultPrivilegesData
default_privileges = record {
  id = "";
  schema = "sales";
  group_name = "staff";
  user_name = "";
  owner = "root";
  object_type = "table";
  privileges = "select" ∷ [];
}

abbrev defaults_world : World sample DefaultPrivilegesData
defaults_world = fresh [] default_privileges

create_defaults_example :
    AllOrNothing sample sample-IsTransactional
      (resource_redshift_default_privileges_create sample defaults_world)
      (λ _. defaults_script sample default_privileges)
      defaults_world
create_defaults_example =
    resource_redshift_default_privileges_create-AllOrNothing sample sample-IsTransactional
      sample-HasIdleCommit defaults_world refl

taken_user_example :
    resource_redshift_user_update sample user_world
    ≡ resource_redshift_user_read_impl sample
        (fresh (session_after sample (update_user_script sample user_data) ([], [])).1 user_data)
unfolding string_dec
taken_user_example =
    resource_redshift_user_update-Takes sample user_world
      (session_after sample (update_user_script sample user_data) ([], [])).1 refl
      (sample-Takes (update_user_script sample user_data) [])

-- A password that tries to end its literal.
abbrev hostile : UserAttributes
hostile = record ann { password = "x' CREATEUSER '\\"; valid_until = "2030-01-02" }

user_queries_example :
    (literals (create_user_query sample hostile) ≡ some ("x' CREATEUSER '\\" ∷ "2030-01-02" ∷ []))
    × ((literals (password_query sample hostile) ≡ some ("x' CREATEUSER '\\" ∷ []))
        × (literals (valid_until_query sample hostile) ≡ some ("2030-01-02" ∷ [])))
unfolding double_char string_dec to_lower
user_queries_example = literals-user_queries sample hostile refl refl
