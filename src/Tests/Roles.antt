-- ===== src/Tests/Roles.antt =====
-- Roles and their grants.
use terraform_provider_redsh.Base.{false, [], some, ◌≡◌, refl, arith}
use terraform_provider_redsh.Strings.{split}
use terraform_provider_redsh.Errors.{pq, is_ok}
use terraform_provider_redsh.External.{Env}
use terraform_provider_redsh.Effects.{World}
use terraform_provider_redsh.Samples.{
  sample, refusing, refusing-IsTransactional, refusing-FailsAfterError,
}
use terraform_provider_redsh.Helpers.{lower}
use terraform_provider_redsh.RoleGrant.{
  RoleGrantData, id_parts, generate_role_grant_id, resource_redshift_role_grant_delete,
}
use terraform_provider_redsh.RoleGrant.Id.{id_parts-generate_role_grant_id}
use terraform_provider_redsh.RoleGrant.Atomic.{resource_redshift_role_grant_delete_of_missing}
use terraform_provider_redsh.Role.{RoleData}
use terraform_provider_redsh.Helpers.{lower}
use terraform_provider_redsh.Tests.{fresh}

abbrev role_grant : RoleGrantData
role_grant = record {
  id = "role:reader:user:ann";
  role_name = "reader";
  grant_to_type = "user";
  grant_to_name = "ann";
}

abbrev role_grant_world : {env : Env} → env.State → World env RoleGrantData
role_grant_world s = fresh s role_grant

id_example :
    id_parts (generate_role_grant_id sample "Reader" "USER" "ann")
    ≡ some (lower sample "Reader", lower sample "USER", lower sample "ann")
id_example =
    id_parts-generate_role_grant_id sample "Reader" "USER" "ann" (λ c h. omega (arith, h))
      (omega arith) (omega arith) (omega arith)

missing_role_grant_example :
    (is_ok (resource_redshift_role_grant_delete refusing (role_grant_world [])).0 ≡ false)
    × ((resource_redshift_role_grant_delete refusing (role_grant_world [])).1.state ≡ [])
unfolding id_parts split
missing_role_grant_example =
    resource_redshift_role_grant_delete_of_missing refusing refusing-IsTransactional
      refusing-FailsAfterError (role_grant_world []) ([], []) "reader" "user" "ann"
      (pq "42704" "role \"r\" does not exist") refl refl refl refl

abbrev role : RoleData
role = record { id = "reader"; old_name = "reader"; name = "writer" }

abbrev role_world : {env : Env} → env.State → World env RoleData
role_world s = fresh s role
