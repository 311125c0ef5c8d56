-- ===== src/Tests/Groups.antt =====
-- Groups and their members.
use terraform_provider_redsh.Base.{
  String, ◌==◌, if◌then◌else◌, keep, contains-keep, not, ◌&&◌, ◌||◌, [], ◌∷◌, contains, string_dec,
  ◌≡◌, refl, arith,
}
use terraform_provider_redsh.Errors.{ok, err, pq}
use terraform_provider_redsh.External.{Env}
use terraform_provider_redsh.Helpers.{lower}
use terraform_provider_redsh.Strings.{to_lower, double_char, join}
use terraform_provider_redsh.Effects.{World, db_exec, db_query}
use terraform_provider_redsh.Effects.Finish.{AllOrNothing}
use terraform_provider_redsh.Samples.{sample, sample-IsTransactional}
use terraform_provider_redsh.Group.{
  GroupData, resource_redshift_group_update, resource_redshift_group_delete,
}
use terraform_provider_redsh.Group.Scripts.{update_group_script, delete_group_script}
use terraform_provider_redsh.Group.Atomic.{
  resource_redshift_group_update-AllOrNothing, resource_redshift_group_delete-AllOrNothing,
}
use terraform_provider_redsh.GroupMembership.{
  MembershipData, build_user_string_array, calculate_user_names_diff, missing_from, change_members,
  drop_users_from_group, add_users_to_group, resource_redshift_group_membership_read, add_statement,
  drop_statement, resource_redshift_group_membership_update,
}
use terraform_provider_redsh.GroupMembership.Diff.{
  AreLower, drop_then_add, calculate_user_names_diff_lem,
}
use terraform_provider_redsh.GroupMembership.Update.{AltersGroup, update_members, update_moved}
use terraform_provider_redsh.Tests.{fresh, differ}

abbrev staff : GroupData
staff = record {
  id = "7";
  old_name = "staff";
  name = "crew";
  old_users = "ann" ∷ "bob" ∷ [];
  users = "bob" ∷ "cid" ∷ [];
}

abbrev group_world : World sample GroupData
group_world = fresh [] staff

update_group_example :
    AllOrNothing sample sample-IsTransactional
      (resource_redshift_group_update sample group_world)
      (update_group_script sample staff)
      group_world
update_group_example =
    resource_redshift_group_update-AllOrNothing sample sample-IsTransactional group_world refl

delete_group_example :
    AllOrNothing sample sample-IsTransactional
      (resource_redshift_group_delete sample group_world)
      (delete_group_script sample staff)
      group_world
delete_group_example =
    resource_redshift_group_delete-AllOrNothing sample sample-IsTransactional group_world refl

ann_lower : lower sample "ann" ≡ "ann"
unfolding to_lower
ann_lower = refl

bob_lower : lower sample "bob" ≡ "bob"
unfolding to_lower
bob_lower = refl

lower_of_one : (s : String) → lower sample s ≡ s → AreLower sample (s ∷ [])
lower_of_one s h b m = let e : b ≡ s = ground arith in rw e h

diff_example :
    contains
      (drop_then_add sample
        (calculate_user_names_diff ("ann" ∷ []) ("bob" ∷ [])).0
        (calculate_user_names_diff ("ann" ∷ []) ("bob" ∷ [])).1
        ("ann" ∷ "dan" ∷ []))
      "dan"
    ≡ (contains ("bob" ∷ []) "dan"
        || (contains ("ann" ∷ "dan" ∷ []) "dan" && not (contains ("ann" ∷ []) "dan")))
diff_example =
    calculate_user_names_diff_lem sample ("ann" ∷ []) ("bob" ∷ []) ("ann" ∷ "dan" ∷ []) "dan"
      (lower_of_one "ann" ann_lower) (lower_of_one "bob" bob_lower) (λ h. ground arith)

abbrev members : MembershipData
members = record {
  id = "crew_ann";
  old_name = "crew";
  name = "crew";
  old_users = "ann" ∷ [];
  users = "bob" ∷ [];
}

-- A database that knows the members of the group, and the two statements of the update.
abbrev drop_ann : String
drop_ann = drop_statement sample "crew" ("ann" ∷ [])

abbrev add_bob : String
add_bob = add_statement sample "crew" ("bob" ∷ [])

abbrev crew : Env
crew = record sample {
  exec_db = λ q s.
      if q == drop_ann
      then (ok tt, keep (λ b. not (contains ("ann" ∷ []) b)) s)
      else if q == add_bob
      then (ok tt, "bob" ∷ s)
      else (err (pq "42601" "syntax error"), s);
}

crew_statements :
    AltersGroup crew "crew"
      (calculate_user_names_diff ("ann" ∷ []) ("bob" ∷ [])).0
      (calculate_user_names_diff ("ann" ∷ []) ("bob" ∷ [])).1
unfolding calculate_user_names_diff missing_from string_dec build_user_string_array to_lower
    double_char join
crew_statements = record {
  members = λ s. s;
  members-drop = λ s a h. ground (arith, contains-keep (λ b. not (contains ("ann" ∷ []) b)) s a);
  members-add = λ s a h. ground arith;
}

abbrev member_world : World crew MembershipData
member_world = fresh ("ann" ∷ "dan" ∷ []) members

member_run : (resource_redshift_group_membership_update crew member_world).0 ≡ ok tt
unfolding resource_redshift_group_membership_update change_members drop_users_from_group
    add_users_to_group resource_redshift_group_membership_read db_exec db_query
    calculate_user_names_diff missing_from string_dec build_user_string_array to_lower double_char
    join
member_run = refl

update_members_example :
    contains (resource_redshift_group_membership_update crew member_world).1.state "ann" ≡ (
      contains ("bob" ∷ []) "ann"
      || (contains ("ann" ∷ "dan" ∷ []) "ann" && not (contains ("ann" ∷ []) "ann")))
unfolding string_dec crew_statements
update_members_example =
    update_members crew member_world crew_statements "ann" refl (lower_of_one "ann" ann_lower)
      (lower_of_one "bob" bob_lower) (λ h. refl) member_run

abbrev moved_world : World sample MembershipData
moved_world = fresh [] (record members { old_name = "staff" })

update_moved_example :
    ((resource_redshift_group_membership_update sample moved_world).0
      ≡ (resource_redshift_group_membership_update sample
          (fresh [] (record members { old_name = "other" }))).0)
    × ((resource_redshift_group_membership_update sample moved_world).1.state
        ≡ (resource_redshift_group_membership_update sample
            (fresh [] (record members { old_name = "other" }))).1.state)
unfolding string_dec
update_moved_example = update_moved sample moved_world "other" (differ refl) (differ refl)
