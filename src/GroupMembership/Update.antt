-- ===== src/GroupMembership/Update.antt =====
-- What an update of a membership does to the members of the group, and what it sends
-- (resource_redshift_group_membership.go).
use terraform_provider_redsh.Base.{
  subst, true, false, not, ◌&&◌, ◌||◌, [], ◌∷◌, map, contains, refl, String, List, is_empty, ◌≡◌,
  ◌≢◌, arith, if◌then◌else◌,
}
use terraform_provider_redsh.Errors.{ok}
use terraform_provider_redsh.External.{Env}
use terraform_provider_redsh.Helpers.{lower}
use terraform_provider_redsh.GroupMembership.Diff.{
  AreLower, contains-diff_dropped, contains-diff_added,
}
use terraform_provider_redsh.Effects.{M, ◌>>◌, wrapped, World, db_exec, db_query}
use terraform_provider_redsh.GroupMembership.{
  MembershipData, calculate_user_names_diff, add_statement, drop_statement, add_users_to_group,
  drop_users_from_group, resource_redshift_group_membership_read,
  resource_redshift_group_membership_create, resource_redshift_group_membership_delete,
  move_membership, change_members, resource_redshift_group_membership_update,
}

-- `ALTER GROUP` as it is documented: the first statement takes its users out of the group, and the
-- second puts its users into it, when the database accepts them.
pub record AltersGroup (env : Env) (group : String) (dropped added : List String) : Type 0 where
  pub members : env.State → List String
  pub members-drop :
      (s : env.State) (a : String)
      → (env.exec_db (drop_statement env group dropped) s).0 ≡ ok tt
      → contains (members (env.exec_db (drop_statement env group dropped) s).1) a
        ≡ (contains (members s) a && not (contains (map (lower env) dropped) a))
  pub members-add :
      (s : env.State) (a : String)
      → (env.exec_db (add_statement env group added) s).0 ≡ ok tt
      → contains (members (env.exec_db (add_statement env group added) s).1) a
        ≡ (contains (members s) a || contains (map (lower env) added) a)

module _ (env : Env) where
  -- The state after a statement that is sent if there are users.
  abbrev sent_if : List String → String → env.State → env.State
  sent_if users q s = if is_empty users then s else (env.exec_db q s).1

  -- The statement is not sent, or the database accepts it.
  abbrev IsTaken : List String → String → env.State → Type 0
  IsTaken users q s = is_empty users ≡ false → (env.exec_db q s).0 ≡ ok tt

  -- The first of two actions that succeed together succeeds, and so does the second after it.
  bind-ok :
      (t : String) (m k : M env MembershipData (Unit {0})) (w : World env MembershipData)
      → ((wrapped t m >> k) w).0 ≡ ok tt
      → ((m w).0 ≡ ok tt) × ((k (m w).1).0 ≡ ok tt)
  bind-ok t m k w h = ground arith

  drop_users_from_group-ok :
      (n : String) (users : List String) (w : World env MembershipData)
      → (drop_users_from_group env n users w).0 ≡ ok tt
      → ((drop_users_from_group env n users w).1.state
          ≡ sent_if users (drop_statement env n users) w.state)
        × IsTaken users (drop_statement env n users) w.state
  unfolding drop_users_from_group db_exec
  drop_users_from_group-ok n [] w h = (refl, λ e. ground arith)
  drop_users_from_group-ok n (user ∷ users) w h = (refl, λ e. ground arith)

  add_users_to_group-ok :
      (n : String) (users : List String) (w : World env MembershipData)
      → (add_users_to_group env n users w).0 ≡ ok tt
      → IsTaken users (add_statement env n users) w.state
  unfolding add_users_to_group db_exec
  add_users_to_group-ok n [] w h e = ground arith
  add_users_to_group-ok n (user ∷ users) w h e = ground arith

  change_members-ok :
      (w : World env MembershipData)
      → w.d.old_name ≡ w.d.name
      → (resource_redshift_group_membership_update env w).0 ≡ ok tt
      → (change_members env w).0 ≡ ok tt
  unfolding resource_redshift_group_membership_update
  change_members-ok w e h = ground arith

  -- An update of the same group that succeeds has sent the two statements that have users.
  change_members_sends :
      (w : World env MembershipData)
      → w.d.old_name ≡ w.d.name
      → (resource_redshift_group_membership_update env w).0 ≡ ok tt
      → let dropped = (calculate_user_names_diff w.d.old_users w.d.users).0 in
        let added = (calculate_user_names_diff w.d.old_users w.d.users).1 in
        (resource_redshift_group_membership_update env w).1.state
        ≡ sent_if added
            (add_statement env w.d.name added)
            (sent_if dropped (drop_statement env w.d.name dropped) w.state)
  unfolding resource_redshift_group_membership_update change_members drop_users_from_group
      add_users_to_group db_exec resource_redshift_group_membership_read db_query
  change_members_sends w e h = ground arith

  change_members-IsTaken :
      (w : World env MembershipData)
      → (change_members env w).0 ≡ ok tt
      → let dropped = (calculate_user_names_diff w.d.old_users w.d.users).0 in
        let added = (calculate_user_names_diff w.d.old_users w.d.users).1 in
        IsTaken dropped (drop_statement env w.d.name dropped) w.state
        × IsTaken added
            (add_statement env w.d.name added)
            (sent_if dropped (drop_statement env w.d.name dropped) w.state)
  unfolding change_members
  change_members-IsTaken w h =
      let diff = calculate_user_names_diff w.d.old_users w.d.users in
      let drop = drop_users_from_group env w.d.name diff.0 in
      let add = add_users_to_group env w.d.name diff.1 in
      let first =
        bind-ok "error removing users from group while updating the resource" drop _ w h in
      let second =
        bind-ok "error adding users to group while updating the resource" add
          (resource_redshift_group_membership_read env) (drop w).1 first.1 in
      let dropped = drop_users_from_group-ok w.d.name diff.0 w first.0 in
      (
        dropped.1,
        subst (IsTaken diff.1 (add_statement env w.d.name diff.1)) dropped.0
            (add_users_to_group-ok w.d.name diff.1 (drop w).1 second.0),
      )

  module _ (members : env.State → List String) (q : String) (s : env.State) (a : String) where
    contains-sent_if_drop :
        (users : List String)
        → IsTaken users q s
        → ((env.exec_db q s).0 ≡ ok tt
            → contains (members (env.exec_db q s).1) a
              ≡ (contains (members s) a && not (contains (map (lower env) users) a)))
        → contains (members (sent_if users q s)) a
          ≡ (contains (members s) a && not (contains (map (lower env) users) a))
    contains-sent_if_drop [] t law = ground arith
    contains-sent_if_drop (user ∷ users) t law = law (t refl)

    contains-sent_if_add :
        (users : List String)
        → IsTaken users q s
        → ((env.exec_db q s).0 ≡ ok tt
            → contains (members (env.exec_db q s).1) a
              ≡ (contains (members s) a || contains (map (lower env) users) a))
        → contains (members (sent_if users q s)) a
          ≡ (contains (members s) a || contains (map (lower env) users) a)
    contains-sent_if_add [] t law = ground arith
    contains-sent_if_add (user ∷ users) t law = law (t refl)

  -- If the group stays the same, the names of the old and of the new users are in lower case, the
  -- old users are still members and ALTER GROUP does what its documentation says, then after an
  -- update that succeeds the members of the group are the new users, and those members that the old
  -- users did not name.
  pub update_members :
      (w : World env MembershipData)
      (g : AltersGroup env w.d.name
        (calculate_user_names_diff w.d.old_users w.d.users).0
        (calculate_user_names_diff w.d.old_users w.d.users).1)
      (a : String)
      → w.d.old_name ≡ w.d.name
      → AreLower env w.d.old_users
      → AreLower env w.d.users
      → (contains w.d.old_users a ≡ true → contains (g.members w.state) a ≡ true)
      → (resource_redshift_group_membership_update env w).0 ≡ ok tt
      → contains (g.members (resource_redshift_group_membership_update env w).1.state) a ≡ (
          contains w.d.users a
          || (contains (g.members w.state) a && not (contains w.d.old_users a)))
  update_members w g a e p q o h =
      let diff = calculate_user_names_diff w.d.old_users w.d.users in
      let drop = drop_statement env w.d.name diff.0 in
      let add = add_statement env w.d.name diff.1 in
      let s = sent_if diff.0 drop w.state in
      let taken = change_members-IsTaken w (change_members-ok w e h) in
      rw (change_members_sends w e h) (
        ground (
          arith,
          contains-sent_if_add g.members add s a diff.1 taken.1 (g.members-add s a),
          contains-sent_if_drop g.members drop w.state a diff.0 taken.0 (g.members-drop w.state a),
          contains-diff_dropped env w.d.old_users w.d.users a p,
          contains-diff_added env w.d.old_users w.d.users a q,
        ))

  -- An update that changes the group never mentions the group that the users were in: whatever its
  -- name was, the result and the state are the same. The users are dropped from the new group.
  pub update_moved :
      (w : World env MembershipData) (o : String)
      → w.d.old_name ≢ w.d.name
      → o ≢ w.d.name
      → let v = record w { d = record w.d { old_name = o } } in
        ((resource_redshift_group_membership_update env w).0
          ≡ (resource_redshift_group_membership_update env v).0)
        × ((resource_redshift_group_membership_update env w).1.state
            ≡ (resource_redshift_group_membership_update env v).1.state)
  unfolding resource_redshift_group_membership_update move_membership
      resource_redshift_group_membership_delete resource_redshift_group_membership_create
      drop_users_from_group add_users_to_group db_exec resource_redshift_group_membership_read
      db_query
  update_moved w o n p = ground arith
