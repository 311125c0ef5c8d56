-- ===== src/GroupMembership/Diff.antt =====
-- The two differences of an update of a membership, and what they do to the members of the group
-- (resource_redshift_group_membership.go).
use terraform_provider_redsh.Base.{
  String, true, false, not, ◌&&◌, ◌||◌, List, [], ◌∷◌, ◌++◌, keep, contains, contains-append,
  contains-keep, ◌≡◌, refl, arith, map,
}
use terraform_provider_redsh.External.{Env}
use terraform_provider_redsh.Helpers.{lower}
use terraform_provider_redsh.GroupMembership.{missing_from, calculate_user_names_diff}

contains-missing_from :
    (others names : List String) (a : String)
    → contains (missing_from others names) a ≡ (contains names a && not (contains others a))
unfolding missing_from
contains-missing_from others [] a = refl
contains-missing_from others (name ∷ names) a = ground (arith, contains-missing_from others names a)

module _ (env : Env) where
  -- The names have no upper-case letter.
  abbrev pub AreLower : List String → Type 0
  AreLower names = (b : String) → contains names b ≡ true → lower env b ≡ b

  map-lower : (names : List String) → AreLower names → map (lower env) names ≡ names
  map-lower [] h = refl
  map-lower (name ∷ names) h =
      rw (h name (ground arith), map-lower names (λ b m. h b (ground (arith, m)))) refl

  missing_from-AreLower :
      (others names : List String) → AreLower names → AreLower (missing_from others names)
  missing_from-AreLower others names h b m =
      h b (ground (arith, contains-missing_from others names b))

  contains-map-missing_from :
      (others names : List String) (a : String)
      → AreLower names
      → contains (map (lower env) (missing_from others names)) a
        ≡ (contains names a && not (contains others a))
  contains-map-missing_from others names a h =
      rw (map-lower (missing_from others names) (missing_from-AreLower others names h))
        (contains-missing_from others names a)

  pub contains-diff_dropped :
      (old new : List String) (a : String)
      → AreLower old
      → contains (map (lower env) (calculate_user_names_diff old new).0) a
        ≡ (contains old a && not (contains new a))
  unfolding calculate_user_names_diff
  contains-diff_dropped old new a h = contains-map-missing_from new old a h

  pub contains-diff_added :
      (old new : List String) (a : String)
      → AreLower new
      → contains (map (lower env) (calculate_user_names_diff old new).1) a
        ≡ (contains new a && not (contains old a))
  unfolding calculate_user_names_diff
  contains-diff_added old new a h = contains-map-missing_from old new a h

  -- The members of a group after the users of the first list were dropped and those of the second
  -- were added, by statements that name them in lower case.
  abbrev pub drop_then_add : List String → List String → List String → List String
  drop_then_add dropped added members =
      keep (λ a. not (contains (map (lower env) dropped) a)) members ++ map (lower env) added

  -- If the names of the old and of the new users are in lower case, and the old users are still
  -- members, then dropping the first difference and adding the second leaves in the group the new
  -- users, and those members that the old users did not name: users that the resource does not manage
  -- stay.
  pub calculate_user_names_diff_lem :
      (old new members : List String) (a : String)
      → AreLower old
      → AreLower new
      → (contains old a ≡ true → contains members a ≡ true)
      → contains
          (drop_then_add
            (calculate_user_names_diff old new).0
            (calculate_user_names_diff old new).1
            members)
          a
        ≡ (contains new a || (contains members a && not (contains old a)))
  calculate_user_names_diff_lem old new members a p q h =
      let diff = calculate_user_names_diff old new in
      ground (
        arith,
        contains-append (keep (λ b. not (contains (map (lower env) diff.0) b)) members)
            (map (lower env) diff.1) a,
        contains-keep (λ b. not (contains (map (lower env) diff.0) b)) members a,
        contains-diff_dropped old new a p,
        contains-diff_added old new a q,
      )

-- The update drops no user that it also adds, and touches none that both lists name.
calculate_user_names_diff_disjoint :
    (old new : List String) (a : String)
    → (contains (calculate_user_names_diff old new).0 a ≡ true
        → contains (calculate_user_names_diff old new).1 a ≡ false)
      × (contains old a ≡ true
          → contains new a ≡ true
          → (contains (calculate_user_names_diff old new).0 a ≡ false)
            × (contains (calculate_user_names_diff old new).1 a ≡ false))
unfolding calculate_user_names_diff
calculate_user_names_diff_disjoint old new a =
    ground (arith, contains-missing_from new old a, contains-missing_from old new a)
