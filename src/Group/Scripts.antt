-- ===== src/Group/Scripts.antt =====
-- What the parts of a group's transactions send (resource_redshift_group.go).
use terraform_provider_redsh.Base.{
  String, List, [], ◌∷◌, ◌++◌, some, map, keep, is_empty, ◌==◌, if◌then◌else◌, ◌≡◌, refl, arith,
  inl, inr, Bool-cases,
}
use terraform_provider_redsh.Errors.{ok, is_ok, first_row, Result-cases}
use terraform_provider_redsh.External.{Env, IsTransactional, text, number}
use terraform_provider_redsh.Effects.{World, tx_exec, tx_query_row}
use terraform_provider_redsh.Effects.Script.{Ran}
use terraform_provider_redsh.Effects.Atomic.{
  Runs, Runs-exec, Runs-none, Runs-fail, Runs-wrapping, Runs-bind, Runs-unless,
}
use terraform_provider_redsh.Effects.Keeps.{
  Keeps, Keeps-refl, Keeps-none, Keeps-db_query, Keeps-db_query_row, Keeps-bind, Keeps-if,
}
use terraform_provider_redsh.Cleanup.{cleaned_schemas, rows_or_none, rows_script}
use terraform_provider_redsh.Group.{
  GroupData, scan_members, set_group, finish_read, resource_redshift_group_read_impl, clean_schema,
  drop_group_query, rename_group_query, set_group_name, user_by_name, check_if_user_exists,
  quote_existing, drop_users_query, add_users_query, drop_existing, drop_removed, add_added,
  set_users_names,
}

module _ (env : Env) where
  -- What a delete sends: for each schema that the transaction shows, and then the group.
  abbrev pub delete_group_script : GroupData → env.Session → List String
  delete_group_script d x =
      rows_script (clean_schema env d.name) (rows_or_none (env.query (text ∷ []) cleaned_schemas x))
      ++ (drop_group_query env d.name ∷ [])

  abbrev rename_script : GroupData → List String
  rename_script d =
      if d.old_name == d.name then [] else rename_group_query env d.old_name d.name ∷ []

  -- The users that a session still finds.
  abbrev existing : env.Session → List String → List String
  existing x = keep (λ name. is_ok (first_row (env.query (number ∷ []) (user_by_name env name) x)))

  abbrev drop_script : String → List String → List String
  drop_script group_name names_safe =
      if is_empty names_safe then [] else drop_users_query env group_name names_safe ∷ []

  abbrev pub add_script : String → List String → List String
  add_script group_name added =
      if is_empty added
      then []
      else add_users_query env group_name (map env.quote_identifier added) ∷ []

  abbrev users_script : GroupData → env.Session → List String
  users_script d x =
      if env.set_equal d.old_users d.users
      then []
      else drop_script d.name
          (map env.quote_identifier (existing x (env.difference d.old_users d.users)))
        ++ add_script d.name (env.difference d.users d.old_users)

  -- The session after the renaming, in which the users are looked up.
  abbrev pub renamed : GroupData → env.Session → env.Session
  renamed d x =
      if d.old_name == d.name then x else (env.exec (rename_group_query env d.old_name d.name) x).1

  -- What an update sends: the new name, the users that go and still exist, and the new users.
  abbrev pub update_group_script : GroupData → env.Session → List String
  update_group_script d x = rename_script d ++ users_script d (renamed d x)

  Keeps-finish_read :
      (found : String × List String) (w : World env GroupData)
      → Keeps env (finish_read env found w) w
  unfolding finish_read set_group
  Keeps-finish_read (name, users) w =
      Keeps-if (is_empty users) _ _ w
        (Keeps-bind _ _ w (Keeps-db_query_row _ _ w) (λ row. Keeps-none _ _ _)) (Keeps-none _ _ w)

  pub Keeps-group_read :
      (w : World env GroupData) → Keeps env (resource_redshift_group_read_impl env w) w
  unfolding resource_redshift_group_read_impl
  Keeps-group_read w = Keeps-bind _ _ w (Keeps-db_query _ _ w) (λ rows.
      Keeps-bind (scan_members rows "" [], _) (finish_read env) _ (Keeps-refl _ _)
        (λ found. Keeps-finish_read found _))

module _ (env : Env) (T : IsTransactional env) where
  quote_existing_world :
      (names : List String) (w : World env GroupData) → (quote_existing env names w).1 ≡ w
  unfolding quote_existing check_if_user_exists tx_query_row
  quote_existing_world [] w = refl
  quote_existing_world (name ∷ names) w = ground (arith, quote_existing_world names w)

  quote_existing_lem :
      (names : List String) (w : World env GroupData) (x : env.Session)
      → w.tx ≡ some x
      → (l : List String) → (quote_existing env names w).0 ≡ ok l
      → l ≡ map env.quote_identifier (existing env x names)
  unfolding quote_existing check_if_user_exists tx_query_row
  quote_existing_lem [] w x h l e = cc
  quote_existing_lem (name ∷ names) w x h l e = elim (Result-cases (quote_existing env names w).0) [
    | inl (k, f) ↦ ground (arith, quote_existing_lem names w x h k f)
    | inr (f, g) ↦ ground arith
  ]

  Runs-drop_existing :
      (group_name : String) (l : List String) (w : World env GroupData) (x : env.Session)
      → w.tx ≡ some x
      → Runs env T (drop_existing env group_name l w) (drop_script env group_name l) w x
  unfolding drop_existing
  Runs-drop_existing group_name l w x h =
      Runs-unless env T (is_empty l) (tx_exec (drop_users_query env group_name l)) _ w x h
        (Runs-exec env T (drop_users_query env group_name l) w x h)

  Runs-drop_removed :
      (group_name : String) (removed : List String) (w : World env GroupData) (x : env.Session)
      → w.tx ≡ some x
      → Runs env T
          (drop_removed env group_name removed w)
          (drop_script env group_name (map env.quote_identifier (existing env x removed)))
          w
          x
  unfolding drop_removed
  Runs-drop_removed group_name [] w x h = Runs-none env T (ok tt) w.d w x h
  Runs-drop_removed group_name (name ∷ names) w x h =
      let removed = name ∷ names in
      let l = map env.quote_identifier (existing env x removed) in
      let same = quote_existing_world removed w in
      let looked_up : Runs env T (quote_existing env removed w) [] w x = record {
        after = x;
        is_open = rw same h;
        same = rw same refl;
        based = refl;
        ran = λ _. refl;
      } in
      Runs-bind env T (quote_existing env removed w) (drop_existing env group_name) []
        (drop_script env group_name l) w x looked_up
        (λ found e.
          rw (quote_existing_lem removed w x h found e, quote_existing_world removed w)
            (Runs-drop_existing group_name l w x h))

  Runs-add_added :
      (group_name : String) (added : List String) (w : World env GroupData) (x : env.Session)
      → w.tx ≡ some x
      → Runs env T (add_added env group_name added w) (add_script env group_name added) w x
  unfolding add_added
  Runs-add_added group_name added w x h =
      let q = add_users_query env group_name (map env.quote_identifier added) in
      Runs-unless env T (is_empty added) (tx_exec q) _ w x h (Runs-exec env T q w x h)

  pub Runs-set_users_names :
      (d : GroupData) (w : World env GroupData) (x : env.Session)
      → w.tx ≡ some x
      → Runs env T (set_users_names env d w) (users_script env d x) w x
  unfolding set_users_names
  Runs-set_users_names d w x h =
      let removed = env.difference d.old_users d.users in
      let dropped = Runs-drop_removed d.name removed w x h in
      Runs-unless env T (env.set_equal d.old_users d.users) _ _ w x h (
        Runs-bind env T (drop_removed env d.name removed w) _ _ _ w x dropped (λ _ _.
          Runs-add_added d.name (env.difference d.users d.old_users)
            (drop_removed env d.name removed w).1 dropped.after dropped.is_open))

  pub Runs-set_group_name :
      (d : GroupData) (w : World env GroupData) (x : env.Session)
      → w.tx ≡ some x
      → Runs env T (set_group_name env d w) (rename_script env d) w x
  unfolding set_group_name
  Runs-set_group_name d w x h =
      let q = rename_group_query env d.old_name d.name in
      Runs-unless env T (d.old_name == d.name) _ _ w x h (elim (Bool-cases (d.name == "")) [
        | inl empty ↦ rw empty (Runs-fail env T _ _ w x h)
        | inr named ↦ rw named (
            Runs-wrapping env T "error updating Group NAME" (tx_exec q w) _ w x
              (Runs-exec env T q w x h))
      ])

  pub renamed_of_Ran :
      (d : GroupData) (x y : env.Session) → Ran env x (rename_script env d) y → renamed env d x ≡ y
  renamed_of_Ran d x y r = elim (Bool-cases (d.old_name == d.name)) [
    | inl same ↦ rw same (rw same at r)
    | inr other ↦ rw other (rw other at r).1
  ]
