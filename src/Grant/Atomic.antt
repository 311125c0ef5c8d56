-- ===== src/Grant/Atomic.antt =====
-- What the create and the delete of resource_redshift_grant.go send.
use terraform_provider_redsh.Base.{
  String, ◌||◌, List, [], ◌∷◌, none, some, is_empty, ◌==◌, if◌then◌else◌, ◌≡◌, refl, arith,
  Bool-cases, inl, inr,
}
use terraform_provider_redsh.Errors.{Result, ok, err}
use terraform_provider_redsh.External.{Env, IsTransactional, text, Column, Cells}
use terraform_provider_redsh.Effects.{World, pure, modify}
use terraform_provider_redsh.Effects.Atomic.{Runs, Runs-exec, Runs-none, tx_exec_d}
use terraform_provider_redsh.Effects.Keeps.{
  Keeps, Keeps-none, Keeps-refl, Keeps-db_query, Keeps-db_query_row, Keeps-bind, Keeps-if,
}
use terraform_provider_redsh.Effects.Finish.{
  Finishes, Finishes-bind, Finishes-last, Finishes-commit, wrapped-IsCommit, AllOrNothing,
  AllOrNothing-transaction, AllOrNothing-check,
}
use terraform_provider_redsh.Grant.{
  GrantData, is_set, get_database_name, create_grants_query, create_grants_revoke_query,
  generate_grant_id,
}
use terraform_provider_redsh.Helpers.{strip_arguments_from_callables_definitions}
use terraform_provider_redsh.Grant.Read.{
  read_database_grants, read_schema_grants, set_privileges, callable_rows, update_if_different,
  compare_rows, read_table_grants, read_language_grants, read_callable_grants, read_by_type,
  resource_redshift_grant_read_impl,
}
use terraform_provider_redsh.Grant.Handlers.{
  revoke_grants, create_grants, after_commit, apply_grants, remove_grants, validate_parameters,
  resource_redshift_grant_create, resource_redshift_grant_delete,
}

module _ (env : Env) where
  -- The statements of one application of the resource: everything is revoked, then the privileges
  -- are granted, if there are any.
  abbrev pub grant_script : String → GrantData → List String
  grant_script configured d =
      create_grants_revoke_query env d (get_database_name configured d)
      ∷ (if is_empty d.privileges
          then []
          else create_grants_query env d (get_database_name configured d) ∷ [])

  abbrev revoke_script : String → GrantData → List String
  revoke_script configured d =
      create_grants_revoke_query env d (get_database_name configured d) ∷ []

  Keeps-read_database_grants :
      (c : String) (w : World env GrantData) → Keeps env (read_database_grants env c w) w
  unfolding read_database_grants
  Keeps-read_database_grants c w =
      Keeps-bind _ _ w (Keeps-db_query_row _ _ w) (λ row. Keeps-none _ _ _)

  Keeps-read_schema_grants : (w : World env GrantData) → Keeps env (read_schema_grants env w) w
  unfolding read_schema_grants
  Keeps-read_schema_grants w = Keeps-bind _ _ w (Keeps-db_query_row _ _ w) (λ row. Keeps-none _ _ _)

  Keeps-compare_rows :
      (cols : List Column) (f : Cells cols → List String)
      (rows : List (Result (Cells (text ∷ cols)))) (w : World env GrantData)
      → Keeps env (compare_rows env cols f rows w) w
  unfolding compare_rows
  Keeps-compare_rows cols f [] w = record { state = refl; tx = refl }
  Keeps-compare_rows cols f (err e ∷ rows) w = record { state = refl; tx = refl }
  Keeps-compare_rows cols f (ok (name, flags) ∷ rows) w =
      let ih = Keeps-compare_rows cols f rows w in
      record { state = ground (arith, ih.state); tx = ground (arith, ih.tx) }

  Keeps-read_table_grants : (w : World env GrantData) → Keeps env (read_table_grants env w) w
  unfolding read_table_grants
  Keeps-read_table_grants w =
      Keeps-bind _ _ w (Keeps-db_query _ _ w) (λ rows. Keeps-compare_rows _ _ rows _)

  Keeps-read_language_grants : (w : World env GrantData) → Keeps env (read_language_grants env w) w
  unfolding read_language_grants
  Keeps-read_language_grants w =
      Keeps-bind _ _ w (Keeps-db_query _ _ w) (λ rows. Keeps-compare_rows _ _ rows _)

  Keeps-update_if_different :
      (d : GrantData) (set : List String) (w : World env GrantData)
      → Keeps env (update_if_different env d set w) w
  unfolding update_if_different
  Keeps-update_if_different d set w =
      Keeps-if (env.set_equal set d.privileges) (pure tt) (modify (set_privileges set)) w
        (Keeps-refl _ w) (Keeps-none _ _ w)

  Keeps-read_callable_grants : (w : World env GrantData) → Keeps env (read_callable_grants env w) w
  unfolding read_callable_grants
  Keeps-read_callable_grants w = Keeps-bind _ _ w (Keeps-db_query _ _ w) (λ rows.
      let callables = strip_arguments_from_callables_definitions w.d.objects in
      Keeps-bind (callable_rows env callables rows [], _) (update_if_different env w.d) _
        (Keeps-refl _ _) (λ set. Keeps-update_if_different w.d set _))

  Keeps-read_by_type :
      (c t : String) (w : World env GrantData) → Keeps env (read_by_type env c t w) w
  unfolding read_by_type
  Keeps-read_by_type c t w = Keeps-if (t == "database") _ _ w (Keeps-read_database_grants c w) (
      Keeps-if (t == "schema") _ _ w (Keeps-read_schema_grants w) (
        Keeps-if (t == "table") _ _ w (Keeps-read_table_grants w) (
          Keeps-if (t == "function" || t == "procedure") _ _ w (Keeps-read_callable_grants w)
            (Keeps-if (t == "language") _ _ w (Keeps-read_language_grants w) (Keeps-refl _ w)))))

  Keeps-read_impl :
      (c : String) (w : World env GrantData)
      → Keeps env (resource_redshift_grant_read_impl env c w) w
  unfolding resource_redshift_grant_read_impl
  Keeps-read_impl c w =
      Keeps-if (is_set w.d.role) _ _ w (Keeps-refl _ w) (Keeps-read_by_type c w.d.object_type w)

  pub Keeps-after_commit :
      (configured : String) (w : World env GrantData) → Keeps env (after_commit env configured w) w
  unfolding after_commit
  Keeps-after_commit configured w =
      let k =
        Keeps-read_impl configured
          (record w { d = record w.d { id = generate_grant_id env w.d } }) in
      record { state = k.state; tx = k.tx }

module _ (env : Env) (T : IsTransactional env) where
  Runs-revoke_grants :
      (name : String) (w : World env GrantData) (x : env.Session)
      → w.tx ≡ some x
      → Runs env T (revoke_grants env name w) (create_grants_revoke_query env w.d name ∷ []) w x
  unfolding revoke_grants
  Runs-revoke_grants name w x h = Runs-exec env T (create_grants_revoke_query env w.d name) w x h

  revoke_grants_d : (name : String) (w : World env GrantData) → (revoke_grants env name w).1.d ≡ w.d
  unfolding revoke_grants
  revoke_grants_d name w = tx_exec_d env T (create_grants_revoke_query env w.d name) w

  Runs-create_grants :
      (name : String) (d : GrantData) (w : World env GrantData) (x : env.Session)
      → w.tx ≡ some x
      → w.d ≡ d
      → Runs env T
          (create_grants env name w)
          (if is_empty d.privileges then [] else create_grants_query env d name ∷ [])
          w
          x
  unfolding create_grants
  Runs-create_grants name d w x h e = rw (← e) (elim (Bool-cases (is_empty w.d.privileges)) [
    | inl none_left ↦ rw none_left (Runs-none env T (ok tt) w.d w x h)
    | inr some_left ↦ rw some_left (Runs-exec env T (create_grants_query env w.d name) w x h)
  ])

  Finishes-apply_grants :
      (configured name : String) (w : World env GrantData) (x : env.Session)
      → w.tx ≡ some x
      → Finishes env T
          (apply_grants env configured name w)
          (create_grants_revoke_query env w.d name
            ∷ (if is_empty w.d.privileges then [] else create_grants_query env w.d name ∷ []))
          x
  unfolding apply_grants
  Finishes-apply_grants configured name w x h =
      let revoked = Runs-revoke_grants name w x h in
      Finishes-bind env T (revoke_grants env name w) _ _ _ w x revoked (λ _ _.
        let created =
          Runs-create_grants name w.d _ revoked.after revoked.is_open (revoke_grants_d name w) in
        Finishes-last env T (create_grants env name (revoke_grants env name w).1) _ _ _
          revoked.after created
          (λ _ _.
            Finishes-commit env T _ (after_commit env configured) _ created.after created.is_open
              (wrapped-IsCommit env _) (Keeps-after_commit env configured _)))

  -- Whatever happens on the way, the database holds either nothing of the grant or all of it: it is
  -- as before, or one transaction has sent the revocation, then the grant if there are privileges,
  -- and committed; and so it has whenever the handler reports success. No transaction stays open.
  pub resource_redshift_grant_create-AllOrNothing :
      (configured : String) (w : World env GrantData)
      → w.tx ≡ none
      → AllOrNothing env T
          (resource_redshift_grant_create env configured w)
          (λ _. grant_script env configured w.d)
          w
  unfolding resource_redshift_grant_create
  resource_redshift_grant_create-AllOrNothing configured w h =
      AllOrNothing-check env T (validate_parameters env w.d) _ _ w h (λ _.
        AllOrNothing-transaction env T
          (apply_grants env configured (get_database_name configured w.d))
          (λ _. grant_script env configured w.d) w h
          (λ x b. Finishes-apply_grants configured (get_database_name configured w.d) _ x refl))

  Finishes-remove_grants :
      (configured : String) (w : World env GrantData) (x : env.Session)
      → w.tx ≡ some x
      → Finishes env T (remove_grants env configured w) (revoke_script env configured w.d) x
  unfolding remove_grants
  Finishes-remove_grants configured w x h =
      let name = get_database_name configured w.d in
      let revoked = Runs-revoke_grants name w x h in
      Finishes-last env T (revoke_grants env name w) _ _ w x revoked (λ _ _.
        Finishes-commit env T _ (pure tt) _ revoked.after revoked.is_open (wrapped-IsCommit env _)
          (Keeps-refl _ _))

  -- Deleting sends the revocation alone, in the same way.
  resource_redshift_grant_delete-AllOrNothing :
      (configured : String) (w : World env GrantData)
      → w.tx ≡ none
      → AllOrNothing env T
          (resource_redshift_grant_delete env configured w)
          (λ _. revoke_script env configured w.d)
          w
  unfolding resource_redshift_grant_delete
  resource_redshift_grant_delete-AllOrNothing configured w h =
      AllOrNothing-transaction env T (remove_grants env configured)
        (λ _. revoke_script env configured w.d) w h
        (λ x b. Finishes-remove_grants configured _ x refl)
