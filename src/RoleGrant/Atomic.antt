-- ===== src/RoleGrant/Atomic.antt =====
-- Granting a role, and the end of a grant whose role is gone (resource_redshift_role_grant.go).
use terraform_provider_redsh.Base.{
  String, false, List, [], ◌∷◌, none, some, ◌==◌, ◌≡◌, ◌∙◌, inl, inr, refl, arith,
}
use terraform_provider_redsh.Errors.{Error, ok, err, is_ok, Result-cases}
use terraform_provider_redsh.External.{Env, IsTransactional, FailsAfterError}
use terraform_provider_redsh.Effects.{
  World, wrapped, start_transaction, deferred_rollback, tx_exec, tx_commit, db_query_row, close,
}
use terraform_provider_redsh.Effects.Atomic.{Runs-exec, Runs-wrapping}
use terraform_provider_redsh.Effects.Keeps.{Keeps, Keeps-refl, Keeps-if}
use terraform_provider_redsh.Effects.Finish.{
  Finishes, Finishes-last, Finishes-commit, wrapped-IsCommit, AllOrNothing,
  AllOrNothing-transaction,
}
use terraform_provider_redsh.Helpers.{upper}
use terraform_provider_redsh.RoleGrant.{
  RoleGrantData, id_parts, grant_role_query, revoke_role_query, look_up_grant,
  resource_redshift_role_grant_read, after_commit, apply_role_grant,
  resource_redshift_role_grant_create, remove_role_grant, resource_redshift_role_grant_delete,
  generate_role_grant_id,
}

module _ (env : Env) where
  abbrev pub role_grant_script : RoleGrantData → List String
  role_grant_script d =
      grant_role_query env d.role_name (upper env d.grant_to_type) d.grant_to_name ∷ []

  Keeps-look_up_grant :
      (query : String) (d : RoleGrantData) (w : World env RoleGrantData)
      → Keeps env (look_up_grant env query d w) w
  unfolding look_up_grant db_query_row
  Keeps-look_up_grant query d w = record { state = ground arith; tx = ground arith }

  Keeps-role_grant_read :
      (w : World env RoleGrantData) → Keeps env (resource_redshift_role_grant_read env w) w
  unfolding resource_redshift_role_grant_read
  Keeps-role_grant_read w =
      let k = λ (query : String). Keeps-look_up_grant query w.d w in
      Keeps-if (upper env w.d.grant_to_type == "USER") _ _ w (k _) (
        Keeps-if (upper env w.d.grant_to_type == "ROLE") _ _ w (k _) (
          Keeps-if (upper env w.d.grant_to_type == "GROUP") _ _ w (Keeps-refl _ w)
            (Keeps-refl _ w)))

  pub Keeps-after_role_grant : (w : World env RoleGrantData) → Keeps env (after_commit env w) w
  unfolding after_commit
  Keeps-after_role_grant w =
      let k = Keeps-role_grant_read (record w {
        d = record w.d {
          id =
              generate_role_grant_id env w.d.role_name (upper env w.d.grant_to_type)
                w.d.grant_to_name;
        };
      }) in
      record { state = k.state; tx = k.tx }

  -- A delete whose id has not four parts fails, and touches nothing.
  resource_redshift_role_grant_delete_of_malformed :
      (w : World env RoleGrantData)
      → id_parts w.d.id ≡ none
      → (is_ok (resource_redshift_role_grant_delete env w).0 ≡ false)
        × ((resource_redshift_role_grant_delete env w).1 ≡ w)
  unfolding resource_redshift_role_grant_delete
  resource_redshift_role_grant_delete_of_malformed w h = (ground (arith, h), ground (arith, h))

module _ (env : Env) (T : IsTransactional env) where
  open T use {base}

  Finishes-apply_role_grant :
      (w : World env RoleGrantData) (x : env.Session)
      → w.tx ≡ some x
      → Finishes env T (apply_role_grant env w) (role_grant_script env w.d) x
  unfolding apply_role_grant
  Finishes-apply_role_grant w x h =
      let q = grant_role_query env w.d.role_name (upper env w.d.grant_to_type) w.d.grant_to_name in
      let sent =
        Runs-wrapping env T "could not grant role" (tx_exec q w) _ w x (Runs-exec env T q w x h) in
      Finishes-last env T (wrapped "could not grant role" (tx_exec q) w) _ _ w x sent (λ _ _.
        Finishes-commit env T _ (after_commit env) _ sent.after sent.is_open
          (wrapped-IsCommit env _) (Keeps-after_role_grant env _))

  -- Granting a role sends its one statement in a transaction of its own, or leaves the database as
  -- it was; after a success, the former.
  resource_redshift_role_grant_create-AllOrNothing :
      (w : World env RoleGrantData)
      → w.tx ≡ none
      → AllOrNothing env T
          (resource_redshift_role_grant_create env w)
          (λ _. role_grant_script env w.d)
          w
  unfolding resource_redshift_role_grant_create
  resource_redshift_role_grant_create-AllOrNothing w h =
      AllOrNothing-transaction env T (apply_role_grant env) (λ _. role_grant_script env w.d) w h
        (λ x b. Finishes-apply_role_grant _ x refl)

  -- With a driver that does not commit after a failed statement, a delete whose revocation fails
  -- never succeeds, the error `does not exist` included, and the database is as it was.
  pub resource_redshift_role_grant_delete_of_missing :
      FailsAfterError env
      → (w : World env RoleGrantData) (x : env.Session) (role type name : String) (e : Error)
      → env.connect w.state ≡ ok tt
      → env.begin w.state ≡ ok x
      → id_parts w.d.id ≡ some (role, type, name)
      → (env.exec (revoke_role_query env role (upper env type) name) x).0 ≡ err e
      → (is_ok (resource_redshift_role_grant_delete env w).0 ≡ false)
        × ((resource_redshift_role_grant_delete env w).1.state ≡ w.state)
  unfolding resource_redshift_role_grant_delete start_transaction deferred_rollback
      remove_role_grant tx_exec tx_commit close
  resource_redshift_role_grant_delete_of_missing F w x role type name e c b i f =
      let q = revoke_role_query env role (upper env type) name in
      let y = (env.exec q x).1 in
      let unsent = F.commit-exec q x e f in
      let back : base y ≡ w.state = T.base-exec q x ∙ T.base-begin w.state x b in
      elim (Result-cases (env.commit y).0) [
        | inl (u, g) ↦ absurd (ground arith)
        | inr (u, g) ↦ (
          ground (arith, c, b, i, f, g),
          ground (arith, c, b, i, f, g, T.base-rollback y, T.base-commit y u g, back),
        )
      ]
