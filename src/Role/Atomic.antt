-- ===== src/Role/Atomic.antt =====
-- Creating, renaming and dropping a role (resource_redshift_role.go).
use terraform_provider_redsh.Base.{◌∙◌, true, false, [], ◌∷◌, none, some, ◌==◌, ◌≡◌, refl, arith}
use terraform_provider_redsh.Errors.{wrap, Error, err, ok, first_row}
use terraform_provider_redsh.External.{Cells, Env, IsTransactional, text, flag}
use terraform_provider_redsh.Effects.{
  tx_commit, World, pure, wrapped, start_transaction, deferred_rollback, tx_exec, tx_query_row,
  db_query_row, close,
}
use terraform_provider_redsh.Effects.Atomic.{Runs-exec, Runs-wrapping, Runs-query_row}
use terraform_provider_redsh.Effects.Keeps.{Keeps, Keeps-refl}
use terraform_provider_redsh.Effects.Finish.{
  Finishes, Finishes-read, Finishes-last, Finishes-commit, wrapped-IsCommit, AllOrNothing,
  AllOrNothing-transaction,
}
use terraform_provider_redsh.Helpers.{lower}
use terraform_provider_redsh.Role.{
  RoleData, role_by_name, role_exists, create_role_query, drop_role_query, rename_role_query,
  resource_redshift_role_read, apply_create, resource_redshift_role_create, after_rename,
  apply_rename, resource_redshift_role_update, apply_drop, drop_if_exists,
  resource_redshift_role_delete,
}

module _ (env : Env) where
  Keeps-role_read : (w : World env RoleData) → Keeps env (resource_redshift_role_read env w) w
  unfolding resource_redshift_role_read db_query_row
  Keeps-role_read w = record { state = ground arith; tx = ground arith }

  Keeps-after_rename : (w : World env RoleData) → Keeps env (after_rename env w) w
  unfolding after_rename
  Keeps-after_rename w =
      let k = Keeps-role_read (record w { d = record w.d { id = lower env w.d.name } }) in
      record { state = k.state; tx = k.tx }

module _ (env : Env) (T : IsTransactional env) where
  Finishes-apply_rename :
      (w : World env RoleData) (x : env.Session)
      → w.tx ≡ some x
      → Finishes env T (apply_rename env w) (rename_role_query env w.d.old_name w.d.name ∷ []) x
  unfolding apply_rename
  Finishes-apply_rename w x h =
      let q = rename_role_query env w.d.old_name w.d.name in
      let sent =
        Runs-wrapping env T "error renaming role" (tx_exec q w) _ w x (Runs-exec env T q w x h) in
      Finishes-last env T (wrapped "error renaming role" (tx_exec q) w) _ _ w x sent (λ _ _.
        Finishes-commit env T _ (after_rename env) _ sent.after sent.is_open
          (wrapped-IsCommit env _) (Keeps-after_rename env _))

  -- A role whose name changes is renamed in one statement of a transaction of its own, or the
  -- database is as it was; after a success, the former.
  pub resource_redshift_role_update-AllOrNothing :
      (w : World env RoleData)
      → w.tx ≡ none
      → (w.d.old_name == w.d.name) ≡ false
      → AllOrNothing env T
          (resource_redshift_role_update env w)
          (λ _. rename_role_query env w.d.old_name w.d.name ∷ [])
          w
  unfolding resource_redshift_role_update
  resource_redshift_role_update-AllOrNothing w h changed = rw changed (
      AllOrNothing-transaction env T (apply_rename env)
        (λ _. rename_role_query env w.d.old_name w.d.name ∷ []) w h
        (λ x b. Finishes-apply_rename _ x refl))

  Finishes-apply_role_create :
      (w : World env RoleData) (x : env.Session)
      → w.tx ≡ some x
      → Finishes env T (apply_create env w) (create_role_query env w.d.name ∷ []) x
  unfolding apply_create
  Finishes-apply_role_create w x h =
      let q = create_role_query env w.d.name in
      let sent =
        Runs-wrapping env T "could not create redshift role" (tx_exec q w) _ w x
          (Runs-exec env T q w x h) in
      Finishes-last env T (wrapped "could not create redshift role" (tx_exec q) w) _ _ w x sent
        (λ _ _.
          let v = (wrapped "could not create redshift role" (tx_exec q) w).1 in
          let found = tx_query_row (text ∷ []) (role_by_name (lower env w.d.name)) in
          let read = Runs-wrapping env T "could not verify role creation" (found v) _ v sent.after (
            Runs-query_row env T (text ∷ []) (role_by_name (lower env w.d.name)) v sent.after
              sent.is_open) in
          Finishes-read env T (wrapped "could not verify role creation" found v) _ _ v sent.after
            read
            (λ _ _.
              Finishes-commit env T _ (resource_redshift_role_read env) _ read.after read.is_open
                (wrapped-IsCommit env _) (Keeps-role_read env _)))

  -- A role is created in one statement of a transaction that also looks the new role up, or the
  -- database is as it was; after a success, the former.
  pub resource_redshift_role_create-AllOrNothing :
      (w : World env RoleData)
      → w.tx ≡ none
      → AllOrNothing env T
          (resource_redshift_role_create env w)
          (λ _. create_role_query env w.d.name ∷ [])
          w
  unfolding resource_redshift_role_create
  resource_redshift_role_create-AllOrNothing w h =
      AllOrNothing-transaction env T (apply_create env) (λ _. create_role_query env w.d.name ∷ []) w
        h (λ x b. Finishes-apply_role_create _ x refl)

  Finishes-apply_drop :
      (w : World env RoleData) (x : env.Session)
      → w.tx ≡ some x
      → Finishes env T (apply_drop env w) (drop_role_query env w.d.id ∷ []) x
  unfolding apply_drop
  Finishes-apply_drop w x h =
      let q = drop_role_query env w.d.id in
      let sent =
        Runs-wrapping env T "error dropping role" (tx_exec q w) _ w x (Runs-exec env T q w x h) in
      Finishes-last env T (wrapped "error dropping role" (tx_exec q) w) _ _ w x sent (λ _ _.
        Finishes-commit env T _ (pure tt) _ sent.after sent.is_open (wrapped-IsCommit env _)
          (Keeps-refl _ _))

  drop_if_exists_of_present :
      (w : World env RoleData) (x : env.Session)
      → first_row (env.query (flag ∷ []) (role_exists w.d.id) x) ≡ ok (true, tt)
      → drop_if_exists env (record w { tx = some x }) ≡ apply_drop env (record w { tx = some x })
  unfolding drop_if_exists tx_query_row
  drop_if_exists_of_present w x e = rw e refl

  -- The delete of a role that the transaction still finds drops it in one statement, or leaves the
  -- database as it was; after a success, the former.
  pub resource_redshift_role_delete-AllOrNothing :
      (w : World env RoleData)
      → w.tx ≡ none
      → ((x : env.Session)
          → env.begin w.state ≡ ok x
          → first_row (env.query (flag ∷ []) (role_exists w.d.id) x) ≡ ok (true, tt))
      → AllOrNothing env T
          (resource_redshift_role_delete env w)
          (λ _. drop_role_query env w.d.id ∷ [])
          w
  unfolding resource_redshift_role_delete
  resource_redshift_role_delete-AllOrNothing w h present =
      AllOrNothing-transaction env T (drop_if_exists env) (λ _. drop_role_query env w.d.id ∷ []) w h
        (λ x b. rw (drop_if_exists_of_present w x (present x b)) (Finishes-apply_drop _ x refl))

  -- The delete of a role that the transaction no longer finds succeeds, and leaves the database as
  -- it was and no transaction open.
  resource_redshift_role_delete_of_missing :
      (w : World env RoleData) (x : env.Session)
      → w.tx ≡ none
      → env.connect w.state ≡ ok tt
      → env.begin w.state ≡ ok x
      → first_row (env.query (flag ∷ []) (role_exists w.d.id) x) ≡ ok (false, tt)
      → resource_redshift_role_delete env w ≡ (ok tt, w)
  unfolding resource_redshift_role_delete start_transaction deferred_rollback drop_if_exists
      tx_query_row close
  resource_redshift_role_delete_of_missing w x h c b missing =
      ground (arith, c, b, missing, T.base-rollback x, T.base-begin w.state x b, h)

  -- If the role was created and found, but the commit fails, the error of the commit is returned, the
  -- database is as it was and no transaction stays open; the id is set all the same.
  resource_redshift_role_create_of_failed_commit :
      (w : World env RoleData) (x : env.Session) (row : Cells (text ∷ [])) (e : Error)
      → env.connect w.state ≡ ok tt
      → env.begin w.state ≡ ok x
      → (env.exec (create_role_query env w.d.name) x).0 ≡ ok tt
      → first_row (
          env.query
            (text ∷ [])
            (role_by_name (lower env w.d.name))
            (env.exec (create_role_query env w.d.name) x).1)
        ≡ ok row
      → (env.commit (env.exec (create_role_query env w.d.name) x).1).0 ≡ err e
      → resource_redshift_role_create env w ≡ (
        err (wrap "could not commit transaction" e),
        record w { tx = none; d = record w.d { id = lower env w.d.name } },
      )
  unfolding resource_redshift_role_create start_transaction deferred_rollback apply_create tx_exec
      tx_query_row tx_commit close
  resource_redshift_role_create_of_failed_commit w x row e c b created found failed =
      let q = create_role_query env w.d.name in
      let back =
        T.base-commit (env.exec q x).1 e failed ∙ (T.base-exec q x ∙ T.base-begin w.state x b) in
      ground (arith, c, b, created, found, failed, back)
