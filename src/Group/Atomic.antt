-- ===== src/Group/Atomic.antt =====
-- Creating, changing and deleting a group (resource_redshift_group.go).
use terraform_provider_redsh.Base.{[], ◌∷◌, none, some, ◌≡◌, refl}
use terraform_provider_redsh.External.{Env, IsTransactional, text}
use terraform_provider_redsh.Effects.{World, pure, wrapped, tx_exec, tx_query, tx_query_row}
use terraform_provider_redsh.Effects.Atomic.{Runs-exec, Runs-wrapping, Runs-query, Runs-query_row}
use terraform_provider_redsh.Effects.Keeps.{Keeps-refl}
use terraform_provider_redsh.Effects.Finish.{
  Finishes, Finishes-read, Finishes-last, Finishes-bind, Finishes-commit, wrapped-IsCommit,
  tx_commit-IsCommit, AllOrNothing, AllOrNothing-transaction,
}
use terraform_provider_redsh.Helpers.{lower}
use terraform_provider_redsh.Cleanup.{cleaned_schemas, each_row, Runs-each_row, rows_of_tx_query}
use terraform_provider_redsh.Group.{
  GroupData, group_by_name, resource_redshift_group_read_impl, create_group_query, apply_create,
  resource_redshift_group_create, clean_schema, drop_group_query, apply_delete,
  resource_redshift_group_delete, set_group_name, set_users_names, apply_update,
  resource_redshift_group_update,
}
use terraform_provider_redsh.Group.Scripts.{
  update_group_script, delete_group_script, Keeps-group_read, Runs-set_users_names,
  Runs-set_group_name, renamed_of_Ran,
}

module _ (env : Env) (T : IsTransactional env) where
  Finishes-apply_update :
      (w : World env GroupData) (x : env.Session)
      → w.tx ≡ some x
      → Finishes env T (apply_update env w) (update_group_script env w.d x) x
  unfolding apply_update
  Finishes-apply_update w x h =
      let d = w.d in
      let v = (set_group_name env d w).1 in
      let named = Runs-set_group_name env T d w x h in
      Finishes-bind env T (set_group_name env d w) _ _ _ w x named (λ _ e.
        let users = Runs-set_users_names env T d v named.after named.is_open in
        rw (renamed_of_Ran env T d x named.after (named.ran (rw e refl))) (
          Finishes-last env T (set_users_names env d v) _ _ v named.after users (λ _ _.
            Finishes-commit env T _ (resource_redshift_group_read_impl env) _ users.after
              users.is_open (wrapped-IsCommit env _) (Keeps-group_read env _))))

  -- An update of a group sends, in one transaction, the new name if it changes, the removed users
  -- that are still there after that, and the added users; or it leaves the database as it was. After
  -- a success it is the former, and no transaction stays open.
  pub resource_redshift_group_update-AllOrNothing :
      (w : World env GroupData)
      → w.tx ≡ none
      → AllOrNothing env T (resource_redshift_group_update env w) (update_group_script env w.d) w
  unfolding resource_redshift_group_update
  resource_redshift_group_update-AllOrNothing w h =
      AllOrNothing-transaction env T (apply_update env) (update_group_script env w.d) w h
        (λ x b. Finishes-apply_update _ x refl)

  Finishes-apply_delete :
      (w : World env GroupData) (x : env.Session)
      → w.tx ≡ some x
      → Finishes env T (apply_delete env w) (delete_group_script env w.d x) x
  unfolding apply_delete
  Finishes-apply_delete w x h =
      let v = (tx_query (text ∷ []) cleaned_schemas w).1 in
      let q = drop_group_query env w.d.name in
      let found = Runs-query env T (text ∷ []) cleaned_schemas w x h in
      Finishes-read env T (tx_query (text ∷ []) cleaned_schemas w) _ _ w x found (λ rows e.
        let cleaned =
          Runs-each_row env T (clean_schema env w.d.name) rows v found.after found.is_open in
        let u = (each_row (clean_schema env w.d.name) rows v).1 in
        let dropped = Runs-exec env T q u cleaned.after cleaned.is_open in
        rw (rows_of_tx_query env T cleaned_schemas w x rows h e) (
          Finishes-bind env T (each_row (clean_schema env w.d.name) rows v) _ _ _ v found.after
            cleaned
            (λ _ _. Finishes-last env T (tx_exec q u) _ _ u cleaned.after dropped (λ _ _.
              Finishes-commit env T _ (pure tt) _ dropped.after dropped.is_open
                (tx_commit-IsCommit env) (Keeps-refl _ _)))))

  -- Deleting a group revokes, in one transaction, its privileges in every schema that the transaction
  -- shows, and then drops the group; or it leaves the database as it was. After a success it is the
  -- former, and no transaction stays open.
  pub resource_redshift_group_delete-AllOrNothing :
      (w : World env GroupData)
      → w.tx ≡ none
      → AllOrNothing env T (resource_redshift_group_delete env w) (delete_group_script env w.d) w
  unfolding resource_redshift_group_delete
  resource_redshift_group_delete-AllOrNothing w h =
      AllOrNothing-transaction env T (apply_delete env) (delete_group_script env w.d) w h
        (λ x b. Finishes-apply_delete _ x refl)

  Finishes-apply_group_create :
      (w : World env GroupData) (x : env.Session)
      → w.tx ≡ some x
      → Finishes env T (apply_create env w) (create_group_query env w.d.name w.d.users ∷ []) x
  unfolding apply_create
  Finishes-apply_group_create w x h =
      let q = create_group_query env w.d.name w.d.users in
      let m = wrapped "could not create redshift group" (tx_exec q) in
      let sent =
        Runs-wrapping env T "could not create redshift group" (tx_exec q w) _ w x
          (Runs-exec env T q w x h) in
      Finishes-last env T (m w) _ _ w x sent (λ _ _.
        let found = tx_query_row (text ∷ []) (group_by_name (lower env w.d.name)) in
        let read =
          Runs-wrapping env T "could not get redshift group id" (found (m w).1) _ (m w).1 sent.after
            (Runs-query_row env T (text ∷ []) (group_by_name (lower env w.d.name)) (m w).1
              sent.after sent.is_open) in
        Finishes-read env T (wrapped "could not get redshift group id" found (m w).1) _ _ (m w).1
          sent.after read
          (λ _ _.
            Finishes-commit env T _ (resource_redshift_group_read_impl env) _ read.after
              read.is_open (wrapped-IsCommit env _) (Keeps-group_read env _)))

  -- A group is created, with its users, in one statement of a transaction that also looks up its id;
  -- or the database is as it was. After a success it is the former.
  resource_redshift_group_create-AllOrNothing :
      (w : World env GroupData)
      → w.tx ≡ none
      → AllOrNothing env T
          (resource_redshift_group_create env w)
          (λ _. create_group_query env w.d.name w.d.users ∷ [])
          w
  unfolding resource_redshift_group_create
  resource_redshift_group_create-AllOrNothing w h =
      AllOrNothing-transaction env T (apply_create env)
        (λ _. create_group_query env w.d.name w.d.users ∷ []) w h
        (λ x b. Finishes-apply_group_create _ x refl)
