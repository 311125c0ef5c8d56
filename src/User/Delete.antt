-- ===== src/User/Delete.antt =====
-- Deleting a user (resource_redshift_user.go): what it owns goes to the user of the connection.
use terraform_provider_redsh.Base.{
  String, false, List, [], ◌∷◌, ◌++◌, none, some, ◌==◌, ◌≡◌, refl, arith,
}
use terraform_provider_redsh.Errors.{Result, ok, err}
use terraform_provider_redsh.External.{Env, IsTransactional, text, Query}
use terraform_provider_redsh.Effects.{World, pure, tx_exec, tx_exec_all, tx_query}
use terraform_provider_redsh.Effects.Atomic.{Runs, Runs-exec, Runs-exec_all, Runs-query}
use terraform_provider_redsh.Effects.Sends.{session_after, session_after_of_Ran}
use terraform_provider_redsh.Effects.Keeps.{Keeps-refl}
use terraform_provider_redsh.Effects.Finish.{
  Finishes, Finishes-read, Finishes-last, Finishes-bind, Finishes-commit, tx_commit-IsCommit,
  AllOrNothing, AllOrNothing-transaction,
}
use terraform_provider_redsh.Cleanup.{
  Rows, cleaned_schemas, rows_or_none, rows_script, each_row, Runs-each_row, rows_of_tx_query,
}
use terraform_provider_redsh.User.{UserData, permanent_username, clean_schema, drop_user_query}
use terraform_provider_redsh.User.Handlers.{
  reassign_owner_generator, scan_statements, get_username, clean_and_drop, apply_delete,
  resource_redshift_user_delete,
}

module _ (env : Env) where
  abbrev statements_or_none : Result (List String) → List String
  statements_or_none (ok l) = l
  statements_or_none (err e) = []

  -- The statements that the first query generates in a session.
  abbrev reassign_script : UserData → String → env.Session → List String
  reassign_script d owner x = statements_or_none (
      scan_statements (
        rows_or_none
          (env.query (text ∷ []) (reassign_owner_generator d.id (env.quote_identifier owner)) x)))

  -- What a delete sends: the generated statements, then those for each schema that the session shows
  -- after them, and then the user.
  abbrev pub delete_user_script : UserData → String → env.Session → List String
  delete_user_script d owner x =
      reassign_script d owner x
      ++ (rows_script (clean_schema env d.new.name) (
            rows_or_none (
              env.query (text ∷ []) cleaned_schemas
                (session_after env (reassign_script d owner x) x)))
          ++ (drop_user_query env d.new.name ∷ []))

module _ (env : Env) (T : IsTransactional env) where
  tx_query_leaves : (q : Query) (w : World env UserData) → (tx_query (text ∷ []) q w).1 ≡ w
  unfolding tx_query
  tx_query_leaves q w = ground arith

  -- From the query for the schemas on, in the session `x`.
  Finishes-clean_and_drop :
      (w : World env UserData) (d : UserData) (x : env.Session)
      → w.tx ≡ some x
      → Finishes env T
          (clean_and_drop env d w)
          (rows_script
              (clean_schema env d.new.name)
              (rows_or_none (env.query (text ∷ []) cleaned_schemas x))
            ++ (drop_user_query env d.new.name ∷ []))
          x
  unfolding clean_and_drop
  Finishes-clean_and_drop w d x h =
      let v = (tx_query (text ∷ []) cleaned_schemas w).1 in
      let q = drop_user_query env d.new.name in
      let found = Runs-query env T (text ∷ []) cleaned_schemas w x h in
      Finishes-read env T (tx_query (text ∷ []) cleaned_schemas w) _ _ w x found (λ rows e.
        let m = each_row (clean_schema env d.new.name) rows in
        let cleaned =
          Runs-each_row env T (clean_schema env d.new.name) rows v found.after found.is_open in
        let dropped = Runs-exec env T q (m v).1 cleaned.after cleaned.is_open in
        rw (rows_of_tx_query env T cleaned_schemas w x rows h e) (
          Finishes-bind env T (m v) _ _ _ v found.after cleaned (λ _ _.
            Finishes-last env T (tx_exec q (m v).1) _ _ (m v).1 cleaned.after dropped (λ _ _.
              Finishes-commit env T _ (pure tt) _ dropped.after dropped.is_open
                (tx_commit-IsCommit env) (Keeps-refl _ _)))))

  scanned :
      (owner : String) (w : World env UserData) (x : env.Session) (rows : Rows) (l : List String)
      → w.tx ≡ some x
      → (tx_query (text ∷ []) (reassign_owner_generator w.d.id (env.quote_identifier owner)) w).0
        ≡ ok rows
      → scan_statements rows ≡ ok l
      → reassign_script env w.d owner x ≡ l
  scanned owner w x rows l h e f =
      rw
        (
          rows_of_tx_query env T (reassign_owner_generator w.d.id (env.quote_identifier owner)) w x
              rows h e,
          f,
        )
        refl

  Finishes-apply_user_delete :
      (owner : String) (w : World env UserData) (x : env.Session)
      → w.tx ≡ some x
      → Finishes env T (apply_delete env owner w) (delete_user_script env w.d owner x) x
  unfolding apply_delete
  Finishes-apply_user_delete owner w x h =
      let q = reassign_owner_generator w.d.id (env.quote_identifier owner) in
      let v = (tx_query (text ∷ []) q w).1 in
      let same = tx_query_leaves q w in
      let o : v.tx ≡ some x = rw same h in
      let found : Runs env T (tx_query (text ∷ []) q w) [] w x = record {
        after = x;
        is_open = o;
        same = rw same refl;
        based = refl;
        ran = λ _. refl;
      } in
      Finishes-read env T (tx_query (text ∷ []) q w) _ _ w x found (λ rows e.
        let scan : Runs env T (scan_statements rows, v) [] v x = record {
          after = x;
          is_open = o;
          same = refl;
          based = refl;
          ran = λ _. refl;
        } in
        Finishes-read env T (scan_statements rows, v) _ _ v x scan
          (λ l f.
            let sent = Runs-exec_all env T l v x o in
            rw (scanned owner w x rows l h e f) (
              Finishes-bind env T (tx_exec_all l v) _ l _ v x sent (λ _ g.
                rw (session_after_of_Ran env l x sent.after (sent.ran (rw g refl)))
                  (Finishes-clean_and_drop (tx_exec_all l v).1 w.d sent.after sent.is_open)))))

  -- Deleting a user sends, in one transaction, the statements that give what the user owns to the
  -- user of the connection, then the revocations in every schema that the transaction then shows, and
  -- then drops the user; or it leaves the database as it was. After a success it is the former, and
  -- no transaction stays open. The name of the connection's user is the cached one.
  pub resource_redshift_user_delete-AllOrNothing :
      (cached : String) (w : World env UserData)
      → w.tx ≡ none
      → (cached == "") ≡ false
      → AllOrNothing env T
          (resource_redshift_user_delete env cached w)
          (delete_user_script env w.d (permanent_username cached))
          w
  unfolding resource_redshift_user_delete get_username
  resource_redshift_user_delete-AllOrNothing cached w h known = rw known (
      AllOrNothing-transaction env T (apply_delete env (permanent_username cached))
        (delete_user_script env w.d (permanent_username cached)) w h
        (λ x b. Finishes-apply_user_delete (permanent_username cached) _ x refl))
