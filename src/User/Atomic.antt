-- ===== src/User/Atomic.antt =====
-- Creating, changing and deleting a user (resource_redshift_user.go).
use terraform_provider_redsh.Base.{
  String, Bool, ◌&&◌, ◌||◌, List, [], ◌∷◌, ◌++◌, none, some, ◌==◌, if◌then◌else◌, ◌≡◌, refl, arith,
  inl, inr, Bool-cases,
}
use terraform_provider_redsh.Strings.Decimal.{int_eq, atoi}
use terraform_provider_redsh.Errors.{Result, ok, err}
use terraform_provider_redsh.External.{Env, IsTransactional, text}
use terraform_provider_redsh.Effects.{World, M, pure, wrapped, tx_exec, tx_query_row, db_query_row}
use terraform_provider_redsh.Effects.Atomic.{Runs-wrapping, Runs-query_row}
use terraform_provider_redsh.Effects.Sends.{Sends, Sends-exec, Sends-fail, Sends-unless, Sends-then}
use terraform_provider_redsh.Effects.Keeps.{Keeps, Keeps-refl, Keeps-bind}
use terraform_provider_redsh.Effects.Finish.{
  Finishes, Finishes-read, Finishes-last, Finishes-commit, wrapped-IsCommit, AllOrNothing,
  AllOrNothing-transaction,
}
use terraform_provider_redsh.User.{
  UserData, create_user_query, rename_user_query, password_query, connection_limit_query,
  session_timeout_query, create_database_query, superuser_query, valid_until_query,
  syslog_access_computed, syslog_access_query,
}
use terraform_provider_redsh.User.Timestamps.{validate_and_adjust_valid_until}
use terraform_provider_redsh.User.Handlers.{
  UserCells, bool_eq, user_by_name, connection_limit_number, set_attributes, found_or_gone,
  finish_read, read_valid_until, resource_redshift_user_read_impl, apply_create,
  resource_redshift_user_create, set_user_name, set_user_password, set_user_conn_limit,
  set_user_create_db, set_user_superuser, set_user_valid_until, set_user_syslog_access,
  set_user_session_timeout, set_user, apply_update, resource_redshift_user_update,
}

module _ (env : Env) where
  -- What an update sends, the name first: a statement for each attribute that changes, except for an
  -- expiry that is removed; the password also after a renaming; and the syslog access also when the
  -- configured one is not the one that the statement gives.
  abbrev pub update_user_script : UserData → List String
  update_user_script d =
      (if d.old.name == d.new.name then [] else rename_user_query env d.old.name d.new.name ∷ [])
      ++ ((if d.old.password == d.new.password && d.old.name == d.new.name
            then []
            else password_query env d.new ∷ [])
          ++ ((if int_eq d.old.connection_limit d.new.connection_limit
                then []
                else connection_limit_query env d.new ∷ [])
              ++ ((if bool_eq d.old.create_database d.new.create_database
                    then []
                    else create_database_query env d.new ∷ [])
                  ++ ((if bool_eq d.old.superuser d.new.superuser
                        then []
                        else superuser_query env d.new ∷ [])
                      ++ ((if d.old.valid_until == d.new.valid_until || d.new.valid_until == ""
                            then []
                            else valid_until_query env d.new ∷ [])
                          ++ ((if d.new.syslog_access == syslog_access_computed d.new
                                  && d.old.syslog_access == d.new.syslog_access
                                then []
                                else syslog_access_query env d.new ∷ [])
                              ++ (if int_eq d.old.session_timeout d.new.session_timeout
                                  then []
                                  else session_timeout_query env d.new ∷ [])))))))

  Keeps-found_or_gone :
      {A : Type 0} (r : Result A) (next : A → M env UserData (Unit {0})) (w : World env UserData)
      → ((a : A) → Keeps env (next a w) w)
      → Keeps env (found_or_gone env r next w) w
  unfolding found_or_gone
  Keeps-found_or_gone (ok a) next w k = k a
  Keeps-found_or_gone (err e) next w k = record { state = ground arith; tx = ground arith }

  Keeps-finish_read :
      (row : UserCells env) (until : String) (w : World env UserData)
      → Keeps env (finish_read env row until w) w
  unfolding finish_read set_attributes
  Keeps-finish_read row until w =
      Keeps-bind (validate_and_adjust_valid_until until, w) _ w (Keeps-refl _ w)
        (λ v.
          Keeps-bind (connection_limit_number row.1.1.1.1.0, w) _ w (Keeps-refl _ w)
            (λ l.
              Keeps-bind (atoi row.1.1.1.1.1.0, w) (set_attributes env row v l) w (Keeps-refl _ w)
                (λ t. record { state = refl; tx = refl })))

  Keeps-read_valid_until :
      (row : UserCells env) (w : World env UserData) → Keeps env (read_valid_until env row w) w
  unfolding read_valid_until db_query_row
  Keeps-read_valid_until row w = Keeps-found_or_gone _ _ w (λ cell. Keeps-finish_read row cell.0 w)

  pub Keeps-user_read :
      (w : World env UserData) → Keeps env (resource_redshift_user_read_impl env w) w
  unfolding resource_redshift_user_read_impl db_query_row
  Keeps-user_read w = Keeps-found_or_gone _ _ w (λ row. Keeps-read_valid_until row w)

module _ (env : Env) (T : IsTransactional env) where
  Sends-set_user_name :
      (d : UserData)
      → Sends env T (set_user_name env d) (
          if d.old.name == d.new.name then [] else rename_user_query env d.old.name d.new.name ∷ [])
  unfolding set_user_name
  Sends-set_user_name d =
      Sends-unless env T (d.old.name == d.new.name) _ _ (elim (Bool-cases (d.new.name == "")) [
        | inl empty ↦ rw empty (Sends-fail env T _ _)
        | inr named ↦ rw named (Sends-exec env T _ _)
      ])

  -- A setter sends its statement unless the attribute has not changed.
  change :
      (b : Bool) (about q : String)
      → Sends env T {D = UserData}
          (if b then pure tt else wrapped about (tx_exec q))
          (if b then [] else q ∷ [])
  change b about q = Sends-unless env T b _ _ (Sends-exec env T about q)

  Sends-set_user : (d : UserData) → Sends env T (set_user env d) (update_user_script env d)
  unfolding set_user set_user_password set_user_conn_limit set_user_create_db set_user_superuser
      set_user_valid_until set_user_syslog_access set_user_session_timeout
  Sends-set_user d = Sends-then env T (set_user_name env d) _ _ _ (Sends-set_user_name d) (
      Sends-then env T (set_user_password env d) _ _ _
        (change (d.old.password == d.new.password && d.old.name == d.new.name) _
          (password_query env d.new))
        (Sends-then env T (set_user_conn_limit env d) _ _ _
          (change (int_eq d.old.connection_limit d.new.connection_limit) _
            (connection_limit_query env d.new))
          (Sends-then env T (set_user_create_db env d) _ _ _
            (change (bool_eq d.old.create_database d.new.create_database) _
              (create_database_query env d.new))
            (Sends-then env T (set_user_superuser env d) _ _ _
              (change (bool_eq d.old.superuser d.new.superuser) _ (superuser_query env d.new))
              (Sends-then env T (set_user_valid_until env d) _ _ _
                (change (d.old.valid_until == d.new.valid_until || d.new.valid_until == "") _
                  (valid_until_query env d.new))
                (Sends-then env T (set_user_syslog_access env d) _ _ _
                  (change
                    (d.new.syslog_access == syslog_access_computed d.new
                      && d.old.syslog_access == d.new.syslog_access)
                    _ (syslog_access_query env d.new))
                  (change (int_eq d.old.session_timeout d.new.session_timeout) _
                    (session_timeout_query env d.new))))))))

  Finishes-apply_update :
      (w : World env UserData) (x : env.Session)
      → w.tx ≡ some x
      → Finishes env T (apply_update env w) (update_user_script env w.d) x
  unfolding apply_update
  Finishes-apply_update w x h =
      let sent = Sends-set_user w.d w x h in
      Finishes-last env T (set_user env w.d w) _ _ w x sent (λ _ _.
        Finishes-commit env T _ (resource_redshift_user_read_impl env) _ sent.after sent.is_open
          (wrapped-IsCommit env _) (Keeps-user_read env _))

  -- An update of a user sends, in one transaction and a fixed order, one statement for each attribute
  -- that changes, except for an expiry that becomes empty, and also one for the password if the name
  -- changes, and one for the syslog access if none is configured; or it leaves the database as it was.
  -- After a success it is the former, and no transaction stays open.
  pub resource_redshift_user_update-AllOrNothing :
      (w : World env UserData)
      → w.tx ≡ none
      → AllOrNothing env T (resource_redshift_user_update env w) (λ _. update_user_script env w.d) w
  unfolding resource_redshift_user_update
  resource_redshift_user_update-AllOrNothing w h =
      AllOrNothing-transaction env T (apply_update env) (λ _. update_user_script env w.d) w h
        (λ x b. Finishes-apply_update _ x refl)

  Finishes-apply_user_create :
      (w : World env UserData) (x : env.Session)
      → w.tx ≡ some x
      → Finishes env T (apply_create env w) (create_user_query env w.d.new ∷ []) x
  unfolding apply_create
  Finishes-apply_user_create w x h =
      let q = create_user_query env w.d.new in
      let m = wrapped "error creating user" (tx_exec q) in
      let by_name = user_by_name w.d.new.name in
      let sent = Sends-exec env T {D = UserData} "error creating user" q w x h in
      Finishes-last env T (m w) _ _ w x sent (λ _ _.
        let found = tx_query_row (text ∷ []) by_name in
        let read =
          Runs-wrapping env T "user does not exist in pg_user_info table" (found (m w).1) _ (m w).1
            sent.after (Runs-query_row env T (text ∷ []) by_name (m w).1 sent.after sent.is_open) in
        Finishes-read env T (wrapped "user does not exist in pg_user_info table" found (m w).1) _ _
          (m w).1 sent.after read
          (λ _ _.
            Finishes-commit env T _ (resource_redshift_user_read_impl env) _ read.after read.is_open
              (wrapped-IsCommit env _) (Keeps-user_read env _)))

  -- A user is created, with all its options, in one statement of a transaction that also looks up its
  -- id; or the database is as it was. After a success it is the former.
  resource_redshift_user_create-AllOrNothing :
      (w : World env UserData)
      → w.tx ≡ none
      → AllOrNothing env T
          (resource_redshift_user_create env w)
          (λ _. create_user_query env w.d.new ∷ [])
          w
  unfolding resource_redshift_user_create
  resource_redshift_user_create-AllOrNothing w h =
      AllOrNothing-transaction env T (apply_create env) (λ _. create_user_query env w.d.new ∷ []) w
        h (λ x b. Finishes-apply_user_create _ x refl)
