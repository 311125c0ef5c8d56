-- ===== src/User/Success.antt =====
-- What updating a user does when the database takes its statements (resource_redshift_user.go).
use terraform_provider_redsh.Base.{
  String, Bool, false, ◌&&◌, ◌||◌, [], ◌∷◌, none, ◌==◌, if◌then◌else◌, ◌≡◌, refl, ap,
}
use terraform_provider_redsh.Strings.Decimal.{int_eq}
use terraform_provider_redsh.External.{Env}
use terraform_provider_redsh.Effects.{World, ◌>>◌, pure, wrapped, tx_exec, tx_commit}
use terraform_provider_redsh.Effects.Accepts.{
  Accepts, Accepts-exec, Accepts-unless, Accepts-then, Takes, transaction_of_Takes,
}
use terraform_provider_redsh.Effects.Finish.{wrapped-IsCommit}
use terraform_provider_redsh.User.{
  UserData, rename_user_query, password_query, connection_limit_query, session_timeout_query,
  create_database_query, superuser_query, valid_until_query, syslog_access_computed,
  syslog_access_query,
}
use terraform_provider_redsh.User.Handlers.{
  bool_eq, resource_redshift_user_read_impl, set_user_name, set_user_password, set_user_conn_limit,
  set_user_create_db, set_user_superuser, set_user_valid_until, set_user_syslog_access,
  set_user_session_timeout, set_user, apply_update, resource_redshift_user_update,
}
use terraform_provider_redsh.User.Atomic.{update_user_script, Keeps-user_read}

module _ (env : Env) where
  take :
      (d : UserData) (b : Bool) (about q : String)
      → Accepts env d (if b then pure tt else wrapped about (tx_exec q)) (if b then [] else q ∷ [])
  take d b about q = Accepts-unless env d b _ _ (Accepts-exec env d about q)

  Accepts-set_user_name :
      (d : UserData)
      → (d.new.name == "") ≡ false
      → Accepts env d (set_user_name env d) (
          if d.old.name == d.new.name then [] else rename_user_query env d.old.name d.new.name ∷ [])
  unfolding set_user_name
  Accepts-set_user_name d named = rw named (take d (d.old.name == d.new.name) _ _)

  Accepts-set_user :
      (d : UserData)
      → (d.new.name == "") ≡ false
      → Accepts env d (set_user env d) (update_user_script env d)
  unfolding set_user set_user_password set_user_conn_limit set_user_create_db set_user_superuser
      set_user_valid_until set_user_syslog_access set_user_session_timeout
  Accepts-set_user d named =
      Accepts-then env d (set_user_name env d) _ _ _ (Accepts-set_user_name d named) (
        Accepts-then env d (set_user_password env d) _ _ _
          (take d (d.old.password == d.new.password && d.old.name == d.new.name) _
            (password_query env d.new))
          (Accepts-then env d (set_user_conn_limit env d) _ _ _
            (take d (int_eq d.old.connection_limit d.new.connection_limit) _
              (connection_limit_query env d.new))
            (Accepts-then env d (set_user_create_db env d) _ _ _
              (take d (bool_eq d.old.create_database d.new.create_database) _
                (create_database_query env d.new))
              (Accepts-then env d (set_user_superuser env d) _ _ _
                (take d (bool_eq d.old.superuser d.new.superuser) _ (superuser_query env d.new))
                (Accepts-then env d (set_user_valid_until env d) _ _ _
                  (take d (d.old.valid_until == d.new.valid_until || d.new.valid_until == "") _
                    (valid_until_query env d.new))
                  (Accepts-then env d (set_user_syslog_access env d) _ _ _
                    (take d
                      (d.new.syslog_access == syslog_access_computed d.new
                        && d.old.syslog_access == d.new.syslog_access)
                      _ (syslog_access_query env d.new))
                    (take d (int_eq d.old.session_timeout d.new.session_timeout) _
                      (session_timeout_query env d.new))))))))

  apply_update_lem :
      (d : UserData) (v : World env UserData)
      → v.d ≡ d
      → apply_update env v
        ≡ (set_user env d
              >> (wrapped "could not commit transaction" tx_commit
                  >> resource_redshift_user_read_impl env))
            v
  unfolding apply_update
  apply_update_lem d v = ap (λ e.
      (set_user env e
          >> (wrapped "could not commit transaction" tx_commit
              >> resource_redshift_user_read_impl env))
        v)

  -- If the new name is not empty and the database takes the statements for what changes and commits
  -- them, updating the user is exactly the read of the new state: no error comes from anything else,
  -- and no transaction stays open.
  pub resource_redshift_user_update-Takes :
      (w : World env UserData) (t : env.State)
      → (w.d.new.name == "") ≡ false
      → Takes env (update_user_script env w.d) w.state t
      → resource_redshift_user_update env w
        ≡ resource_redshift_user_read_impl env (record w { state = t; tx = none })
  unfolding resource_redshift_user_update
  resource_redshift_user_update-Takes w t named k =
      transaction_of_Takes env w.d (apply_update env) (set_user env w.d)
        (wrapped "could not commit transaction" tx_commit) (resource_redshift_user_read_impl env) _
        w t (apply_update_lem w.d) refl (Accepts-set_user w.d named) (wrapped-IsCommit env _) k
        (Keeps-user_read env _)
