-- ===== src/DefaultPrivileges/Success.antt =====
-- What setting default privileges does when the database takes it
-- (resource_redshift_default_privileges.go).
use terraform_provider_redsh.Base.{true, [], ◌∷◌, none, map, is_empty, ◌≡◌, refl, sym, ap, ◌∙◌}
use terraform_provider_redsh.External.{Env, IsTransactional, HasIdleCommit}
use terraform_provider_redsh.Effects.{World, M, ◌>>◌, tx_exec, tx_commit}
use terraform_provider_redsh.Effects.Accepts.{
  Accepts, Accepts-tx_exec, Accepts-unless, Accepts-then, Takes, then_assoc, transaction_of_Takes,
}
use terraform_provider_redsh.Effects.Finish.{tx_commit-IsCommit}
use terraform_provider_redsh.Helpers.{upper, validate_privileges}
use terraform_provider_redsh.DefaultPrivileges.{
  DefaultPrivilegesData, generate_default_privileges_id, create_alter_defaults_grant_query,
  create_alter_defaults_revoke_query, grant_defaults, after_commit, apply_defaults,
  resource_redshift_default_privileges_create, resource_redshift_default_privileges_read_impl,
}
use terraform_provider_redsh.DefaultPrivileges.Atomic.{defaults_script, Keeps-after_defaults}

module _ (env : Env) where
  -- The two statements, by the data at the start.
  abbrev set_defaults : DefaultPrivilegesData → M env DefaultPrivilegesData (Unit {0})
  set_defaults d =
      tx_exec (create_alter_defaults_revoke_query env d)
      >> grant_defaults env d (map (upper env) d.privileges)

  apply_defaults_lem :
      (d : DefaultPrivilegesData) (v : World env DefaultPrivilegesData)
      → v.d ≡ d
      → apply_defaults env v ≡ (set_defaults d >> (tx_commit >> after_commit env)) v
  unfolding apply_defaults
  apply_defaults_lem d v same =
      sym (
        then_assoc env v.d (tx_exec (create_alter_defaults_revoke_query env v.d))
          (grant_defaults env v.d (map (upper env) v.d.privileges)) (tx_commit >> after_commit env)
          v)
      ∙ ap (λ e. (set_defaults e >> (tx_commit >> after_commit env)) v) same

  Accepts-set_defaults :
      (d : DefaultPrivilegesData) → Accepts env d (set_defaults d) (defaults_script env d)
  unfolding grant_defaults
  Accepts-set_defaults d =
      let l = map (upper env) d.privileges in
      let q = create_alter_defaults_revoke_query env d in
      Accepts-then env d (tx_exec q) (grant_defaults env d l) (q ∷ []) _ (Accepts-tx_exec env d q) (
        Accepts-unless env d (is_empty l) (tx_exec (create_alter_defaults_grant_query env d l)) _
          (Accepts-tx_exec env d (create_alter_defaults_grant_query env d l)))

module _ (env : Env) (T : IsTransactional env) (I : HasIdleCommit env) where
  -- If the privileges are valid and the database takes the statements and commits them, setting
  -- default privileges is exactly the read of the new state, with the id set: no error comes from
  -- anything else.
  pub resource_redshift_default_privileges_create-Takes :
      (w : World env DefaultPrivilegesData) (t : env.State)
      → validate_privileges env (map (upper env) w.d.privileges) w.d.object_type ≡ true
      → Takes env (defaults_script env w.d) w.state t
      → resource_redshift_default_privileges_create env w
        ≡ resource_redshift_default_privileges_read_impl env (record w {
          state = t;
          tx = none;
          d = record w.d { id = generate_default_privileges_id w.d };
        })
  unfolding resource_redshift_default_privileges_create after_commit
  resource_redshift_default_privileges_create-Takes w t valid k = rw valid (
      transaction_of_Takes env w.d (apply_defaults env) (set_defaults env w.d) tx_commit
        (after_commit env) (defaults_script env w.d) w t (apply_defaults_lem env w.d) refl
        (Accepts-set_defaults env w.d) (tx_commit-IsCommit env) k
        (Keeps-after_defaults env T I _ refl))
