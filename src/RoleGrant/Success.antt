-- ===== src/RoleGrant/Success.antt =====
-- What granting a role does when the database takes it (resource_redshift_role_grant.go).
use terraform_provider_redsh.Base.{none, ◌≡◌, refl, ap}
use terraform_provider_redsh.External.{Env}
use terraform_provider_redsh.Effects.{World, ◌>>◌, wrapped, tx_exec, tx_commit}
use terraform_provider_redsh.Effects.Accepts.{Accepts-exec, Takes, transaction_of_Takes}
use terraform_provider_redsh.Effects.Finish.{wrapped-IsCommit}
use terraform_provider_redsh.Helpers.{upper}
use terraform_provider_redsh.RoleGrant.{
  RoleGrantData, grant_role_query, generate_role_grant_id, resource_redshift_role_grant_read,
  after_commit, apply_role_grant, resource_redshift_role_grant_create,
}
use terraform_provider_redsh.RoleGrant.Atomic.{role_grant_script, Keeps-after_role_grant}

module _ (env : Env) where
  apply_role_grant_lem :
      (d : RoleGrantData) (v : World env RoleGrantData)
      → v.d ≡ d
      → apply_role_grant env v
        ≡ (wrapped "could not grant role" (
                tx_exec
                  (grant_role_query env d.role_name (upper env d.grant_to_type) d.grant_to_name))
              >> (wrapped "could not commit transaction" tx_commit >> after_commit env))
            v
  unfolding apply_role_grant
  apply_role_grant_lem d v = ap (λ e.
      (wrapped "could not grant role"
            (tx_exec (grant_role_query env e.role_name (upper env e.grant_to_type) e.grant_to_name))
          >> (wrapped "could not commit transaction" tx_commit >> after_commit env))
        v)

  -- If the database takes the statement and commits it, granting a role is exactly the read of the
  -- new state, with the id set: no error comes from anything else, and no transaction stays open.
  resource_redshift_role_grant_create-Takes :
      (w : World env RoleGrantData) (t : env.State)
      → Takes env (role_grant_script env w.d) w.state t
      → resource_redshift_role_grant_create env w
        ≡ resource_redshift_role_grant_read env (record w {
          state = t;
          tx = none;
          d = record w.d {
            id =
                generate_role_grant_id env w.d.role_name
                  (upper env w.d.grant_to_type)
                  w.d.grant_to_name;
          };
        })
  unfolding resource_redshift_role_grant_create after_commit
  resource_redshift_role_grant_create-Takes w t k =
      transaction_of_Takes env w.d (apply_role_grant env)
        (wrapped "could not grant role" (
          tx_exec
            (grant_role_query env w.d.role_name (upper env w.d.grant_to_type) w.d.grant_to_name)))
        (wrapped "could not commit transaction" tx_commit) (after_commit env)
        (role_grant_script env w.d) w t (apply_role_grant_lem w.d) refl
        (Accepts-exec env w.d "could not grant role" _) (wrapped-IsCommit env _) k
        (Keeps-after_role_grant env _)
