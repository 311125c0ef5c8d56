-- ===== src/Grant/Success.antt =====
-- What creating a grant does when the database takes its statements (resource_redshift_grant.go).
use terraform_provider_redsh.Base.{
  String, List, [], ◌∷◌, none, some, is_empty, if◌then◌else◌, ◌≡◌, refl, sym, subst,
}
use terraform_provider_redsh.Errors.{ok}
use terraform_provider_redsh.External.{Env}
use terraform_provider_redsh.Effects.{World, M, ◌>>◌, wrapped, tx_exec, tx_commit}
use terraform_provider_redsh.Effects.Sends.{session_after}
use terraform_provider_redsh.Effects.Accepts.{
  Accepted, Accepts, Accepts-tx_exec, Accepts-unless, Accepts-then, Takes, then_assoc,
  transaction_of_Takes,
}
use terraform_provider_redsh.Effects.Finish.{wrapped-IsCommit}
use terraform_provider_redsh.Grant.{
  GrantData, get_database_name, create_grants_query, create_grants_revoke_query, generate_grant_id,
}
use terraform_provider_redsh.Grant.Read.{resource_redshift_grant_read_impl}
use terraform_provider_redsh.Grant.Handlers.{
  revoke_grants, create_grants, validate_parameters, after_commit, apply_grants,
  resource_redshift_grant_create,
}
use terraform_provider_redsh.Grant.Atomic.{grant_script, Keeps-after_commit}

module _ (env : Env) where
  -- An action that depends on the data accepts at given data what it accepts at its own.
  Accepts-at :
      (m : M env GrantData (Unit {0})) (qs : GrantData → List String)
      → ((w : World env GrantData) (x : env.Session)
          → w.tx ≡ some x
          → Accepted env x (qs w.d)
          → m w ≡ (ok tt, record w { tx = some (session_after env (qs w.d) x) }))
      → (d : GrantData) → Accepts env d m (qs d)
  Accepts-at m qs k d w x s h a =
      subst
        (λ e.
          Accepted env x (qs e)
          → m w ≡ (ok tt, record w { tx = some (session_after env (qs e) x) }))
        s (k w x h) a

  Accepts-revoke_grants :
      (name : String) (d : GrantData)
      → Accepts env d (revoke_grants env name) (create_grants_revoke_query env d name ∷ [])
  unfolding revoke_grants
  Accepts-revoke_grants name =
      Accepts-at (revoke_grants env name) (λ d. create_grants_revoke_query env d name ∷ [])
        (λ w x. Accepts-tx_exec env w.d (create_grants_revoke_query env w.d name) w x refl)

  Accepts-create_grants :
      (name : String) (d : GrantData)
      → Accepts env d
          (create_grants env name)
          (if is_empty d.privileges then [] else create_grants_query env d name ∷ [])
  unfolding create_grants
  Accepts-create_grants name =
      Accepts-at (create_grants env name)
        (λ d. if is_empty d.privileges then [] else create_grants_query env d name ∷ [])
        (λ w x.
          Accepts-unless env w.d (is_empty w.d.privileges)
            (tx_exec (create_grants_query env w.d name)) _
            (Accepts-tx_exec env w.d (create_grants_query env w.d name)) w x refl)

  apply_grants_lem :
      (configured name : String) (v : World env GrantData)
      → apply_grants env configured name v
        ≡ ((revoke_grants env name >> create_grants env name)
              >> (wrapped "could not commit transaction" tx_commit >> after_commit env configured))
            v
  unfolding apply_grants
  apply_grants_lem configured name v = sym (
      then_assoc env v.d (revoke_grants env name) (create_grants env name)
        (wrapped "could not commit transaction" tx_commit >> after_commit env configured) v)

  -- If the parameters are valid and the database takes the revocation and the grant and commits them,
  -- creating the grant is exactly the read of the new state, with the id set: no error comes from
  -- anything else, and no transaction stays open.
  pub resource_redshift_grant_create-Takes :
      (configured : String) (w : World env GrantData) (t : env.State)
      → validate_parameters env w.d ≡ none
      → Takes env (grant_script env configured w.d) w.state t
      → resource_redshift_grant_create env configured w
        ≡ resource_redshift_grant_read_impl env configured
            (record w { state = t; tx = none; d = record w.d { id = generate_grant_id env w.d } })
  unfolding resource_redshift_grant_create after_commit
  resource_redshift_grant_create-Takes configured w t valid k =
      let name = get_database_name configured w.d in
      rw valid (
        transaction_of_Takes env w.d (apply_grants env configured name)
          (revoke_grants env name >> create_grants env name)
          (wrapped "could not commit transaction" tx_commit) (after_commit env configured) _ w t
          (λ v e. apply_grants_lem configured name v) refl
          (Accepts-then env w.d (revoke_grants env name) (create_grants env name)
            (create_grants_revoke_query env w.d name ∷ []) _ (Accepts-revoke_grants name w.d)
            (Accepts-create_grants name w.d))
          (wrapped-IsCommit env _) k (Keeps-after_commit env configured _))
