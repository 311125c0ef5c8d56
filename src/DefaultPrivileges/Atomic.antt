-- ===== src/DefaultPrivileges/Atomic.antt =====
-- What the create and the delete of resource_redshift_default_privileges.go send.
use terraform_provider_redsh.Base.{
  ℕ, String, Bool, true, false, List, [], ◌∷◌, none, some, map, is_empty, ◌==◌, if◌then◌else◌, ◌≡◌,
  ◌∙◌, refl, arith,
}
use terraform_provider_redsh.Errors.{Result, ok, err}
use terraform_provider_redsh.External.{
  Env, IsTransactional, HasIdleCommit, Query, number, flag, str, num, acl, user, group, defaults,
}
use terraform_provider_redsh.Effects.{World, ◌>>=◌, pure, wrapped, tx_exec, tx_commit, tx_query_row}
use terraform_provider_redsh.Effects.Atomic.{Runs, Runs-exec, Runs-unless}
use terraform_provider_redsh.Effects.ReadOnly.{Keeps-tx_query_row, Keeps-read_transaction}
use terraform_provider_redsh.Effects.Keeps.{Keeps, Keeps-refl, Keeps-bind, Keeps-if, Keeps-wrapping}
use terraform_provider_redsh.Effects.Finish.{
  wrapped-IsCommit, Finishes, Finishes-last, Finishes-bind, Finishes-commit, tx_commit-IsCommit,
  AllOrNothing, AllOrNothing-transaction, AllOrNothing-check,
}
use terraform_provider_redsh.Helpers.{
  upper, validate_privileges, get_group_id_from_name, get_user_id_from_name,
  get_schema_id_from_name,
}
use terraform_provider_redsh.DefaultPrivileges.{
  DefaultPrivilegesData, is_set, Flags, generate_default_privileges_id,
  create_alter_defaults_grant_query, create_alter_defaults_revoke_query, set_privileges_of_row,
  read_group_table_default_privileges, look_up_schema, look_up_entity, read_in_transaction,
  resource_redshift_default_privileges_read_impl, apply_revoke,
  resource_redshift_default_privileges_delete, grant_defaults, after_commit, apply_defaults,
  resource_redshift_default_privileges_create,
}

module _ (env : Env) where
  -- Everything is revoked, and then the privileges are granted, in capitals, if there are any.
  abbrev pub defaults_script : DefaultPrivilegesData → List String
  defaults_script d =
      create_alter_defaults_revoke_query env d
      ∷ (if is_empty (map (upper env) d.privileges)
          then []
          else create_alter_defaults_grant_query env d (map (upper env) d.privileges) ∷ [])

  Keeps-set_privileges_of_row :
      (r : Result Flags) (w : World env DefaultPrivilegesData)
      → Keeps env (set_privileges_of_row env r w) w
  unfolding set_privileges_of_row
  Keeps-set_privileges_of_row (ok row) w = record { state = refl; tx = refl }
  Keeps-set_privileges_of_row (err e) w = record { state = ground arith; tx = ground arith }

  Keeps-table_defaults :
      (a b c : ℕ) (u : Bool) (w : World env DefaultPrivilegesData)
      → Keeps env (read_group_table_default_privileges env a b c u w) w
  unfolding read_group_table_default_privileges
  Keeps-table_defaults a b c u w =
      let row =
        Keeps-tx_query_row (flag ∷ flag ∷ flag ∷ flag ∷ flag ∷ flag ∷ flag ∷ flag ∷ [])
          (acl defaults (if u then user else group) "rwadDxRt"
            (num b ∷ num a ∷ str "r" ∷ num c ∷ []))
          w in
      let k = λ (r : Result Flags) (v : World env DefaultPrivilegesData).
        Keeps-set_privileges_of_row r v in
      record { state = (k _ _).state ∙ row.state; tx = (k _ _).tx ∙ row.tx }

  -- A lookup of an id, whose error gets a text in front.
  Keeps-look_up :
      {A : Type 0} (q : Query) (about : String) (f : ℕ → A) (w : World env DefaultPrivilegesData)
      → Keeps env
          ((wrapped about (tx_query_row (number ∷ []) q >>= λ row. pure row.0) >>= λ id.
              pure (f id))
            w)
          w
  Keeps-look_up q about f w =
      let row = Keeps-tx_query_row (number ∷ []) q w in
      let id =
        Keeps-bind (tx_query_row (number ∷ []) q w) (λ row. pure row.0) w row
          (λ r. Keeps-refl _ _) in
      Keeps-bind _ (λ id. pure (f id)) w (Keeps-wrapping about _ w id) (λ n. Keeps-refl _ _)

  Keeps-look_up_schema :
      (d : DefaultPrivilegesData) (w : World env DefaultPrivilegesData)
      → Keeps env (look_up_schema env d w) w
  unfolding look_up_schema get_schema_id_from_name
  Keeps-look_up_schema d w =
      Keeps-if (is_set d.schema) _ _ w
        (Keeps-wrapping _ _ w (Keeps-bind _ _ w (Keeps-tx_query_row _ _ w) (λ r. Keeps-refl _ _)))
        (Keeps-refl _ w)

  Keeps-look_up_entity :
      (d : DefaultPrivilegesData) (w : World env DefaultPrivilegesData)
      → Keeps env (look_up_entity env d w) w
  unfolding look_up_entity get_group_id_from_name get_user_id_from_name
  Keeps-look_up_entity d w =
      Keeps-if (is_set d.group_name) _ _ w (Keeps-look_up _ _ (λ id. (id, false)) w) (
        Keeps-if (is_set d.user_name) _ _ w (Keeps-look_up _ _ (λ id. (id, true)) w)
          (Keeps-refl _ w))

  Keeps-read_in_transaction :
      (w : World env DefaultPrivilegesData) → Keeps env (read_in_transaction env w) w
  unfolding read_in_transaction get_user_id_from_name
  Keeps-read_in_transaction w = Keeps-bind _ _ w (Keeps-look_up_schema w.d w) (λ schema_id.
      Keeps-bind _ _ _ (Keeps-look_up_entity w.d _) (λ entity.
        Keeps-bind _ _ _
          (Keeps-wrapping _ _ _ (Keeps-bind _ _ _ (Keeps-tx_query_row _ _ _) (λ r. Keeps-refl _ _)))
          (λ owner_id.
            Keeps-if (upper env w.d.object_type == "TABLE") _ _ _
              (Keeps-wrapping _ _ _ (Keeps-table_defaults _ _ _ _ _)) (Keeps-refl _ _))))

module _ (env : Env) (T : IsTransactional env) where
  Finishes-apply_revoke :
      (w : World env DefaultPrivilegesData) (x : env.Session)
      → w.tx ≡ some x
      → Finishes env T (apply_revoke env w) (create_alter_defaults_revoke_query env w.d ∷ []) x
  unfolding apply_revoke
  Finishes-apply_revoke w x h =
      let q = create_alter_defaults_revoke_query env w.d in
      let sent = Runs-exec env T q w x h in
      Finishes-last env T (tx_exec q w) _ _ w x sent (λ _ _.
        Finishes-commit env T _ (pure tt) _ sent.after sent.is_open (tx_commit-IsCommit env)
          (Keeps-refl _ _))

  -- Deleting default privileges sends the revocation in a transaction of its own, or leaves the
  -- database as it was; after a success, the former.
  resource_redshift_default_privileges_delete-AllOrNothing :
      (w : World env DefaultPrivilegesData)
      → w.tx ≡ none
      → AllOrNothing env T
          (resource_redshift_default_privileges_delete env w)
          (λ _. create_alter_defaults_revoke_query env w.d ∷ [])
          w
  unfolding resource_redshift_default_privileges_delete
  resource_redshift_default_privileges_delete-AllOrNothing w h =
      AllOrNothing-transaction env T (apply_revoke env)
        (λ _. create_alter_defaults_revoke_query env w.d ∷ []) w h
        (λ x b. Finishes-apply_revoke _ x refl)

  module _ (I : HasIdleCommit env) where
    pub Keeps-after_defaults :
        (w : World env DefaultPrivilegesData) → w.tx ≡ none → Keeps env (after_commit env w) w
    unfolding after_commit resource_redshift_default_privileges_read_impl
    Keeps-after_defaults w h =
        let v = record w { d = record w.d { id = generate_default_privileges_id w.d } } in
        let k =
          Keeps-read_transaction env T I (read_in_transaction env) _ v (wrapped-IsCommit env _) h
            (λ u. Keeps-read_in_transaction env u) in
        record { state = k.state; tx = k.tx }

    Runs-grant_defaults :
        (d : DefaultPrivilegesData) (l : List String) (w : World env DefaultPrivilegesData)
        (x : env.Session)
        → w.tx ≡ some x
        → Runs env T
            (grant_defaults env d l w)
            (if is_empty l then [] else create_alter_defaults_grant_query env d l ∷ [])
            w
            x
    unfolding grant_defaults
    Runs-grant_defaults d l w x h =
        let q = create_alter_defaults_grant_query env d l in
        Runs-unless env T (is_empty l) (tx_exec q) _ w x h (Runs-exec env T q w x h)

    tx_commit_closes : (w : World env DefaultPrivilegesData) → (tx_commit w).1.tx ≡ none
    unfolding tx_commit
    tx_commit_closes w = ground arith

    Finishes-apply_defaults :
        (w : World env DefaultPrivilegesData) (x : env.Session)
        → w.tx ≡ some x
        → Finishes env T (apply_defaults env w) (defaults_script env w.d) x
    unfolding apply_defaults
    Finishes-apply_defaults w x h =
        let q = create_alter_defaults_revoke_query env w.d in
        let l = map (upper env) w.d.privileges in
        let revoked = Runs-exec env T q w x h in
        let v = (tx_exec q w).1 in
        Finishes-bind env T (tx_exec q w) _ (q ∷ []) _ w x revoked (λ _ _.
          let granted = Runs-grant_defaults w.d l v revoked.after revoked.is_open in
          Finishes-last env T (grant_defaults env w.d l v) _ _ v revoked.after granted (λ _ _.
            Finishes-commit env T _ (after_commit env) _ granted.after granted.is_open
              (tx_commit-IsCommit env) (Keeps-after_defaults _ (tx_commit_closes _))))

    -- Setting default privileges sends, in one transaction, the revocation and then the grant of the
    -- privileges that remain; or it leaves the database as it was. After a success it is the former,
    -- and no transaction stays open, although the read that follows opens one of its own.
    pub resource_redshift_default_privileges_create-AllOrNothing :
        (w : World env DefaultPrivilegesData)
        → w.tx ≡ none
        → AllOrNothing env T
            (resource_redshift_default_privileges_create env w)
            (λ _. defaults_script env w.d)
            w
    unfolding resource_redshift_default_privileges_create
    resource_redshift_default_privileges_create-AllOrNothing w h =
        AllOrNothing-check env T
          (if validate_privileges env (map (upper env) w.d.privileges) w.d.object_type
            then none
            else some "invalid privileges list")
          _ _ w h
          (λ _.
            AllOrNothing-transaction env T (apply_defaults env) (λ _. defaults_script env w.d) w h
              (λ x b. Finishes-apply_defaults _ x refl))
