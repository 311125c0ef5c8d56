-- ===== src/Schema/Atomic.antt =====
-- Creating, changing and dropping a schema (resource_redshift_schema.go).
use terraform_provider_redsh.Base.{
  String, List, [], ◌∷◌, ◌++◌, Option, none, some, ◌==◌, if◌then◌else◌, ◌≡◌, refl, arith, inl, inr,
  Bool-cases,
}
use terraform_provider_redsh.Strings.Decimal.{int_eq}
use terraform_provider_redsh.Errors.{Result, ok, err}
use terraform_provider_redsh.External.{Env, IsTransactional, Cells, text, number}
use terraform_provider_redsh.Effects.{
  World, pure, lift, tx_exec, tx_query_row, db_query, db_query_row,
}
use terraform_provider_redsh.Effects.Atomic.{
  Runs-exec, Runs-query_row, Runs-bind, Runs-none, Runs-last,
}
use terraform_provider_redsh.Effects.Sends.{Sends, Sends-exec, Sends-fail, Sends-unless, Sends-then}
use terraform_provider_redsh.Effects.Keeps.{
  Keeps, Keeps-refl, Keeps-none, Keeps-bind, Keeps-db_query_row,
}
use terraform_provider_redsh.Effects.Finish.{
  Finishes-sent, tx_commit-IsCommit, wrapped-IsCommit, AllOrNothing, AllOrNothing-transaction,
}
use terraform_provider_redsh.Helpers.{lower}
use terraform_provider_redsh.Schema.{
  SchemaData, oid_by_schema_name, config_query, create_internal_query, create_external_query,
  schema_owner_query, rename_schema_query, schema_quota_query, drop_schema_query,
}
use terraform_provider_redsh.Schema.Read.{
  schema_by_oid, external_by_oid, external_columns, external_row, read_source, is_serverless,
  set_quota, resource_redshift_schema_read_local, resource_redshift_schema_read_external,
  read_by_type, resource_redshift_schema_read_impl,
}
use terraform_provider_redsh.Schema.Handlers.{
  first_external, identify, resource_redshift_schema_create_internal, create_owner,
  create_with_config, resource_redshift_schema_create_external, create_by_kind, apply_create,
  resource_redshift_schema_create, set_schema_name, set_schema_owner, set_schema_quota,
  send_changes, apply_update, resource_redshift_schema_update, apply_drop,
  resource_redshift_schema_delete,
}

module _ (env : Env) where
  Keeps-is_serverless : (w : World env SchemaData) → Keeps env (is_serverless env w) w
  unfolding is_serverless db_query
  Keeps-is_serverless w = record { state = ground arith; tx = ground arith }

  Keeps-set_quota :
      (r : Result (Cells (number ∷ []))) (w : World env SchemaData)
      → Keeps env (set_quota env r w) w
  unfolding set_quota
  Keeps-set_quota (ok row) w = Keeps-none (ok tt) _ w
  Keeps-set_quota (err e) w = record { state = ground arith; tx = ground arith }

  Keeps-read_local :
      (w : World env SchemaData) → Keeps env (resource_redshift_schema_read_local env w) w
  unfolding resource_redshift_schema_read_local db_query_row
  Keeps-read_local w =
      Keeps-bind (is_serverless env w) _ w (Keeps-is_serverless w) (λ s. Keeps-set_quota _ _)

  Keeps-read_external :
      (w : World env SchemaData) → Keeps env (resource_redshift_schema_read_external env w) w
  unfolding resource_redshift_schema_read_external
  Keeps-read_external w =
      Keeps-bind (db_query_row external_columns (external_by_oid w.d.id) w) _ w
        (Keeps-db_query_row external_columns (external_by_oid w.d.id) w)
        (λ row.
          Keeps-bind (lift (read_source (external_row row)) _) _ _ (Keeps-refl _ _)
            (λ source. Keeps-none (ok tt) _ _))

  pub Keeps-read_by_type :
      (kind : String) (w : World env SchemaData) → Keeps env (read_by_type env kind w) w
  unfolding read_by_type
  Keeps-read_by_type kind w =
      let k = Keeps-read_local w in
      let l = Keeps-read_external w in
      record { state = ground (arith, k.state, l.state); tx = ground (arith, k.tx, l.tx) }

  Keeps-schema_read :
      (w : World env SchemaData) → Keeps env (resource_redshift_schema_read_impl env w) w
  unfolding resource_redshift_schema_read_impl
  Keeps-schema_read w =
      let columns = text ∷ text ∷ text ∷ [] in
      let r = db_query_row columns (schema_by_oid w.d.database w.d.id) w in
      Keeps-bind r _ w (Keeps-db_query_row columns (schema_by_oid w.d.database w.d.id) w) (λ row.
        let k =
          Keeps-read_by_type row.1.1.0
            (record r.1 { d = record r.1.d { name = row.0; owner = row.1.0 } }) in
        record { state = k.state; tx = k.tx })

  -- What a create sends: for an external schema, nothing without a source, and then the optional
  -- owner.
  abbrev external_script : SchemaData → Option String → List String
  external_script d none = []
  external_script d (some config) =
      create_external_query env d config
      ∷ (if d.owner == "" then [] else schema_owner_query env d ∷ [])

  abbrev pub create_schema_script : SchemaData → List String
  create_schema_script d =
      if (first_external d.external_schema).database_name == ""
      then create_internal_query env d ∷ []
      else external_script d (config_query (first_external d.external_schema))

  -- What an update sends: a statement for each attribute that changes, the new name first.
  abbrev pub update_schema_script : SchemaData → List String
  update_schema_script d =
      (if d.old_name == d.name then [] else rename_schema_query env d.old_name d.name ∷ [])
      ++ ((if d.old_owner == d.owner then [] else schema_owner_query env d ∷ [])
          ++ (if int_eq d.old_quota d.quota then [] else schema_quota_query env d ∷ []))

module _ (env : Env) (T : IsTransactional env) where
  Sends-identify : (d : SchemaData) → Sends env T (identify env d) []
  unfolding identify
  Sends-identify d w x h =
      let found = Runs-query_row env T (text ∷ []) (oid_by_schema_name (lower env d.name)) w x h in
      Runs-bind env T (tx_query_row (text ∷ []) (oid_by_schema_name (lower env d.name)) w) _ [] [] w
        x found (λ row _. Runs-none env T (ok tt) _ _ found.after found.is_open)

  Sends-create_with_config :
      (d : SchemaData) (config : Option String)
      → Sends env T (create_with_config env d config) (external_script env d config)
  unfolding create_with_config create_owner
  Sends-create_with_config d none w x h = Sends-fail env T _ _ w x h
  Sends-create_with_config d (some config) w x h =
      let q = create_external_query env d config in
      let sent = Runs-exec env T q w x h in
      let owned = if d.owner == "" then [] else schema_owner_query env d ∷ [] in
      Runs-bind env T (tx_exec q w) _ (q ∷ []) owned w x sent (λ _ _.
        let k =
          Sends-unless env T (d.owner == "") _ _ (Runs-exec env T (schema_owner_query env d))
            (tx_exec q w).1 sent.after sent.is_open in
        Runs-last env T (create_owner env d (tx_exec q w).1) _ owned (tx_exec q w).1 sent.after k
          (λ _ _. Sends-identify d _ k.after k.is_open))

  Sends-create_by_kind :
      (d : SchemaData) → Sends env T (create_by_kind env d) (create_schema_script env d)
  unfolding create_by_kind resource_redshift_schema_create_internal
      resource_redshift_schema_create_external
  Sends-create_by_kind d =
      elim (Bool-cases ((first_external d.external_schema).database_name == "")) [
        | inl internal ↦ rw internal (
            Sends-then env T (tx_exec (create_internal_query env d)) _ _ []
              (Runs-exec env T (create_internal_query env d)) (Sends-identify d))
        | inr external ↦
            rw external
              (Sends-create_with_config d (config_query (first_external d.external_schema)))
      ]

  -- A schema is created, and an external one given its owner, in one transaction, which also looks
  -- its id up; or the database is as it was. After a success it is the former.
  resource_redshift_schema_create-AllOrNothing :
      (w : World env SchemaData)
      → w.tx ≡ none
      → AllOrNothing env T
          (resource_redshift_schema_create env w)
          (λ _. create_schema_script env w.d)
          w
  unfolding resource_redshift_schema_create apply_create
  resource_redshift_schema_create-AllOrNothing w h =
      AllOrNothing-transaction env T (apply_create env) _ w h (λ x b.
        Finishes-sent env T (create_by_kind env w.d) _ (resource_redshift_schema_read_impl env) _ _
          x (Sends-create_by_kind w.d _ x refl) (wrapped-IsCommit env _)
          (λ v _. Keeps-schema_read env v))

  Sends-set_schema_name :
      (d : SchemaData)
      → Sends env T
          (set_schema_name env d)
          (if d.old_name == d.name then [] else rename_schema_query env d.old_name d.name ∷ [])
  unfolding set_schema_name
  Sends-set_schema_name d =
      Sends-unless env T (d.old_name == d.name) _ _ (elim (Bool-cases (d.name == "")) [
        | inl empty ↦ rw empty (Sends-fail env T _ _)
        | inr named ↦ rw named (Sends-exec env T _ _)
      ])

  Sends-changes : (d : SchemaData) → Sends env T (send_changes env d) (update_schema_script env d)
  unfolding send_changes set_schema_owner set_schema_quota
  Sends-changes d = Sends-then env T (set_schema_name env d) _ _ _ (Sends-set_schema_name d) (
      Sends-then env T (set_schema_owner env d) _ _ _
        (Sends-unless env T (d.old_owner == d.owner) _ _
          (Runs-exec env T (schema_owner_query env d)))
        (Sends-unless env T (int_eq d.old_quota d.quota) _ _
          (Runs-exec env T (schema_quota_query env d))))

  -- An update of a schema sends, in one transaction, a statement for each of the name, the owner and
  -- the quota that changes, in this order, or leaves the database as it was; after a success, the
  -- former.
  resource_redshift_schema_update-AllOrNothing :
      (w : World env SchemaData)
      → w.tx ≡ none
      → AllOrNothing env T
          (resource_redshift_schema_update env w)
          (λ _. update_schema_script env w.d)
          w
  unfolding resource_redshift_schema_update apply_update
  resource_redshift_schema_update-AllOrNothing w h =
      AllOrNothing-transaction env T (apply_update env) _ w h (λ x b.
        Finishes-sent env T (send_changes env w.d) _ (resource_redshift_schema_read_impl env) _ _ x
          (Sends-changes w.d _ x refl) (wrapped-IsCommit env _) (λ v _. Keeps-schema_read env v))

  -- An attempt to drop a schema drops it in one statement of one transaction, or leaves the database
  -- as it was; after a success, the former.
  pub resource_redshift_schema_delete-AllOrNothing :
      (w : World env SchemaData)
      → w.tx ≡ none
      → AllOrNothing env T
          (resource_redshift_schema_delete env w)
          (λ _. drop_schema_query env w.d ∷ [])
          w
  unfolding resource_redshift_schema_delete apply_drop
  resource_redshift_schema_delete-AllOrNothing w h =
      AllOrNothing-transaction env T (apply_drop env) _ w h (λ x b.
        Finishes-sent env T (tx_exec (drop_schema_query env w.d)) _ (pure tt) _ _ x
          (Runs-exec env T (drop_schema_query env w.d) _ x refl) (tx_commit-IsCommit env)
          (λ v _. Keeps-refl _ v))

  -- Creating a schema, with the owner of an external one, and updating it, with a statement for each
  -- of the name, the owner and the quota that changes, in this order, are all or nothing: the
  -- statements are sent in one transaction, or the database is as it was; after a success, the
  -- former.
  pub schema_handlers-AllOrNothing :
      (w : World env SchemaData)
      → w.tx ≡ none
      → AllOrNothing env T
          (resource_redshift_schema_create env w)
          (λ _. create_schema_script env w.d)
          w
        × AllOrNothing env T
            (resource_redshift_schema_update env w)
            (λ _. update_schema_script env w.d)
            w
  schema_handlers-AllOrNothing w h = (
    resource_redshift_schema_create-AllOrNothing w h,
    resource_redshift_schema_update-AllOrNothing w h,
  )
