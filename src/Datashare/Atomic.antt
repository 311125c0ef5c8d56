-- ===== src/Datashare/Atomic.antt =====
-- Creating, changing, dropping and reading a datashare (resource_redshift_datashare.go).
use terraform_provider_redsh.Base.{String, false, [], ◌∷◌, ◌++◌, none, some, ◌≡◌, refl, arith}
use terraform_provider_redsh.Errors.{Error, ok, err, is_ok, first_row}
use terraform_provider_redsh.External.{
  Env, IsTransactional, HasIdleCommit, FailsAfterError, AbortsAfterError, text, flag,
}
use terraform_provider_redsh.Effects.{World, pure, lift, tx_exec, tx_query, tx_query_row}
use terraform_provider_redsh.Effects.Atomic.{Runs-exec}
use terraform_provider_redsh.Effects.Keeps.{Keeps, Keeps-none, Keeps-refl, Keeps-bind}
use terraform_provider_redsh.Effects.ReadOnly.{
  Keeps-tx_query_row, Keeps-tx_query, Keeps-read_transaction,
}
use terraform_provider_redsh.Effects.Finish.{
  Finishes, Finishes-last, Finishes-commit, wrapped-IsCommit, tx_commit-IsCommit, AllOrNothing,
  AllOrNothing-transaction,
}
use terraform_provider_redsh.Effects.Aborted.{Finishes-Proceeds}
use terraform_provider_redsh.Datashare.{
  DatashareData, alter_query, share_by_id, share_name_by_id, schemas_of_share, collect_schemas,
  read_datashare_schemas, read_in_transaction, resource_redshift_datashare_read,
  drop_datashare_query, add_schema, tolerate_duplicate,
}
use terraform_provider_redsh.Datashare.Handlers.{
  create_and_fill, apply_create, resource_redshift_datashare_create, send_changes, apply_update,
  resource_redshift_datashare_update, drop_found, apply_delete, resource_redshift_datashare_delete,
}
use terraform_provider_redsh.Datashare.Sends.{
  owner_script, publicly_accessible_script, schemas_script, create_script, Sends-changes,
  Sends-create_and_fill,
}

module _ (env : Env) where
  Keeps-read_datashare_schemas :
      (share_name : String) (w : World env DatashareData)
      → Keeps env (read_datashare_schemas env share_name w) w
  unfolding read_datashare_schemas
  Keeps-read_datashare_schemas share_name w =
      Keeps-bind (tx_query (text ∷ []) (schemas_of_share share_name) w) _ w
        (Keeps-tx_query (text ∷ []) (schemas_of_share share_name) w)
        (λ rows.
          Keeps-bind (lift (collect_schemas env rows []) _) _ _ (Keeps-refl _ _)
            (λ found. Keeps-none (ok tt) _ _))

  Keeps-read_in_transaction :
      (w : World env DatashareData) → Keeps env (read_in_transaction env w) w
  unfolding read_in_transaction
  Keeps-read_in_transaction w =
      let columns = text ∷ text ∷ flag ∷ text ∷ text ∷ text ∷ [] in
      let r = tx_query_row columns (share_by_id w.d.id) w in
      Keeps-bind r _ w (Keeps-tx_query_row columns (share_by_id w.d.id) w) (λ row.
        let k = Keeps-read_datashare_schemas row.0 (record r.1 {
          d = record r.1.d {
            name = row.0;
            owner = row.1.0;
            publicly_accessible = row.1.1.0;
            producer_account = row.1.1.1.0;
            producer_namespace = row.1.1.1.1.0;
            created = row.1.1.1.1.1.0;
          };
        }) in
        record { state = k.state; tx = k.tx })

  -- In a database that takes no statement after a failed one, adding a schema to a share fails if the
  -- first statement does, also with the error that the share has the schema already.
  pub add_schema_of_failed :
      FailsAfterError env
      → AbortsAfterError env
      → (share_name schema_name : String) (w : World env DatashareData) (x : env.Session)
        (e : Error)
      → w.tx ≡ some x
      → (env.exec (alter_query env share_name "ADD SCHEMA" schema_name) x).0 ≡ err e
      → is_ok (add_schema env share_name schema_name w).0 ≡ false
  unfolding add_schema tx_exec tolerate_duplicate
  add_schema_of_failed F A share_name schema_name w x e h f = ground (
    arith,
    f,
    A.exec-exec (alter_query env share_name "SET INCLUDENEW = TRUE FOR SCHEMA" schema_name)
        (alter_query env share_name "ADD SCHEMA" schema_name) x e f,
  )

module _ (env : Env) (T : IsTransactional env) (I : HasIdleCommit env) where
  Keeps-datashare_read :
      (w : World env DatashareData)
      → w.tx ≡ none
      → Keeps env (resource_redshift_datashare_read env w) w
  unfolding resource_redshift_datashare_read
  Keeps-datashare_read w h =
      Keeps-read_transaction env T I (read_in_transaction env) _ w (tx_commit-IsCommit env) h
        (Keeps-read_in_transaction env)

  module _ (F : FailsAfterError env) (A : AbortsAfterError env) where
    Finishes-apply_update :
        (w : World env DatashareData) (x : env.Session)
        → w.tx ≡ some x
        → Finishes env T
            (apply_update env w)
            (owner_script env w.d ++ (publicly_accessible_script env w.d ++ schemas_script env w.d))
            x
    unfolding apply_update
    Finishes-apply_update w x h =
        Finishes-Proceeds env T F A (send_changes env w.d) _ (resource_redshift_datashare_read env)
          _ w x (Sends-changes env T F A w.d w x h) (wrapped-IsCommit env _) Keeps-datashare_read

    -- In a database that takes no statement after a failed one, an update of a datashare sends, in
    -- one transaction, the owner and the flag if they change, the statements for the schemas that
    -- were added and then those for the ones that were removed, each with success; or it leaves the
    -- database as it was. After a success it is the former, although some errors are passed over.
    pub resource_redshift_datashare_update-AllOrNothing :
        (w : World env DatashareData)
        → w.tx ≡ none
        → AllOrNothing env T
            (resource_redshift_datashare_update env w)
            (λ _.
              owner_script env w.d
              ++ (publicly_accessible_script env w.d ++ schemas_script env w.d))
            w
    unfolding resource_redshift_datashare_update
    resource_redshift_datashare_update-AllOrNothing w h =
        AllOrNothing-transaction env T (apply_update env) _ w h
          (λ x b. Finishes-apply_update _ x refl)

    Finishes-apply_create :
        (w : World env DatashareData) (x : env.Session)
        → w.tx ≡ some x
        → Finishes env T (apply_create env w) (create_script env w.d) x
    unfolding apply_create
    Finishes-apply_create w x h =
        Finishes-Proceeds env T F A (create_and_fill env w.d) _
          (resource_redshift_datashare_read env) _ w x (Sends-create_and_fill env T F A w.d w x h)
          (wrapped-IsCommit env _) Keeps-datashare_read

    -- In a database that takes no statement after a failed one, a datashare is created, given its
    -- owner and filled with its schemas in one transaction, each statement with success; or the
    -- database is as it was. After a success it is the former.
    pub resource_redshift_datashare_create-AllOrNothing :
        (w : World env DatashareData)
        → w.tx ≡ none
        → AllOrNothing env T
            (resource_redshift_datashare_create env w)
            (λ _. create_script env w.d)
            w
    unfolding resource_redshift_datashare_create
    resource_redshift_datashare_create-AllOrNothing w h =
        AllOrNothing-transaction env T (apply_create env) _ w h
          (λ x b. Finishes-apply_create _ x refl)

module _ (env : Env) (T : IsTransactional env) where
  Finishes-drop_found :
      (share_name : String) (w : World env DatashareData) (x : env.Session)
      → w.tx ≡ some x
      → Finishes env T
          (drop_found env (ok (share_name, tt)) w)
          (drop_datashare_query env share_name ∷ [])
          x
  unfolding drop_found
  Finishes-drop_found share_name w x h =
      let q = drop_datashare_query env share_name in
      let sent = Runs-exec env T q w x h in
      Finishes-last env T (tx_exec q w) _ _ w x sent (λ _ _.
        Finishes-commit env T _ (pure tt) _ sent.after sent.is_open (wrapped-IsCommit env _)
          (Keeps-refl _ _))

  apply_delete_of_present :
      (w : World env DatashareData) (x : env.Session) (share_name : String)
      → first_row (env.query (text ∷ []) (share_name_by_id w.d.id) x) ≡ ok (share_name, tt)
      → apply_delete env (record w { tx = some x })
        ≡ drop_found env (ok (share_name, tt)) (record w { tx = some x })
  unfolding apply_delete tx_query_row
  apply_delete_of_present w x share_name e = rw e refl

  -- The delete of a datashare whose name the transaction finds drops it in one statement, or leaves
  -- the database as it was; after a success, the former.
  resource_redshift_datashare_delete-AllOrNothing :
      (w : World env DatashareData) (share_name : String)
      → w.tx ≡ none
      → ((x : env.Session)
          → env.begin w.state ≡ ok x
          → first_row (env.query (text ∷ []) (share_name_by_id w.d.id) x) ≡ ok (share_name, tt))
      → AllOrNothing env T
          (resource_redshift_datashare_delete env w)
          (λ _. drop_datashare_query env share_name ∷ [])
          w
  unfolding resource_redshift_datashare_delete
  resource_redshift_datashare_delete-AllOrNothing w share_name h present =
      AllOrNothing-transaction env T (apply_delete env) _ w h (λ x b.
        rw (apply_delete_of_present w x share_name (present x b))
          (Finishes-drop_found share_name _ x refl))
