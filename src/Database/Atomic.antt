-- ===== src/Database/Atomic.antt =====
-- Changing a database (resource_redshift_database.go).
use terraform_provider_redsh.Base.{
  String, List, [], ◌∷◌, ◌++◌, none, some, ◌==◌, if◌then◌else◌, ◌≡◌, refl, inl, inr, Bool-cases,
}
use terraform_provider_redsh.Strings.Decimal.{int_eq}
use terraform_provider_redsh.Errors.{ok}
use terraform_provider_redsh.External.{Env, IsTransactional, text}
use terraform_provider_redsh.Effects.{World, lift, db_query_row}
use terraform_provider_redsh.Effects.Atomic.{Runs-exec}
use terraform_provider_redsh.Effects.Sends.{Sends, Sends-exec, Sends-fail, Sends-unless, Sends-then}
use terraform_provider_redsh.Effects.Keeps.{
  Keeps, Keeps-refl, Keeps-none, Keeps-bind, Keeps-db_query_row,
}
use terraform_provider_redsh.Effects.Finish.{
  Finishes, Finishes-sent, wrapped-IsCommit, AllOrNothing, AllOrNothing-transaction,
}
use terraform_provider_redsh.Database.{
  DatabaseData, database_by_oid, connection_limit_of, alter_owner_query, alter_limit_query,
  rename_database_query, resource_redshift_database_read, set_database_name, set_database_owner,
  set_database_conn_limit, send_changes, apply_update, resource_redshift_database_update,
}

module _ (env : Env) where
  -- What an update sends: a statement for each attribute that changes, the new name first.
  abbrev pub update_database_script : DatabaseData → List String
  update_database_script d =
      (if d.old_name == d.name then [] else rename_database_query env d.old_name d.name ∷ [])
      ++ ((if d.old_owner == d.owner then [] else alter_owner_query env d.name d.owner ∷ [])
          ++ (if int_eq d.old_connection_limit d.connection_limit
              then []
              else alter_limit_query env d.name d.connection_limit ∷ []))

  pub Keeps-database_read :
      (w : World env DatabaseData) → Keeps env (resource_redshift_database_read env w) w
  unfolding resource_redshift_database_read
  Keeps-database_read w =
      let columns = text ∷ text ∷ text ∷ text ∷ text ∷ text ∷ text ∷ [] in
      Keeps-bind (db_query_row columns (database_by_oid w.d.id) w) _ w
        (Keeps-db_query_row columns (database_by_oid w.d.id) w)
        (λ row.
          Keeps-bind (lift (connection_limit_of row.1.1.0) _) _ _ (Keeps-refl _ _)
            (λ limit. Keeps-none (ok tt) _ _))

module _ (env : Env) (T : IsTransactional env) where
  Sends-set_database_name :
      (d : DatabaseData)
      → Sends env T
          (set_database_name env d)
          (if d.old_name == d.name then [] else rename_database_query env d.old_name d.name ∷ [])
  unfolding set_database_name
  Sends-set_database_name d =
      Sends-unless env T (d.old_name == d.name) _ _ (elim (Bool-cases (d.name == "")) [
        | inl empty ↦ rw empty (Sends-fail env T _ _)
        | inr named ↦ rw named (Sends-exec env T _ _)
      ])

  Sends-changes :
      (d : DatabaseData) → Sends env T (send_changes env d) (update_database_script env d)
  unfolding send_changes set_database_owner set_database_conn_limit
  Sends-changes d = Sends-then env T (set_database_name env d) _ _ _ (Sends-set_database_name d) (
      Sends-then env T (set_database_owner env d) _ _ _
        (Sends-unless env T (d.old_owner == d.owner) _ _
          (Runs-exec env T (alter_owner_query env d.name d.owner)))
        (Sends-unless env T (int_eq d.old_connection_limit d.connection_limit) _ _
          (Runs-exec env T (alter_limit_query env d.name d.connection_limit))))

  Finishes-apply_update :
      (w : World env DatabaseData) (x : env.Session)
      → w.tx ≡ some x
      → Finishes env T (apply_update env w) (update_database_script env w.d) x
  unfolding apply_update
  Finishes-apply_update w x h =
      Finishes-sent env T (send_changes env w.d) _ (resource_redshift_database_read env) _ w x
        (Sends-changes w.d w x h) (wrapped-IsCommit env _) (λ v _. Keeps-database_read env v)

  -- An update of a database sends, in one transaction, a statement for each of the name, the owner
  -- and the connection limit that changes, in this order, or leaves the database as it was; after a
  -- success, the former.
  pub resource_redshift_database_update-AllOrNothing :
      (w : World env DatabaseData)
      → w.tx ≡ none
      → AllOrNothing env T
          (resource_redshift_database_update env w)
          (λ _. update_database_script env w.d)
          w
  unfolding resource_redshift_database_update
  resource_redshift_database_update-AllOrNothing w h =
      AllOrNothing-transaction env T (apply_update env) _ w h
        (λ x b. Finishes-apply_update _ x refl)
