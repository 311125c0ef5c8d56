-- ===== src/DataSources/ReadOnly.antt =====
-- The reads of the data sources leave the database alone.
use terraform_provider_redsh.Base.{String, List, [], ◌∷◌, is_empty}
use terraform_provider_redsh.Strings.Decimal.{atoi}
use terraform_provider_redsh.Errors.{ok}
use terraform_provider_redsh.External.{Env, text, flag, sql}
use terraform_provider_redsh.Effects.{World, lift, db_query, db_query_row}
use terraform_provider_redsh.Effects.Keeps.{
  Keeps, Keeps-refl, Keeps-none, Keeps-bind, Keeps-if, Keeps-db_query, Keeps-db_query_row,
}
use terraform_provider_redsh.User.Handlers.{connection_limit_number}
use terraform_provider_redsh.Database.{connection_limit_of}
use terraform_provider_redsh.Schema.{SchemaData}
use terraform_provider_redsh.Schema.Atomic.{Keeps-read_by_type}
use terraform_provider_redsh.DataSources.{
  GroupSource, UserSource, NamespaceSource, DatabaseSource, scan_users, users_of_group, id_of_group,
  user_info_by_name, valid_until_by_id, database_by_name, schema_by_name, set_group, finish_group,
  data_source_redshift_group_read, data_source_redshift_user_read,
  data_source_redshift_namespace_read, data_source_redshift_database_read,
  data_source_redshift_schema_read,
}

module _ (env : Env) where
  Keeps-finish_group :
      (found : String × List String) (w : World env GroupSource)
      → Keeps env (finish_group env found w) w
  unfolding finish_group set_group
  Keeps-finish_group (group_id, group_users) w =
      Keeps-if (is_empty group_users) _ _ w
        (Keeps-bind (db_query_row (text ∷ []) (id_of_group w.d.name) w) _ w
          (Keeps-db_query_row (text ∷ []) (id_of_group w.d.name) w) (λ row. Keeps-none (ok tt) _ _))
        (Keeps-none (ok tt) _ w)

  Keeps-group_source :
      (w : World env GroupSource) → Keeps env (data_source_redshift_group_read env w) w
  unfolding data_source_redshift_group_read
  Keeps-group_source w =
      Keeps-bind (db_query (text ∷ text ∷ []) (users_of_group w.d.name) w) _ w
        (Keeps-db_query (text ∷ text ∷ []) (users_of_group w.d.name) w)
        (λ rows.
          Keeps-bind (lift (scan_users w.d.name rows "" []) _) _ _ (Keeps-refl _ _)
            (λ found. Keeps-finish_group found _))

  Keeps-user_source :
      (w : World env UserSource) → Keeps env (data_source_redshift_user_read env w) w
  unfolding data_source_redshift_user_read
  Keeps-user_source w =
      let columns = text ∷ flag ∷ flag ∷ text ∷ text ∷ text ∷ [] in
      Keeps-bind (db_query_row columns (user_info_by_name w.d.name) w) _ w
        (Keeps-db_query_row columns (user_info_by_name w.d.name) w)
        (λ row.
          Keeps-bind (db_query_row (text ∷ []) (valid_until_by_id row.0) _) _ _
            (Keeps-db_query_row (text ∷ []) (valid_until_by_id row.0) _)
            (λ until.
              Keeps-bind (lift (connection_limit_number row.1.1.1.1.0) _) _ _ (Keeps-refl _ _)
                (λ limit.
                  Keeps-bind (lift (atoi row.1.1.1.1.1.0) _) _ _ (Keeps-refl _ _)
                    (λ timeout. Keeps-none (ok tt) _ _))))

  Keeps-namespace_source :
      (w : World env NamespaceSource) → Keeps env (data_source_redshift_namespace_read env w) w
  unfolding data_source_redshift_namespace_read
  Keeps-namespace_source w =
      let q = sql "SELECT CURRENT_NAMESPACE" [] in
      Keeps-bind (db_query_row (text ∷ []) q w) _ w (Keeps-db_query_row (text ∷ []) q w)
        (λ row. Keeps-none (ok tt) _ _)

  Keeps-database_source :
      (w : World env DatabaseSource) → Keeps env (data_source_redshift_database_read env w) w
  unfolding data_source_redshift_database_read
  Keeps-database_source w =
      let columns = text ∷ text ∷ text ∷ text ∷ text ∷ text ∷ text ∷ [] in
      Keeps-bind (db_query_row columns (database_by_name w.d.name) w) _ w
        (Keeps-db_query_row columns (database_by_name w.d.name) w)
        (λ row.
          Keeps-bind (lift (connection_limit_of row.1.1.0) _) _ _ (Keeps-refl _ _)
            (λ limit. Keeps-none (ok tt) _ _))

  Keeps-schema_source :
      (w : World env SchemaData) → Keeps env (data_source_redshift_schema_read env w) w
  unfolding data_source_redshift_schema_read
  Keeps-schema_source w =
      let columns = text ∷ text ∷ text ∷ [] in
      let r = db_query_row columns (schema_by_name w.d.database w.d.name) w in
      Keeps-bind r _ w (Keeps-db_query_row columns (schema_by_name w.d.database w.d.name) w) (λ row.
        let k =
          Keeps-read_by_type env row.1.1.0
            (record r.1 { d = record r.1.d { id = row.0; owner = row.1.0 } }) in
        record { state = k.state; tx = k.tx })

  -- The read of each of the five data sources leaves the database as it is, and a transaction that
  -- is open or not.
  data_sources-Keeps :
      (g : World env GroupSource) (u : World env UserSource) (n : World env NamespaceSource)
      (b : World env DatabaseSource) (s : World env SchemaData)
      → Keeps env (data_source_redshift_group_read env g) g
        × (Keeps env (data_source_redshift_user_read env u) u
            × (Keeps env (data_source_redshift_namespace_read env n) n
                × (Keeps env (data_source_redshift_database_read env b) b
                    × Keeps env (data_source_redshift_schema_read env s) s)))
  data_sources-Keeps g u n b s = (
    Keeps-group_source g,
    (
      Keeps-user_source u,
      (Keeps-namespace_source n, (Keeps-database_source b, Keeps-schema_source s)),
    ),
  )
