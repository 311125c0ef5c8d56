-- ===== src/Database/Create.antt =====
-- Creating a database from a datashare (resource_redshift_database.go): a statement outside of any
-- transaction, and a transaction.
use terraform_provider_redsh.Base.{
  String, List, [], ◌∷◌, ◌++◌, none, some, ◌==◌, if◌then◌else◌, ◌≡◌, ◌⊎◌, refl, inl, inr, true,
}
use terraform_provider_redsh.Strings.Decimal.{ℤ, int_eq}
use terraform_provider_redsh.Errors.{is_ok, first_row, Result-cases}
use terraform_provider_redsh.External.{Env, IsTransactional, text}
use terraform_provider_redsh.Effects.{
  World, ◌>>◌, continue, start_transaction, deferred_rollback, db_exec, db_query_row,
}
use terraform_provider_redsh.Effects.Atomic.{Runs-exec}
use terraform_provider_redsh.Effects.Script.{Committed}
use terraform_provider_redsh.Effects.Sends.{Sends, Sends-unless, Sends-then}
use terraform_provider_redsh.Effects.Finish.{
  Finishes-sent, tx_commit-IsCommit, AllOrNothing, AllOrNothing-transaction,
}
use terraform_provider_redsh.Helpers.{lower}
use terraform_provider_redsh.Database.{
  DatabaseData, oid_by_name, alter_owner_query, alter_limit_query, alter_owner, alter_limit,
  alter_created, create_from_datashare_query, create_and_identify,
  resource_redshift_database_create_from_datashare, resource_redshift_database_read,
}
use terraform_provider_redsh.Database.Atomic.{Keeps-database_read}

module _ (env : Env) where
  -- The statements of the transaction: an owner and a limit that are set.
  abbrev pub alter_script : DatabaseData → List String
  alter_script d =
      (if d.owner == "" then [] else alter_owner_query env d.name d.owner ∷ [])
      ++ (if int_eq d.connection_limit (ℤ.pos 0)
          then []
          else alter_limit_query env d.name d.connection_limit ∷ [])

module _ (env : Env) (T : IsTransactional env) where
  Sends-alters :
      (d : DatabaseData) → Sends env T (alter_owner env d >> alter_limit env d) (alter_script env d)
  unfolding alter_owner alter_limit
  Sends-alters d =
      Sends-then env T (alter_owner env d) _ _ _
        (Sends-unless env T (d.owner == "") _ _
          (Runs-exec env T (alter_owner_query env d.name d.owner)))
        (Sends-unless env T (int_eq d.connection_limit (ℤ.pos 0)) _ _
          (Runs-exec env T (alter_limit_query env d.name d.connection_limit)))

  alters-AllOrNothing :
      (w : World env DatabaseData)
      → w.tx ≡ none
      → AllOrNothing env T
          ((start_transaction >> deferred_rollback (alter_created env)) w)
          (λ _. alter_script env w.d)
          w
  unfolding alter_created
  alters-AllOrNothing w h = AllOrNothing-transaction env T (alter_created env) _ w h (λ x b.
      let v = record w { tx = some x } in
      Finishes-sent env T (alter_owner env w.d >> alter_limit env w.d) _
        (resource_redshift_database_read env) _ v x (Sends-alters w.d v x refl)
        (tx_commit-IsCommit env) (λ u _. Keeps-database_read env u))

  -- A database is created from a datashare in one statement outside of any transaction. The database
  -- that this leaves, whether it succeeds or not, is the one at the end, or the owner and the limit
  -- that are set have been changed in it by one transaction; after a success it is the latter.
  pub create_from_datashare_outcome :
      (w : World env DatabaseData)
      → w.tx ≡ none
      → let r = resource_redshift_database_create_from_datashare env w in
        let made = env.exec_db (create_from_datashare_query env w.d) w.state in
        (r.1.tx ≡ none)
        × (((r.1.state ≡ made.1) ⊎ Committed env (λ _. alter_script env w.d) made.1 r.1.state)
            × (is_ok r.0 ≡ true
                → (is_ok made.0 ≡ true)
                  × Committed env (λ _. alter_script env w.d) made.1 r.1.state))
  unfolding resource_redshift_database_create_from_datashare create_and_identify db_exec
      db_query_row
  create_from_datashare_outcome w h =
      let q = create_from_datashare_query env w.d in
      let s = (env.exec_db q w.state).1 in
      elim (Result-cases (env.exec_db q w.state).0) [
        | inr (e, f) ↦ rw (f, continue) (h, (inl refl, λ o. cc))
        | inl (u, f) ↦
            elim (Result-cases
              (first_row (env.query_db (text ∷ []) (oid_by_name (lower env w.d.name)) s))) [
                | inr (e, g) ↦ rw (f, continue, g) (h, (inl refl, λ o. cc))
                | inl (row, g) ↦
                    let k =
                      alters-AllOrNothing (record w { state = s; d = record w.d { id = row.0 } })
                        h in
                    rw (f, continue, g) (k.closed, (k.outcome, λ o. (refl, k.done o)))
              ]
      ]
