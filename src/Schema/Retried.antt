-- ===== src/Schema/Retried.antt =====
-- The deletion of a schema, with its retries (resource_redshift_schema.go and helpers.go).
use terraform_provider_redsh.Base.{
  ◌+◌, ◌≤◌, [], ◌∷◌, none, ◌≡◌, ◌⊎◌, inl, inr, refl, ◌∙◌, subst, arith,
}
use terraform_provider_redsh.Errors.{Error, err, Result-cases}
use terraform_provider_redsh.External.{Env, IsTransactional}
use terraform_provider_redsh.Effects.{
  World, start_transaction, deferred_rollback, tx_exec, tx_commit, close,
}
use terraform_provider_redsh.Effects.Script.{Committed}
use terraform_provider_redsh.Helpers.{resource_retry_on_pq_errors}
use terraform_provider_redsh.Helpers.Rounds.{retry_from_inv, resource_retry_on_pq_errors_slept}
use terraform_provider_redsh.Schema.{SchemaData, drop_schema_query}
use terraform_provider_redsh.Schema.Handlers.{
  apply_drop, resource_redshift_schema_delete, delete_context,
}
use terraform_provider_redsh.Schema.Atomic.{resource_redshift_schema_delete-AllOrNothing}

module _ (env : Env) where
  delete_slept :
      (w : World env SchemaData) → (resource_redshift_schema_delete env w).1.slept ≡ w.slept
  unfolding resource_redshift_schema_delete start_transaction deferred_rollback apply_drop tx_exec
      tx_commit close
  delete_slept w = ground arith

  delete_d : (w : World env SchemaData) → (resource_redshift_schema_delete env w).1.d ≡ w.d
  unfolding resource_redshift_schema_delete start_transaction deferred_rollback apply_drop tx_exec
      tx_commit close
  delete_d w = ground arith

  transport_Committed :
      (d e : SchemaData) (s t u : env.State)
      → d ≡ e
      → s ≡ t
      → Committed env (λ _. drop_schema_query env d ∷ []) s u
      → Committed env (λ _. drop_schema_query env e ∷ []) t u
  transport_Committed d e s t u p q c =
      subst (λ z. Committed env (λ _. drop_schema_query env z ∷ []) t u) p
        (subst (λ z. Committed env (λ _. drop_schema_query env d ∷ []) z u) q c)

module _ (env : Env) (T : IsTransactional env) where
  -- A round that fails has changed nothing.
  delete_of_err :
      (w : World env SchemaData) (e : Error)
      → w.tx ≡ none
      → (resource_redshift_schema_delete env w).0 ≡ err e
      → (resource_redshift_schema_delete env w).1.state ≡ w.state
  unfolding resource_redshift_schema_delete start_transaction deferred_rollback apply_drop tx_exec
      tx_commit close
  delete_of_err w e h f =
      let q = drop_schema_query env w.d in
      elim (Result-cases (env.connect w.state)) [
        | inr (e, c) ↦ ground arith
        | inl (u, c) ↦ elim (Result-cases (env.begin w.state)) [
          | inr (e, b) ↦ ground arith
          | inl (x, b) ↦
              let y = (env.exec q x).1 in
              let back = T.base-exec q x ∙ T.base-begin w.state x b in
              elim (Result-cases (env.exec q x).0) [
                | inr (e, s) ↦ ground (arith, T.base-rollback y, back)
                | inl (u, s) ↦ elim (Result-cases (env.commit y).0) [
                  | inr (e, k) ↦ ground (arith, T.base-commit y e k, back)
                  | inl (u, k) ↦ absurd (ground arith)
                ]
              ]
        ]
      ]

  -- The deletion of a schema, with its retries, pauses for 55 seconds at most, and leaves the
  -- database as it was or with the schema dropped by one statement in one transaction, however
  -- often the statement was sent; no transaction stays open.
  pub delete_context-AllOrNothing :
      (w : World env SchemaData)
      → w.tx ≡ none
      → let r = delete_context env w in
        let qs = λ (x : env.Session). drop_schema_query env w.d ∷ [] in
        (r.1.tx ≡ none)
        × (((r.1.state ≡ w.state) ⊎ Committed env qs w.state r.1.state)
            × (r.1.slept ≤ w.slept + 55))
  unfolding delete_context resource_retry_on_pq_errors
  delete_context-AllOrNothing w h =
      let qs = λ (x : env.Session). drop_schema_query env w.d ∷ [] in
      let fn = resource_redshift_schema_delete env in
      let P : World env SchemaData → Type 0 =
        λ v. (v.tx ≡ none) × ((v.state ≡ w.state) × (v.d ≡ w.d)) in
      let R : World env SchemaData → Type 0 =
        λ v. (v.tx ≡ none) × ((v.state ≡ w.state) ⊎ Committed env qs w.state v.state) in
      let finish : (v : World env SchemaData) → P v → R (fn v).1 = λ v (t, (s, d)).
        let a = resource_redshift_schema_delete-AllOrNothing env T v t in
        (
          a.closed,
          elim a.outcome [
            | inl same ↦ inl (same ∙ s)
            | inr c ↦ inr (transport_Committed env v.d w.d v.state w.state _ d s c)
          ],
        ) in
      let done =
        retry_from_inv env fn P R
          (λ v e (t, (s, d)) f. (
            (resource_redshift_schema_delete-AllOrNothing env T v t).closed,
            (delete_of_err v e t f ∙ s, delete_d env v ∙ d),
          ))
          finish (λ v n p. p) (λ v (t, (s, d)). (t, inl s)) 10 0 w (h, (refl, refl)) in
      (done.0, (done.1, (resource_retry_on_pq_errors_slept env fn w (delete_slept env)).1))
