-- ===== src/Helpers/Rounds.antt =====
-- What holds of the retry (helpers.go) whatever the errors are: an invariant of its rounds, and a
-- bound on its pauses.
use terraform_provider_redsh.Base.{
  ℕ, zero, suc, ◌+◌, ◌*◌, ◌≤◌, ◌≡◌, arith, Bool-cases, inl, inr, subst, sym,
}
use terraform_provider_redsh.Errors.{Error, err, Result-cases}
use terraform_provider_redsh.External.{Env}
use terraform_provider_redsh.Effects.{World, M}
use terraform_provider_redsh.Helpers.{is_retryable, retry_from, resource_retry_on_pq_errors}
use terraform_provider_redsh.Helpers.Retry.{retry_from_ok, retry_from_fatal, retry_from_again}

module _ (env : Env) {D : Type 0} (fn : M env D (Unit {0})) where
  -- `P` holds between the rounds, and `R` after the last one.
  pub retry_from_inv :
      (P R : World env D → Type 0)
      → ((v : World env D) (e : Error) → P v → (fn v).0 ≡ err e → P (fn v).1)
      → ((v : World env D) → P v → R (fn v).1)
      → ((v : World env D) (n : ℕ) → P v → P (record v { slept = n }))
      → ((v : World env D) → P v → R v)
      → (left i : ℕ) (w : World env D) → P w
      → R (retry_from env left i fn w).1
  retry_from_inv P R keep finish pause weaken zero i w p = unfold retry_from in weaken w p
  retry_from_inv P R keep finish pause weaken (suc left) i w p = elim (Result-cases (fn w).0) [
    | inl (u, f) ↦ subst (λ r. R r.1) (sym (retry_from_ok env fn left i w f)) (finish w p)
    | inr (e, f) ↦ elim (Bool-cases (is_retryable e)) [
      | inr r ↦ subst (λ r. R r.1) (sym (retry_from_fatal env fn left i w e f r)) (finish w p)
      | inl r ↦
          subst (λ r. R r.1) (sym (retry_from_again env fn left i w e f r))
            (retry_from_inv P R keep finish pause weaken left (i + 1) _
              (pause (fn w).1 _ (keep w e p f)))
    ]
  ]

  retry_from_slept :
      (left i : ℕ) (w : World env D)
      → ((v : World env D) → (fn v).1.slept ≡ v.slept)
      → (w.slept ≤ (retry_from env left i fn w).1.slept)
        × (2 * (retry_from env left i fn w).1.slept ≤ 2 * w.slept + left * (2 * i + left + 1))
  retry_from_slept zero i w k = unfold retry_from in (omega arith, omega arith)
  retry_from_slept (suc left) i w k = elim (Result-cases (fn w).0) [
    | inl (u, f) ↦ rw (retry_from_ok env fn left i w f) (omega (arith, k w), grind (arith, k w))
    | inr (e, f) ↦ elim (Bool-cases (is_retryable e)) [
      | inr r ↦ rw (retry_from_fatal env fn left i w e f r) (omega (arith, k w), grind (arith, k w))
      | inl r ↦ rw (retry_from_again env fn left i w e f r) (
          let ih =
            retry_from_slept left (i + 1) (record ((fn w).1) { slept = (fn w).1.slept + (i + 1) })
              k in
          (omega (arith, ih.0, k w), grind (arith, ih.1, k w)))
    ]
  ]

  -- The retry of a handler that does not pause itself pauses for 55 seconds at most.
  pub resource_retry_on_pq_errors_slept :
      (w : World env D)
      → ((v : World env D) → (fn v).1.slept ≡ v.slept)
      → (w.slept ≤ (resource_retry_on_pq_errors env fn w).1.slept)
        × ((resource_retry_on_pq_errors env fn w).1.slept ≤ w.slept + 55)
  unfolding resource_retry_on_pq_errors
  resource_retry_on_pq_errors_slept w k =
      let (a, b) = retry_from_slept 10 0 w k in (a, omega (arith, b))

  retry_from_rounds :
      (measure : World env D → ℕ) (left i : ℕ) (w : World env D)
      → ((v : World env D) → measure (fn v).1 ≤ measure v + 1)
      → ((v : World env D) (n : ℕ) → measure (record v { slept = n }) ≡ measure v)
      → measure (retry_from env left i fn w).1 ≤ measure w + left
  retry_from_rounds measure zero i w k p = unfold retry_from in omega arith
  retry_from_rounds measure (suc left) i w k p = elim (Result-cases (fn w).0) [
    | inl (u, f) ↦ rw (retry_from_ok env fn left i w f) (omega (arith, k w))
    | inr (e, f) ↦ elim (Bool-cases (is_retryable e)) [
      | inr r ↦ rw (retry_from_fatal env fn left i w e f r) (omega (arith, k w))
      | inl r ↦ rw (retry_from_again env fn left i w e f r) (
          omega (
            arith,
            k w,
            p (fn w).1 ((fn w).1.slept + (i + 1)),
            retry_from_rounds measure left (i + 1)
                (record ((fn w).1) { slept = (fn w).1.slept + (i + 1) }) k p,
          ))
    ]
  ]

  -- The retry ends after ten attempts at most: whatever an attempt adds at most one of, and a pause
  -- adds nothing to, there are ten more of at most in the end.
  pub resource_retry_on_pq_errors_rounds :
      (measure : World env D → ℕ) (w : World env D)
      → ((v : World env D) → measure (fn v).1 ≤ measure v + 1)
      → ((v : World env D) (n : ℕ) → measure (record v { slept = n }) ≡ measure v)
      → measure (resource_retry_on_pq_errors env fn w).1 ≤ measure w + 10
  unfolding resource_retry_on_pq_errors
  resource_retry_on_pq_errors_rounds measure w k p = retry_from_rounds measure 10 0 w k p
