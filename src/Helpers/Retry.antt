-- ===== src/Helpers/Retry.antt =====
-- What the retry does with the errors of the handler that it runs.
use terraform_provider_redsh.Base.{
  ℕ, zero, suc, ◌+◌, ◌*◌, true, false, ◌≡◌, refl, arith, Bool-cases, inl, inr,
}
use terraform_provider_redsh.Errors.{Error, ok, err, Result-cases}
use terraform_provider_redsh.External.{Env}
use terraform_provider_redsh.Effects.{World, M, continue, sleep}
use terraform_provider_redsh.Helpers.{is_retryable, retry_from, resource_retry_on_pq_errors}

module _ (env : Env) {D : Type 0} (fn : M env D (Unit {0})) where
  -- One round, by the result of the handler.
  pub retry_from_ok :
      (left i : ℕ) (w : World env D) → (fn w).0 ≡ ok tt → retry_from env (suc left) i fn w ≡ fn w
  unfolding retry_from
  retry_from_ok left i w h = rw (h, continue)

  pub retry_from_fatal :
      (left i : ℕ) (w : World env D) (e : Error)
      → (fn w).0 ≡ err e
      → is_retryable e ≡ false
      → retry_from env (suc left) i fn w ≡ fn w
  unfolding retry_from
  retry_from_fatal left i w e h f = ground arith

  pub retry_from_again :
      (left i : ℕ) (w : World env D) (e : Error)
      → (fn w).0 ≡ err e
      → is_retryable e ≡ true
      → retry_from env (suc left) i fn w
        ≡ retry_from env left (i + 1) fn (record ((fn w).1) { slept = (fn w).1.slept + (i + 1) })
  unfolding retry_from sleep
  retry_from_again left i w e h f = ground arith

  -- With no round left the error of the last attempt is gone, after the pauses i + 1, …, i + left.
  retry_from_exhausted :
      (left i : ℕ) (w : World env D)
      → ((v : World env D) → (e : Error) × ((fn v).0 ≡ err e) × (is_retryable e ≡ true))
      → ((v : World env D) → (fn v).1.slept ≡ v.slept)
      → ((retry_from env left i fn w).0 ≡ ok tt)
        × (2 * (retry_from env left i fn w).1.slept ≡ 2 * w.slept + left * (2 * i + left + 1))
  retry_from_exhausted zero i w h k = unfold retry_from in (refl, omega arith)
  retry_from_exhausted (suc left) i w h k =
      let (e, f, r) = h w in
      rw (retry_from_again left i w e f r) (
        let ih =
          retry_from_exhausted left (i + 1) (record ((fn w).1) { slept = (fn w).1.slept + (i + 1) })
            h k in
        (ih.0, grind (arith, ih.1, k w)))

  retry_from_err :
      (left i : ℕ) (w : World env D) (e : Error)
      → (retry_from env left i fn w).0 ≡ err e
      → is_retryable e ≡ false
  retry_from_err zero i w e h = unfold retry_from in cc
  retry_from_err (suc left) i w e h = elim (Result-cases (fn w).0) [
    | inl (a, f) ↦ absurd (ground (arith, retry_from_ok left i w f))
    | inr (c, f) ↦ elim (Bool-cases (is_retryable c)) [
      | inl r ↦ retry_from_err left (i + 1) _ e (rw (retry_from_again left i w c f r) at h)
      | inr r ↦ ground (arith, retry_from_fatal left i w c f r)
    ]
  ]

  -- If the first attempt succeeds, or fails with an error that is not retryable, its result and its
  -- effects are those of the whole, with no pause.
  resource_retry_on_pq_errors-first :
      (w : World env D)
      → ((e : Error) → (fn w).0 ≡ err e → is_retryable e ≡ false)
      → resource_retry_on_pq_errors env fn w ≡ fn w
  unfolding resource_retry_on_pq_errors
  resource_retry_on_pq_errors-first w h = elim (Result-cases (fn w).0) [
    | inl (a, f) ↦ retry_from_ok 9 0 w f
    | inr (e, f) ↦ retry_from_fatal 9 0 w e f (h e f)
  ]

  -- An error comes out only if it is not retryable.
  resource_retry_on_pq_errors_err :
      (w : World env D) (e : Error)
      → (resource_retry_on_pq_errors env fn w).0 ≡ err e
      → is_retryable e ≡ false
  unfolding resource_retry_on_pq_errors
  resource_retry_on_pq_errors_err w e h = retry_from_err 10 0 w e h

  -- A handler that meets a retryable error at every attempt is reported as a success, after 55
  -- seconds of pauses.
  pub resource_retry_on_pq_errors_exhausted :
      (w : World env D)
      → ((v : World env D) → (e : Error) × ((fn v).0 ≡ err e) × (is_retryable e ≡ true))
      → ((v : World env D) → (fn v).1.slept ≡ v.slept)
      → ((resource_retry_on_pq_errors env fn w).0 ≡ ok tt)
        × ((resource_retry_on_pq_errors env fn w).1.slept ≡ w.slept + 55)
  unfolding resource_retry_on_pq_errors
  resource_retry_on_pq_errors_exhausted w h k =
      let (a, b) = retry_from_exhausted 10 0 w h k in (a, omega (arith, b))
