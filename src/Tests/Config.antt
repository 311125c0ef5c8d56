-- ===== src/Tests/Config.antt =====
-- The check for Redshift Serverless.
use terraform_provider_redsh.Base.{false, string_dec, ◌≡◌, refl}
use terraform_provider_redsh.Errors.{pq, ok, err}
use terraform_provider_redsh.Config.{
  new_cache, Outcome, is_pq_error_with_code, classify, is_serverless_call,
}
use terraform_provider_redsh.Config.Serverless.{
  is_serverless_call-cached, is_serverless_call_after_error,
}

cached_example :
    is_serverless_call
      (is_serverless_call new_cache (err (pq "42501" "denied")) (ok tt)).1
      (ok tt)
      (ok tt)
    ≡ (
      Outcome.answer (ok false),
      (is_serverless_call new_cache (err (pq "42501" "denied")) (ok tt)).1,
    )
unfolding is_serverless_call classify is_pq_error_with_code string_dec
cached_example =
    is_serverless_call-cached (err (pq "42501" "denied")) (ok tt) (ok tt) (ok tt) false refl

after_error_example :
    is_serverless_call
      (is_serverless_call new_cache (err (pq "57P01" "shutdown")) (ok tt)).1
      (ok tt)
      (ok tt)
    ≡ (
      Outcome.answer (ok false),
      (is_serverless_call new_cache (err (pq "57P01" "shutdown")) (ok tt)).1,
    )
unfolding is_serverless_call classify is_pq_error_with_code string_dec
after_error_example =
    is_serverless_call_after_error (err (pq "57P01" "shutdown")) (ok tt) (ok tt) (ok tt)
      (pq "57P01" "shutdown") refl
