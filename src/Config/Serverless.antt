-- ===== src/Config/Serverless.antt =====
-- What the second call of the check for Redshift Serverless answers.
use terraform_provider_redsh.Base.{Bool, false, ◌≡◌, arith}
use terraform_provider_redsh.Errors.{Error, Result, ok, err}
use terraform_provider_redsh.Config.{
  new_cache, Outcome, is_pq_error_with_code, classify, is_serverless_call,
}

-- After a check that gave an answer, every later call gives the same answer, whatever the database
-- would say, and leaves the cache as it is.
pub is_serverless_call-cached :
    (sys svl sys_later svl_later : Result (Unit {0})) (b : Bool)
    → (is_serverless_call new_cache sys svl).0 ≡ Outcome.answer (ok b)
    → is_serverless_call (is_serverless_call new_cache sys svl).1 sys_later svl_later
      ≡ (Outcome.answer (ok b), (is_serverless_call new_cache sys svl).1)
unfolding is_serverless_call classify is_pq_error_with_code
is_serverless_call-cached sys svl sys_later svl_later b h = ground arith

-- After a check that failed with an error, every later call answers that the database is not
-- serverless, with no error, whatever the database would say, and leaves the cache as it is.
pub is_serverless_call_after_error :
    (sys svl sys_later svl_later : Result (Unit {0})) (e : Error)
    → (is_serverless_call new_cache sys svl).0 ≡ Outcome.answer (err e)
    → is_serverless_call (is_serverless_call new_cache sys svl).1 sys_later svl_later
      ≡ (Outcome.answer (ok false), (is_serverless_call new_cache sys svl).1)
unfolding is_serverless_call classify is_pq_error_with_code
is_serverless_call_after_error sys svl sys_later svl_later e h = ground arith
