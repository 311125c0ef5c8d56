-- ===== src/Errors.antt =====
-- Go's error values as the provider meets them: lib/pq's errors with their code, `sql.ErrNoRows`,
-- `sql.ErrTxDone`, plain errors, and what `fmt.Errorf` builds around another error with `%w`.
use terraform_provider_redsh.Base.{
  String, ◌<>◌, Bool, true, false, Option, none, some, List, [], ◌∷◌, ◌≡◌, refl, ◌⊎◌, inl, inr,
}

pub data Error : Type 0 where
  pq : (code text : String) → Error
  no_rows tx_done : Error
  plain : String → Error
  wrap : String → Error → Error

-- `err.Error()`
unfoldable pub error_text : Error → String
error_text (pq code text) = text
error_text no_rows = "sql: no rows in result set"
error_text tx_done = "sql: transaction has already been committed or rolled back"
error_text (plain text) = text
error_text (wrap text e) = text <> (": " <> error_text e)

-- `errors.As(err, &pqErr)`, and then `string(pqErr.Code)`
abbrev pub as_pq : Error → Option String
as_pq (pq code text) = some code
as_pq (wrap text e) = as_pq e
as_pq _ = none

-- `errors.Is(err, sql.ErrNoRows)`
abbrev pub is_no_rows : Error → Bool
is_no_rows no_rows = true
is_no_rows (wrap text e) = is_no_rows e
is_no_rows _ = false

pub data Result {ℓ} (A : Type ℓ) : Type ℓ where
  ok : A → Result A
  err : Error → Result A

abbrev pub is_ok {ℓ} : {A : Type ℓ} → Result A → Bool
is_ok (ok a) = true
is_ok (err e) = false

-- `fmt.Errorf("text: %w", err)` on the error path.
abbrev pub wrapping {ℓ} : {A : Type ℓ} → String → Result A → Result A
wrapping text (ok a) = ok a
wrapping text (err e) = err (wrap text e)

-- `QueryRow(…).Scan(…)`, of rows that are scanned or fail to be
abbrev pub first_row {ℓ} : {A : Type ℓ} → Result (List (Result A)) → Result A
first_row (ok []) = err no_rows
first_row (ok (r ∷ rest)) = r
first_row (err e) = err e

pub eq-ok_of_is_ok : (r : Result (Unit {0})) → is_ok r ≡ true → r ≡ ok tt
eq-ok_of_is_ok (ok tt) h = refl
eq-ok_of_is_ok (err e) h = cc

pub Result-cases {ℓ} :
    {A : Type ℓ} (r : Result A) → ((a : A) × (r ≡ ok a)) ⊎ ((e : Error) × (r ≡ err e))
Result-cases (ok a) = inl (a, refl)
Result-cases (err e) = inr (e, refl)
