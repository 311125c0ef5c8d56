-- ===== src/Effects.antt =====
-- The handlers' effects: the database, the transaction that a handler holds open, and the resource
-- data `d` that it reads and sets. A handler returns a result, and the world in either case.
pub mod Script
pub mod Atomic
pub mod Keeps
pub mod Finish
pub mod Sends
pub mod ReadOnly
pub mod Accepts
pub mod Aborted
use terraform_provider_redsh.Base.{ℕ, ◌+◌, String, List, [], ◌∷◌, Option, none, some}
use terraform_provider_redsh.Errors.{Error, plain, tx_done, Result, ok, err, wrapping, first_row}
use terraform_provider_redsh.External.{Env, Column, Cells, Query}

pub record World (env : Env) (D : Type 0) : Type 0 where
  pub state : env.State
  pub tx : Option env.Session
  -- the seconds spent in `time.Sleep`
  pub slept : ℕ
  pub d : D

abbrev pub M : Env → Type 0 → Type 0 → Type 0
M env D A = World env D → Result A × World env D

module _ {env : Env} {D : Type 0} where
  -- `tx.Rollback`, which does nothing once the transaction is over
  unfoldable pub close : World env D → World env D
  close w = elim w.tx [ none ↦ w | some x ↦ record w { state = env.rollback x; tx = none } ]

module _ {env : Env} {D A B : Type 0} where
  abbrev pub continue : Result A → (A → M env D B) → M env D B
  continue (ok a) f w = f a w
  continue (err e) f w = (err e, w)

  infixl 5 ◌>>=◌
  abbrev pub ◌>>=◌ : M env D A → (A → M env D B) → M env D B
  ◌>>=◌ m f w = let (r, w') = m w in continue r f w'

module _ {env : Env} {D B : Type 0} where
  infixl 5 ◌>>◌
  abbrev pub ◌>>◌ : M env D (Unit {0}) → M env D B → M env D B
  m >> k = m >>= λ _. k

module _ {env : Env} {D A : Type 0} where
  abbrev pub pure : A → M env D A
  pure a w = (ok a, w)

  abbrev pub fail : Error → M env D A
  fail e w = (err e, w)

  abbrev pub lift : Result A → M env D A
  lift r w = (r, w)

  abbrev pub gets : (D → A) → M env D A
  gets f w = (ok (f w.d), w)

  -- `fmt.Errorf("text: %w", err)` around what the action returns
  abbrev pub wrapped : String → M env D A → M env D A
  wrapped text m w = let (r, w') = m w in (wrapping text r, w')

  -- The error is handled by the caller.
  abbrev pub attempt : M env D A → M env D (Result A)
  attempt m w = let (r, w') = m w in (ok r, w')

  -- `defer deferredRollback(tx)`, and the rest of the function
  unfoldable pub deferred_rollback : M env D A → M env D A
  deferred_rollback m w = let (r, w') = m w in (r, close w')

module _ {env : Env} {D : Type 0} where
  abbrev pub modify : (D → D) → M env D (Unit {0})
  modify f w = (ok tt, record w { d = f w.d })

  -- `return fmt.Errorf(text)` if there is something to complain about
  abbrev pub check : Option String → M env D (Unit {0})
  check none w = (ok tt, w)
  check (some text) w = (err (plain text), w)

  -- `time.Sleep`
  unfoldable pub sleep : ℕ → M env D (Unit {0})
  sleep n w = (ok tt, record w { slept = w.slept + n })

  -- `startTransaction`
  unfoldable pub start_transaction : M env D (Unit {0})
  start_transaction w = elim (env.connect w.state) [
    | err e ↦ (err e, w)
    | ok _ ↦ elim (env.begin w.state) [
      | err e ↦ (wrapping "could not start transaction" (err e), w)
      | ok x ↦ (ok tt, record w { tx = some x })
    ]
  ]

  -- `tx.Exec`
  unfoldable pub tx_exec : String → M env D (Unit {0})
  tx_exec q w = elim w.tx [
    | none ↦ (err tx_done, w)
    | some x ↦ let (r, y) = env.exec q x in (r, record w { tx = some y })
  ]

  -- `tx.Exec` of each statement of a list, up to the first error
  unfoldable pub tx_exec_all : List String → M env D (Unit {0})
  tx_exec_all [] = pure tt
  tx_exec_all (q ∷ qs) = tx_exec q >> tx_exec_all qs

  -- a loop whose body returns on an error
  unfoldable pub for_each : (String → M env D (Unit {0})) → List String → M env D (Unit {0})
  for_each body [] = pure tt
  for_each body (s ∷ rest) = body s >> for_each body rest

  -- `tx.Commit`
  unfoldable pub tx_commit : M env D (Unit {0})
  tx_commit w = elim w.tx [
    | none ↦ (err tx_done, w)
    | some x ↦ let (r, s) = env.commit x in (r, record w { state = s; tx = none })
  ]

  -- `tx.Query`, with the rows as they are scanned
  unfoldable pub tx_query : (cols : List Column) → Query → M env D (List (Result (Cells cols)))
  tx_query cols q w = elim w.tx [ none ↦ (err tx_done, w) | some x ↦ (env.query cols q x, w) ]

  unfoldable pub tx_query_row : (cols : List Column) → Query → M env D (Cells cols)
  tx_query_row cols q w = elim w.tx [
    | none ↦ (err tx_done, w)
    | some x ↦ (first_row (env.query cols q x), w)
  ]

  -- `db.Exec`, `db.Query` and `db.QueryRow`, outside a transaction
  unfoldable pub db_exec : String → M env D (Unit {0})
  db_exec q w = let (r, s) = env.exec_db q w.state in (r, record w { state = s })

  unfoldable pub db_query : (cols : List Column) → Query → M env D (List (Result (Cells cols)))
  db_query cols q w = (env.query_db cols q w.state, w)

  unfoldable pub db_query_row : (cols : List Column) → Query → M env D (Cells cols)
  db_query_row cols q w = (first_row (env.query_db cols q w.state), w)
