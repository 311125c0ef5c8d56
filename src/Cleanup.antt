-- ===== src/Cleanup.antt =====
-- The loop over the schemas that the deletes of a group (redshift/resource_redshift_group.go) and of
-- a user (redshift/resource_redshift_user.go) both have, each with statements of its own.
use terraform_provider_redsh.Base.{String, List, [], ◌∷◌, ◌++◌, some, ◌≡◌, arith}
use terraform_provider_redsh.Errors.{Result, ok, err}
use terraform_provider_redsh.External.{Env, IsTransactional, Cells, text, Query, sql}
use terraform_provider_redsh.Effects.{World, M, ◌>>◌, pure, fail, tx_exec_all, tx_query}
use terraform_provider_redsh.Effects.Atomic.{Runs, Runs-exec_all, Runs-none, Runs-fail, Runs-bind}

abbrev pub Rows : Type 0
Rows = List (Result (Cells (text ∷ [])))

abbrev pub cleaned_schemas : Query
cleaned_schemas =
    sql "SELECT nspname FROM pg_namespace WHERE nspowner != 1 OR nspname = 'public'" []

abbrev pub rows_or_none : Result Rows → Rows
rows_or_none (ok rows) = rows
rows_or_none (err e) = []

-- The statements for the rows, in the rows' order, up to a row that cannot be scanned.
abbrev pub rows_script : (String → List String) → Rows → List String
rows_script statements [] = []
rows_script statements (err e ∷ rows) = []
rows_script statements (ok (name, _) ∷ rows) = statements name ++ rows_script statements rows

module _ {env : Env} {D : Type 0} where
  unfoldable pub each_row : (String → List String) → Rows → M env D (Unit {0})
  each_row statements [] = pure tt
  each_row statements (err e ∷ rows) = fail e
  each_row statements (ok (name, _) ∷ rows) =
      tx_exec_all (statements name) >> each_row statements rows

module _ (env : Env) (T : IsTransactional env) {D : Type 0} where
  pub Runs-each_row :
      (statements : String → List String) (rows : Rows) (w : World env D) (x : env.Session)
      → w.tx ≡ some x
      → Runs env T (each_row statements rows w) (rows_script statements rows) w x
  unfolding each_row
  Runs-each_row statements [] w x h = Runs-none env T (ok tt) w.d w x h
  Runs-each_row statements (err e ∷ rows) w x h = Runs-fail env T e _ w x h
  Runs-each_row statements (ok (name, u) ∷ rows) w x h =
      let qs = statements name in
      let sent = Runs-exec_all env T qs w x h in
      Runs-bind env T (tx_exec_all qs w) _ qs _ w x sent
        (λ _ _. Runs-each_row statements rows (tx_exec_all qs w).1 sent.after sent.is_open)

  -- The rows that a query in the transaction has returned.
  pub rows_of_tx_query :
      (q : Query) (w : World env D) (x : env.Session) (rows : Rows)
      → w.tx ≡ some x
      → (tx_query (text ∷ []) q w).0 ≡ ok rows
      → rows_or_none (env.query (text ∷ []) q x) ≡ rows
  unfolding tx_query
  rows_of_tx_query q w x rows h e = ground arith
