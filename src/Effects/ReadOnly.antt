-- ===== src/Effects/ReadOnly.antt =====
-- Transactions that only read.
use terraform_provider_redsh.Base.{List, none, some, ◌≡◌, arith, inl, inr}
use terraform_provider_redsh.Errors.{ok, Result-cases}
use terraform_provider_redsh.External.{Env, IsTransactional, HasIdleCommit, Column, Query}
use terraform_provider_redsh.Effects.{
  World, M, ◌>>◌, pure, start_transaction, deferred_rollback, tx_commit, tx_query, tx_query_row,
  close,
}
use terraform_provider_redsh.Effects.Keeps.{Keeps}
use terraform_provider_redsh.Effects.Finish.{IsCommit}

module _ {env : Env} {D : Type 0} where
  pub Keeps-tx_query :
      (cols : List Column) (q : Query) (w : World env D) → Keeps env (tx_query cols q w) w
  unfolding tx_query
  Keeps-tx_query cols q w = record { state = ground arith; tx = ground arith }

  pub Keeps-tx_query_row :
      (cols : List Column) (q : Query) (w : World env D) → Keeps env (tx_query_row cols q w) w
  unfolding tx_query_row
  Keeps-tx_query_row cols q w = record { state = ground arith; tx = ground arith }

module _ (env : Env) (T : IsTransactional env) (I : HasIdleCommit env) {D : Type 0} where
  Keeps-commit :
      (m c : M env D (Unit {0})) (w : World env D) (x : env.Session)
      → IsCommit env c
      → env.begin w.state ≡ ok x
      → Keeps env (m (record w { tx = some x })) (record w { tx = some x })
      → let r = deferred_rollback (m >> (c >> pure tt)) (record w { tx = some x }) in
        (r.1.state ≡ w.state) × (r.1.tx ≡ none)
  unfolding deferred_rollback tx_commit close
  Keeps-commit m c w x i b k =
      let v = record w { tx = some x } in
      elim (Result-cases (m v).0) [
        | inl (a, e) ↦ elim (Result-cases (c (m v).1).0) [
          | inl (u, f) ↦ (
            ground (arith, e, f, k.tx, k.state, i.world (m v).1, I.commit-begin w.state x b),
            ground (arith, e, f, k.tx, k.state, i.world (m v).1),
          )
          | inr (u, f) ↦ (
            ground (arith, e, f, k.tx, k.state, i.world (m v).1, I.commit-begin w.state x b),
            ground (arith, e, f, k.tx, k.state, i.world (m v).1),
          )
        ]
        | inr (e, f) ↦ (
          ground (arith, f, k.tx, k.state, T.base-rollback x, T.base-begin w.state x b),
          ground (arith, f, k.tx, k.state),
        )
      ]

  pub Keeps-read_transaction :
      (m c : M env D (Unit {0})) (w : World env D)
      → IsCommit env c
      → w.tx ≡ none
      → ((v : World env D) → Keeps env (m v) v)
      → Keeps env ((start_transaction >> deferred_rollback (m >> (c >> pure tt))) w) w
  unfolding start_transaction
  Keeps-read_transaction m c w i h k = elim (Result-cases (env.connect w.state)) [
    | inr (e, n) ↦ record { state = ground arith; tx = ground arith }
    | inl (u, n) ↦ elim (Result-cases (env.begin w.state)) [
      | inr (e, b) ↦ record { state = ground arith; tx = ground arith }
      | inl (x, b) ↦
          let (s, t) = Keeps-commit m c w x i b (k (record w { tx = some x })) in
          record { state = ground (arith, s); tx = ground (arith, t, h) }
    ]
  ]
