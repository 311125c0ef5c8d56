-- ===== src/Effects/Atomic.antt =====
-- The statements that an action sends inside a transaction.
use terraform_provider_redsh.Base.{
  String, Bool, true, false, List, [], ◌∷◌, ◌++◌, some, ◌≡◌, inl, inr, refl, ◌∙◌, arith, subst,
  append-nil, if◌then◌else◌,
}
use terraform_provider_redsh.Errors.{
  Error, Result, ok, err, is_ok, eq-ok_of_is_ok, Result-cases, wrapping,
}
use terraform_provider_redsh.Effects.{
  World, M, continue, pure, tx_exec, tx_exec_all, tx_query, tx_query_row,
}
use terraform_provider_redsh.External.{Env, IsTransactional, Column, Query}
use terraform_provider_redsh.Effects.Script.{Ran, Ran-append}

module _ (env : Env) (T : IsTransactional env) {D : Type 0} where
  open T use {base}

  -- Inside the transaction `x`: the statements `qs` are what an action sends if it succeeds. Here
  -- `r` is the action's result with the world that it leaves, and `w` the world before.
  pub record Runs {A : Type 0} (r : Result A × World env D) (qs : List String) (w : World env D)
      (x : env.Session) : Type 0 where
    pub after : env.Session
    pub is_open : r.1.tx ≡ some after
    pub same : r.1.state ≡ w.state
    pub based : base after ≡ base x
    pub ran : is_ok r.0 ≡ true → Ran env x qs after

  pub Runs-exec :
      (q : String) (w : World env D) (x : env.Session)
      → w.tx ≡ some x
      → Runs (tx_exec q w) (q ∷ []) w x
  unfolding tx_exec
  Runs-exec q w x h = record {
    after = (env.exec q x).1;
    is_open = ground arith;
    same = ground arith;
    based = T.base-exec q x;
    ran = λ o. (eq-ok_of_is_ok (env.exec q x).0 (ground arith), refl);
  }

  pub tx_exec_d : (q : String) (w : World env D) → (tx_exec q w).1.d ≡ w.d
  unfolding tx_exec
  tx_exec_d q w = ground arith

  pub tx_exec_lem :
      (q : String) (w : World env D) (x : env.Session)
      → w.tx ≡ some x
      → tx_exec q w ≡ ((env.exec q x).0, record w { tx = some (env.exec q x).1 })
  unfolding tx_exec
  tx_exec_lem q w x h = rw h refl

  -- An action that sends nothing.
  pub Runs-none :
      {A : Type 0} (r : Result A) (d : D) (w : World env D) (x : env.Session)
      → w.tx ≡ some x
      → Runs (r, record w { d = d }) [] w x
  Runs-none r d w x h = record {
    after = x;
    is_open = h;
    same = refl;
    based = refl;
    ran = λ _. refl;
  }

  pub Runs-fail :
      {A : Type 0} (e : Error) (qs : List String) (w : World env D) (x : env.Session)
      → w.tx ≡ some x
      → Runs {A = A} (err e, w) qs w x
  Runs-fail e qs w x h = record { after = x; is_open = h; same = refl; based = refl; ran = λ o. cc }

  pub Runs-wrapping :
      {A : Type 0} (text : String) (r : Result A × World env D) (qs : List String) (w : World env D)
      (x : env.Session)
      → Runs r qs w x
      → Runs (wrapping text r.0, r.1) qs w x
  Runs-wrapping text r qs w x k = record {
    after = k.after;
    is_open = k.is_open;
    same = k.same;
    based = k.based;
    ran = λ o. k.ran (ground arith);
  }

  pub Runs-query :
      (cols : List Column) (q : Query) (w : World env D) (x : env.Session)
      → w.tx ≡ some x
      → Runs (tx_query cols q w) [] w x
  unfolding tx_query
  Runs-query cols q w x h = record {
    after = x;
    is_open = ground arith;
    same = ground arith;
    based = refl;
    ran = λ _. refl;
  }

  pub Runs-query_row :
      (cols : List Column) (q : Query) (w : World env D) (x : env.Session)
      → w.tx ≡ some x
      → Runs (tx_query_row cols q w) [] w x
  unfolding tx_query_row
  Runs-query_row cols q w x h = record {
    after = x;
    is_open = ground arith;
    same = ground arith;
    based = refl;
    ran = λ _. refl;
  }

  -- One action after another: the second one starts in the world that the first one leaves.
  pub Runs-bind :
      {A B : Type 0} (r : Result A × World env D) (f : A → M env D B) (ps qs : List String)
      (w : World env D) (x : env.Session) (k : Runs r ps w x)
      → ((a : A) → r.0 ≡ ok a → Runs (f a r.1) qs r.1 k.after)
      → Runs (continue r.0 f r.1) (ps ++ qs) w x
  Runs-bind r f ps qs w x k l = elim (Result-cases r.0) [
    | inl (a, e) ↦
        let n = l a e in
        record {
          after = n.after;
          is_open = rw (e, continue) n.is_open;
          same = rw (e, continue) (n.same ∙ k.same);
          based = n.based ∙ k.based;
          ran = λ o.
              Ran-append env ps x k.after n.after qs (k.ran (rw e)) (n.ran (rw (e, continue) at o));
        }
    | inr (e, h) ↦ record {
      after = k.after;
      is_open = rw (h, continue) k.is_open;
      same = rw (h, continue) k.same;
      based = k.based;
      ran = λ o. absurd (ground arith);
    }
  ]

  -- The part that sends the last statements.
  pub Runs-last :
      {A B : Type 0} (r : Result A × World env D) (f : A → M env D B) (ps : List String)
      (w : World env D) (x : env.Session) (k : Runs r ps w x)
      → ((a : A) → r.0 ≡ ok a → Runs (f a r.1) [] r.1 k.after)
      → Runs (continue r.0 f r.1) ps w x
  Runs-last r f ps w x k l =
      subst (λ qs. Runs (continue r.0 f r.1) qs w x) (append-nil ps) (Runs-bind r f ps [] w x k l)

  pub Runs-exec_all :
      (qs : List String) (w : World env D) (x : env.Session)
      → w.tx ≡ some x
      → Runs (tx_exec_all qs w) qs w x
  unfolding tx_exec_all
  Runs-exec_all [] w x h = Runs-none (ok tt) w.d w x h
  Runs-exec_all (q ∷ qs) w x h =
      let sent = Runs-exec q w x h in
      Runs-bind (tx_exec q w) _ (q ∷ []) qs w x sent
        (λ _ _. Runs-exec_all qs (tx_exec q w).1 sent.after sent.is_open)

  -- An action that is left out under a condition.
  pub Runs-unless :
      (b : Bool) (m : M env D (Unit {0})) (qs : List String) (w : World env D) (x : env.Session)
      → w.tx ≡ some x
      → Runs (m w) qs w x
      → Runs ((if b then pure tt else m) w) (if b then [] else qs) w x
  Runs-unless true m qs w x h k = Runs-none (ok tt) w.d w x h
  Runs-unless false m qs w x h k = k
