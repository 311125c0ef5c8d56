-- ===== src/Effects/Aborted.antt =====
-- Transactions of a database that takes no statement after a failed one, under handlers that go on
-- after some of the failures.
use terraform_provider_redsh.Base.{
  String, true, false, ap, List, [], ◌∷◌, ◌++◌, none, some, ◌≡◌, ◌⊎◌, inl, inr, refl, ◌∙◌, arith,
  subst,
}
use terraform_provider_redsh.Errors.{Error, Result, ok, err, is_ok, eq-ok_of_is_ok, Result-cases}
use terraform_provider_redsh.External.{Env, IsTransactional, FailsAfterError, AbortsAfterError}
use terraform_provider_redsh.Effects.{World, M, ◌>>◌, continue, pure, attempt, tx_exec, for_each}
use terraform_provider_redsh.Effects.Script.{Ran, Ran-append}
use terraform_provider_redsh.Effects.Atomic.{Runs, Runs-exec, tx_exec_lem}
use terraform_provider_redsh.Effects.Keeps.{Keeps}
use terraform_provider_redsh.Effects.Finish.{
  IsCommit, Completed, tx_of_commit, Finishes, Finishes-commit, Finishes-last,
}

-- the statements of the rounds of a loop
abbrev pub loop_script : (String → List String) → List String → List String
loop_script statements [] = []
loop_script statements (s ∷ rest) = statements s ++ loop_script statements rest

module _ (env : Env) where
  -- A statement has failed in the session, last of all.
  pub record Aborted (y : env.Session) : Type 0 where
    pub before : env.Session
    pub statement : String
    pub error : Error
    pub failed : (env.exec statement before).0 ≡ err error
    pub same : (env.exec statement before).1 ≡ y

  Aborted-exec :
      (q : String) (x : env.Session) (e : Error)
      → (env.exec q x).0 ≡ err e
      → Aborted (env.exec q x).1
  Aborted-exec q x e h = record { before = x; statement = q; error = e; failed = h; same = refl }

  is_ok-exec_of_Aborted :
      AbortsAfterError env
      → (q : String) (y : env.Session) → Aborted y
      → is_ok (env.exec q y).0 ≡ false
  is_ok-exec_of_Aborted A q y a =
      subst (λ z. is_ok (env.exec q z).0 ≡ false) a.same
        (A.exec-exec q a.statement a.before a.error a.failed)

  is_ok-commit_of_Aborted :
      FailsAfterError env → (y : env.Session) → Aborted y → is_ok (env.commit y).0 ≡ false
  is_ok-commit_of_Aborted F y a =
      subst (λ z. is_ok (env.commit z).0 ≡ false) a.same
        (F.commit-exec a.statement a.before a.error a.failed)

module _ (env : Env) (T : IsTransactional env) (F : FailsAfterError env) (A : AbortsAfterError env)
    {D : Type 0} where
  open T use {base}

  -- Inside the transaction `x`: if the action succeeds, it has sent the statements `qs` with
  -- success, or the transaction is one that will not commit.
  pub record Proceeds {B : Type 0} (r : Result B × World env D) (qs : List String) (w : World env D)
      (x : env.Session) : Type 0 where
    pub after : env.Session
    pub is_open : r.1.tx ≡ some after
    pub same : r.1.state ≡ w.state
    pub based : base after ≡ base x
    pub ran : is_ok r.0 ≡ true → Ran env x qs after ⊎ Aborted env after
    pub stuck : Aborted env x → is_ok r.0 ≡ true → Aborted env after

  pub Proceeds-Keeps :
      {B : Type 0} (r : Result B × World env D) (w : World env D) (x : env.Session)
      → w.tx ≡ some x
      → Keeps env r w
      → Proceeds r [] w x
  Proceeds-Keeps r w x h k = record {
    after = x;
    is_open = k.tx ∙ h;
    same = k.state;
    based = refl;
    ran = λ _. inl refl;
    stuck = λ a _. a;
  }

  -- A statement, and what the handler makes of its result without touching the database.
  pub Proceeds-tolerated :
      (q : String) (t : Result (Unit {0}) → M env D (Unit {0})) (w : World env D) (x : env.Session)
      → w.tx ≡ some x
      → ((r : Result (Unit {0})) (v : World env D) → (t r v).1 ≡ v)
      → Proceeds (continue (attempt (tx_exec q) w).0 t (attempt (tx_exec q) w).1) (q ∷ []) w x
  Proceeds-tolerated q t w x h k =
      let left = tx_exec_lem env T q w x h in
      let at_end = k (tx_exec q w).0 (tx_exec q w).1 ∙ ap (λ r. r.1) left in
      record {
        after = (env.exec q x).1;
        is_open = rw at_end;
        same = rw at_end;
        based = T.base-exec q x;
        ran = λ _. elim (Result-cases (env.exec q x).0) [
          | inl (u, e) ↦ inl (e, refl)
          | inr (e, f) ↦ inr (Aborted-exec env q x e f)
        ];
        stuck = λ a _. elim (Result-cases (env.exec q x).0) [
          | inl (u, e) ↦ absurd (ground (arith, is_ok-exec_of_Aborted env A q x a))
          | inr (e, f) ↦ Aborted-exec env q x e f
        ];
      }

  pub Proceeds-exec :
      (q : String) (w : World env D) (x : env.Session)
      → w.tx ≡ some x
      → Proceeds (tx_exec q w) (q ∷ []) w x
  unfolding tx_exec
  Proceeds-exec q w x h =
      let sent = Runs-exec env T q w x h in
      record {
        after = (env.exec q x).1;
        is_open = ground arith;
        same = ground arith;
        based = T.base-exec q x;
        ran = λ o. inl (eq-ok_of_is_ok (env.exec q x).0 (ground arith), refl);
        stuck = λ a o. absurd (ground (arith, is_ok-exec_of_Aborted env A q x a));
      }

  pub Proceeds-bind :
      {B C : Type 0} (r : Result B × World env D) (f : B → M env D C) (ps qs : List String)
      (w : World env D) (x : env.Session) (k : Proceeds r ps w x)
      → ((b : B) → r.0 ≡ ok b → Proceeds (f b r.1) qs r.1 k.after)
      → Proceeds (continue r.0 f r.1) (ps ++ qs) w x
  Proceeds-bind r f ps qs w x k l = elim (Result-cases r.0) [
    | inl (b, e) ↦
        let n = l b e in
        record {
          after = n.after;
          is_open = rw (e, continue) n.is_open;
          same = rw (e, continue) (n.same ∙ k.same);
          based = n.based ∙ k.based;
          ran = λ o.
              let o' : is_ok (f b r.1).0 ≡ true = rw (e, continue) at o in
              elim (k.ran (rw e)) [
                | inr a ↦ inr (n.stuck a o')
                | inl p ↦ elim (n.ran o') [
                  | inr a ↦ inr a
                  | inl s ↦ inl (Ran-append env ps x k.after n.after qs p s)
                ]
              ];
          stuck = λ a o. n.stuck (k.stuck a (rw e)) (rw (e, continue) at o);
        }
    | inr (e, h) ↦ record {
      after = k.after;
      is_open = rw (h, continue) k.is_open;
      same = rw (h, continue) k.same;
      based = k.based;
      ran = λ o. absurd (ground arith);
      stuck = λ a o. absurd (ground arith);
    }
  ]

  abbrev pub SendsOrAborts : M env D (Unit {0}) → List String → Type 0
  SendsOrAborts m qs = (w : World env D) (x : env.Session) → w.tx ≡ some x → Proceeds (m w) qs w x

  pub SendsOrAborts-then :
      (m k : M env D (Unit {0})) (ps qs : List String)
      → SendsOrAborts m ps
      → SendsOrAborts k qs
      → SendsOrAborts (m >> k) (ps ++ qs)
  SendsOrAborts-then m k ps qs s t w x h =
      let first = s w x h in
      Proceeds-bind (m w) (λ _. k) ps qs w x first (λ _ _. t (m w).1 first.after first.is_open)

  pub SendsOrAborts-for_each :
      (body : String → M env D (Unit {0})) (statements : String → List String)
      → ((s : String) → SendsOrAborts (body s) (statements s))
      → (items : List String) → SendsOrAborts (for_each body items) (loop_script statements items)
  unfolding for_each
  SendsOrAborts-for_each body statements each [] w x h =
      Proceeds-Keeps (pure tt w) w x h (record { state = refl; tx = refl })
  SendsOrAborts-for_each body statements each (s ∷ rest) w x h =
      SendsOrAborts-then (body s) (for_each body rest) (statements s) _ (each s)
        (SendsOrAborts-for_each body statements each rest) w x h

  runs_of_Proceeds :
      {B : Type 0} (r : Result B × World env D) (qs : List String) (w : World env D)
      (x : env.Session) (k : Proceeds r qs w x)
      → (is_ok r.0 ≡ true → Ran env x qs k.after)
      → Runs env T r qs w x
  runs_of_Proceeds r qs w x k h = record {
    after = k.after;
    is_open = k.is_open;
    same = k.same;
    based = k.based;
    ran = h;
  }

  -- A transaction that will not commit is undone.
  Finishes-Aborted :
      {B : Type 0} (r : Result B × World env D) (qs : List String) (x y : env.Session)
      → Aborted env y
      → base y ≡ base x
      → Finishes env T r [] y
      → Finishes env T r qs x
  Finishes-Aborted r qs x y a e f =
      let refused = λ (t : env.State) (c : Completed env [] y t).
        let n : ⊥ = ground (arith, is_ok-commit_of_Aborted env F y a, c.ran, c.committed) in n in
      record {
        closed = f.closed;
        outcome = elim f.outcome [ inl s ↦ inl (s ∙ e) | inr c ↦ absurd (refused _ c) ];
        done = λ o. absurd (refused _ (f.done o));
      }

  -- The transaction's commit, after all of its statements.
  pub Finishes-Proceeds :
      {B : Type 0} (m c : M env D (Unit {0})) (rest : M env D B) (qs : List String)
      (w : World env D) (x : env.Session)
      → Proceeds (m w) qs w x
      → IsCommit env c
      → ((v : World env D) → v.tx ≡ none → Keeps env (rest v) v)
      → Finishes env T ((m >> (c >> rest)) w) qs x
  unfolding runs_of_Proceeds
  Finishes-Proceeds m c rest qs w x k i r =
      let finish = λ (u : Unit {0}) (e : (m w).0 ≡ ok u).
        Finishes-commit env T c rest (m w).1 k.after k.is_open i
          (r _ (tx_of_commit env T (m w).1 k.after k.is_open)) in
      elim (Result-cases (m w).0) [
        | inr (e, f) ↦
            Finishes-last env T (m w) _ qs w x
              (runs_of_Proceeds (m w) qs w x k (λ o. absurd (ground arith))) finish
        | inl (u, e) ↦ elim (k.ran (rw e refl)) [
          | inl s ↦
              Finishes-last env T (m w) _ qs w x (runs_of_Proceeds (m w) qs w x k (λ _. s)) finish
          | inr a ↦ rw (e, continue) (Finishes-Aborted _ qs x k.after a k.based (finish u e))
        ]
      ]
