-- ===== src/Effects/Finish.antt =====
-- The tail of a handler inside its transaction, up to the deferred rollback, and the whole handler.
use terraform_provider_redsh.Base.{
  String, true, false, List, [], ◌++◌, Option, none, some, ◌≡◌, ◌⊎◌, inl, inr, refl, ◌∙◌, arith,
  subst, append-nil,
}
use terraform_provider_redsh.Errors.{Result, ok, is_ok, eq-ok_of_is_ok, Result-cases}
use terraform_provider_redsh.Effects.{
  World, M, ◌>>◌, continue, wrapped, check, tx_commit, start_transaction, deferred_rollback, close,
}
use terraform_provider_redsh.External.{Env, IsTransactional}
use terraform_provider_redsh.Effects.Script.{Ran, Ran-append, Committed}
use terraform_provider_redsh.Effects.Atomic.{Runs}
use terraform_provider_redsh.Effects.Keeps.{Keeps}

module _ (env : Env) where
  -- The rest of a transaction ran the statements and committed.
  pub record Completed (qs : List String) (x : env.Session) (t : env.State) : Type 0 where
    pub last : env.Session
    pub ran : Ran env x qs last
    pub committed : env.commit last ≡ (ok tt, t)

  Completed-append :
      (ps qs : List String) (x y : env.Session) (t : env.State)
      → Ran env x ps y
      → Completed qs y t
      → Completed (ps ++ qs) x t
  Completed-append ps qs x y t h c = record {
    last = c.last;
    ran = Ran-append env ps x y c.last qs h c.ran;
    committed = c.committed;
  }

module _ (env : Env) {D : Type 0} where
  -- The action commits, and changes the error text at most.
  pub record IsCommit (m : M env D (Unit {0})) : Type 0 where
    pub world : (w : World env D) → (m w).1 ≡ (tx_commit w).1
    pub success : (w : World env D) → is_ok (m w).0 ≡ is_ok (tx_commit w).0

  pub tx_commit-IsCommit : IsCommit tx_commit
  tx_commit-IsCommit = record { world = λ w. refl; success = λ w. refl }

  pub wrapped-IsCommit : (text : String) → IsCommit (wrapped text tx_commit)
  wrapped-IsCommit text = record { world = λ w. refl; success = λ w. ground arith }

module _ (env : Env) (T : IsTransactional env) {D : Type 0} where
  open T use {base}

  pub record Finishes {A : Type 0} (r : Result A × World env D) (qs : List String) (x : env.Session)
      : Type 0 where
    pub closed : (close r.1).tx ≡ none
    pub outcome : ((close r.1).state ≡ base x) ⊎ Completed env qs x (close r.1).state
    pub done : is_ok r.0 ≡ true → Completed env qs x (close r.1).state

  -- An end without a commit is rolled back.
  Finishes-uncommitted :
      {A : Type 0} (r : Result A × World env D) (ps qs : List String) (w : World env D)
      (x : env.Session)
      → Runs env T r ps w x
      → is_ok r.0 ≡ false
      → Finishes r qs x
  unfolding close
  Finishes-uncommitted r ps qs w x k f = record {
    closed = ground (arith, k.is_open);
    outcome = inl (ground (arith, k.is_open, T.base-rollback k.after, k.based));
    done = λ o. absurd (ground arith);
  }

  -- A part of the transaction, and the rest.
  pub Finishes-bind :
      {A B : Type 0} (r : Result A × World env D) (f : A → M env D B) (ps qs : List String)
      (w : World env D) (x : env.Session) (k : Runs env T r ps w x)
      → ((a : A) → r.0 ≡ ok a → Finishes (f a r.1) qs k.after)
      → Finishes (continue r.0 f r.1) (ps ++ qs) x
  unfolding close
  Finishes-bind r f ps qs w x k l = elim (Result-cases r.0) [
    | inl (a, e) ↦
        let n = l a e in
        let app = Completed-append env ps qs x k.after (close (f a r.1).1).state (k.ran (rw e)) in
        record {
          closed = rw (e, continue) n.closed;
          outcome =
              rw (e, continue) (elim n.outcome [ inl b ↦ inl (b ∙ k.based) | inr c ↦ inr (app c) ]);
          done = λ o. rw (e, continue) (app (n.done (rw (e, continue) at o)));
        }
    | inr (e, h) ↦ record {
      closed = rw (h, continue) (ground (arith, k.is_open));
      outcome =
          inl (rw (h, continue) (ground (arith, k.is_open, T.base-rollback k.after, k.based)));
      done = λ o. absurd (ground arith);
    }
  ]

  pub Finishes-read :
      {A B : Type 0} (r : Result A × World env D) (f : A → M env D B) (qs : List String)
      (w : World env D) (x : env.Session) (k : Runs env T r [] w x)
      → ((a : A) → r.0 ≡ ok a → Finishes (f a r.1) qs k.after)
      → Finishes (continue r.0 f r.1) qs x
  Finishes-read r f qs w x k l = Finishes-bind r f [] qs w x k l

  -- The part that sends the last statements.
  pub Finishes-last :
      {A B : Type 0} (r : Result A × World env D) (f : A → M env D B) (ps : List String)
      (w : World env D) (x : env.Session) (k : Runs env T r ps w x)
      → ((a : A) → r.0 ≡ ok a → Finishes (f a r.1) [] k.after)
      → Finishes (continue r.0 f r.1) ps x
  Finishes-last r f ps w x k l =
      subst (λ qs. Finishes (continue r.0 f r.1) qs x) (append-nil ps)
        (Finishes-bind r f ps [] w x k l)

  -- A committed transaction, as the rest of the handler finds it.
  tx_commit_lem :
      (w : World env D) (x : env.Session)
      → w.tx ≡ some x
      → tx_commit w ≡ ((env.commit x).0, record w { state = (env.commit x).1; tx = none })
  unfolding tx_commit
  tx_commit_lem w x h = ground arith

  pub tx_of_commit : (w : World env D) (x : env.Session) → w.tx ≡ some x → (tx_commit w).1.tx ≡ none
  tx_of_commit w x h = rw (tx_commit_lem w x h)

  close_of_none : (w : World env D) → w.tx ≡ none → close w ≡ w
  unfolding close
  close_of_none w h = ground arith

  continue_of_ok :
      {A : Type 0} (c : M env D (Unit {0})) (rest : M env D A) (w : World env D)
      → IsCommit env c
      → is_ok (tx_commit w).0 ≡ true
      → (c >> rest) w ≡ rest (tx_commit w).1
  continue_of_ok c rest w i h = rw (eq-ok_of_is_ok (c w).0 (i.success w ∙ h), continue, i.world w)

  continue_of_err :
      {A : Type 0} (c : M env D (Unit {0})) (rest : M env D A) (w : World env D)
      → IsCommit env c
      → is_ok (tx_commit w).0 ≡ false
      → (is_ok ((c >> rest) w).0 ≡ false) × (((c >> rest) w).1 ≡ (tx_commit w).1)
  continue_of_err c rest w i h = ground (arith, i.success w, i.world w)

  pub Finishes-commit :
      {A : Type 0} (c : M env D (Unit {0})) (rest : M env D A) (w : World env D) (x : env.Session)
      → w.tx ≡ some x
      → IsCommit env c
      → Keeps env (rest (tx_commit w).1) (tx_commit w).1
      → Finishes ((c >> rest) w) [] x
  Finishes-commit c rest w x h i k = elim (Result-cases (env.commit x).0) [
    | inl (a, e) ↦
        let eq = continue_of_ok c rest w i (rw (tx_commit_lem w x h) (rw e)) in
        let stays = close_of_none (rest (tx_commit w).1).1 (k.tx ∙ rw (tx_commit_lem w x h)) in
        let done : Completed env [] x (rest (tx_commit w).1).1.state = record {
          last = x;
          ran = refl;
          committed = ground (arith, tx_commit_lem w x h, k.state, eq-ok_of_is_ok (env.commit x).0);
        } in
        record {
          closed = rw (eq, stays) (k.tx ∙ rw (tx_commit_lem w x h));
          outcome = inr (rw (eq, stays) done);
          done = λ _. rw (eq, stays) done;
        }
    | inr (e, f) ↦
        let (failed, left) = continue_of_err c rest w i (rw (tx_commit_lem w x h) (rw f)) in
        let stays = close_of_none (tx_commit w).1 (rw (tx_commit_lem w x h)) in
        record {
          closed = rw (left, stays) (rw (tx_commit_lem w x h));
          outcome = inl (rw (left, stays) (rw (tx_commit_lem w x h) (T.base-commit x e f)));
          done = λ o. absurd (ground arith);
        }
  ]

  -- The statements of a handler, its commit, and what follows the commit.
  pub Finishes-sent :
      {A : Type 0} (m c : M env D (Unit {0})) (rest : M env D A) (qs : List String)
      (w : World env D) (x : env.Session)
      → Runs env T (m w) qs w x
      → IsCommit env c
      → ((v : World env D) → v.tx ≡ none → Keeps env (rest v) v)
      → Finishes ((m >> (c >> rest)) w) qs x
  Finishes-sent m c rest qs w x k i r = Finishes-last (m w) _ qs w x k (λ _ _.
      Finishes-commit c rest (m w).1 k.after k.is_open i
        (r _ (tx_of_commit (m w).1 k.after k.is_open)))

  -- The whole handler: the database is as it was, or the handler began a transaction, ran the
  -- statements that `qs` gives for its session, and committed; after a success, the latter.
  pub record AllOrNothing {A : Type 0} (r : Result A × World env D) (qs : env.Session → List String)
      (w : World env D) : Type 0 where
    pub closed : r.1.tx ≡ none
    pub outcome : (r.1.state ≡ w.state) ⊎ Committed env qs w.state r.1.state
    pub done : is_ok r.0 ≡ true → Committed env qs w.state r.1.state

  pub AllOrNothing-transaction :
      {A : Type 0} (m : M env D A) (qs : env.Session → List String) (w : World env D)
      → w.tx ≡ none
      → ((x : env.Session)
          → env.begin w.state ≡ ok x
          → Finishes (m (record w { tx = some x })) (qs x) x)
      → AllOrNothing ((start_transaction >> deferred_rollback m) w) qs w
  unfolding start_transaction deferred_rollback
  AllOrNothing-transaction m qs w h k = elim (Result-cases (env.connect w.state)) [
    | inr (e, c) ↦ record {
      closed = ground arith;
      outcome = inl (ground arith);
      done = λ o. absurd (ground arith);
    }
    | inl (u, c) ↦ elim (Result-cases (env.begin w.state)) [
      | inr (e, b) ↦ record {
        closed = ground arith;
        outcome = inl (ground arith);
        done = λ o. absurd (ground arith);
      }
      | inl (x, b) ↦
          let f = k x b in
          let eq : (start_transaction >> deferred_rollback m) w
              ≡ deferred_rollback m (record w { tx = some x }) =
            ground arith in
          let whole = λ (c : Completed env (qs x) x (close (m (record w { tx = some x })).1).state).
            let r : Committed env qs w.state (close (m (record w { tx = some x })).1).state =
              record {
                first = x;
                last = c.last;
                begun = b;
                ran = c.ran;
                committed = c.committed;
              } in
            r in
          record {
            closed = rw eq f.closed;
            outcome = rw eq (elim f.outcome [
              | inl same ↦ inl (same ∙ T.base-begin w.state x b)
              | inr c ↦ inr (whole c)
            ]);
            done = λ o. rw eq (whole (f.done (rw eq at o)));
          }
    ]
  ]

  -- A check that fails before the transaction begins changes nothing.
  pub AllOrNothing-check :
      {A : Type 0} (c : Option String) (m : M env D A) (qs : env.Session → List String)
      (w : World env D)
      → w.tx ≡ none
      → (c ≡ none → AllOrNothing (m w) qs w)
      → AllOrNothing ((check c >> m) w) qs w
  AllOrNothing-check (some text) m qs w h k = record {
    closed = h;
    outcome = inl refl;
    done = λ o. cc;
  }
  AllOrNothing-check none m qs w h k = k refl
