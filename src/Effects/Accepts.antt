-- ===== src/Effects/Accepts.antt =====
-- What a handler does when the database accepts its statements and its commit.
use terraform_provider_redsh.Base.{
  String, Bool, true, false, List, [], ◌∷◌, ◌++◌, none, some, ◌≡◌, refl, ◌∙◌, arith, if◌then◌else◌,
  inl, inr,
}
use terraform_provider_redsh.Errors.{Result, ok, eq-ok_of_is_ok, Result-cases}
use terraform_provider_redsh.External.{Env}
use terraform_provider_redsh.Effects.{
  World, M, ◌>>◌, continue, pure, wrapped, start_transaction, deferred_rollback, tx_exec, tx_commit,
  close,
}
use terraform_provider_redsh.Effects.Sends.{session_after}
use terraform_provider_redsh.Effects.Keeps.{Keeps}
use terraform_provider_redsh.Effects.Finish.{IsCommit}

module _ (env : Env) where
  -- Each of the statements succeeds in the session that the ones before it lead to.
  abbrev pub Accepted : env.Session → List String → Type 0
  Accepted x [] = Unit
  Accepted x (q ∷ qs) = ((env.exec q x).0 ≡ ok tt) × Accepted (env.exec q x).1 qs

  Accepted-append :
      (ps qs : List String) (x : env.Session)
      → Accepted x (ps ++ qs)
      → Accepted x ps × Accepted (session_after env ps x) qs
  Accepted-append [] qs x a = (tt, a)
  Accepted-append (p ∷ ps) qs x (e, a) =
      let (b, c) = Accepted-append ps qs (env.exec p x).1 a in ((e, b), c)

  session_after-append :
      (ps qs : List String) (x : env.Session)
      → session_after env (ps ++ qs) x ≡ session_after env qs (session_after env ps x)
  session_after-append [] qs x = refl
  session_after-append (p ∷ ps) qs x = session_after-append ps qs (env.exec p x).1

  -- The database takes the statements `qs` and commits them, from the state `s` to the state `t`.
  pub record Takes (qs : List String) (s t : env.State) : Type 0 where
    pub first : env.Session
    pub connected : env.connect s ≡ ok tt
    pub begun : env.begin s ≡ ok first
    pub accepted : Accepted first qs
    pub committed : env.commit (session_after env qs first) ≡ (ok tt, t)

module _ (env : Env) {D : Type 0} (d : D) where
  -- With the resource data `d`, the action succeeds if the database accepts the statements, and does nothing but send them.
  abbrev pub Accepts : M env D (Unit {0}) → List String → Type 0
  Accepts m qs =
      (w : World env D) (x : env.Session)
      → w.d ≡ d
      → w.tx ≡ some x
      → Accepted env x qs
      → m w ≡ (ok tt, record w { tx = some (session_after env qs x) })

  pub Accepts-tx_exec : (q : String) → Accepts (tx_exec q) (q ∷ [])
  unfolding tx_exec
  Accepts-tx_exec q w x s h (e, a) = rw (h, e) refl

  pub Accepts-exec : (about q : String) → Accepts (wrapped about (tx_exec q)) (q ∷ [])
  Accepts-exec about q w x s h a = rw (Accepts-tx_exec q w x s h a) refl

  pub Accepts-unless :
      (b : Bool) (m : M env D (Unit {0})) (qs : List String)
      → Accepts m qs
      → Accepts (if b then pure tt else m) (if b then [] else qs)
  Accepts-unless true m qs k w x s h a = rw (← h) refl
  Accepts-unless false m qs k w x s h a = k w x s h a

  pub Accepts-then :
      (m k : M env D (Unit {0})) (ps qs : List String)
      → Accepts m ps
      → Accepts k qs
      → Accepts (m >> k) (ps ++ qs)
  Accepts-then m k ps qs s t w x g h a =
      let (b, c) = Accepted-append env ps qs x a in
      rw (s w x g h b, session_after-append env ps qs x)
        (t (record w { tx = some (session_after env ps x) }) (session_after env ps x) g refl c)

  commit_of :
      (c : M env D (Unit {0})) (w : World env D) (y : env.Session) (t : env.State)
      → IsCommit env c
      → env.commit y ≡ (ok tt, t)
      → ((c (record w { tx = some y })).0 ≡ ok tt)
        × ((c (record w { tx = some y })).1 ≡ record w { state = t; tx = none })
  unfolding tx_commit
  commit_of c w y t i e =
      let u = record w { tx = some y } in
      (eq-ok_of_is_ok (c u).0 (i.success u ∙ rw e refl), i.world u ∙ rw e refl)

  start_of :
      (m : M env D (Unit {0})) (w : World env D) (x : env.Session)
      → env.connect w.state ≡ ok tt
      → env.begin w.state ≡ ok x
      → (start_transaction >> m) w ≡ m (record w { tx = some x })
  unfolding start_transaction
  start_of m w x c b = ground (arith, c, b)

  close_of : (r : Result (Unit {0}) × World env D) → r.1.tx ≡ none → (r.0, close r.1) ≡ r
  unfolding close
  close_of r h = ground (arith, h)

  pub then_assoc :
      (a b : M env D (Unit {0})) (k : M env D (Unit {0})) (w : World env D)
      → ((a >> b) >> k) w ≡ (a >> (b >> k)) w
  then_assoc a b k w = elim (Result-cases (a w).0) [
    | inl (u, e) ↦ rw (e, continue) refl
    | inr (u, e) ↦ rw (e, continue) refl
  ]

  -- The whole handler, with a rest that leaves the database alone: it is that rest, in the world
  -- after the commit.
  pub transaction_of_Takes :
      (n m c rest : M env D (Unit {0})) (qs : List String) (w : World env D) (t : env.State)
      → ((v : World env D) → v.d ≡ d → n v ≡ (m >> (c >> rest)) v)
      → w.d ≡ d
      → Accepts m qs
      → IsCommit env c
      → Takes env qs w.state t
      → Keeps env (rest (record w { state = t; tx = none })) (record w { state = t; tx = none })
      → (start_transaction >> deferred_rollback n) w ≡ rest (record w { state = t; tx = none })
  unfolding deferred_rollback
  transaction_of_Takes n m c rest qs w t p g a i k r =
      let v = record w { tx = some k.first } in
      let (e, f) = commit_of c w (session_after env qs k.first) t i k.committed in
      start_of (deferred_rollback n) w k.first k.connected k.begun
      ∙ rw (p v g, a v k.first g refl k.accepted, e, f)
          (close_of (rest (record w { state = t; tx = none })) r.tx)
