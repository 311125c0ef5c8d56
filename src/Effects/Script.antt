-- ===== src/Effects/Script.antt =====
-- What a handler sends inside its transaction, as a list of statements.
use terraform_provider_redsh.Base.{String, List, [], ◌∷◌, ◌++◌, ◌≡◌, sym, subst}
use terraform_provider_redsh.Errors.{ok}
use terraform_provider_redsh.External.{Env}

module _ (env : Env) where
  -- The statements succeed one after the other, and take one session to the other.
  abbrev pub Ran : env.Session → List String → env.Session → Type 0
  Ran x [] y = x ≡ y
  Ran x (q ∷ qs) y = ((env.exec q x).0 ≡ ok tt) × Ran (env.exec q x).1 qs y

  pub Ran-append :
      (ps : List String) (x y z : env.Session) (qs : List String)
      → Ran x ps y
      → Ran y qs z
      → Ran x (ps ++ qs) z
  Ran-append [] x y z qs h k = subst (λ s. Ran s qs z) (sym h) k
  Ran-append (p ∷ ps) x y z qs (h, hs) k = (h, Ran-append ps (env.exec p x).1 y z qs hs k)

  -- A transaction took one state to the other by running the statements, which may depend on what
  -- the session shows, and committing.
  pub record Committed (qs : env.Session → List String) (s t : env.State) : Type 0 where
    pub first : env.Session
    pub last : env.Session
    pub begun : env.begin s ≡ ok first
    pub ran : Ran first (qs first) last
    pub committed : env.commit last ≡ (ok tt, t)
