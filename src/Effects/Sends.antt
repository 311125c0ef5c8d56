-- ===== src/Effects/Sends.antt =====
-- Actions that send the same statements whenever they run in a transaction.
use terraform_provider_redsh.Base.{String, Bool, List, [], ◌∷◌, ◌++◌, some, ◌≡◌, if◌then◌else◌}
use terraform_provider_redsh.Errors.{Error}
use terraform_provider_redsh.External.{Env, IsTransactional}
use terraform_provider_redsh.Effects.{World, M, ◌>>◌, pure, fail, wrapped, tx_exec}
use terraform_provider_redsh.Effects.Script.{Ran}
use terraform_provider_redsh.Effects.Atomic.{
  Runs, Runs-exec, Runs-fail, Runs-wrapping, Runs-bind, Runs-unless,
}

module _ (env : Env) (T : IsTransactional env) {D : Type 0} where
  abbrev pub Sends : M env D (Unit {0}) → List String → Type 0
  Sends m qs = (w : World env D) (x : env.Session) → w.tx ≡ some x → Runs env T (m w) qs w x

  pub Sends-exec : (text q : String) → Sends (wrapped text (tx_exec q)) (q ∷ [])
  Sends-exec text q w x h = Runs-wrapping env T text (tx_exec q w) _ w x (Runs-exec env T q w x h)

  pub Sends-fail : (e : Error) (qs : List String) → Sends (fail e) qs
  Sends-fail e qs w x h = Runs-fail env T e qs w x h

  pub Sends-unless :
      (b : Bool) (m : M env D (Unit {0})) (qs : List String)
      → Sends m qs
      → Sends (if b then pure tt else m) (if b then [] else qs)
  Sends-unless b m qs s w x h = Runs-unless env T b m qs w x h (s w x h)

  pub Sends-then :
      (m k : M env D (Unit {0})) (ps qs : List String)
      → Sends m ps
      → Sends k qs
      → Sends (m >> k) (ps ++ qs)
  Sends-then m k ps qs s t w x h =
      let first = s w x h in
      Runs-bind env T (m w) (λ _. k) ps qs w x first (λ _ _. t (m w).1 first.after first.is_open)

module _ (env : Env) where
  -- The session that statements lead to.
  abbrev pub session_after : List String → env.Session → env.Session
  session_after [] x = x
  session_after (q ∷ qs) x = session_after qs (env.exec q x).1

  pub session_after_of_Ran :
      (qs : List String) (x y : env.Session) → Ran env x qs y → session_after qs x ≡ y
  session_after_of_Ran [] x y r = r
  session_after_of_Ran (q ∷ qs) x y (e, r) = session_after_of_Ran qs (env.exec q x).1 y r
