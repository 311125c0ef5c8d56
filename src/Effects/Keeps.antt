-- ===== src/Effects/Keeps.antt =====
-- Actions that leave the database and the transaction alone.
use terraform_provider_redsh.Base.{
  String, Bool, true, false, List, ◌≡◌, inl, inr, refl, ◌∙◌, if◌then◌else◌,
}
use terraform_provider_redsh.Errors.{Result, Result-cases, wrapping}
use terraform_provider_redsh.Effects.{World, M, continue, db_query, db_query_row}
use terraform_provider_redsh.External.{Env, Column, Query}

module _ (env : Env) {D : Type 0} where
  -- The action leaves the database and the transaction alone: it reads, and sets resource data.
  pub record Keeps {A : Type 0} (r : Result A × World env D) (w : World env D) : Type 0 where
    pub state : r.1.state ≡ w.state
    pub tx : r.1.tx ≡ w.tx

module _ {env : Env} {D : Type 0} where
  pub Keeps-none :
      {A : Type 0} (r : Result A) (d : D) (w : World env D) → Keeps env (r, record w { d = d }) w
  Keeps-none r d w = record { state = refl; tx = refl }

  pub Keeps-refl : {A : Type 0} (r : Result A) (w : World env D) → Keeps env (r, w) w
  Keeps-refl r w = record { state = refl; tx = refl }

  pub Keeps-db_query :
      (cols : List Column) (q : Query) (w : World env D) → Keeps env (db_query cols q w) w
  unfolding db_query
  Keeps-db_query cols q w = record { state = refl; tx = refl }

  pub Keeps-db_query_row :
      (cols : List Column) (q : Query) (w : World env D) → Keeps env (db_query_row cols q w) w
  unfolding db_query_row
  Keeps-db_query_row cols q w = record { state = refl; tx = refl }

  pub Keeps-wrapping :
      {A : Type 0} (text : String) (r : Result A × World env D) (w : World env D)
      → Keeps env r w
      → Keeps env (wrapping text r.0, r.1) w
  Keeps-wrapping text r w k = record { state = k.state; tx = k.tx }

  pub Keeps-bind :
      {A B : Type 0} (r : Result A × World env D) (f : A → M env D B) (w : World env D)
      → Keeps env r w
      → ((a : A) → Keeps env (f a r.1) r.1)
      → Keeps env (continue r.0 f r.1) w
  Keeps-bind r f w k n = elim (Result-cases r.0) [
    | inl (a, e) ↦ record {
      state = rw (e, continue) ((n a).state ∙ k.state);
      tx = rw (e, continue) ((n a).tx ∙ k.tx);
    }
    | inr (e, h) ↦ record { state = rw (h, continue) k.state; tx = rw (h, continue) k.tx }
  ]

  pub Keeps-if :
      {A : Type 0} (b : Bool) (m n : M env D A) (w : World env D)
      → Keeps env (m w) w
      → Keeps env (n w) w
      → Keeps env ((if b then m else n) w) w
  Keeps-if true m n w k l = k
  Keeps-if false m n w k l = l
