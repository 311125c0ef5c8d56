-- ===== src/Role/Outcomes.antt =====
-- The handlers of a role on every branch (resource_redshift_role.go).
use terraform_provider_redsh.Base.{false, [], ◌∷◌, none, ◌≡◌, Bool}
use terraform_provider_redsh.Errors.{err, ok, first_row, Result}
use terraform_provider_redsh.External.{Cells, Env, flag}
use terraform_provider_redsh.Effects.{World}
use terraform_provider_redsh.Role.{RoleData, role_exists}

-- The answer to the test for a role.
abbrev pub is_found : Result (Cells (flag ∷ [])) → Bool
is_found (ok row) = row.0
is_found (err e) = false

module _ (env : Env) where
  -- The transaction of a delete begins, and does not find the role: the answer is false, or none.
  abbrev pub NotFound : World env RoleData → Type 0
  NotFound w =
      (x : env.Session) × ((env.begin w.state ≡ ok x)
        × (is_found (first_row (env.query (flag ∷ []) (role_exists w.d.id) x)) ≡ false))

  -- A handler that changes nothing and leaves no transaction open.
  abbrev pub Unchanged : Result (Unit {0}) × World env RoleData → World env RoleData → Type 0
  Unchanged r w = (r.1.state ≡ w.state) × (r.1.tx ≡ none)
