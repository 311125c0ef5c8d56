-- ===== src/Grant/Reported.antt =====
-- The privileges that the reads of resource_redshift_grant.go report.
use terraform_provider_redsh.Base.{
  String, Bool, true, false, List, [], ◌∷◌, all, string_dec, ◌≡◌, refl, arith,
}
use terraform_provider_redsh.Strings.{to_upper}
use terraform_provider_redsh.External.{Env, HasSets, flag, Cells}
use terraform_provider_redsh.Helpers.{upper, is_allowed, append_if_true, validate_privileges}
use terraform_provider_redsh.Helpers.Privileges.{all-append, all-contains, all_of_contains}
use terraform_provider_redsh.Grant.Read.{
  TableFlags, add_if, table_privileges, schema_privileges, database_privileges,
}

module _ (env : Env) (H : HasSets env) where
  abbrev allowed : String → String → Bool
  allowed kind p = is_allowed (upper env kind) (upper env p)

  all-set_add :
      (p : String → Bool) (a : String) (s : List String)
      → p a ≡ true
      → all p s ≡ true
      → all p (env.set_add a s) ≡ true
  all-set_add p a s h k = all_of_contains p (env.set_add a s) (λ b c. elim (string_dec b a) [
    | yes e ↦ rw e h
    | no n ↦ all-contains p s b k (ground (arith, H.contains-set_add a s b, n))
  ])

  all-add_if :
      (p : String → Bool) (b : Bool) (a : String) (s : List String)
      → p a ≡ true
      → all p s ≡ true
      → all p (add_if env b a s) ≡ true
  all-add_if p true a s h k = all-set_add p a s h k
  all-add_if p false a s h k = k

  all-append_if_true :
      (p : String → Bool) (b : Bool) (a : String) (s : List String)
      → p a ≡ true
      → all p s ≡ true
      → all p (append_if_true b a s) ≡ true
  unfolding append_if_true
  all-append_if_true p true a s h k = ground (arith, all-append p s (a ∷ []))
  all-append_if_true p false a s h k = k

  table_reported : (f : TableFlags) → all (allowed "table") (table_privileges env f) ≡ true
  unfolding table_privileges is_allowed to_upper string_dec
  table_reported
        (select, (update, (insert, (delete, (drop, (references, (rule, (trigger, u)))))))) =
      let p = allowed "table" in
      all-add_if p trigger "trigger" _ refl (
        all-add_if p rule "rule" _ refl (
          all-add_if p references "references" _ refl (
            all-add_if p drop "drop" _ refl (
              all-add_if p delete "delete" _ refl (
                all-add_if p insert "insert" _ refl (
                  all-add_if p update "update" _ refl
                    (all-add_if p select "select" [] refl refl)))))))

  schema_reported :
      (f : Cells (flag ∷ flag ∷ [])) → all (allowed "schema") (schema_privileges env f) ≡ true
  unfolding schema_privileges is_allowed to_upper string_dec
  schema_reported (create, (usage, u)) =
      let p = allowed "schema" in
      all-append_if_true p usage "usage" _ refl (all-append_if_true p create "create" [] refl refl)

  database_reported :
      (f : Cells (flag ∷ flag ∷ flag ∷ []))
      → all (allowed "database") (database_privileges env f) ≡ true
  unfolding database_privileges is_allowed to_upper string_dec
  database_reported (create, (temporary, (usage, u))) =
      let p = allowed "database" in
      all-append_if_true p usage "usage" _ refl (
        all-append_if_true p temporary "temporary" _ refl
          (all-append_if_true p create "create" [] refl refl))

  -- Whatever the database answers, the privileges that a read reports for a table, a schema or a
  -- database pass the check that a create makes for that type: a reported state can be applied.
  pub validate_privileges-reported :
      (t : TableFlags) (s : Cells (flag ∷ flag ∷ [])) (d : Cells (flag ∷ flag ∷ flag ∷ []))
      → (validate_privileges env (table_privileges env t) "table" ≡ true)
        × ((validate_privileges env (schema_privileges env s) "schema" ≡ true)
            × (validate_privileges env (database_privileges env d) "database" ≡ true))
  unfolding validate_privileges string_dec
  validate_privileges-reported t s d = (table_reported t, (schema_reported s, database_reported d))
