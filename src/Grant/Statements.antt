-- ===== src/Grant/Statements.antt =====
-- The GRANT and the REVOKE of one resource, and its id.
use text.Mathlib.TextLemmas.{append_assoc}
use terraform_provider_redsh.Base.{
  String, ◌<>◌, false, is_empty, string_dec, ◌≡◌, ◌≢◌, refl, sym, ◌∙◌, arith, ap, Bool-cases, inl,
  inr,
}
use terraform_provider_redsh.Strings.{join}
use terraform_provider_redsh.External.{Env}
use terraform_provider_redsh.Helpers.{upper, set_to_pg_ident_list, set_to_pg_ident_list_not_quoted}
use terraform_provider_redsh.Grant.{
  GrantData, grantee, named_grantee, is_grant_to_public, create_grants_query,
  create_grants_revoke_query, generate_grant_id,
}

regroup : (a b c x : String) → (a <> b) <> (c <> x) ≡ a <> ((b <> c) <> x)
regroup a b c x = simp append_assoc

module _ (env : Env) (d : GrantData) (name : String) where
  abbrev whom : String
  whom = (grantee env d).0 <> (" " <> (grantee env d).1)

  -- One text for the object and one for the grantee stand in both statements, whole.
  abbrev pub SameTarget : String → Type 0
  SameTarget verb =
      (target : String) × (create_grants_revoke_query env d name
        ≡ verb <> (target <> (" FROM " <> ((grantee env d).0 <> (" " <> (grantee env d).1)))))
      × (create_grants_query env d name
          ≡ "GRANT "
            <> (join "," d.privileges
                <> (" ON "
                    <> (target <> (" TO " <> ((grantee env d).0 <> (" " <> (grantee env d).1)))))))

  target_database : upper env d.object_type ≡ "DATABASE" → SameTarget "REVOKE ALL PRIVILEGES ON "
  unfolding create_grants_query create_grants_revoke_query string_dec
  target_database e = (
    "DATABASE " <> env.quote_identifier name,
    rw e (regroup "REVOKE ALL PRIVILEGES ON " "DATABASE " _ _),
    rw e (ap (λ t. "GRANT " <> (join "," d.privileges <> t)) (regroup " ON " "DATABASE " _ _)),
  )

  target_schema : upper env d.object_type ≡ "SCHEMA" → SameTarget "REVOKE ALL PRIVILEGES ON "
  unfolding create_grants_query create_grants_revoke_query string_dec
  target_schema e = (
    "SCHEMA " <> env.quote_identifier d.schema,
    rw e (regroup "REVOKE ALL PRIVILEGES ON " "SCHEMA " _ _),
    rw e (ap (λ t. "GRANT " <> (join "," d.privileges <> t)) (regroup " ON " "SCHEMA " _ _)),
  )

  all_in_schema :
      (verb kind x : String)
      → (verb <> "ALL ") <> (kind <> ("S IN SCHEMA " <> (env.quote_identifier d.schema <> x)))
        ≡ verb <> (("ALL " <> (kind <> ("S IN SCHEMA " <> env.quote_identifier d.schema))) <> x)
  all_in_schema verb kind x = simp append_assoc

  one_kind : (kind list x : String) → kind <> (" " <> (list <> x)) ≡ (kind <> (" " <> list)) <> x
  one_kind kind list x = simp append_assoc

  target_table : upper env d.object_type ≡ "TABLE" → SameTarget "REVOKE ALL PRIVILEGES ON "
  unfolding create_grants_query create_grants_revoke_query string_dec
  target_table e = elim (Bool-cases (is_empty d.objects)) [
    | inl h ↦ (
      "ALL " <> ("TABLE" <> ("S IN SCHEMA " <> env.quote_identifier d.schema)),
      rw (e, h) (all_in_schema "REVOKE ALL PRIVILEGES ON " "TABLE" _),
      rw (e, h)
          (ap (λ t. "GRANT " <> (join "," d.privileges <> t)) (all_in_schema " ON " "TABLE" _)),
    )
    | inr h ↦ (
      "TABLE" <> (" " <> set_to_pg_ident_list env d.objects d.schema),
      rw (e, h) (ap (λ t. "REVOKE ALL PRIVILEGES ON " <> t) (one_kind "TABLE" _ _)),
      rw (e, h)
          (ap (λ t. "GRANT " <> (join "," d.privileges <> (" ON " <> t))) (one_kind "TABLE" _ _)),
    )
  ]

  target_function : upper env d.object_type ≡ "FUNCTION" → SameTarget "REVOKE ALL PRIVILEGES ON "
  unfolding create_grants_query create_grants_revoke_query string_dec
  target_function e = elim (Bool-cases (is_empty d.objects)) [
    | inl h ↦ (
      "ALL " <> ("FUNCTION" <> ("S IN SCHEMA " <> env.quote_identifier d.schema)),
      rw (e, h) (all_in_schema "REVOKE ALL PRIVILEGES ON " "FUNCTION" _),
      rw (e, h)
          (ap (λ t. "GRANT " <> (join "," d.privileges <> t)) (all_in_schema " ON " "FUNCTION" _)),
    )
    | inr h ↦ (
      "FUNCTION" <> (" " <> set_to_pg_ident_list_not_quoted d.objects d.schema),
      rw (e, h) (ap (λ t. "REVOKE ALL PRIVILEGES ON " <> t) (one_kind "FUNCTION" _ _)),
      rw (e, h)
          (ap (λ t. "GRANT " <> (join "," d.privileges <> (" ON " <> t)))
            (one_kind "FUNCTION" _ _)),
    )
  ]

  target_procedure : upper env d.object_type ≡ "PROCEDURE" → SameTarget "REVOKE ALL PRIVILEGES ON "
  unfolding create_grants_query create_grants_revoke_query string_dec
  target_procedure e = elim (Bool-cases (is_empty d.objects)) [
    | inl h ↦ (
      "ALL " <> ("PROCEDURE" <> ("S IN SCHEMA " <> env.quote_identifier d.schema)),
      rw (e, h) (all_in_schema "REVOKE ALL PRIVILEGES ON " "PROCEDURE" _),
      rw (e, h)
          (ap (λ t. "GRANT " <> (join "," d.privileges <> t)) (all_in_schema " ON " "PROCEDURE" _)),
    )
    | inr h ↦ (
      "PROCEDURE" <> (" " <> set_to_pg_ident_list_not_quoted d.objects d.schema),
      rw (e, h) (ap (λ t. "REVOKE ALL PRIVILEGES ON " <> t) (one_kind "PROCEDURE" _ _)),
      rw (e, h)
          (ap (λ t. "GRANT " <> (join "," d.privileges <> (" ON " <> t)))
            (one_kind "PROCEDURE" _ _)),
    )
  ]

  target_language :
      upper env d.object_type ≡ "LANGUAGE"
      → d.schema ≡ ""
      → is_empty d.objects ≡ false
      → SameTarget "REVOKE USAGE ON "
  unfolding create_grants_query create_grants_revoke_query string_dec
  target_language e s h = (
    "LANGUAGE " <> set_to_pg_ident_list env d.objects "",
    rw e (regroup "REVOKE USAGE ON " "LANGUAGE " _ _),
    rw (e, h, s)
        (ap (λ t. "GRANT " <> (join "," d.privileges <> (" ON " <> t)))
          (sym (append_assoc "LANGUAGE" " " _) ∙ sym (append_assoc "LANGUAGE " _ _))),
  )

  -- What `create` lets through: an object type that the statements know, and for a language some
  -- object and (which `create` does not ask for) no schema.
  pub data Known : Type 0 where
    database : upper env d.object_type ≡ "DATABASE" → Known
    schema : upper env d.object_type ≡ "SCHEMA" → Known
    table : upper env d.object_type ≡ "TABLE" → Known
    function : upper env d.object_type ≡ "FUNCTION" → Known
    procedure : upper env d.object_type ≡ "PROCEDURE" → Known
    language :
        upper env d.object_type ≡ "LANGUAGE" → d.schema ≡ "" → is_empty d.objects ≡ false → Known

  abbrev pub verb : Known → String
  verb (language _ _ _) = "REVOKE USAGE ON "
  verb _ = "REVOKE ALL PRIVILEGES ON "

  -- The statement that revokes and the statement that grants name the same object and the same
  -- grantee: REVOKE … ON target FROM grantee, GRANT privileges ON target TO grantee, for each of the
  -- six object types; of a language, if no schema is set and some language is named.
  pub same_target : (k : Known) → SameTarget (verb k)
  same_target (database e) = target_database e
  same_target (schema e) = target_schema e
  same_target (table e) = target_table e
  same_target (function e) = target_function e
  same_target (procedure e) = target_procedure e
  same_target (language e s h) = target_language e s h

module _ (env : Env) where
  -- Two grants that differ in their roles alone are for different grantees, and have the same id.
  pub generate_grant_id_of_roles :
      (d : GrantData) (r s : String)
      → d.group ≡ ""
      → d.user ≡ ""
      → r ≢ ""
      → s ≢ ""
      → env.quote_identifier r ≢ env.quote_identifier s
      → (generate_grant_id env (record d { role = r })
          ≡ generate_grant_id env (record d { role = s }))
        × (grantee env (record d { role = r }) ≢ grantee env (record d { role = s }))
  unfolding generate_grant_id grantee named_grantee is_grant_to_public
  generate_grant_id_of_roles d r s g u p q n = (refl, λ e. ground arith)
