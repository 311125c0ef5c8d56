-- ===== src/RoleGrant/Id.antt =====
-- Ids of role grants: `generateRoleGrantID` and the parsing in the delete (resource_redshift_role_grant.go).
use Prim.Native.Char.{code}
use text.Mathlib.TextLemmas.{append_assoc}
use terraform_provider_redsh.Base.{
  ◌<◌, Char, String, ◌<>◌, [], ◌∷◌, some, ◌≡◌, ◌≢◌, refl, arith, ap, ◌∙◌,
}
use terraform_provider_redsh.Strings.{split, to_lower}
use terraform_provider_redsh.Strings.Laws.{Lacks, split_of_Lacks, Lacks-to_lower, cut}
use terraform_provider_redsh.External.{Env}
use terraform_provider_redsh.Helpers.{lower}
use terraform_provider_redsh.RoleGrant.{id_parts, generate_role_grant_id}

-- Four texts without a colon, joined by colons, are the four parts.
split_four :
    (a b c d : String)
    → Lacks b':' a
    → Lacks b':' b
    → Lacks b':' c
    → Lacks b':' d
    → split b':' (a <> (":" <> (b <> (":" <> (c <> (":" <> d)))))) ≡ a ∷ b ∷ c ∷ d ∷ []
split_four a b c d p q r s =
    cut a _ p
    ∙ ap (λ l. a ∷ l)
        (cut b _ q ∙ ap (λ l. b ∷ l) (cut c d r ∙ ap (λ l. c ∷ l) (split_of_Lacks b':' d s)))

module _ (env : Env) where
  parts_of_id :
      (role type name : String)
      → ((c : Char) → 127 < code c → code (env.lower_table c) ≢ b':')
      → Lacks b':' role
      → Lacks b':' type
      → Lacks b':' name
      → split b':' (generate_role_grant_id env role type name)
        ≡ "role" ∷ lower env role ∷ lower env type ∷ lower env name ∷ []
  unfolding generate_role_grant_id
  parts_of_id role type name t p q r =
      let lacks = λ (s : String) (h : Lacks b':' s).
        Lacks-to_lower env.lower_table b':' s (omega arith) t h in
      rw (append_assoc "role" ":" _) (
        split_four "role" (lower env role) (lower env type) (lower env name) (omega arith)
          (lacks role p) (lacks type q) (lacks name r))

  -- The id of a grant is taken apart into the role, the type and the name that it was made of, in
  -- lower case, if none of them has a colon and the table of
  -- lower case, beyond ASCII, makes none.
  pub id_parts-generate_role_grant_id :
      (role type name : String)
      → ((c : Char) → 127 < code c → code (env.lower_table c) ≢ b':')
      → Lacks b':' role
      → Lacks b':' type
      → Lacks b':' name
      → id_parts (generate_role_grant_id env role type name)
        ≡ some (lower env role, lower env type, lower env name)
  unfolding id_parts to_lower
  id_parts-generate_role_grant_id role type name t p q r =
      rw (parts_of_id role type name t p q r, id_parts) refl
