-- ===== src/DatasharePrivilege/Consumers.antt =====
-- The consumers of datashare privileges that pass the checks of validation.go, in the statements and
-- the ids of resource_redshift_datashare_privilege.go.
use Prim.Native.String.{char_at}
use text.Mathlib.TextLemmas.{nil-append, cons-append, cons-eq-cons}
use terraform_provider_redsh.Base.{
  ℕ, String, ◌<>◌, true, false, none, some, ◌≡◌, refl, sym, subst, ◌∙◌, arith, nat_eq, inl, inr,
  Bool-cases, if◌then◌else◌,
}
use terraform_provider_redsh.Strings.{double_char, join}
use terraform_provider_redsh.Strings.Laws.{Lacks}
use terraform_provider_redsh.External.{Env}
use terraform_provider_redsh.Helpers.{pq_quote_literal}
use terraform_provider_redsh.Validation.{is_aws_account_id, is_uuid, is_hex}
use terraform_provider_redsh.Strings.Decimal.{is_digit}
use terraform_provider_redsh.Validation.Patterns.{Lacks-is_aws_account_id, Lacks-is_uuid}
use terraform_provider_redsh.DatasharePrivilege.{
  DatasharePrivilegeData, is_set, customize_diff, generate_datashare_privileges_id,
  grant_usage_query, revoke_usage_query,
}

double_char_of_Lacks : (n : ℕ) (s : String) → Lacks n s → double_char n s ≡ s
unfolding double_char
double_char_of_Lacks n String.[] h = refl
double_char_of_Lacks n (String.◌∷◌ c s) (p, h) = rw (double_char_of_Lacks n s h) (ground arith)

pq_quote_literal_of_Lacks : (s : String) → Lacks b'\'' s → Lacks b'\\' s → pq_quote_literal s ≡ s
unfolding pq_quote_literal
pq_quote_literal_of_Lacks s p q =
    rw (double_char_of_Lacks b'\\' s q) (double_char_of_Lacks b'\'' s p)

-- What the plan of a resource has passed: one consumer, in the format that its attribute is checked
-- for.
pub record IsPlanned (d : DatasharePrivilegeData) : Type 0 where
  pub one : customize_diff d ≡ none
  pub account : is_set d.account ≡ true → is_aws_account_id d.account ≡ true
  pub namespace : is_set d.namespace ≡ true → is_uuid d.namespace ≡ true

abbrev pub consumer : DatasharePrivilegeData → String
consumer d = if is_set d.namespace then d.namespace else d.account

abbrev pub consumer_clause : DatasharePrivilegeData → String
consumer_clause d =
    if is_set d.namespace
    then " NAMESPACE '" <> (d.namespace <> "'")
    else " ACCOUNT '" <> (d.account <> "'")

planned_account :
    (d : DatasharePrivilegeData)
    → IsPlanned d
    → is_set d.namespace ≡ false
    → is_set d.account ≡ true
unfolding customize_diff
planned_account d k n = ground (arith, k.one)

-- The punctuation that neither format has.
abbrev IsForeign : ℕ → Type 0
IsForeign n = (is_digit n ≡ false) × ((is_hex n ≡ false) × (nat_eq n b'-' ≡ false))

planned-Lacks :
    (n : ℕ) (d : DatasharePrivilegeData) → IsForeign n → IsPlanned d → Lacks n (consumer d)
planned-Lacks n d (p, (q, r)) k = elim (Bool-cases (is_set d.namespace)) [
  | inl t ↦ rw t (Lacks-is_uuid n d.namespace q r (k.namespace t))
  | inr f ↦ rw f (Lacks-is_aws_account_id n d.account p (k.account (planned_account d k f)))
]

quote_planned_namespace :
    (d : DatasharePrivilegeData)
    → IsPlanned d
    → is_set d.namespace ≡ true
    → pq_quote_literal d.namespace ≡ d.namespace
quote_planned_namespace d k t =
    let u = k.namespace t in
    pq_quote_literal_of_Lacks d.namespace (Lacks-is_uuid b'\'' d.namespace refl refl u)
      (Lacks-is_uuid b'\\' d.namespace refl refl u)

quote_planned_account :
    (d : DatasharePrivilegeData)
    → IsPlanned d
    → is_set d.namespace ≡ false
    → pq_quote_literal d.account ≡ d.account
quote_planned_account d k f =
    let a = k.account (planned_account d k f) in
    pq_quote_literal_of_Lacks d.account (Lacks-is_aws_account_id b'\'' d.account refl a)
      (Lacks-is_aws_account_id b'\\' d.account refl a)

module _ (env : Env) where
  -- For a planned privilege, the statements of the create and of the delete name the consumer in
  -- the same words, in which nothing needed quoting, although the delete does not quote an account.
  pub usage_queries_agree :
      (d : DatasharePrivilegeData)
      → IsPlanned d
      → let share = env.quote_identifier d.share_name in
        (grant_usage_query env d
          ≡ some (("GRANT USAGE ON DATASHARE " <> (share <> " TO ")) <> consumer_clause d))
        × (revoke_usage_query env d
            ≡ ("REVOKE USAGE ON DATASHARE " <> (share <> " FROM")) <> consumer_clause d)
  unfolding grant_usage_query revoke_usage_query
  usage_queries_agree d k = elim (Bool-cases (is_set d.namespace)) [
    | inl t ↦ let e = quote_planned_namespace d k t in (rw (t, e) refl, rw (t, e) refl)
    | inr f ↦
        let e = quote_planned_account d k f in
        (rw (f, planned_account d k f, e) refl, rw (f, planned_account d k f) refl)
  ]

not-Lacks-append : (s t : String) → ¬ (Lacks b'.' (s <> ("." <> t)))
not-Lacks-append String.[] t = rw (nil-append, cons-append) (λ h. h.0 refl)
not-Lacks-append (String.◌∷◌ c s) t = rw cons-append (λ h. not-Lacks-append s t h.1)

after_dot : (b : String) → "" <> ("." <> b) ≡ String.◌∷◌ (char_at "." 0) b
after_dot b = rw (nil-append, cons-append, nil-append) refl

-- Only the last dot of `a.b` is before a text without dots.
last_dot :
    (a b c d : String)
    → Lacks b'.' b
    → Lacks b'.' d
    → a <> ("." <> b) ≡ c <> ("." <> d)
    → (a ≡ c) × (b ≡ d)
last_dot String.[] b String.[] d p q h =
    (refl, (cons-eq-cons.0 (sym (after_dot b) ∙ (h ∙ after_dot d))).1)
last_dot String.[] b (String.◌∷◌ y c) d p q h =
    let e = cons-eq-cons.0 (sym (after_dot b) ∙ (h ∙ cons-append y c ("." <> d))) in
    absurd (not-Lacks-append c d (subst (Lacks b'.') e.1 p))
last_dot (String.◌∷◌ x a) b String.[] d p q h =
    let e = cons-eq-cons.0 (sym (after_dot d) ∙ (sym h ∙ cons-append x a ("." <> b))) in
    absurd (not-Lacks-append a b (subst (Lacks b'.') e.1 q))
last_dot (String.◌∷◌ x a) b (String.◌∷◌ y c) d p q h =
    let e = cons-eq-cons.0 (sym (cons-append x a ("." <> b)) ∙ (h ∙ cons-append y c ("." <> d))) in
    let (g, k) = last_dot a b c d p q e.1 in (cons-eq-cons.1 (e.0, g), k)

generate_datashare_privileges_id_lem :
    (d : DatasharePrivilegeData)
    → IsPlanned d
    → generate_datashare_privileges_id d ≡ d.share_name <> ("." <> consumer d)
unfolding generate_datashare_privileges_id join
generate_datashare_privileges_id_lem d k = elim (Bool-cases (is_set d.namespace)) [
  | inl t ↦ rw t refl
  | inr f ↦ rw (f, planned_account d k f) refl
]

-- The ids of two planned privileges are the same only if both are of one share and one consumer,
-- whatever the names of the shares.
pub generate_datashare_privileges_id-injective :
    (d e : DatasharePrivilegeData)
    → IsPlanned d
    → IsPlanned e
    → generate_datashare_privileges_id d ≡ generate_datashare_privileges_id e
    → (d.share_name ≡ e.share_name) × (consumer d ≡ consumer e)
generate_datashare_privileges_id-injective d e k l h =
    last_dot d.share_name (consumer d) e.share_name (consumer e)
      (planned-Lacks b'.' d (refl, (refl, refl)) k) (planned-Lacks b'.' e (refl, (refl, refl)) l)
      (sym (generate_datashare_privileges_id_lem d k)
        ∙ (h ∙ generate_datashare_privileges_id_lem e l))
