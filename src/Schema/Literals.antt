-- ===== src/Schema/Literals.antt =====
-- The literals in the statements that create external schemas (resource_redshift_schema.go).
use text.Mathlib.TextLemmas.{cons-append}
use terraform_provider_redsh.Base.{
  String, Bool, ◌<>◌, true, false, List, [], ◌∷◌, ◌++◌, is_empty, ◌==◌, if◌then◌else◌, Option, none,
  some, ◌≡◌, refl, subst, sym, ap, ◌∙◌, arith, inl, inr, Bool-cases, List-cases,
}
use terraform_provider_redsh.Strings.{join}
use terraform_provider_redsh.Strings.Decimal.{ℤ, int_eq, show_int}
use terraform_provider_redsh.Strings.Digits.{Lacks-show_int}
use terraform_provider_redsh.Strings.Laws.{Lacks-append, is_without, is_without-Lacks}
use terraform_provider_redsh.Helpers.{pq_quote_literal}
use terraform_provider_redsh.Helpers.Quote.{EndsLiteral}
use terraform_provider_redsh.Helpers.Literals.{
  literals, Adds, are_words, are_words-Lacks, EndsLiteral-words, Adds-append, Adds-words,
  Adds-literal, EndsLiteral-blank, literals_of_Adds,
}
use terraform_provider_redsh.Schema.{
  DataCatalogSource, HiveMetastoreSource, RdsPostgresSource, RdsMysqlSource, RedshiftSource,
  ExternalSchema, literal_option, optional_literal, optional_port,
  get_data_catalog_config_query_part, get_hive_metastore_config_query_part,
  get_rds_postgres_config_query_part, get_rds_mysql_config_query_part,
  get_redshift_config_query_part, config_query,
}

-- An option that is not set has no literal.
abbrev if_set : String → List String
if_set s = if s == "" then [] else s ∷ []

Adds-literal_option :
    (word s : String) → is_without b'\'' word ≡ true → Adds (literal_option word s) (s ∷ [])
Adds-literal_option word s h =
    let close = pq_quote_literal s <> "'" in
    let e : (" " <> (word <> " ")) <> ("'" <> close) ≡ literal_option word s =
      text.Mathlib.TextLemmas.append_assoc " " (word <> " ") ("'" <> close)
      ∙ ap (λ t. " " <> t)
          (text.Mathlib.TextLemmas.append_assoc word " " ("'" <> close)
            ∙ ap (λ t. word <> t) (sym (text.Mathlib.TextLemmas.append_assoc " " "'" close))) in
    subst (λ t. Adds t (s ∷ [])) e
      (Adds-literal (" " <> (word <> " ")) s
        (Lacks-append b'\'' " " (word <> " ") (λ q. omega (arith, q), tt)
          (Lacks-append b'\'' word " " (is_without-Lacks b'\'' word h) (λ q. omega (arith, q), tt)))
        (λ rest.
          subst EndsLiteral (sym (text.Mathlib.TextLemmas.append_assoc " " (word <> " ") rest))
            (EndsLiteral-blank ((word <> " ") <> rest))))

Adds-optional_literal :
    (word s : String) → is_without b'\'' word ≡ true → Adds (optional_literal word s) (if_set s)
Adds-optional_literal word s h = elim (Bool-cases (s == "")) [
  | inl unset ↦ rw unset (Adds-words "" tt)
  | inr set ↦ rw set (Adds-literal_option word s h)
]

Adds-iam_role : (s : String) → Adds (literal_option "IAM_ROLE" s) (s ∷ [])
Adds-iam_role s = Adds-literal_option "IAM_ROLE" s refl

Adds-optional_port : (port : ℤ) → Adds (optional_port port) []
Adds-optional_port port = elim (Bool-cases (int_eq port (ℤ.pos 0))) [
  | inl unset ↦ rw unset (Adds-words "" tt)
  | inr set ↦ rw set (
      Adds-words (" PORT " <> show_int port) (
        Lacks-append b'\'' " PORT " (show_int port) (is_without-Lacks b'\'' " PORT " refl)
          (Lacks-show_int b'\'' port refl refl)))
]

-- What all of the statements begin with, the words up to a quote and the name of the database.
Adds-source :
    (words name : String)
    → are_words words ≡ true
    → (options : String) (found : List String) → Adds options found
    → Adds ((words <> "'") <> (pq_quote_literal name <> ("'" <> options))) (name ∷ found)
Adds-source words name h options found a =
    let close = pq_quote_literal name <> "'" in
    let flat : (words <> ("'" <> close)) <> options
        ≡ (words <> "'") <> (pq_quote_literal name <> ("'" <> options)) =
      ap (λ t. t <> options) (sym (text.Mathlib.TextLemmas.append_assoc words "'" close))
      ∙ (text.Mathlib.TextLemmas.append_assoc (words <> "'") close options
          ∙ ap (λ t. (words <> "'") <> t)
              (text.Mathlib.TextLemmas.append_assoc (pq_quote_literal name) "'" options)) in
    subst (λ t. Adds t (name ∷ found)) flat
      (Adds-append (words <> ("'" <> close)) options (name ∷ []) found
        (Adds-literal words name (are_words-Lacks words h) (λ rest. EndsLiteral-words words rest h))
        a)

-- The texts that a source is configured with, in the order of its statement.
abbrev data_catalog_texts : DataCatalogSource → List String
data_catalog_texts s =
    if_set s.region
    ++ (join "," s.iam_role_arns
        ∷ (if is_empty s.catalog_role_arns then [] else join "," s.catalog_role_arns ∷ []))

abbrev rds_postgres_texts : RdsPostgresSource → List String
rds_postgres_texts s =
    if_set s.schema ++ (s.hostname ∷ join "," s.iam_role_arns ∷ s.secret_arn ∷ [])

Adds-create_external_database :
    (flag : Bool) → Adds (if flag then " CREATE EXTERNAL DATABASE IF NOT EXISTS" else "") []
Adds-create_external_database true =
    let words : String = " CREATE EXTERNAL DATABASE IF NOT EXISTS" in
    Adds-words words (is_without-Lacks b'\'' words refl)
Adds-create_external_database false = Adds-words "" tt

Adds-catalog_roles :
    (arns : List String) (flag : Bool)
    → Adds
        ((if is_empty arns then "" else literal_option "CATALOG_ROLE" (join "," arns))
          <> (if flag then " CREATE EXTERNAL DATABASE IF NOT EXISTS" else ""))
        (if is_empty arns then [] else join "," arns ∷ [])
Adds-catalog_roles [] flag =
    Adds-append "" _ [] [] (Adds-words "" tt) (Adds-create_external_database flag)
Adds-catalog_roles (arn ∷ arns) flag =
    Adds-append _ _ (join "," (arn ∷ arns) ∷ []) []
      (Adds-literal_option "CATALOG_ROLE" (join "," (arn ∷ arns)) refl)
      (Adds-create_external_database flag)

Adds-data_catalog :
    (s : DataCatalogSource) (name : String)
    → Adds (get_data_catalog_config_query_part s name) (name ∷ data_catalog_texts s)
unfolding get_data_catalog_config_query_part
Adds-data_catalog s name =
    let roles = join "," s.iam_role_arns in
    Adds-source "FROM DATA CATALOG DATABASE " name refl _ _ (
      Adds-append _ _ _ _ (Adds-optional_literal "REGION" s.region refl) (
        Adds-append _ _ (roles ∷ []) _ (Adds-iam_role roles)
          (Adds-catalog_roles s.catalog_role_arns s.create_external_database_if_not_exists)))

-- A host, a port and the roles.
Adds-host :
    (hostname roles : String) (port : ℤ) (rest : String) (found : List String)
    → Adds rest found
    → Adds
        (literal_option "URI" hostname
          <> (optional_port port <> (literal_option "IAM_ROLE" roles <> rest)))
        (hostname ∷ roles ∷ found)
Adds-host hostname roles port rest found a =
    Adds-append _ _ (hostname ∷ []) (roles ∷ found) (Adds-literal_option "URI" hostname refl) (
      Adds-append _ _ [] (roles ∷ found) (Adds-optional_port port)
        (Adds-append _ _ (roles ∷ []) found (Adds-iam_role roles) a))

Adds-hive_metastore :
    (s : HiveMetastoreSource) (name : String)
    → Adds
        (get_hive_metastore_config_query_part s name)
        (name ∷ s.hostname ∷ join "," s.iam_role_arns ∷ [])
unfolding get_hive_metastore_config_query_part
Adds-hive_metastore s name = Adds-source "FROM HIVE METASTORE DATABASE " name refl _ _ (
    Adds-append _ _ (s.hostname ∷ []) _ (Adds-literal_option "URI" s.hostname refl)
      (Adds-append _ _ [] _ (Adds-optional_port s.port) (Adds-iam_role (join "," s.iam_role_arns))))

Adds-rds_postgres :
    (s : RdsPostgresSource) (name : String)
    → Adds (get_rds_postgres_config_query_part s name) (name ∷ rds_postgres_texts s)
unfolding get_rds_postgres_config_query_part
Adds-rds_postgres s name = Adds-source "FROM POSTGRES DATABASE " name refl _ _ (
    Adds-append _ _ _ _ (Adds-optional_literal "SCHEMA" s.schema refl) (
      Adds-host s.hostname (join "," s.iam_role_arns) s.port _ (s.secret_arn ∷ [])
        (Adds-literal_option "SECRET_ARN" s.secret_arn refl)))

Adds-rds_mysql :
    (s : RdsMysqlSource) (name : String)
    → Adds
        (get_rds_mysql_config_query_part s name)
        (name ∷ s.hostname ∷ join "," s.iam_role_arns ∷ s.secret_arn ∷ [])
unfolding get_rds_mysql_config_query_part
Adds-rds_mysql s name = Adds-source "FROM MYSQL DATABASE " name refl _ _ (
    Adds-host s.hostname (join "," s.iam_role_arns) s.port _ (s.secret_arn ∷ [])
      (Adds-literal_option "SECRET_ARN" s.secret_arn refl))

Adds-redshift :
    (s : RedshiftSource) (name : String)
    → Adds (get_redshift_config_query_part s name) (name ∷ if_set s.schema)
unfolding get_redshift_config_query_part
Adds-redshift s name =
    Adds-source "FROM REDSHIFT DATABASE " name refl _ _
      (Adds-optional_literal "SCHEMA" s.schema refl)

-- The texts of the source that the statement is made from: the first that is configured.
abbrev source_texts : ExternalSchema → List String
source_texts e = elim e.data_catalog_source [
  | s ∷ _ ↦ data_catalog_texts s
  | [] ↦ elim e.hive_metastore_source [
    | s ∷ _ ↦ s.hostname ∷ join "," s.iam_role_arns ∷ []
    | [] ↦ elim e.rds_postgres_source [
      | s ∷ _ ↦ rds_postgres_texts s
      | [] ↦ elim e.rds_mysql_source [
        | s ∷ _ ↦ s.hostname ∷ join "," s.iam_role_arns ∷ s.secret_arn ∷ []
        | [] ↦ elim e.redshift_source [ s ∷ _ ↦ if_set s.schema | [] ↦ [] ]
      ]
    ]
  ]
]

-- What the options have to add, if there are some.
abbrev AddsTexts : ExternalSchema → Option String → Type 0
AddsTexts e none = Unit
AddsTexts e (some q) = Adds q (e.database_name ∷ source_texts e)

config_query-AddsTexts : (e : ExternalSchema) → AddsTexts e (config_query e)
unfolding config_query
config_query-AddsTexts e = elim (List-cases e.data_catalog_source) [
  | inr (s, (_, a)) ↦ rw a (Adds-data_catalog s e.database_name)
  | inl a ↦ elim (List-cases e.hive_metastore_source) [
    | inr (s, (_, b)) ↦ rw (a, b) (Adds-hive_metastore s e.database_name)
    | inl b ↦ elim (List-cases e.rds_postgres_source) [
      | inr (s, (_, c)) ↦ rw (a, b, c) (Adds-rds_postgres s e.database_name)
      | inl c ↦ elim (List-cases e.rds_mysql_source) [
        | inr (s, (_, d)) ↦ rw (a, b, c, d) (Adds-rds_mysql s e.database_name)
        | inl d ↦ elim (List-cases e.redshift_source) [
          | inr (s, (_, f)) ↦ rw (a, b, c, d, f) (Adds-redshift s e.database_name)
          | inl f ↦ rw (a, b, c, d, f) tt
        ]
      ]
    ]
  ]
]

-- Whatever characters the texts of an external schema have, the database reads the end of its create
-- statement as the options of its source with exactly these texts as the literals: the name of the
-- database, and the texts of the source that are set, in the order of the statement.
pub literals-config_query :
    (e : ExternalSchema) (q : String)
    → config_query e ≡ some q
    → literals q ≡ some (e.database_name ∷ source_texts e)
literals-config_query e q h =
    literals_of_Adds q _ (subst (AddsTexts e) h (config_query-AddsTexts e))
