-- ===== src/Tests/Schemas.antt =====
-- Schemas.
use terraform_provider_redsh.Base.{◌+◌, ◌≤◌, false, [], ◌∷◌, none, ◌≡◌, ◌⊎◌, refl, arith}
use terraform_provider_redsh.Strings.{join}
use terraform_provider_redsh.Strings.Decimal.{ℤ}
use terraform_provider_redsh.Errors.{ok}
use terraform_provider_redsh.Effects.{World}
use terraform_provider_redsh.Effects.Script.{Committed}
use terraform_provider_redsh.Effects.Finish.{AllOrNothing}
use terraform_provider_redsh.Samples.{sample, sample-IsTransactional}
use terraform_provider_redsh.Config.{new_cache}
use terraform_provider_redsh.Schema.{
  SchemaData, RdsPostgresSource, ExternalSchema, drop_schema_query,
}
use terraform_provider_redsh.Schema.Handlers.{
  resource_redshift_schema_create, resource_redshift_schema_update, delete_context,
}
use terraform_provider_redsh.Schema.Atomic.{
  create_schema_script, update_schema_script, schema_handlers-AllOrNothing,
}
use terraform_provider_redsh.Schema.Read.{without_sources, read_source}
use terraform_provider_redsh.Schema.Retried.{delete_context-AllOrNothing}
use terraform_provider_redsh.Schema.Roles.{Shows, no_row, stored_port, read_source-stored}
use terraform_provider_redsh.Base.{some, string_dec}
use terraform_provider_redsh.Schema.{config_query, get_rds_postgres_config_query_part}
use terraform_provider_redsh.Helpers.Literals.{literals}
use terraform_provider_redsh.Schema.Literals.{literals-config_query}
use terraform_provider_redsh.Tests.{fresh}

abbrev postgres : RdsPostgresSource
postgres = record {
  hostname = "db.example.com";
  port = ℤ.pos 5432;
  schema = "public";
  iam_role_arns = "arn:1" ∷ "arn:2" ∷ [];
  secret_arn = "arn:3";
}

abbrev external : ExternalSchema
external = record (without_sources "orders") { rds_postgres_source = postgres ∷ [] }

abbrev schema : SchemaData
schema = record {
  id = "100";
  old_name = "raw";
  name = "sales";
  old_owner = "ann";
  owner = "bob";
  old_quota = ℤ.pos 0;
  quota = ℤ.pos 50;
  cascade_on_delete = false;
  old_external_schema = [];
  external_schema = external ∷ [];
  database = "dev";
  cache = new_cache;
}

abbrev schema_world : World sample SchemaData
schema_world = fresh [] schema

schema_example :
    AllOrNothing sample sample-IsTransactional
      (resource_redshift_schema_create sample schema_world)
      (λ _. create_schema_script sample schema)
      schema_world
    × AllOrNothing sample sample-IsTransactional
        (resource_redshift_schema_update sample schema_world)
        (λ _. update_schema_script sample schema)
        schema_world
schema_example = schema_handlers-AllOrNothing sample sample-IsTransactional schema_world refl

delete_schema_example :
    let r = delete_context sample schema_world in
    let qs = λ (x : sample.Session). drop_schema_query sample schema ∷ [] in
    (r.1.tx ≡ none) × (((r.1.state ≡ []) ⊎ Committed sample qs [] r.1.state) × (r.1.slept ≤ 0 + 55))
delete_schema_example = delete_context-AllOrNothing sample sample-IsTransactional schema_world refl

postgres_example :
    read_source (record no_row {
      source_type = "rds_postgres_source";
      source_db_name = "orders";
      source_schema = "public";
      host_name = "db.example.com";
      port = stored_port (ℤ.pos 5432);
      iam_role = "arn:1,arn:2";
      secret_arn = "arn:3";
    })
    ≡ ok external
unfolding join
postgres_example =
    read_source-stored external _ (Shows.rds_postgres "orders" postgres) refl (omega arith, tt) refl

-- A host name that tries to end its literal.
abbrev hostile : ExternalSchema
hostile = record (without_sources "orders") {
  rds_postgres_source = (record postgres { hostname = "db' SECRET_ARN 'x" }) ∷ [];
}

hostile_example :
    literals (
      get_rds_postgres_config_query_part
        (record postgres { hostname = "db' SECRET_ARN 'x" })
        "orders")
    ≡ some ("orders" ∷ "public" ∷ "db' SECRET_ARN 'x" ∷ "arn:1,arn:2" ∷ "arn:3" ∷ [])
unfolding config_query string_dec join
hostile_example = literals-config_query hostile _ refl
