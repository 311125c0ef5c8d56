-- ===== src/Tests/Databases.antt =====
-- Databases.
use terraform_provider_redsh.Base.{false, true, [], ◌∷◌, none, ◌≡◌, ◌⊎◌, refl}
use terraform_provider_redsh.Strings.Decimal.{ℤ}
use terraform_provider_redsh.Errors.{is_ok}
use terraform_provider_redsh.Effects.{World}
use terraform_provider_redsh.Effects.Script.{Committed}
use terraform_provider_redsh.Effects.Finish.{AllOrNothing}
use terraform_provider_redsh.Samples.{sample, sample-IsTransactional}
use terraform_provider_redsh.Database.{
  DatabaseData, create_from_datashare_query, resource_redshift_database_create_from_datashare,
  resource_redshift_database_update,
}
use terraform_provider_redsh.Database.Atomic.{
  update_database_script, resource_redshift_database_update-AllOrNothing,
}
use terraform_provider_redsh.Database.Create.{alter_script, create_from_datashare_outcome}
use terraform_provider_redsh.Tests.{fresh}

abbrev database : DatabaseData
database = record {
  id = "100";
  old_name = "dev";
  name = "sales";
  old_owner = "ann";
  owner = "bob";
  old_connection_limit = ℤ.pos 3;
  connection_limit = ℤ.pos 5;
  old_datashare_source = [];
  datashare_source =
      (record { share_name = "eu"; namespace = "n"; account = ""; with_permissions = false }) ∷ [];
}

abbrev database_world : World sample DatabaseData
database_world = fresh [] database

update_database_example :
    AllOrNothing sample sample-IsTransactional
      (resource_redshift_database_update sample database_world)
      (λ _. update_database_script sample database)
      database_world
update_database_example =
    resource_redshift_database_update-AllOrNothing sample sample-IsTransactional database_world refl

create_from_datashare_example :
    let r = resource_redshift_database_create_from_datashare sample database_world in
    let made = sample.exec_db (create_from_datashare_query sample database) [] in
    (r.1.tx ≡ none)
    × (((r.1.state ≡ made.1)
          ⊎ Committed sample (λ _. alter_script sample database) made.1 r.1.state)
        × (is_ok r.0 ≡ true
            → (is_ok made.0 ≡ true)
              × Committed sample (λ _. alter_script sample database) made.1 r.1.state))
create_from_datashare_example =
    create_from_datashare_outcome sample sample-IsTransactional database_world refl
