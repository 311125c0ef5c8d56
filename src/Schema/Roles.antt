-- ===== src/Schema/Roles.antt =====
-- The configuration that a read of an external schema makes of what a create has stored
-- (resource_redshift_schema.go).
use terraform_provider_redsh.Base.{
  String, Bool, List, ◌++◌, not, All, flat_map, all-append_left, all-append_right, true, false, [],
  ◌∷◌, all, ◌==◌, string_dec, if◌then◌else◌, ◌≡◌, ◌≢◌, refl, subst, sym, ap, arith, inl, inr,
  Bool-cases,
}
use terraform_provider_redsh.Strings.{join}
use terraform_provider_redsh.Strings.Decimal.{ℤ, show_int, atoi, int_eq}
use terraform_provider_redsh.Strings.Digits.{IsInt64, atoi-show_int}
use terraform_provider_redsh.Errors.{ok}
use terraform_provider_redsh.Helpers.SplitCsv.{is_plain, split_csv_and_trim-join}
use terraform_provider_redsh.Schema.{
  DataCatalogSource, HiveMetastoreSource, RdsPostgresSource, RdsMysqlSource, RedshiftSource,
  ExternalSchema,
}
use terraform_provider_redsh.Schema.Read.{ExternalRow, port_number, without_sources, read_source}

-- The row of a source: the options as the create statement names them, the roles joined by commas,
-- and an unset port as an empty text.
abbrev pub stored_port : ℤ → String
stored_port port = if int_eq port (ℤ.pos 0) then "" else show_int port

abbrev pub no_row : ExternalRow
no_row = record {
  source_type = "";
  source_db_name = "";
  iam_role = "";
  catalog_role = "";
  region = "";
  source_schema = "";
  host_name = "";
  port = "";
  secret_arn = "";
}

-- The names of roles, the port and the flag of whichever source is configured.
abbrev pub role_names : ExternalSchema → List String
role_names e =
    flat_map (λ s. s.iam_role_arns ++ s.catalog_role_arns) e.data_catalog_source
    ++ (flat_map (λ s. s.iam_role_arns) e.hive_metastore_source
        ++ (flat_map (λ s. s.iam_role_arns) e.rds_postgres_source
            ++ flat_map (λ s. s.iam_role_arns) e.rds_mysql_source))

abbrev pub ports : ExternalSchema → List ℤ
ports e =
    flat_map (λ s. s.port ∷ []) e.hive_metastore_source
    ++ (flat_map (λ s. s.port ∷ []) e.rds_postgres_source
        ++ flat_map (λ s. s.port ∷ []) e.rds_mysql_source)

abbrev pub creates_database : ExternalSchema → Bool
creates_database e =
    not (all (λ s. not s.create_external_database_if_not_exists) e.data_catalog_source)

-- One source is configured, and the database shows it in the row: the options by their names.
pub data Shows : ExternalSchema → ExternalRow → Type 0 where
  data_catalog :
      (database : String) (s : DataCatalogSource)
      → Shows
          (record (without_sources database) { data_catalog_source = s ∷ [] })
          (record no_row {
            source_type = "data_catalog_source";
            source_db_name = database;
            region = s.region;
            iam_role = join "," s.iam_role_arns;
            catalog_role = join "," s.catalog_role_arns;
          })
  hive_metastore :
      (database : String) (s : HiveMetastoreSource)
      → Shows
          (record (without_sources database) { hive_metastore_source = s ∷ [] })
          (record no_row {
            source_type = "hive_metastore_source";
            source_db_name = database;
            host_name = s.hostname;
            port = stored_port s.port;
            iam_role = join "," s.iam_role_arns;
          })
  rds_postgres :
      (database : String) (s : RdsPostgresSource)
      → Shows
          (record (without_sources database) { rds_postgres_source = s ∷ [] })
          (record no_row {
            source_type = "rds_postgres_source";
            source_db_name = database;
            source_schema = s.schema;
            host_name = s.hostname;
            port = stored_port s.port;
            iam_role = join "," s.iam_role_arns;
            secret_arn = s.secret_arn;
          })
  rds_mysql :
      (database : String) (s : RdsMysqlSource)
      → Shows
          (record (without_sources database) { rds_mysql_source = s ∷ [] })
          (record no_row {
            source_type = "rds_mysql_source";
            source_db_name = database;
            host_name = s.hostname;
            port = stored_port s.port;
            iam_role = join "," s.iam_role_arns;
            secret_arn = s.secret_arn;
          })
  redshift :
      (database : String) (s : RedshiftSource)
      → Shows
          (record (without_sources database) { redshift_source = s ∷ [] })
          (record no_row {
            source_type = "redshift_source";
            source_db_name = database;
            source_schema = s.schema;
          })

show_int-ne : (z : ℤ) → IsInt64 z → show_int z ≢ ""
unfolding atoi
show_int-ne z h e = let k : atoi "" ≡ ok z = subst (λ s. atoi s ≡ ok z) e (atoi-show_int z h) in cc

show_int_nonempty : (z : ℤ) → IsInt64 z → (show_int z == "") ≡ false
show_int_nonempty z h = ground (arith, λ (e : show_int z ≡ ""). show_int-ne z h e)

int_eq_sound : (y z : ℤ) → int_eq y z ≡ true → y ≡ z
int_eq_sound (ℤ.pos m) (ℤ.pos n) h = let e : m ≡ n = ground arith in rw e refl
int_eq_sound (ℤ.negsuc m) (ℤ.negsuc n) h = let e : m ≡ n = ground arith in rw e refl
int_eq_sound (ℤ.pos m) (ℤ.negsuc n) h = cc
int_eq_sound (ℤ.negsuc m) (ℤ.pos n) h = cc

port_number_of_nothing : (source : String) → port_number source "" ≡ ok (ℤ.pos 0)
unfolding port_number string_dec
port_number_of_nothing source = refl

port_number-show_int :
    (source : String) (port : ℤ) → IsInt64 port → port_number source (show_int port) ≡ ok port
unfolding port_number
port_number-show_int source port h = rw (show_int_nonempty port h, atoi-show_int port h) refl

port_number-stored :
    (source : String) (port : ℤ) → IsInt64 port → port_number source (stored_port port) ≡ ok port
port_number-stored source port h = elim (Bool-cases (int_eq port (ℤ.pos 0))) [
  | inl zero ↦
      rw (zero, port_number_of_nothing source) (ap ok (sym (int_eq_sound port (ℤ.pos 0) zero)))
  | inr set ↦ rw set (port_number-show_int source port h)
]

alone : (xs : List String) → all is_plain ((xs ++ []) ++ []) ≡ true → all is_plain xs ≡ true
alone xs h = all-append_left is_plain xs [] (all-append_left is_plain (xs ++ []) [] h)

-- If one of the five sources is configured, and the database shows it in the row of svv_external_schemas
-- as `Shows` has it, the read of the row gives the same configuration, provided that the names of the
-- roles are not empty and without white space, quotes and commas, that the port fits into 64 bits,
-- and that the creation of the external database, which the row does not show, is not asked for.
pub read_source-stored :
    (e : ExternalSchema) (row : ExternalRow)
    → Shows e row
    → all is_plain (role_names e) ≡ true
    → All IsInt64 (ports e)
    → creates_database e ≡ false
    → read_source row ≡ ok e
unfolding read_source string_dec
read_source-stored _ _ (Shows.data_catalog database s) p q f =
    let both : all is_plain (s.iam_role_arns ++ s.catalog_role_arns) ≡ true =
      alone (s.iam_role_arns ++ s.catalog_role_arns) p in
    rw
      (
        split_csv_and_trim-join s.iam_role_arns
            (all-append_left is_plain s.iam_role_arns s.catalog_role_arns both),
        split_csv_and_trim-join s.catalog_role_arns
            (all-append_right is_plain s.iam_role_arns s.catalog_role_arns both),
      )
      (let off : s.create_external_database_if_not_exists ≡ false = ground arith in rw (← off) refl)
read_source-stored _ _ (Shows.hive_metastore database s) p q f =
    rw (port_number-stored "hive_metastore_source" s.port q.0)
      (rw (split_csv_and_trim-join s.iam_role_arns (alone s.iam_role_arns p)) refl)
read_source-stored _ _ (Shows.rds_postgres database s) p q f =
    rw (port_number-stored "rds_postgres_source" s.port q.0)
      (rw (split_csv_and_trim-join s.iam_role_arns (alone s.iam_role_arns p)) refl)
read_source-stored _ _ (Shows.rds_mysql database s) p q f =
    rw (port_number-stored "rds_mysql_source" s.port q.0) (
      rw (split_csv_and_trim-join s.iam_role_arns (all-append_left is_plain s.iam_role_arns [] p))
        refl)
read_source-stored _ _ (Shows.redshift database s) p q f = refl
