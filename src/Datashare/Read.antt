-- ===== src/Datashare/Read.antt =====
-- The schemas that a read of a datashare finds (resource_redshift_datashare.go).
use terraform_provider_redsh.Base.{
  String, true, ◌||◌, List, [], ◌∷◌, some, ◌≡◌, inl, inr, arith, contains,
}
use terraform_provider_redsh.Errors.{ok, err, is_ok, Result-cases}
use terraform_provider_redsh.External.{Env, HasSets, text}
use terraform_provider_redsh.Effects.{World, tx_query}
use terraform_provider_redsh.Cleanup.{Rows, rows_or_none}
use terraform_provider_redsh.Datashare.{
  DatashareData, schemas_of_share, collect_schemas, read_datashare_schemas,
}

-- The names in the rows that are scanned.
abbrev pub row_names : Rows → List String
row_names [] = []
row_names (err e ∷ rows) = row_names rows
row_names (ok (name, _) ∷ rows) = name ∷ row_names rows

module _ (env : Env) (S : HasSets env) where
  contains-collect_schemas :
      (rows : Rows) (found out : List String) (a : String)
      → collect_schemas env rows found ≡ ok out
      → contains out a ≡ (contains (row_names rows) a || contains found a)
  unfolding collect_schemas
  contains-collect_schemas [] found out a h = ground arith
  contains-collect_schemas (err e ∷ rows) found out a h = cc
  contains-collect_schemas (ok (name, u) ∷ rows) found out a h = ground (
    arith,
    contains-collect_schemas rows (env.set_add name found) out a h,
    S.contains-set_add name found a,
  )

  -- A read of the schemas that succeeds has set the attribute to a set of exactly the names in the
  -- rows that the transaction shows for the share.
  pub contains-read_datashare_schemas :
      (share_name : String) (w : World env DatashareData) (x : env.Session) (a : String)
      → w.tx ≡ some x
      → is_ok (read_datashare_schemas env share_name w).0 ≡ true
      → contains (read_datashare_schemas env share_name w).1.d.schemas a
        ≡ contains
            (row_names (rows_or_none (env.query (text ∷ []) (schemas_of_share share_name) x)))
            a
  unfolding read_datashare_schemas tx_query
  contains-read_datashare_schemas share_name w x a h o =
      elim (Result-cases (env.query (text ∷ []) (schemas_of_share share_name) x)) [
        | inr (e, f) ↦ absurd (ground arith)
        | inl (rows, f) ↦ elim (Result-cases (collect_schemas env rows [])) [
          | inr (e, g) ↦ absurd (ground arith)
          | inl (out, g) ↦ ground (arith, contains-collect_schemas rows [] out a g)
        ]
      ]
