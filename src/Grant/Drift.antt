-- ===== src/Grant/Drift.antt =====
-- When a read of table or language grants changes the resource.
use terraform_provider_redsh.Base.{
  String, true, false, List, [], ◌∷◌, ◌++◌, map, All, ◌≡◌, ◌⊎◌, refl, Bool-cases, inl, inr, ap,
}
use terraform_provider_redsh.Errors.{Result, ok}
use terraform_provider_redsh.External.{Env, text, flag, Column, Cells, tables, str, strs}
use terraform_provider_redsh.Effects.{World, continue, db_query}
use terraform_provider_redsh.Grant.{GrantData}
use terraform_provider_redsh.Grant.Read.{
  set_privileges, is_selected, compare_rows, acl_query, read_table_grants, table_privileges,
  grant_object_types_codes,
}

module _ (env : Env) (cols : List Column) (f : Cells cols → List String)
    (w : World env GrantData) where
  -- The row's object is one that the resource names, or the resource names none.
  abbrev pub Selected : Cells (text ∷ cols) → Type 0
  Selected (name, flags) = is_selected env w.d.objects name ≡ true

  abbrev pub Agrees : Cells (text ∷ cols) → Type 0
  Agrees (name, flags) = env.set_equal (f flags) w.d.privileges ≡ true

  -- No selected row differs, and nothing changes; or the first selected row that differs gives its
  -- privileges to the resource, and nothing else changes.
  pub record Drift (rows : List (Cells (text ∷ cols))) (r : Result (Unit {0}) × World env GrantData)
      : Type 0 where
    pub before : List (Cells (text ∷ cols))
    pub row : Cells (text ∷ cols)
    pub after : List (Cells (text ∷ cols))
    pub split : rows ≡ before ++ (row ∷ after)
    pub agree : All (λ x. Selected x → Agrees x) before
    pub selected : Selected row
    pub differs : env.set_equal (f row.1) w.d.privileges ≡ false
    pub result : r ≡ (ok tt, record w { d = set_privileges (f row.1) w.d })

  compare_rows_lem :
      (rows : List (Cells (text ∷ cols)))
      → (All (λ x. Selected x → Agrees x) rows
          × (compare_rows env cols f (map ok rows) w ≡ (ok tt, w)))
        ⊎ Drift rows (compare_rows env cols f (map ok rows) w)
  unfolding compare_rows
  compare_rows_lem [] = inl (tt, refl)
  compare_rows_lem ((name, flags) ∷ rows) = elim (Bool-cases (is_selected env w.d.objects name)) [
    | inr skip ↦ elim (compare_rows_lem rows) [
      | inl (a, e) ↦ inl (((λ s. cc), a), rw (skip) e)
      | inr d ↦ inr (record {
        before = (name, flags) ∷ d.before;
        row = d.row;
        after = d.after;
        split = ap (λ l. (name, flags) ∷ l) d.split;
        agree = ((λ s. cc), d.agree);
        selected = d.selected;
        differs = d.differs;
        result = rw skip d.result;
      })
    ]
    | inl sel ↦ elim (Bool-cases (env.set_equal (f flags) w.d.privileges)) [
      | inl eq ↦ elim (compare_rows_lem rows) [
        | inl (a, e) ↦ inl (((λ s. eq), a), rw (sel, eq) e)
        | inr d ↦ inr (record {
          before = (name, flags) ∷ d.before;
          row = d.row;
          after = d.after;
          split = ap (λ l. (name, flags) ∷ l) d.split;
          agree = ((λ s. eq), d.agree);
          selected = d.selected;
          differs = d.differs;
          result = rw (sel, eq) d.result;
        })
      ]
      | inr ne ↦ inr (record {
        before = [];
        row = (name, flags);
        after = rows;
        split = refl;
        agree = tt;
        selected = sel;
        differs = ne;
        result = rw (sel, ne);
      })
    ]
  ]

module _ (env : Env) where
  -- The rows that the database answers a read of table grants with, when each can be scanned: if
  -- every row of a selected table agrees with the configured privileges, the read changes nothing,
  -- and otherwise it stores the privileges of the first one that does not, and reports success.
  pub read_table_grants_lem :
      (w : World env GrantData)
      (rows : List (Cells (text ∷ flag ∷ flag ∷ flag ∷ flag ∷ flag ∷ flag ∷ flag ∷ flag ∷ [])))
      → env.query_db
          (text ∷ flag ∷ flag ∷ flag ∷ flag ∷ flag ∷ flag ∷ flag ∷ flag ∷ [])
          (acl_query env w.d tables "rwadDxRt"
            (strs (grant_object_types_codes "table") ∷ [])
            (str w.d.schema ∷ []))
          w.state
        ≡ ok (map ok rows)
      → (All
            (λ x.
              Selected env
                (flag ∷ flag ∷ flag ∷ flag ∷ flag ∷ flag ∷ flag ∷ flag ∷ [])
                (table_privileges env)
                w
                x
              → Agrees env
                  (flag ∷ flag ∷ flag ∷ flag ∷ flag ∷ flag ∷ flag ∷ flag ∷ [])
                  (table_privileges env)
                  w
                  x)
            rows
          × (read_table_grants env w ≡ (ok tt, w)))
        ⊎ Drift env
            (flag ∷ flag ∷ flag ∷ flag ∷ flag ∷ flag ∷ flag ∷ flag ∷ [])
            (table_privileges env)
            w
            rows
            (read_table_grants env w)
  unfolding read_table_grants db_query
  read_table_grants_lem w rows h =
      rw (h, continue) (compare_rows_lem env _ (table_privileges env) w rows)
