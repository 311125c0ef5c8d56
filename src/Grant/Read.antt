-- ===== src/Grant/Read.antt =====
-- The reads of resource_redshift_grant.go: what the database's access control lists say, compared
-- with the privileges of the resource.
use terraform_provider_redsh.Base.{
  String, Bool, ◌&&◌, ◌||◌, List, [], ◌∷◌, ◌++◌, is_empty, contains, ◌==◌, if◌then◌else◌,
}
use terraform_provider_redsh.Errors.{plain, Result, ok, err}
use terraform_provider_redsh.External.{
  Env, Column, text, flag, Cells, Arg, str, strs, Catalog, databases, schemas, tables, callables,
  languages, user, group, public, Query, acl,
}
use terraform_provider_redsh.Effects.{
  M, ◌>>=◌, pure, fail, lift, gets, modify, db_query, db_query_row,
}
use terraform_provider_redsh.Helpers.{append_if_true, strip_arguments_from_callables_definitions}
use terraform_provider_redsh.Grant.{GrantData, is_set, get_database_name, is_grant_to_public}

-- `entityName`
abbrev pub entity_name : GrantData → String
entity_name d = if is_set d.user then d.user else d.group

-- `grantObjectTypesCodes`
abbrev pub grant_object_types_codes : String → List String
grant_object_types_codes object_type =
    if object_type == "table"
    then "r" ∷ "m" ∷ "v" ∷ []
    else if object_type == "procedure"
    then "p" ∷ []
    else if object_type == "function"
    then "f" ∷ []
    else []

-- The columns of a row of table privileges, after the name.
abbrev pub TableFlags : Type 0
TableFlags = Cells (flag ∷ flag ∷ flag ∷ flag ∷ flag ∷ flag ∷ flag ∷ flag ∷ [])

abbrev pub set_privileges : List String → GrantData → GrantData
set_privileges privileges d = record d { privileges = privileges }

module _ (env : Env) where
  -- One of three queries: the group's, the user's, or the one for `PUBLIC`, which has no name among
  -- its arguments.
  unfoldable pub acl_query : GrantData → Catalog → String → List Arg → List Arg → Query
  acl_query d catalog letters before after =
      if is_grant_to_public env d
      then acl catalog public letters (before ++ after)
      else acl catalog (if is_set d.user then user else group) letters
          (before ++ (str (entity_name d) ∷ after))

  unfoldable pub database_privileges : Cells (flag ∷ flag ∷ flag ∷ []) → List String
  database_privileges (create, (temporary, (usage, _))) =
      append_if_true usage "usage"
        (append_if_true temporary "temporary" (append_if_true create "create" []))

  unfoldable pub read_database_grants : String → M env GrantData (Unit {0})
  read_database_grants configured = do
    d ← gets (λ d. d)
    row ←
        db_query_row (flag ∷ flag ∷ flag ∷ [])
          (acl_query d databases "CTU" (str (get_database_name configured d) ∷ []) [])
    modify (set_privileges (database_privileges row))

  unfoldable pub schema_privileges : Cells (flag ∷ flag ∷ []) → List String
  schema_privileges (create, (usage, _)) =
      append_if_true usage "usage" (append_if_true create "create" [])

  unfoldable pub read_schema_grants : M env GrantData (Unit {0})
  read_schema_grants = do
    d ← gets (λ d. d)
    row ← db_query_row (flag ∷ flag ∷ []) (acl_query d schemas "CU" (str d.schema ∷ []) [])
    modify (set_privileges (schema_privileges row))

  abbrev pub add_if : Bool → String → List String → List String
  add_if condition item set = if condition then env.set_add item set else set

  unfoldable pub table_privileges : TableFlags → List String
  table_privileges
        (select, (update, (insert, (delete, (drop, (references, (rule, (trigger, _)))))))) =
      add_if trigger "trigger" (
        add_if rule "rule" (
          add_if references "references" (
            add_if drop "drop" (
              add_if delete "delete"
                (add_if insert "insert" (add_if update "update" (add_if select "select" [])))))))

  -- `objects.Len() > 0 && !objects.Contains(objName)` skips the row.
  abbrev pub is_selected : List String → String → Bool
  is_selected objects name = is_empty objects || contains objects name

  -- The loop over the rows of tables and of languages, which ends at the first row whose privileges
  -- differ from the resource's.
  unfoldable pub compare_rows :
      (cols : List Column)
      → (Cells cols → List String)
      → List (Result (Cells (text ∷ cols)))
      → M env GrantData (Unit {0})
  compare_rows cols privileges [] w = (ok tt, w)
  compare_rows cols privileges (err e ∷ rows) w = (err e, w)
  compare_rows cols privileges (ok (name, flags) ∷ rows) w =
      let rest = compare_rows cols privileges rows w in
      if is_selected w.d.objects name
      then (if env.set_equal (privileges flags) w.d.privileges
          then rest
          else (ok tt, record w { d = set_privileges (privileges flags) w.d }))
      else rest

  unfoldable pub read_table_grants : M env GrantData (Unit {0})
  read_table_grants = do
    d ← gets (λ d. d)
    rows ← db_query (text ∷ flag ∷ flag ∷ flag ∷ flag ∷ flag ∷ flag ∷ flag ∷ flag ∷ []) (
        acl_query d tables "rwadDxRt" (strs (grant_object_types_codes "table") ∷ [])
          (str d.schema ∷ []))
    compare_rows (flag ∷ flag ∷ flag ∷ flag ∷ flag ∷ flag ∷ flag ∷ flag ∷ []) table_privileges rows

  unfoldable pub language_privileges : Cells (flag ∷ []) → List String
  language_privileges (usage, _) = add_if usage "usage" []

  unfoldable pub read_language_grants : M env GrantData (Unit {0})
  read_language_grants = do
    d ← gets (λ d. d)
    rows ← db_query (text ∷ flag ∷ []) (acl_query d languages "U" [] [])
    compare_rows (flag ∷ []) language_privileges rows

  -- The loop over the rows of functions and procedures: the privileges of the selected ones,
  -- together.
  unfoldable pub callable_rows :
      List String → List (Result (Cells (text ∷ flag ∷ []))) → List String → Result (List String)
  callable_rows wanted [] set = ok set
  callable_rows wanted (err e ∷ rows) set = err e
  callable_rows wanted (ok (name, (execute, _)) ∷ rows) set =
      callable_rows wanted rows
        (if is_selected wanted name && execute then env.set_add "execute" set else set)

  unfoldable pub update_if_different : GrantData → List String → M env GrantData (Unit {0})
  update_if_different d set =
      if env.set_equal set d.privileges then pure tt else modify (set_privileges set)

  unfoldable pub read_callable_grants : M env GrantData (Unit {0})
  read_callable_grants = do
    d ← gets (λ d. d)
    rows ← db_query (text ∷ flag ∷ []) (
        acl_query d callables "X" (str d.schema ∷ [])
          (strs (grant_object_types_codes d.object_type) ∷ []))
    set ← lift (callable_rows (strip_arguments_from_callables_definitions d.objects) rows [])
    update_if_different d set

  -- The `switch` on the object type.
  unfoldable pub read_by_type : String → String → M env GrantData (Unit {0})
  read_by_type configured object_type =
      if object_type == "database"
      then read_database_grants configured
      else if object_type == "schema"
      then read_schema_grants
      else if object_type == "table"
      then read_table_grants
      else if object_type == "function" || object_type == "procedure"
      then read_callable_grants
      else if object_type == "language"
      then read_language_grants
      else fail (plain "unsupported object_type")

  unfoldable pub resource_redshift_grant_read_impl : String → M env GrantData (Unit {0})
  resource_redshift_grant_read_impl configured = do
    d ← gets (λ d. d)
    if is_set d.role then pure tt else read_by_type configured d.object_type
