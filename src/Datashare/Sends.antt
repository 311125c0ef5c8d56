-- ===== src/Datashare/Sends.antt =====
-- The statements that the handlers of a datashare send (resource_redshift_datashare.go), in a
-- database that takes none after a failed one.
use terraform_provider_redsh.Base.{
  String, Bool, true, false, List, [], ◌∷◌, ◌++◌, ◌≡◌, refl, arith, if◌then◌else◌, ◌==◌,
}
use terraform_provider_redsh.Errors.{Result, ok, err}
use terraform_provider_redsh.External.{
  Env, IsTransactional, FailsAfterError, AbortsAfterError, text,
}
use terraform_provider_redsh.Effects.{
  World, M, ◌>>◌, pure, wrapped, for_each, modify, tx_exec, tx_query_row,
}
use terraform_provider_redsh.Effects.Keeps.{Keeps-none}
use terraform_provider_redsh.Effects.ReadOnly.{Keeps-tx_query_row}
use terraform_provider_redsh.Helpers.{lower}
use terraform_provider_redsh.Effects.Aborted.{
  Proceeds-Keeps, Proceeds-tolerated, Proceeds-exec, Proceeds-bind, SendsOrAborts,
  SendsOrAborts-then, SendsOrAborts-for_each, loop_script,
}
use terraform_provider_redsh.Datashare.{
  DatashareData, alter_query, tolerate_duplicate, tolerate_missing, add_schema, add_all_tables,
  add_all_functions, add_schema_to_datashare, remove_all_functions, remove_all_tables,
  remove_schema, remove_schema_from_datashare, create_datashare_query, share_id_by_name,
}
use terraform_provider_redsh.Datashare.Handlers.{
  owner_query, set_datashare_owner, publicly_accessible_query, is_same_flag,
  set_datashare_publicly_accessible, set_datashare_schemas, create_owner_query, create_owner,
  create_and_fill, send_changes,
}

module _ (env : Env) where
  abbrev pub add_script : String → String → List String
  add_script share_name schema_name =
      alter_query env share_name "ADD SCHEMA" schema_name
      ∷ alter_query env share_name "SET INCLUDENEW = TRUE FOR SCHEMA" schema_name
      ∷ alter_query env share_name "ADD ALL TABLES IN SCHEMA" schema_name
      ∷ alter_query env share_name "ADD ALL FUNCTIONS IN SCHEMA" schema_name
      ∷ []

  abbrev remove_script : String → String → List String
  remove_script share_name schema_name =
      alter_query env share_name "REMOVE ALL FUNCTIONS IN SCHEMA" schema_name
      ∷ alter_query env share_name "REMOVE ALL TABLES IN SCHEMA" schema_name
      ∷ alter_query env share_name "REMOVE SCHEMA" schema_name
      ∷ []

  abbrev pub owner_script : DatashareData → List String
  owner_script d = if d.old_owner == d.owner then [] else owner_query env d ∷ []

  abbrev pub publicly_accessible_script : DatashareData → List String
  publicly_accessible_script d =
      if is_same_flag env d.old_publicly_accessible d.publicly_accessible
      then []
      else publicly_accessible_query env d ∷ []

  abbrev pub schemas_script : DatashareData → List String
  schemas_script d =
      if env.set_equal d.old_schemas d.schemas
      then []
      else loop_script (add_script d.name) (env.difference d.schemas d.old_schemas)
        ++ loop_script (remove_script d.name) (env.difference d.old_schemas d.schemas)

  abbrev pub create_script : DatashareData → List String
  create_script d =
      create_datashare_query env d.name d.publicly_accessible
      ∷ ((if d.owner == "" then [] else create_owner_query env d ∷ [])
          ++ loop_script (add_script d.name) d.schemas)

  tolerate_duplicate_world :
      (r : Result (Unit {0})) (w : World env DatashareData) → (tolerate_duplicate env r w).1 ≡ w
  unfolding tolerate_duplicate
  tolerate_duplicate_world (ok u) w = refl
  tolerate_duplicate_world (err e) w = ground arith

  tolerate_missing_world :
      (r : Result (Unit {0})) (w : World env DatashareData) → (tolerate_missing env r w).1 ≡ w
  unfolding tolerate_missing
  tolerate_missing_world (ok u) w = refl
  tolerate_missing_world (err e) w = ground arith

module _ (env : Env) (T : IsTransactional env) (F : FailsAfterError env)
    (A : AbortsAfterError env) where
  abbrev Sends : M env DatashareData (Unit {0}) → List String → Type 0
  Sends = SendsOrAborts env T F A

  Sends-add_schema :
      (share_name schema_name : String)
      → Sends (add_schema env share_name schema_name) (
          alter_query env share_name "ADD SCHEMA" schema_name
          ∷ alter_query env share_name "SET INCLUDENEW = TRUE FOR SCHEMA" schema_name
          ∷ [])
  unfolding add_schema
  Sends-add_schema share_name schema_name w x h =
      let q = alter_query env share_name "ADD SCHEMA" schema_name in
      let first =
        Proceeds-tolerated env T F A q (tolerate_duplicate env) w x h
          (tolerate_duplicate_world env) in
      Proceeds-bind env T F A _ _ (q ∷ []) _ w x first
        (λ _ _. Proceeds-exec env T F A _ _ first.after first.is_open)

  Sends-add_schema_to_datashare :
      (share_name schema_name : String)
      → Sends
          (add_schema_to_datashare env share_name schema_name)
          (add_script env share_name schema_name)
  unfolding add_schema_to_datashare add_all_tables add_all_functions
  Sends-add_schema_to_datashare share_name schema_name =
      SendsOrAborts-then env T F A (add_schema env share_name schema_name) _ _ _
        (Sends-add_schema share_name schema_name)
        (SendsOrAborts-then env T F A (add_all_tables env share_name schema_name) _ _ _
          (Proceeds-exec env T F A _) (Proceeds-exec env T F A _))

  Sends-remove_schema_from_datashare :
      (share_name schema_name : String)
      → Sends
          (remove_schema_from_datashare env share_name schema_name)
          (remove_script env share_name schema_name)
  unfolding remove_schema_from_datashare remove_all_tables remove_all_functions remove_schema
  Sends-remove_schema_from_datashare share_name schema_name =
      SendsOrAborts-then env T F A (remove_all_functions env share_name schema_name) _ _ _
        (Proceeds-exec env T F A _)
        (SendsOrAborts-then env T F A (remove_all_tables env share_name schema_name) _ _ _
          (Proceeds-exec env T F A _)
          (λ w x h.
            Proceeds-tolerated env T F A _ (tolerate_missing env) w x h
              (tolerate_missing_world env)))

  Sends-unless :
      (b : Bool) (m : M env DatashareData (Unit {0})) (qs : List String)
      → Sends m qs
      → Sends (if b then pure tt else m) (if b then [] else qs)
  Sends-unless true m qs s w x h =
      Proceeds-Keeps env T F A (pure tt w) w x h (record { state = refl; tx = refl })
  Sends-unless false m qs s w x h = s w x h

  Sends-wrapped : (about q : String) → Sends (wrapped about (tx_exec q)) (q ∷ [])
  Sends-wrapped about q w x h =
      let k = Proceeds-exec env T F A q w x h in
      record {
        after = k.after;
        is_open = k.is_open;
        same = k.same;
        based = k.based;
        ran = λ o. k.ran (ground arith);
        stuck = λ a o. k.stuck a (ground arith);
      }

  Sends-owner : (d : DatashareData) → Sends (set_datashare_owner env d) (owner_script env d)
  unfolding set_datashare_owner
  Sends-owner d = Sends-unless (d.old_owner == d.owner) _ _ (Sends-wrapped _ _)

  Sends-publicly_accessible :
      (d : DatashareData)
      → Sends (set_datashare_publicly_accessible env d) (publicly_accessible_script env d)
  unfolding set_datashare_publicly_accessible
  Sends-publicly_accessible d =
      Sends-unless (is_same_flag env d.old_publicly_accessible d.publicly_accessible) _ _
        (Sends-wrapped _ _)

  Sends-schemas : (d : DatashareData) → Sends (set_datashare_schemas env d) (schemas_script env d)
  unfolding set_datashare_schemas
  Sends-schemas d = Sends-unless (env.set_equal d.old_schemas d.schemas) _ _ (
      SendsOrAborts-then env T F A _ _ _ _
        (SendsOrAborts-for_each env T F A (add_schema_to_datashare env d.name) _
          (Sends-add_schema_to_datashare d.name) (env.difference d.schemas d.old_schemas))
        (SendsOrAborts-for_each env T F A (remove_schema_from_datashare env d.name) _
          (Sends-remove_schema_from_datashare d.name) (env.difference d.old_schemas d.schemas)))

  pub Sends-changes :
      (d : DatashareData)
      → Sends
          (send_changes env d)
          (owner_script env d ++ (publicly_accessible_script env d ++ schemas_script env d))
  unfolding send_changes
  Sends-changes d = SendsOrAborts-then env T F A (set_datashare_owner env d) _ _ _ (Sends-owner d) (
      SendsOrAborts-then env T F A (set_datashare_publicly_accessible env d) _ _ _
        (Sends-publicly_accessible d) (Sends-schemas d))

  Sends-create_owner :
      (d : DatashareData)
      → Sends (create_owner env d) (if d.owner == "" then [] else create_owner_query env d ∷ [])
  unfolding create_owner
  Sends-create_owner d = Sends-unless (d.owner == "") _ _ (Proceeds-exec env T F A _)

  pub Sends-create_and_fill :
      (d : DatashareData) → Sends (create_and_fill env d) (create_script env d)
  unfolding create_and_fill
  Sends-create_and_fill d w x h =
      let q = create_datashare_query env d.name d.publicly_accessible in
      let rest = create_owner env d >> for_each (add_schema_to_datashare env d.name) d.schemas in
      let first = Proceeds-exec env T F A q w x h in
      Proceeds-bind env T F A (tx_exec q w) _ (q ∷ []) _ w x first (λ _ _.
        let v = (tx_exec q w).1 in
        let named = tx_query_row (text ∷ []) (share_id_by_name (lower env d.name)) in
        let found =
          Proceeds-Keeps env T F A (named v) v first.after first.is_open
            (Keeps-tx_query_row (text ∷ []) (share_id_by_name (lower env d.name)) v) in
        Proceeds-bind env T F A (named v) _ [] _ v first.after found (λ row _.
          let set =
            Proceeds-Keeps env T F A (modify (λ d. record d { id = row.0 }) (named v).1) (named v).1
              found.after found.is_open (Keeps-none (ok tt) _ _) in
          Proceeds-bind env T F A (modify (λ d. record d { id = row.0 }) (named v).1) (λ _. rest) []
            _ _ found.after set
            (λ _ _.
              SendsOrAborts-then env T F A (create_owner env d) _ _ _ (Sends-create_owner d)
                (SendsOrAborts-for_each env T F A (add_schema_to_datashare env d.name) _
                  (Sends-add_schema_to_datashare d.name) d.schemas)
                _ set.after set.is_open)))
