-- ===== src/Config/Registry/Reach.antt =====
-- The registries that connecting leads to (redshift/config.go).
use terraform_provider_redsh.Base.{
  String, Bool, true, not, ◌&&◌, ◌||◌, List, [], ◌∷◌, contains, ◌==◌, ◌≡◌, ◌⊎◌, refl, subst, sym,
  ◌∙◌, arith, Bool-cases, inl, inr, Option-cases,
}
use terraform_provider_redsh.Errors.{Result-cases}
use terraform_provider_redsh.Config.Settings.{Config}
use terraform_provider_redsh.Config.Registry.{
  Drivers, Connection, Registry, lookup, insert, get_username, after_username, after_open,
  open_connection, reuse_or_open, connect,
}
use terraform_provider_redsh.Config.Registry.Laws.{IsRegistry, connect-IsRegistry}

abbrev pub is_distinct : List String → Bool
is_distinct [] = true
is_distinct (key ∷ rest) = not (contains rest key) && is_distinct rest

module _ {Db : Type 0} where
  -- A registry, and one that follows it: clients have connected one after the other, as the lock of
  -- the registry has it, each when the drivers answered in some way.
  pub data Reaches (start : Registry Db) : Registry Db → Type 0 where
    here : Reaches start start
    connects :
        (drivers : Drivers Db) (c : Config) (r : Registry Db)
        → Reaches start r
        → Reaches start (connect drivers c r).registry

  abbrev pub names : Registry Db → List String
  names [] = []
  names ((key, conn) ∷ rest) = key ∷ names rest

  contains-names :
      (r : Registry Db) (key : String) (conn : Connection Db) (k : String)
      → contains (names (insert r key conn)) k ≡ (k == key) || contains (names r) k
  unfolding insert
  contains-names [] key conn k = ground arith
  contains-names ((j, old) ∷ rest) key conn k = ground (arith, contains-names rest key conn k)

  is_distinct-insert :
      (r : Registry Db) (key : String) (conn : Connection Db)
      → is_distinct (names r) ≡ true
      → is_distinct (names (insert r key conn)) ≡ true
  unfolding insert
  is_distinct-insert [] key conn h = refl
  is_distinct-insert ((j, old) ∷ rest) key conn h =
      ground (arith, is_distinct-insert rest key conn, contains-names rest key conn j)

  -- The registry, as it was or with a new connection under the client's name.
  abbrev Extends : Config → Registry Db → Registry Db → Type 0
  Extends c r s = (s ≡ r) ⊎ ((conn : Connection Db) × (s ≡ insert r c.conn_str conn))

  Extends-open_connection :
      (drivers : Drivers Db) (c : Config) (r : Registry Db)
      → Extends c r (open_connection drivers c r).registry
  unfolding open_connection after_open after_username
  Extends-open_connection drivers c r =
      elim (Result-cases (drivers.open_db c.driver_name c.conn_str)) [
        | inr (e, f) ↦ rw f (inl refl)
        | inl (db, f) ↦ elim (Result-cases (get_username drivers c db)) [
          | inr (e, g) ↦ rw (f, g) (inl refl)
          | inl (d, g) ↦ rw (f, g) (inr (record { db = db; config = d }, refl))
        ]
      ]

  Extends-connect :
      (drivers : Drivers Db) (c : Config) (r : Registry Db)
      → Extends c r (connect drivers c r).registry
  unfolding connect reuse_or_open
  Extends-connect drivers c r = elim (Option-cases (lookup r c.conn_str)) [
    | inl n ↦ rw n (Extends-open_connection drivers c r)
    | inr (conn, f) ↦ elim (Bool-cases (drivers.ping conn.db)) [
      | inl up ↦ rw (f, up) (inl refl)
      | inr down ↦ rw (f, down) (Extends-open_connection drivers c r)
    ]
  ]

  is_distinct-connect :
      (drivers : Drivers Db) (c : Config) (r : Registry Db)
      → is_distinct (names r) ≡ true
      → is_distinct (names (connect drivers c r).registry) ≡ true
  is_distinct-connect drivers c r h = elim (Extends-connect drivers c r) [
    | inl same ↦ subst (λ s. is_distinct (names s) ≡ true) (sym same) h
    | inr (conn, e) ↦
        subst (λ s. is_distinct (names s) ≡ true) (sym e) (is_distinct-insert r c.conn_str conn h)
  ]

  contains-names-connect :
      (drivers : Drivers Db) (c : Config) (r : Registry Db) (key : String)
      → contains (names r) key ≡ true
      → contains (names (connect drivers c r).registry) key ≡ true
  contains-names-connect drivers c r key h = elim (Extends-connect drivers c r) [
    | inl same ↦ subst (λ s. contains (names s) key ≡ true) (sym same) h
    | inr (conn, e) ↦
        subst (λ s. contains (names s) key ≡ true) (sym e)
          (contains-names r c.conn_str conn key ∙ ground (arith, h))
  ]

  -- No name is ever forgotten.
  contains-Reaches :
      (start r : Registry Db) (key : String)
      → contains (names start) key ≡ true
      → Reaches start r
      → contains (names r) key ≡ true
  contains-Reaches start r key h Reaches.here = h
  contains-Reaches start _ key h (Reaches.connects drivers c r p) =
      contains-names-connect drivers c r key (contains-Reaches start r key h p)

  -- However many clients connect to whatever databases, and whatever the drivers answer each of
  -- them: if in the registry before each name occurs once and its connection was opened under that
  -- name, then so it is in the registry after them.
  pub Reaches-IsRegistry :
      (start r : Registry Db)
      → IsRegistry start
      → is_distinct (names start) ≡ true
      → Reaches start r
      → IsRegistry r × (is_distinct (names r) ≡ true)
  Reaches-IsRegistry start r valid distinct Reaches.here = (valid, distinct)
  Reaches-IsRegistry start _ valid distinct (Reaches.connects drivers c r p) =
      let (v, d) = Reaches-IsRegistry start r valid distinct p in
      (connect-IsRegistry drivers c r v, is_distinct-connect drivers c r d)
