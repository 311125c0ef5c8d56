-- ===== src/Config/Registry.antt =====
-- redshift/config.go: the connections, registered by their data source names.
pub mod Laws
pub mod Reach
use terraform_provider_redsh.Base.{
  String, ◌<>◌, Bool, true, false, not, ◌||◌, List, [], ◌∷◌, ◌==◌, string_dec, if◌then◌else◌,
  Option, none, some,
}
use terraform_provider_redsh.Errors.{Error, wrap, Result, ok, err}
use terraform_provider_redsh.Config.Settings.{Config}

-- `database/sql` and the drivers, at the time of a call: opening a database, asking it whether it is
-- there, and the row of `SELECT current_user;`, which may be missing or fail to be scanned.
pub record Drivers (Db : Type 0) : Type 0 where
  pub open_db : String → String → Result Db
  pub ping : Db → Bool
  pub query_current_user : Db → Result (Result String)

-- `DBConnection`, with the configuration of the client that opened it.
pub record Connection (Db : Type 0) : Type 0 where
  pub db : Db
  pub config : Config

-- `dbRegistry`
abbrev pub Registry : Type 0 → Type 0
Registry Db = List (String × Connection Db)

pub record Connected (Db : Type 0) : Type 0 where
  pub result : Result (Connection Db)
  pub config : Config
  pub registry : Registry Db

module _ {Db : Type 0} where
  unfoldable pub lookup : Registry Db → String → Option (Connection Db)
  lookup [] dsn = none
  lookup ((key, conn) ∷ rest) dsn = if key == dsn then some conn else lookup rest dsn

  -- `dbRegistry[dsn] = conn`
  unfoldable pub insert : Registry Db → String → Connection Db → Registry Db
  insert [] dsn conn = (dsn, conn) ∷ []
  insert ((key, old) ∷ rest) dsn conn =
      let others = insert rest dsn conn in
      if key == dsn then (dsn, conn) ∷ rest else (key, old) ∷ others

  abbrev pub failed : Config → Registry Db → Error → Connected Db
  failed c registry e = record { result = err e; config = c; registry = registry }

  abbrev pub registered : Config → Registry Db → String → Connection Db → Connected Db
  registered c registry dsn conn = record {
    result = ok conn;
    config = c;
    registry = insert registry dsn conn;
  }

  -- A new connection is registered once its user is known.
  unfoldable pub after_username : Config → Registry Db → Db → Result Config → Connected Db
  after_username c registry db (err e) = failed c registry (
      wrap
        ("error retrieving username from Redshift database (driver: \"" <> (c.driver_name <> "\")"))
        e)
  after_username c registry db (ok d) =
      registered d registry c.conn_str (record { db = db; config = d })

module _ {Db : Type 0} (drivers : Drivers Db) where
  open drivers use {ping, query_current_user}

  -- `GetUsername`: the user name, which the configuration keeps.
  unfoldable pub get_username : Config → Db → Result Config
  get_username c db =
      if not (c.retrieved_username == "") then ok c else elim (query_current_user db) [
        | err e ↦ err (wrap "error retrieving current user" e)
        | ok row ↦ elim row [
          | err e ↦ err (wrap "error scanning current user" e)
          | ok username ↦ ok (record c { retrieved_username = username })
        ]
      ]

  unfoldable pub after_open : Config → Registry Db → Result Db → Connected Db
  after_open c registry (err e) =
      failed c registry
        (wrap ("error creating Redshift driver instance (driver: \"" <> (c.driver_name <> "\")")) e)
  after_open c registry (ok db) = after_username c registry db (get_username c db)

  unfoldable pub open_connection : Config → Registry Db → Connected Db
  open_connection c registry = after_open c registry (drivers.open_db c.driver_name c.conn_str)

  -- A registered connection that answers is used again.
  unfoldable pub reuse_or_open : Option (Connection Db) → Config → Registry Db → Connected Db
  reuse_or_open none c registry = open_connection c registry
  reuse_or_open (some conn) c registry =
      if ping conn.db
      then record { result = ok conn; config = c; registry = registry }
      else open_connection c registry

  unfoldable pub connect : Config → Registry Db → Connected Db
  connect c registry = reuse_or_open (lookup registry c.conn_str) c registry
