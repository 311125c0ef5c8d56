-- ===== src/Config/Registry/Laws.antt =====
-- The registry of connections (redshift/config.go) as a map from data source names to connections.
use terraform_provider_redsh.Base.{
  String, true, false, [], ◌∷◌, ◌==◌, if◌then◌else◌, Option, none, some, ◌≡◌, refl, subst, sym, ap,
  ◌∙◌, arith, Bool-cases, inl, inr,
}
use terraform_provider_redsh.Errors.{Error, Result, ok, err, is_ok, Result-cases}
use terraform_provider_redsh.Config.Settings.{Config}
use terraform_provider_redsh.Config.Registry.{
  Drivers, Connection, Registry, lookup, insert, get_username, Connected, failed, after_username,
  after_open, open_connection, reuse_or_open, connect,
}

ok_injective {ℓ} : {A : Type ℓ} (a b : A) → ok a ≡ ok b → a ≡ b
ok_injective a b h = cc

some_injective {ℓ} : {A : Type ℓ} (a b : A) → some a ≡ some b → a ≡ b
some_injective a b h = cc

module _ {Db : Type 0} where
  -- A map, changed at one key.
  abbrev pub update :
      (String → Option (Connection Db)) → String → Connection Db → String → Option (Connection Db)
  update f key conn k = if k == key then some conn else f k

  lookup-insert :
      (r : Registry Db) (key : String) (conn : Connection Db) (k : String)
      → lookup (insert r key conn) k ≡ update (lookup r) key conn k
  unfolding lookup insert
  lookup-insert [] key conn k = ground arith
  lookup-insert ((j, old) ∷ rest) key conn k = ground (arith, lookup-insert rest key conn k)

  -- Each connection was opened under its own name.
  abbrev pub IsRegistry : Registry Db → Type 0
  IsRegistry r =
      (key : String) (conn : Connection Db) → lookup r key ≡ some conn → conn.config.conn_str ≡ key

  -- A connection and what came of asking for it.
  pub record Opens (c : Config) (r : Registry Db) (out : Connected Db) : Type 0 where
    pub same_name : out.config.conn_str ≡ c.conn_str
    pub on_success :
        (conn : Connection Db)
        → out.result ≡ ok conn
        → (conn.config.conn_str ≡ c.conn_str)
          × ((k : String) → lookup out.registry k ≡ update (lookup r) c.conn_str conn k)
    pub on_failure : is_ok out.result ≡ false → out.registry ≡ r

  Opens-failed : (c : Config) (r : Registry Db) (e : Error) → Opens c r (failed c r e)
  Opens-failed c r e = record {
    same_name = refl;
    on_success = λ conn h. absurd (ground arith);
    on_failure = λ h. refl;
  }

  Opens-after_username :
      (c : Config) (r : Registry Db) (db : Db) (d : Result Config)
      → ((e : Config) → d ≡ ok e → e.conn_str ≡ c.conn_str)
      → Opens c r (after_username c r db d)
  unfolding after_username
  Opens-after_username c r db (err e) same = Opens-failed c r _
  Opens-after_username c r db (ok d) same = record {
    same_name = same d refl;
    on_success = λ conn h.
        let new : Connection Db = record { db = db; config = d } in
        let e : new ≡ conn = ok_injective new conn h in
        (
          ap (λ (n : Connection Db). n.config.conn_str) (sym e) ∙ same d refl,
          λ k. lookup-insert r c.conn_str new k ∙ ap (λ n. update (lookup r) c.conn_str n k) e,
        );
    on_failure = λ h. absurd (ground arith);
  }

  update_same :
      (r : Registry Db) (key : String) (conn : Connection Db) (k : String)
      → lookup r key ≡ some conn
      → lookup r k ≡ update (lookup r) key conn k
  update_same r key conn k found = elim (Bool-cases (k == key)) [
    | inl p ↦ let q : k ≡ key = ground arith in rw p (ap (lookup r) q ∙ found)
    | inr n ↦ rw n refl
  ]

module _ {Db : Type 0} (drivers : Drivers Db) where
  open drivers use {ping, query_current_user}

  conn_str-get_username :
      (c d : Config) (db : Db) → get_username drivers c db ≡ ok d → d.conn_str ≡ c.conn_str
  unfolding get_username
  conn_str-get_username c d db h = elim (Bool-cases (c.retrieved_username == "")) [
    | inr known ↦ ground arith
    | inl unknown ↦ elim (Result-cases (query_current_user db)) [
      | inr (e, f) ↦ absurd (ground arith)
      | inl (row, f) ↦ elim (Result-cases row) [
        | inr (e, g) ↦ absurd (ground arith)
        | inl (username, g) ↦ ground arith
      ]
    ]
  ]

  Opens-open_connection : (c : Config) (r : Registry Db) → Opens c r (open_connection drivers c r)
  unfolding open_connection after_open
  Opens-open_connection c r =
      elim (drivers.open_db c.driver_name c.conn_str)
        as (λ o. Opens c r (after_open drivers c r o)) [
          | err e ↦ Opens-failed c r _
          | ok db ↦
              Opens-after_username c r db (get_username drivers c db)
                (λ d. conn_str-get_username c d db)
        ]

  Opens-reuse_or_open :
      (c : Config) (r : Registry Db) (o : Option (Connection Db))
      → IsRegistry r
      → lookup r c.conn_str ≡ o
      → Opens c r (reuse_or_open drivers o c r)
  unfolding reuse_or_open
  Opens-reuse_or_open c r none valid found = Opens-open_connection c r
  Opens-reuse_or_open c r (some conn) valid found = elim (Bool-cases (ping conn.db)) [
    | inr down ↦ rw down (Opens-open_connection c r)
    | inl up ↦ rw up (record {
      same_name = refl;
      on_success = λ other h.
          let e : conn ≡ other = ok_injective conn other h in
          (
            ap (λ (n : Connection Db). n.config.conn_str) (sym e) ∙ valid c.conn_str conn found,
            λ k.
                update_same r c.conn_str conn k found
                ∙ ap (λ n. update (lookup r) c.conn_str n k) e,
          );
      on_failure = λ h. absurd (ground arith);
    })
  ]

  -- In a registry whose connections were opened under their own names, connecting changes the map
  -- at the client's name at most: to the connection that it returns, which was opened under that
  -- name; with an error it changes nothing.
  pub connect-Opens :
      (c : Config) (r : Registry Db) → IsRegistry r → Opens c r (connect drivers c r)
  unfolding connect
  connect-Opens c r valid = Opens-reuse_or_open c r (lookup r c.conn_str) valid refl

  -- After connecting, whatever comes of it, the connections are registered under their own names if
  -- they were before.
  pub connect-IsRegistry :
      (c : Config) (r : Registry Db) → IsRegistry r → IsRegistry (connect drivers c r).registry
  connect-IsRegistry c r valid =
      let k = connect-Opens c r valid in
      elim (Result-cases (connect drivers c r).result) [
        | inr (e, f) ↦ subst IsRegistry (sym (k.on_failure (rw f refl))) valid
        | inl (conn, f) ↦
            let (named, changed) = k.on_success conn f in
            λ key other found. elim (Bool-cases (key == c.conn_str)) [
              | inl p ↦
                  let e : conn ≡ other =
                    some_injective conn other (sym (changed key ∙ rw p refl) ∙ found) in
                  let q : key ≡ c.conn_str = ground arith in
                  ap (λ (n : Connection Db). n.config.conn_str) (sym e) ∙ (named ∙ sym q)
              | inr n ↦ valid key other (sym (changed key ∙ rw n refl) ∙ found)
            ]
      ]

  reuse_of_found :
      (c : Config) (r : Registry Db) (conn : Connection Db)
      → lookup r c.conn_str ≡ some conn
      → ping conn.db ≡ true
      → connect drivers c r ≡ record { result = ok conn; config = c; registry = r }
  unfolding connect reuse_or_open
  reuse_of_found c r conn found up = rw (found, up) refl

module _ {Db : Type 0} where
  -- A client that has connected gets the same connection again, and opens none, as long as it
  -- answers, whatever else the drivers answer then.
  pub connect_again :
      (drivers later : Drivers Db) (c : Config) (r : Registry Db) (conn : Connection Db)
      → IsRegistry r
      → (connect drivers c r).result ≡ ok conn
      → later.ping conn.db ≡ true
      → connect later (connect drivers c r).config (connect drivers c r).registry
        ≡ connect drivers c r
  connect_again drivers later c r conn valid h up =
      let out = connect drivers c r in
      let k = connect-Opens drivers c r valid in
      let same : (c.conn_str == c.conn_str) ≡ true = ground arith in
      let found : lookup out.registry out.config.conn_str ≡ some conn =
        ap (lookup out.registry) k.same_name
        ∙ ((k.on_success conn h).1 c.conn_str ∙ rw same refl) in
      reuse_of_found later out.config out.registry conn found up
      ∙ ap
          (λ (x : Result (Connection Db)).
            let again : Connected Db = record {
              result = x;
              config = out.config;
              registry = out.registry;
            } in
            again)
          (sym h)
