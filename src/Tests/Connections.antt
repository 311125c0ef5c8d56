-- ===== src/Tests/Connections.antt =====
-- The registry of connections, and the configuration of one.
use terraform_provider_redsh.Base.{
  String, false, true, [], ◌∷◌, some, ◌==◌, if◌then◌else◌, string_dec, ◌≡◌, refl, arith,
}
use terraform_provider_redsh.Strings.{split}
use terraform_provider_redsh.Strings.Decimal.{ℤ}
use terraform_provider_redsh.Strings.Laws.{Lacks}
use terraform_provider_redsh.Strings.Escape.{bytes, read_parts}
use terraform_provider_redsh.Strings.Escape.UserInfo.{plus_for_space}
use terraform_provider_redsh.Errors.{ok}
use terraform_provider_redsh.Config.Settings.{Config, new_config, user_info}
use terraform_provider_redsh.Config.UserInfo.{read_parts-user_info}
use terraform_provider_redsh.Config.Registry.{
  Drivers, Connection, Registry, lookup, connect, reuse_or_open, open_connection, after_open,
  after_username, get_username,
}
use terraform_provider_redsh.Config.Registry.Laws.{IsRegistry, Opens, connect-Opens, connect_again}
use terraform_provider_redsh.Config.Registry.Reach.{Reaches, names, is_distinct, Reaches-IsRegistry}

user_info_example :
    (read_parts (split b':' (user_info "ann smith" "p@ss:w/rd?#"))
      ≡ some (bytes (plus_for_space "ann smith"), bytes (plus_for_space "p@ss:w/rd?#")))
    × Lacks b'#' (user_info "ann smith" "p@ss:w/rd?#")
user_info_example = read_parts-user_info "ann smith" "p@ss:w/rd?#" b'#' refl

-- A driver whose databases are their names, of which the ones named `down` do not answer.
abbrev drivers : Drivers String
drivers = record {
  open_db = λ driver_name conn_str. ok conn_str;
  ping = λ db. if db == "down" then false else true;
  query_current_user = λ db. ok (ok "ann");
}

abbrev config : Config
config = new_config "postgresql-proxy" "down" "dev" (ℤ.pos 20)

-- The client's database is registered, and does not answer.
abbrev registry : Registry String
registry = ("down", record { db = "down"; config = config }) ∷ []

registry-IsRegistry : IsRegistry registry
unfolding lookup
registry-IsRegistry key conn h = ground (arith, h)

connect_example : Opens config registry (connect drivers config registry)
connect_example = connect-Opens drivers config registry registry-IsRegistry

abbrev other_config : Config
other_config = new_config "postgresql-proxy" "up" "dev" (ℤ.pos 20)

abbrev connection : Connection String
connection = record { db = "up"; config = record other_config { retrieved_username = "ann" } }

again_example :
    connect drivers
      (connect drivers other_config registry).config
      (connect drivers other_config registry).registry
    ≡ connect drivers other_config registry
unfolding connect lookup reuse_or_open open_connection after_open after_username get_username
    string_dec
again_example =
    connect_again drivers drivers other_config registry connection registry-IsRegistry refl refl

-- Two clients connect one after the other.
reached_example :
    IsRegistry (connect drivers config (connect drivers other_config registry).registry).registry
    × (is_distinct
          (names (connect drivers config (connect drivers other_config registry).registry).registry)
        ≡ true)
reached_example = Reaches-IsRegistry registry _ registry-IsRegistry refl (
    Reaches.connects drivers config _ (Reaches.connects drivers other_config registry Reaches.here))
