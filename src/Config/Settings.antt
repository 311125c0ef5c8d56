-- ===== src/Config/Settings.antt =====
-- The configuration of the provider: redshift/provider.go, redshift/config_pq_proxy.go and
-- redshift/config_data_api.go.
use terraform_provider_redsh.Base.{
  ℕ, ◌-◌, ◌%◌, String, ◌<>◌, Bool, true, false, not, List, [], ◌∷◌, keep, ◌==◌, leb, if◌then◌else◌,
  Option, none, some,
}
use Prim.Native.Nat.{◌^◌}
use terraform_provider_redsh.Strings.{join}
use terraform_provider_redsh.Strings.Decimal.{ℤ, show_int}
use terraform_provider_redsh.Strings.Escape.{query_escape}
use terraform_provider_redsh.Errors.{plain, Result, ok, err, wrapping}

pub record DataApi : Type 0 where
  pub workgroup_name : String
  pub region : String

pub record AssumeRole : Type 0 where
  pub arn : String
  pub external_id : String
  pub session_name : String

pub record TemporaryCredentials : Type 0 where
  pub cluster_identifier : String
  pub region : String
  pub auto_create_user : Bool
  pub db_groups : List String
  pub duration_seconds : ℤ
  pub assume_role : List AssumeRole

-- The attributes of the provider; the blocks are lists of one element at most.
pub record ProviderData : Type 0 where
  pub host : String
  pub username : String
  pub password : String
  pub port : ℤ
  pub sslmode : String
  pub database : String
  pub max_connections : ℤ
  pub data_api : List DataApi
  pub temporary_credentials : List TemporaryCredentials

pub record Config : Type 0 where
  pub driver_name : String
  pub conn_str : String
  pub database : String
  pub max_conns : ℤ
  pub retrieved_username : String

-- `NewConfig`; what it leaves unset of Redshift Serverless is `new_cache`.
abbrev pub new_config : String → String → String → ℤ → Config
new_config driver_name conn_str database max_conns = record {
  driver_name = driver_name;
  conn_str = conn_str;
  database = database;
  max_conns = max_conns;
  retrieved_username = "";
}

-- What stands between `postgres://` and the host.
unfoldable pub user_info : String → String → String
user_info username password = query_escape username <> (":" <> query_escape password)

-- The two parameters are sorted.
unfoldable pub build_conn_str_from_pq_config :
    String → String → String → String → ℤ → String → String
build_conn_str_from_pq_config host database username password port ssl_mode =
    let params =
      join "&"
        (("connect_timeout=" <> query_escape "180") ∷ ("sslmode=" <> query_escape ssl_mode) ∷ []) in
    "postgres://"
    <> (user_info username password
        <> ("@" <> (host <> (":" <> (show_int port <> ("/" <> (database <> ("?" <> params))))))))

unfoldable pub new_pq_config : String → String → String → String → ℤ → String → ℤ → Config
new_pq_config host database username password port ssl_mode max_conns =
    new_config "postgresql-proxy"
      (build_conn_str_from_pq_config host database username password port ssl_mode) database
      max_conns

-- The user name and the password for a user name.
abbrev Resolver : Type 0
Resolver = String → ProviderData → Result (String × String)

abbrev pq_config_of : ProviderData → String → ℤ → Result (String × String) → Result Config
pq_config_of d database max_connections (ok (username, password)) =
    ok (new_pq_config d.host database username password d.port d.sslmode max_connections)
pq_config_of d database max_connections (err e) = err e

unfoldable pub get_config_from_pq_resource_data :
    ProviderData → String → ℤ → Resolver → Result Config
get_config_from_pq_resource_data d database max_connections resolver =
    pq_config_of d database max_connections (elim d.temporary_credentials [
      | [] ↦ ok (d.username, d.password)
      | _ ↦ wrapping "failed to resolve temporary credentials" (resolver d.username d)
    ])

unfoldable pub build_conn_str_from_data_api_config : String → String → String → String
build_conn_str_from_data_api_config workgroup_name database aws_region =
    "workgroup("
    <> (workgroup_name
        <> (")/"
            <> (database
                <> ("?region="
                    <> (aws_region <> "&transactionMode=non-transactional&requestMode=blocking")))))

unfoldable pub new_data_api_config : String → String → String → ℤ → Config
new_data_api_config workgroup_name database aws_region max_conns =
    new_config "redshift-data"
      (build_conn_str_from_data_api_config workgroup_name database aws_region) database max_conns

unfoldable pub get_config_from_data_api_resource_data : DataApi → String → Config
get_config_from_data_api_resource_data api database =
    new_data_api_config api.workgroup_name database api.region (ℤ.pos 1)

unfoldable pub get_config_from_resource_data : ProviderData → Resolver → Result Config
get_config_from_resource_data d resolver = elim d.data_api [
  | api ∷ _ ↦ ok (get_config_from_data_api_resource_data api d.database)
  | [] ↦ get_config_from_pq_resource_data d d.database d.max_connections resolver
]

-- The AWS client: the region and the role that it assumes, if any.
pub record ClientOptions : Type 0 where
  pub region : String
  pub role : Option AssumeRole

-- `GetClusterCredentialsInput`
pub record CredentialsInput : Type 0 where
  pub cluster_identifier : String
  pub db_name : String
  pub db_user : String
  pub auto_create : Option Bool
  pub db_groups : List String
  pub duration_seconds : Option ℤ

-- `int32(n)`
abbrev to_int32 : ℕ → ℤ
to_int32 n = let m = n % 2 ^ 32 in if leb (2 ^ 31) m then ℤ.negsuc (2 ^ 32 - 1 - m) else ℤ.pos m

-- A duration that is not set is 0.
unfoldable pub duration_input : ℤ → Option ℤ
duration_input (ℤ.pos n) = if leb 1 n then some (to_int32 n) else none
duration_input (ℤ.negsuc n) = none

unfoldable pub credentials_input : TemporaryCredentials → String → String → CredentialsInput
credentials_input c database username = record {
  cluster_identifier = c.cluster_identifier;
  db_name = database;
  db_user = username;
  auto_create = if c.auto_create_user then some true else none;
  db_groups = keep (λ g. not (g == "")) c.db_groups;
  duration_seconds = duration_input c.duration_seconds;
}

-- The AWS SDK: its default configuration, and the request.
pub record Aws : Type 0 where
  pub load_default_config : Result ClientOptions
  pub get_cluster_credentials : ClientOptions → CredentialsInput → Result (String × String)

abbrev first_role : List AssumeRole → Option AssumeRole
first_role [] = none
first_role (r ∷ rest) = some r

-- What the configuration adds to the default one.
unfoldable pub client_options : TemporaryCredentials → ClientOptions → ClientOptions
client_options c options = record {
  region = if c.region == "" then options.region else c.region;
  role = elim (first_role c.assume_role) [ some r ↦ some r | none ↦ options.role ];
}

unfoldable pub redshift_sdk_client : Aws → TemporaryCredentials → Result ClientOptions
redshift_sdk_client aws c = elim aws.load_default_config [
  | err e ↦ err e
  | ok options ↦ ok (client_options c options)
]

abbrev first_credentials : List TemporaryCredentials → TemporaryCredentials
first_credentials (c ∷ rest) = c
first_credentials [] = record {
  cluster_identifier = "";
  region = "";
  auto_create_user = false;
  db_groups = [];
  duration_seconds = ℤ.pos 0;
  assume_role = [];
}

unfoldable pub temporary_credentials : Aws → Resolver
temporary_credentials aws username d =
    let c = first_credentials d.temporary_credentials in
    elim (redshift_sdk_client aws c) [
      | err e ↦ err e
      | ok options ↦
          if c.cluster_identifier == ""
          then err (plain "temporary_credentials not configured")
          else aws.get_cluster_credentials options (credentials_input c d.database username)
    ]
