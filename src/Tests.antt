-- ===== src/Tests.antt =====
-- The theorems at concrete inputs: each is applied with a database of Samples.
pub mod Config
pub mod Connections
pub mod Databases
pub mod Datashares
pub mod Grants
pub mod Groups
pub mod Roles
pub mod Schemas
pub mod Users
use terraform_provider_redsh.Base.{
  String, Bool, true, false, none, ◌==◌, string_dec, ◌≡◌, ◌≢◌, arith,
}
use terraform_provider_redsh.External.{Env}
use terraform_provider_redsh.Effects.{World}

-- A handler starts with no transaction open.
abbrev pub fresh : {env : Env} {D : Type 0} → env.State → D → World env D
fresh s d = record { state = s; tx = none; slept = 0; d = d }

pub differ : {s t : String} → (s == t) ≡ false → s ≢ t
differ h e = ground (arith, h, e)
