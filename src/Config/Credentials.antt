-- ===== src/Config/Credentials.antt =====
-- What the static password of the provider reaches (redshift/provider.go and
-- redshift/config_pq_proxy.go).
use terraform_provider_redsh.Base.{
  String, true, false, is_empty, ◌≡◌, ◌⊎◌, inl, inr, refl, List-cases,
}
use terraform_provider_redsh.Config.Settings.{
  ProviderData, Aws, get_config_from_pq_resource_data, get_config_from_resource_data,
  temporary_credentials,
}

-- With the Data API or temporary credentials configured, the connection's configuration is the same
-- whatever the static password is.
pub get_config_from_resource_data_of_password :
    (aws : Aws) (d : ProviderData) (password : String)
    → (is_empty d.data_api ≡ false) ⊎ (is_empty d.temporary_credentials ≡ false)
    → get_config_from_resource_data (record d { password = password }) (temporary_credentials aws)
      ≡ get_config_from_resource_data d (temporary_credentials aws)
unfolding get_config_from_resource_data get_config_from_pq_resource_data temporary_credentials
get_config_from_resource_data_of_password aws d password h = elim (List-cases d.data_api) [
  | inr (api, (rest, e)) ↦ rw e refl
  | inl none_api ↦ elim (List-cases d.temporary_credentials) [
    | inr (c, (rest, e)) ↦ rw (none_api, e) refl
    | inl none_credentials ↦ absurd (elim h [
      | inl a ↦ let n : true ≡ false = rw none_api at a in cc
      | inr b ↦ let n : true ≡ false = rw none_credentials at b in cc
    ])
  ]
]
