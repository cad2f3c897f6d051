-- ===== src/Server/Certificates.antt =====
-- The certificate in the configuration of a client of KMS in server/server.go.
use secrets_store_csi_driver.Prelude.{
  Text, String, List, [], ◌≡◌, ◌≢◌, refl, subst, inl, inr, ◌⊎◌, none, some, true, false, Bool-cases,
  contains, if◌then◌else◌,
}
use secrets_store_csi_driver.Outcome.{ok, ok-injective, >>=-eq-ok}
use secrets_store_csi_driver.Auth.Methods.{Credential}
use secrets_store_csi_driver.PrivateCa.{region_id_and_ca_map, region_ca, text_of}
use secrets_store_csi_driver.PrivateCa.Certified.{pre_env, Certifies, region_ca-cases}
use secrets_store_csi_driver.Server.Keyed.{load}
use secrets_store_csi_driver.Server.Config.{ClientConfig, suffix, kms_endpoint_of, kms_config}

-- The host is no dedicated gateway and there is no certificate, or it is one and there is a
-- certificate of the region, or the empty text if the map has none for the region.
abbrev pub HasCertificate : Text → ClientConfig → Type 0
HasCertificate region config =
    ((contains config.endpoint suffix ≡ false) × (config.ca ≡ none))
    ⊎ ((contains config.endpoint suffix ≡ true)
        × (load region region_id_and_ca_map ≡ none)
        × (config.ca ≡ some []))
    ⊎ ((contains config.endpoint suffix ≡ true)
        × ((ls : List String) × (config.ca ≡ some (text_of ls)) × Certifies region ls))

config_at-HasCertificate :
    (cred : Credential) (host region : Text)
    → region ≢ pre_env
    → HasCertificate region (record {
      endpoint = host;
      credential = cred;
      ca = if contains host suffix then some (region_ca region) else none;
    })
config_at-HasCertificate cred host region n = elim (Bool-cases (contains host suffix)) [
  | inl e ↦ elim (region_ca-cases region n) [
    | inl (m, f) ↦ inr (inl (e, m, rw (e, f) refl))
    | inr (ls, f, c) ↦ inr (inr (e, (ls, rw (e, f) refl, c)))
  ]
  | inr e ↦ inl (e, rw e refl)
]

-- For every region but `pre-env`, the configuration that `newKmsClient` makes has no certificate
-- unless its host is a dedicated gateway; there it has the certificate of the authority of the region,
-- or the empty text if the map has no entry for the region.
pub kms_config-HasCertificate :
    (cred : Credential) (endpoint region : Text) (config : ClientConfig)
    → region ≢ pre_env
    → kms_config cred endpoint region ≡ ok config
    → HasCertificate region config
unfolding kms_config
kms_config-HasCertificate cred endpoint region config n e =
    let (host, _, f) = >>=-eq-ok (kms_endpoint_of endpoint region) _ e in
    subst (HasCertificate region) (ok-injective _ config f)
      (config_at-HasCertificate cred host region n)
