-- ===== src/Server/Endpoints.antt =====
-- Which hosts server/server.go makes clients of KMS for.
use secrets_store_csi_driver.Prelude.{
  Text, ◌≡◌, ◌≢◌, refl, ◌⊎◌, inl, inr, [], ◌∷◌, none, some, if◌then◌else◌, contains, trim_space,
}
use secrets_store_csi_driver.Outcome.{Outcome, err, endpoint_refused, passed_on}
use secrets_store_csi_driver.Exec.{reply}
use secrets_store_csi_driver.Endpoint.Hosts.{IsKmsHost, validate_kms_endpoint_cases}
use secrets_store_csi_driver.SecretObject.{KmsClient}
use secrets_store_csi_driver.PrivateCa.{region_ca}
use secrets_store_csi_driver.Auth.Methods.{Credential}
use secrets_store_csi_driver.Server.Config.{
  suffix, default_kms_endpoint, kms_endpoint_of, kms_config,
}
use secrets_store_csi_driver.Server.Clients.{Sdk, new_kms_client}

module _ {W : Type 0} (sdk : Sdk W) where
  -- The client that the SDK makes for a host, with the certificate of the region for a dedicated one.
  abbrev pub client_at : Text → Credential → Text → W → Outcome KmsClient × W
  client_at host cred region w =
      reply
        (sdk.new_kms
          (record {
            endpoint = host;
            credential = cred;
            ca = if contains host suffix then some (region_ca region) else none;
          })
          w)
        passed_on

  -- `newKmsClient` makes a client for the default host of the region if no endpoint is given, and
  -- for the given endpoint if it is a KMS host, up to spaces around it; it refuses every other
  -- endpoint, and then the SDK is not called.
  pub new_kms_client_cases :
      (cred : Credential) (endpoint region : Text) (w : W)
      → ((endpoint ≡ [])
          × (new_kms_client sdk cred endpoint region w
              ≡ client_at (default_kms_endpoint region) cred region w))
        ⊎ ((endpoint ≢ [])
            × IsKmsHost (trim_space endpoint)
            × (new_kms_client sdk cred endpoint region w ≡ client_at endpoint cred region w))
        ⊎ ((endpoint ≢ [])
            × ¬ IsKmsHost (trim_space endpoint)
            × (new_kms_client sdk cred endpoint region w ≡ (err (endpoint_refused endpoint), w)))
  unfolding new_kms_client kms_config kms_endpoint_of
  new_kms_client_cases cred [] region w = inl (refl, refl)
  new_kms_client_cases cred (c ∷ s) region w = elim (validate_kms_endpoint_cases (c ∷ s)) [
    | inl (e, h) ↦ inr (inl ((λ q. cc), h, rw e refl))
    | inr (e, h) ↦ inr (inr ((λ q. cc), h, rw e refl))
  ]
