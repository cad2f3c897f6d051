-- ===== src/Server/Clients.antt =====
-- server/server.go: making the clients of KMS and OOS and the credentials for other accounts.
use secrets_store_csi_driver.Prelude.{Text, codes, [], ◌∷◌, Option, none, some}
use secrets_store_csi_driver.Outcome.{
  err, Reply, base_credential_missing, role_arn_missing, role_provider_failed, passed_on,
}
use secrets_store_csi_driver.Exec.{Exec, lift, reply, ◌>>=◌}
use secrets_store_csi_driver.SecretObject.{KmsClient, OosClient}
use secrets_store_csi_driver.Auth.Methods.{Credential}
use secrets_store_csi_driver.Server.Config.{ClientConfig, kms_config, oos_config}

-- What is used of the SDKs: the clients' constructors, and the making of a credential for a role, around
-- the adapter of a base credential: the provider's `Build` and `FromCredentialsProvider`. The role
-- itself is assumed later, when the SDK uses the credential.
pub record Sdk (W : Type 0) : Type 0 where
  pub new_kms : ClientConfig → W → Reply KmsClient × W
  pub new_oos : ClientConfig → W → Reply OosClient × W
  pub new_role_credential :
      (base : Credential) (role_arn session_name : Text) → W → Reply Credential × W

module _ {W : Type 0} (sdk : Sdk W) where
  -- `newKmsClient`
  unfoldable pub new_kms_client : Credential → (endpoint region : Text) → Exec W KmsClient
  new_kms_client cred endpoint region = do
    config ← lift (kms_config cred endpoint region)
    λ w. reply (sdk.new_kms config w) passed_on

  -- `newOosClient`
  unfoldable pub new_oos_client : Credential → Text → Exec W OosClient
  new_oos_client cred region w = reply (sdk.new_oos (oos_config cred region) w) passed_on

  -- `createCrossAccountCredential`; a nil base credential is `none`.
  unfoldable pub create_cross_account_credential : Option Credential → Text → Exec W Credential
  create_cross_account_credential none role_arn = lift (err base_credential_missing)
  create_cross_account_credential (some base) [] = lift (err role_arn_missing)
  create_cross_account_credential (some base) (c ∷ s) = λ w.
      reply (sdk.new_role_credential base (c ∷ s) (codes "csi-secrets-store-cross-account") w)
        (role_provider_failed (c ∷ s))
