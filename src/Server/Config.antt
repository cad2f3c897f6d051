-- ===== src/Server/Config.antt =====
-- server/server.go: the configuration of the clients of KMS and OOS, and the credentials that are
-- handed on to the SDK.
use secrets_store_csi_driver.Prelude.{
  Text, codes, ◌++◌, [], ◌∷◌, Option, none, some, if◌then◌else◌, contains,
}
use secrets_store_csi_driver.Outcome.{Outcome, ok, Reply, done, failed, ◌>>=◌, ◌>>◌}
use secrets_store_csi_driver.Endpoint.{validate_kms_endpoint}
use secrets_store_csi_driver.PrivateCa.{region_ca}
use secrets_store_csi_driver.Auth.Methods.{Credential}

-- `openapi.Config`, the fields that are set.
pub record ClientConfig : Type 0 where
  pub endpoint : Text
  pub credential : Credential
  pub ca : Option Text

-- `providers.Credentials` and `credentials.CredentialModel` as far as they are read.
pub record CredentialModel : Type 0 where
  pub access_key_id : Option Text
  pub access_key_secret : Option Text
  pub security_token : Option Text

pub record Credentials : Type 0 where
  pub access_key_id : Text
  pub access_key_secret : Text
  pub security_token : Text

-- `*p`, or the empty string for nil.
abbrev pub or_empty : Option Text → Text
or_empty none = []
or_empty (some t) = t

-- `credentialProviderAdapter.GetCredentials` on the answer of the base credential; the name of the
-- error's wrapping is all that it adds.
unfoldable pub adapter_get_credentials : Reply CredentialModel → Reply Credentials
adapter_get_credentials (failed f) =
    failed (record f { message = codes "failed to get credential: " ++ f.message })
adapter_get_credentials (done m) = done (record {
  access_key_id = or_empty m.access_key_id;
  access_key_secret = or_empty m.access_key_secret;
  security_token = or_empty m.security_token;
})

abbrev pub suffix : Text
suffix = codes "cryptoservice.kms.aliyuncs.com"

-- `defaultKmsEndpoint` and `defaultOosEndpoint` with the region in.
unfoldable pub default_kms_endpoint : Text → Text
default_kms_endpoint region = codes "kms-vpc." ++ region ++ codes ".aliyuncs.com"

unfoldable pub default_oos_endpoint : Text → Text
default_oos_endpoint region = codes "oos-vpc." ++ region ++ codes ".aliyuncs.com"

-- The endpoint that a client of KMS is made for.
unfoldable pub kms_endpoint_of : (endpoint region : Text) → Outcome Text
kms_endpoint_of [] region = ok (default_kms_endpoint region)
kms_endpoint_of (c ∷ s) region = do validate_kms_endpoint (c ∷ s); ok (c ∷ s)

-- The configuration of a client of KMS.
unfoldable pub kms_config : Credential → (endpoint region : Text) → Outcome ClientConfig
kms_config cred endpoint region = do
  host ← kms_endpoint_of endpoint region
  ok (record {
    endpoint = host;
    credential = cred;
    ca = if contains host suffix then some (region_ca region) else none;
  })

unfoldable pub oos_config : Credential → Text → ClientConfig
oos_config cred region = record {
  endpoint = default_oos_endpoint region;
  credential = cred;
  ca = none;
}
