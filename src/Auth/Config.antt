-- ===== src/Auth/Config.antt =====
-- auth/auth.go: the inputs of the chain, the configuration for the SDK, and the OIDC provider's ARN.
use secrets_store_csi_driver.Prelude.{
  ℕ, Text, codes, ◌++◌, Option, Bool, ◌||◌, if◌then◌else◌, is_empty,
}

-- `PodSAInfo`
pub record PodSaInfo : Type 0 where
  pub namespace : Text
  pub service_account : Text
  pub role_arn : Text
  pub use_pod_service_account : Bool
  pub token_from_volume_context : Text

-- `authConfig`
pub record AuthConfig : Type 0 where
  pub role_arn : Text
  pub oidc_arn : Text
  pub access_key : Text
  pub access_secret_key : Text
  pub role_session_name : Text
  pub role_session_expiration : Text
  pub node_publish_secret : Text
  pub pod_namespace : Text
  pub pod_service_account : Text
  pub pod_service_account_role_arn : Text
  pub use_pod_service_account_token : Bool
  pub token_from_volume_context : Text

-- A Go `int`.
pub data ℤ : Type 0 where
  pos negsuc : ℕ → ℤ

-- `credentials.Config` as the program fills it in; the setters that are not called leave nil.
pub data CredentialConfig : Type 0 where
  oidc_role_arn : (provider_arn token_file_path role_arn session_name : Text) → CredentialConfig
  ram_role_arn :
      (access_key secret role_arn session_name : Text) (session_expiration : Option ℤ)
      → CredentialConfig
  access_key : (access_key secret : Text) → CredentialConfig
  ecs_ram_role : CredentialConfig

abbrev pub default_role_session_name : Text
default_role_session_name = codes "csi-secrets-store-provider-alibaba"

abbrev pub oidc_token_file_path : Text
oidc_token_file_path = codes "/var/run/secrets/tokens/csi-secrets-store-provider-alibabacloud"

-- The session name that three of the methods send.
unfoldable pub session_name : AuthConfig → Text
session_name c =
    if is_empty c.role_session_name then default_role_session_name else c.role_session_name

-- `os.Getenv` is a parameter: the environment does not change.
module _ (getenv : Text → Text) where
  -- `buildOIDCProviderARN`
  unfoldable pub build_oidc_provider_arn : Text
  build_oidc_provider_arn =
      let account_id = getenv (codes "ALICLOUD_ACCOUNT_ID") in
      let cluster_id = getenv (codes "ALICLOUD_CLUSTER_ID") in
      if is_empty account_id || is_empty cluster_id
      then codes ""
      else codes "acs:ram::" ++ account_id ++ codes ":oidc-provider/ack-rrsa-" ++ cluster_id

  -- `getOIDCProviderARN`
  unfoldable pub get_oidc_provider_arn : Text
  get_oidc_provider_arn =
      let oidc_arn = getenv (codes "ALICLOUD_OIDC_PROVIDER_ARN") in
      if is_empty oidc_arn then build_oidc_provider_arn else oidc_arn

  -- The `authConfig` that `GetKMSAuthCred` fills in.
  unfoldable pub auth_config : Text → PodSaInfo → AuthConfig
  auth_config secrets pod = record {
    role_arn = getenv (codes "ALICLOUD_ROLE_ARN");
    oidc_arn = get_oidc_provider_arn;
    access_key = getenv (codes "ACCESS_KEY_ID");
    access_secret_key = getenv (codes "SECRET_ACCESS_KEY");
    role_session_name = getenv (codes "ALICLOUD_ROLE_SESSION_NAME");
    role_session_expiration = getenv (codes "ALICLOUD_ROLE_SESSION_EXPIRATION");
    node_publish_secret = secrets;
    pod_namespace = pod.namespace;
    pod_service_account = pod.service_account;
    pod_service_account_role_arn = pod.role_arn;
    use_pod_service_account_token = pod.use_pod_service_account;
    token_from_volume_context = pod.token_from_volume_context;
  }
