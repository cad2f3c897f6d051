-- ===== src/Auth/Plan.antt =====
-- What a configuration of the chain in auth/auth.go asks for: the specification of `GetKMSAuthCred`.
use secrets_store_csi_driver.Prelude.{
  ℕ, Text, ◌≢◌, [], Option, none, some, Bool, not, ◌&&◌, if◌then◌else◌, is_empty,
}
use secrets_store_csi_driver.Outcome.{
  Outcome, ok, err, panic, Failure, Reply, done, failed, empty_credential, secrets_unreadable,
}
use secrets_store_csi_driver.Exec.{Exec}
use secrets_store_csi_driver.Auth.Config.{
  AuthConfig, CredentialConfig, oidc_role_arn, ram_role_arn, access_key, ecs_ram_role, session_name,
  oidc_token_file_path,
}
use secrets_store_csi_driver.Auth.Decimal.{atoi}
use secrets_store_csi_driver.Auth.Methods.{
  AuthServices, Credential, Entries, access_keys, tokens_json, ask, pod_tokens,
}

-- A value that is set.
abbrev pub is_given : Text → Bool
is_given s = not (is_empty s)

-- What is to be done for a configuration: exchange a pod's tokens, ask the SDK, or give up.
pub data Plan : Type 0 where
  exchange : (tokens : Text) → Plan
  request : CredentialConfig → Plan
  unreadable : Failure → Plan

-- The provider's own keys, else the role of the node.
abbrev pub own_plan : AuthConfig → Plan
own_plan c =
    if is_given c.access_key && is_given c.access_secret_key
    then request (access_key c.access_key c.access_secret_key)
    else request ecs_ram_role

-- The keys in the request's secrets, if both are there.
abbrev pub keys_plan : AuthConfig → Text × Text → Plan
keys_plan c (ak, sk) = if is_given ak && is_given sk then request (access_key ak sk) else own_plan c

abbrev pub secrets_plan : (ℕ → ℕ) → AuthConfig → Reply Entries → Plan
secrets_plan lower c (failed f) = unreadable f
secrets_plan lower c (done m) = keys_plan c (access_keys lower m ([], []))

module _ {W : Type 0} (services : AuthServices W) where
  open services use {unmarshal_strings, unmarshal_tokens, new_credential, unicode_lower}

  -- The tokens of the pod, wherever the driver put them.
  abbrev pub pod_json : AuthConfig → Text
  pod_json c = tokens_json (unmarshal_strings c.node_publish_secret) c.token_from_volume_context

  abbrev pub without_role_plan : AuthConfig → Plan
  without_role_plan c =
      if is_given c.node_publish_secret
      then secrets_plan unicode_lower c (unmarshal_strings c.node_publish_secret)
      else own_plan c

  abbrev pub without_oidc_plan : AuthConfig → Plan
  without_oidc_plan c =
      if is_given c.access_key && is_given c.access_secret_key && is_given c.role_arn
      then request (
          ram_role_arn c.access_key c.access_secret_key c.role_arn (session_name c)
            (if is_given c.role_session_expiration then atoi c.role_session_expiration else none))
      else without_role_plan c

  abbrev pub without_pod_plan : AuthConfig → Plan
  without_pod_plan c =
      if is_given c.oidc_arn && is_given c.role_arn
      then request (oidc_role_arn c.oidc_arn oidc_token_file_path c.role_arn (session_name c))
      else without_oidc_plan c

  -- The plan for a configuration.
  abbrev pub plan : AuthConfig → Plan
  plan c =
      if c.use_pod_service_account_token
        && is_given c.pod_service_account_role_arn
        && is_given c.pod_namespace
        && is_given c.pod_service_account
        && is_given (pod_json c)
      then exchange (pod_json c)
      else without_pod_plan c

  -- A method's answer, where nil is the end of the chain.
  abbrev pub settled : Outcome (Option Credential) × W → Outcome Credential × W
  settled (ok none, w) = (err empty_credential, w)
  settled (ok (some cred), w) = (ok cred, w)
  settled (err e, w) = (err e, w)
  settled (panic, w) = (panic, w)

  -- Carrying out a plan.
  abbrev pub carry_out : AuthConfig → Plan → Exec W Credential
  carry_out c (exchange json) w = settled (pod_tokens services c (unmarshal_tokens json) w)
  carry_out c (request config) w = settled (ask services config w)
  carry_out c (unreadable f) w = (err (secrets_unreadable f), w)

  -- The SDK makes a credential or an error.
  abbrev pub NeverNil : Type 0
  NeverNil = (config : CredentialConfig) (w : W) → (new_credential config w).0 ≢ done none
