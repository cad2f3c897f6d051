-- ===== src/Auth/Methods.antt =====
-- auth/auth.go: the six authentication methods; `none` is the nil credential that skips a method.
use secrets_store_csi_driver.Prelude.{
  ℕ, Text, codes, List, [], ◌∷◌, Option, none, not, ◌||◌, if◌then◌else◌, eq_text, is_empty,
  to_lower,
}
use secrets_store_csi_driver.Outcome.{
  Outcome, ok, err, Reply, done, failed, token_missing, tokens_unreadable, secrets_unreadable,
  token_file_create, token_file_write, token_file_close, passed_on,
}
use secrets_store_csi_driver.Exec.{Exec, pure, lift, reply, ◌>>=◌, ◌>>◌}
use secrets_store_csi_driver.Auth.Config.{
  AuthConfig, CredentialConfig, oidc_role_arn, ram_role_arn, access_key, ecs_ram_role, session_name,
  oidc_token_file_path,
}
use secrets_store_csi_driver.Auth.Decimal.{atoi}

-- `credentials.Credential`: the address of an object of github.com/aliyun/credentials-go.
abbrev pub Credential : Type 0
Credential = ℕ

-- A `map[string]string` by its entries, in the order in which `range` visits them.
abbrev pub Entries : Type 0
Entries = List (Text × Text)

-- What the chain uses of the world outside: encoding/json into a `map[string]string` and into the
-- map of tokens (the `token` fields), temporary files, the SDK, and Unicode's table for `ToLower`.
pub record AuthServices (W : Type 0) : Type 0 where
  pub unmarshal_strings : Text → Reply Entries
  pub unmarshal_tokens : Text → Reply Entries
  pub create_temp : W → Reply Text × W
  pub write_string : Text → Text → W → Reply (Unit {0}) × W
  pub close : Text → W → Reply (Unit {0}) × W
  pub remove : Text → W → W
  pub new_credential : CredentialConfig → W → Reply (Option Credential) × W
  pub unicode_lower : ℕ → ℕ

-- `m[key]`, which is the empty string for a missing key.
unfoldable pub entry : Text → Entries → Text
entry key [] = []
entry key ((k, v) ∷ m) = if eq_text k key then v else entry key m

abbrev pub service_account_token_key : Text
service_account_token_key = codes "csi.storage.k8s.io/serviceAccount.tokens"

-- The access key and its secret, as the loop over the entries leaves them.
unfoldable pub access_keys : (ℕ → ℕ) → Entries → Text × Text → Text × Text
access_keys lower [] (ak, sk) = (ak, sk)
access_keys lower ((k, v) ∷ m) (ak, sk) =
    let name = to_lower lower k in
    access_keys lower m (
      if eq_text name (codes "access_key")
      then (v, sk)
      else if eq_text name (codes "access_secret")
      then (ak, v)
      else (ak, sk))

-- The tokens in the request's secrets, or else those in the attributes.
unfoldable pub tokens_json : Reply Entries → Text → Text
tokens_json (done secrets) fallback =
    let token = entry service_account_token_key secrets in
    if is_empty token then fallback else token
tokens_json (failed f) fallback = fallback

module _ {W : Type 0} (services : AuthServices W) where
  open services use {
    unmarshal_strings, unmarshal_tokens, create_temp, write_string, close, remove, new_credential,
    unicode_lower,
  }

  -- A method: a credential, nil to skip it, or an error.
  abbrev pub Method : Type 0
  Method = Exec W (Option Credential)

  abbrev pub skip : Method
  skip = pure none

  -- `credentials.NewCredential`, its error passed on.
  unfoldable pub ask : CredentialConfig → Method
  ask config w = reply (new_credential config w) passed_on

  -- `oidcRoleAuth.NewCredential`
  unfoldable pub oidc_role_auth : AuthConfig → Method
  oidc_role_auth c =
      if is_empty c.oidc_arn || is_empty c.role_arn
      then skip
      else ask (oidc_role_arn c.oidc_arn oidc_token_file_path c.role_arn (session_name c))

  -- What follows the closing of the token file.
  unfoldable pub after_close : Text → Reply (Unit {0}) × W → Outcome (Unit {0}) × W
  after_close path (failed f, w) = (err (token_file_close f), remove path w)
  after_close path (done _, w) = (ok tt, w)

  -- What follows the writing.
  unfoldable pub after_write : Text → Reply (Unit {0}) × W → Outcome (Unit {0}) × W
  after_write path (failed f, w) = (err (token_file_write f), remove path (close path w).1)
  after_write path (done _, w) = after_close path (close path w)

  -- The writing of the token; the file is removed if that fails.
  unfoldable pub write_token : Text → Text → Exec W (Unit {0})
  write_token path token w = after_write path (write_string path token w)

  -- The credential for a token.
  unfoldable pub pod_credential : AuthConfig → Text → Method
  pod_credential c token = do
    path ← λ w. reply (create_temp w) token_file_create
    write_token path token
    ask (oidc_role_arn c.oidc_arn path c.pod_service_account_role_arn (session_name c))

  -- What follows once there are tokens: the one for the audience of STS.
  unfoldable pub pod_tokens : AuthConfig → Reply Entries → Method
  pod_tokens c (failed f) = lift (err (tokens_unreadable f))
  pod_tokens c (done tokens) =
      let token = entry (codes "sts.aliyuncs.com") tokens in
      if is_empty token
      then lift (err (token_missing c.pod_namespace c.pod_service_account))
      else pod_credential c token

  -- `podServiceAccountAuth.NewCredential`
  unfoldable pub pod_service_account_auth : AuthConfig → Method
  pod_service_account_auth c =
      let json =
        tokens_json (unmarshal_strings c.node_publish_secret) c.token_from_volume_context in
      if not c.use_pod_service_account_token
        || is_empty c.pod_service_account_role_arn
        || is_empty c.pod_namespace
        || is_empty c.pod_service_account
      then skip
      else if is_empty json
      then skip
      else pod_tokens c (unmarshal_tokens json)

  -- `ramRoleAuth.NewCredential`; an expiration that is no number is left out.
  unfoldable pub ram_role_auth : AuthConfig → Method
  ram_role_auth c =
      if is_empty c.access_key || is_empty c.access_secret_key || is_empty c.role_arn
      then skip
      else ask (
          ram_role_arn c.access_key c.access_secret_key c.role_arn (session_name c)
            (if is_empty c.role_session_expiration then none else atoi c.role_session_expiration))

  -- `akAuth.NewCredential`
  unfoldable pub ak_auth : AuthConfig → Method
  ak_auth c =
      if is_empty c.access_key || is_empty c.access_secret_key
      then skip
      else ask (access_key c.access_key c.access_secret_key)

  unfoldable pub secret_entries : Reply Entries → Method
  secret_entries (failed f) = lift (err (secrets_unreadable f))
  secret_entries (done secret) =
      let (ak, sk) = access_keys unicode_lower secret ([], []) in
      if is_empty ak || is_empty sk then skip else ask (access_key ak sk)

  -- `nodePublishSecretAuth.NewCredential`
  unfoldable pub node_publish_secret_auth : AuthConfig → Method
  node_publish_secret_auth c =
      if is_empty c.node_publish_secret
      then skip
      else secret_entries (unmarshal_strings c.node_publish_secret)

  -- `ecsRoleAuth.NewCredential`
  unfoldable pub ecs_role_auth : AuthConfig → Method
  ecs_role_auth c = ask ecs_ram_role
