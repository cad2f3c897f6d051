-- ===== src/Auth/Needs.antt =====
-- auth/auth.go: what the chain of authentication methods needs of everything outside, and the guards of
-- its methods.
use mathlib.Core.Bool.{false≢true}
use secrets_store_csi_driver.Prelude.{
  Bool, false, ◌≢◌, refl, sym, is_empty→ne_nil, Text, codes, ◌≡◌, [], true, ◌||◌, not, is_empty,
}
use secrets_store_csi_driver.Settles.{Replies, IsAnything}
use secrets_store_csi_driver.Auth.Config.{
  AuthConfig, CredentialConfig, oidc_role_arn, ram_role_arn, access_key, ecs_ram_role,
}
use secrets_store_csi_driver.Auth.Methods.{AuthServices, Entries, entry, tokens_json}
use secrets_store_csi_driver.Auth.Chained.{HasCredential}

-- The token for the audience of STS is there, or its lack is allowed.
abbrev pub HasToken : Type 0 → Entries → Type 0
HasToken E tokens = is_empty (entry (codes "sts.aliyuncs.com") tokens) ≡ true → E

-- No part that identifies the role or the key is empty, or failures are allowed.
abbrev pub IsFilled : Type 0 → CredentialConfig → Type 0
IsFilled E (oidc_role_arn provider path role name) = (provider ≡ [] → E) × (role ≡ [] → E)
IsFilled E (ram_role_arn key secret role name expiration) =
    (key ≡ [] → E) × (secret ≡ [] → E) × (role ≡ [] → E)
IsFilled E (access_key key secret) = (key ≡ [] → E) × (secret ≡ [] → E)
IsFilled E ecs_ram_role = Unit

-- What a request needs of its own texts, with no failure if `E` is empty: its secrets are read, if there
-- are any, and if the tokens of its pod are used, so are they, and hold one for STS, if there are any,
-- and the provider of OIDC is known.
pub record IsReadable (E : Type 0) {W : Type 0} (services : AuthServices W) (c : AuthConfig)
    : Type 0 where
  pub secrets :
      c.node_publish_secret ≢ []
      → Replies E IsAnything (services.unmarshal_strings c.node_publish_secret)
  pub tokens :
      c.use_pod_service_account_token ≡ true
      → let json =
          tokens_json
            (services.unmarshal_strings c.node_publish_secret)
            c.token_from_volume_context in
        json ≢ [] → Replies E (HasToken E) (services.unmarshal_tokens json)
  pub provider : c.use_pod_service_account_token ≡ true → c.oidc_arn ≡ [] → E

-- What the chain needs of everything outside: no failure if `E` is empty.
pub record AuthAnswers (E : Type 0) {W : Type 0} (services : AuthServices W) : Type 0 where
  pub create_temp : (w : W) → Replies E IsAnything (services.create_temp w).0
  pub write_string :
      (path t : Text) (w : W) → Replies E IsAnything (services.write_string path t w).0
  pub close : (path : Text) (w : W) → Replies E IsAnything (services.close path w).0
  pub new_credential :
      (c : CredentialConfig) (w : W)
      → IsFilled E c
      → Replies E (HasCredential E) (services.new_credential c w).0

pub not-false : (b : Bool) → not b ≡ false → b ≡ true
not-false true h = refl
not-false false h = absurd (false≢true (sym h))

pub either-false : (a b : Bool) → (a || b) ≡ false → (a ≡ false) × (b ≡ false)
either-false true b h = absurd (false≢true (sym h))
either-false false b h = (refl, h)

-- The guard of the pod's method lets its tokens through.
pub pod_skips :
    (c : AuthConfig)
    → (not c.use_pod_service_account_token
        || is_empty c.pod_service_account_role_arn
        || is_empty c.pod_namespace
        || is_empty c.pod_service_account)
      ≡ false
    → (not c.use_pod_service_account_token ≡ false)
      × (is_empty c.pod_service_account_role_arn ≡ false)
pod_skips c h =
    let skip = not c.use_pod_service_account_token in
    let no_role = is_empty c.pod_service_account_role_arn in
    let (three, _) =
      either-false (skip || no_role || is_empty c.pod_namespace) (is_empty c.pod_service_account)
        h in
    either-false skip no_role (either-false (skip || no_role) (is_empty c.pod_namespace) three).0

-- A text that is not empty is not the empty one.
pub filled : (E : Type 0) (a : Text) → is_empty a ≡ false → a ≡ [] → E
filled E a h e = absurd (is_empty→ne_nil a h e)
