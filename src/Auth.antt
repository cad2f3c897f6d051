-- ===== src/Auth.antt =====
-- auth/auth.go: the chain of authentication methods.
pub mod Config
pub mod Decimal
pub mod Methods
pub mod Plan
pub mod Answers
pub mod Choice
pub mod TokenFile
pub mod Keys
pub mod Chained
pub mod Needs
pub mod Settled
use secrets_store_csi_driver.Prelude.{Text, String, List, [], ◌∷◌, Option, none, some}
use secrets_store_csi_driver.Outcome.{Outcome, ok, err, panic, empty_credential}
use secrets_store_csi_driver.Exec.{Exec, continue}
use Config.{AuthConfig, PodSaInfo, auth_config}
use Methods.{
  AuthServices, Credential, Method, pod_service_account_auth, oidc_role_auth, ram_role_auth,
  node_publish_secret_auth, ak_auth, ecs_role_auth,
}

module _ {W : Type 0} where
  -- What `chainedAuth.NewCredential` does with the answer of its own method; `rest` is the answer of
  -- the next link from there on.
  unfoldable pub or_next :
      Exec W Credential → Outcome (Option Credential) × W → Outcome Credential × W
  or_next rest (ok none, w) = rest w
  or_next rest (ok (some cred), w) = (ok cred, w)
  or_next rest (err e, w) = (err e, w)
  or_next rest (panic, w) = (panic, w)

  -- `chainedAuth.NewCredential` of the first of these links, each followed by the next.
  unfoldable pub new_credential_of : List (Exec W (Option Credential)) → Exec W Credential
  new_credential_of [] w = (err empty_credential, w)
  new_credential_of (cred ∷ next) w = let rest = new_credential_of next in or_next rest (cred w)

module _ {W : Type 0} (services : AuthServices W) where
  -- The links that `GetKMSAuthCred` joins by `authNext`.
  unfoldable pub links : AuthConfig → List (Method services)
  links c =
      pod_service_account_auth services c
      ∷ oidc_role_auth services c
      ∷ ram_role_auth services c
      ∷ node_publish_secret_auth services c
      ∷ ak_auth services c
      ∷ ecs_role_auth services c
      ∷ []

  -- `GetKMSAuthCred`
  unfoldable pub get_kms_auth_cred : (Text → Text) → Text → PodSaInfo → Exec W Credential
  get_kms_auth_cred getenv secrets pod = new_credential_of (links (auth_config getenv secrets pod))
