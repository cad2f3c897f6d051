-- ===== src/Server/Fetched.antt =====
-- A mount request of server/server.go never lacks a client when it fetches.
use secrets_store_csi_driver.Prelude.{Text, ◌≡◌, ◌≢◌, subst, ap, List}
use secrets_store_csi_driver.Outcome.{
  ok, err, Error, Errs, kms_client_empty, oos_client_empty, unsupported_secret_type,
}
use secrets_store_csi_driver.PullLimit.{Limiter}
use secrets_store_csi_driver.SecretObject.{SecretObject}
use secrets_store_csi_driver.SecretValue.{JsonTools}
use secrets_store_csi_driver.VersionMap.{VersionMap}
use secrets_store_csi_driver.Provider.Types.{Services, SecretsManagerProvider}
use secrets_store_csi_driver.Provider.{get_secret_values}
use secrets_store_csi_driver.Auth.Methods.{Credential}
use secrets_store_csi_driver.Server.Clients.{Sdk}
use secrets_store_csi_driver.Server.Resolve.{Caches, no_caches, resolve_all}
use secrets_store_csi_driver.Server.Resolved.{resolve_all-HasClient}
use secrets_store_csi_driver.Server.Errors.{IsSupplied}
use secrets_store_csi_driver.Server.Supplied.{get_secret_values-IsSupplied}

module _ {W : Type 0} (sdk : Sdk W) (services : Services W) (limiter : Limiter)
    (tools : JsonTools) where
  -- `GetSecretValues` on the objects that the loop of `Mount` has gone through fails neither for a
  -- missing client nor for the type of an object, whatever clients the provider has besides.
  pub get_secret_values-resolve_all :
      (cred : Credential) (region : Text) (ss rs : List SecretObject) (caches : Caches)
      (provider : SecretsManagerProvider) (m : VersionMap) (e : Error) (w w' v v' : W)
      → resolve_all sdk cred region ss no_caches w ≡ (ok (rs, caches), w')
      → get_secret_values services limiter provider tools rs m v ≡ (err e, v')
      → (e ≢ kms_client_empty)
        × (e ≢ oos_client_empty)
        × ((t : Text) → e ≢ unsupported_secret_type t)
  get_secret_values-resolve_all cred region ss rs caches provider m e w w' v v' resolved failed =
      let known =
        get_secret_values-IsSupplied services limiter provider tools rs m v
          (resolve_all-HasClient sdk cred region ss rs caches w w' resolved).0 in
      let supplied : IsSupplied e = subst (λ r. Errs IsSupplied r) (ap (λ p. p.0) failed) known in
      (
        (λ q. subst IsSupplied q supplied),
        (λ q. subst IsSupplied q supplied),
        (λ t q. subst IsSupplied q supplied),
      )
