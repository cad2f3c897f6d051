-- ===== src/Server/Succeeds.antt =====
-- server/server.go: a mount request is answered if everything outside works.
use secrets_store_csi_driver.Prelude.{ℕ, ◌≡◌, ◌⊎◌, List, [], trim_space}
use secrets_store_csi_driver.Outcome.{done}
use secrets_store_csi_driver.Settles.{Settles}
use secrets_store_csi_driver.Endpoint.Hosts.{IsKmsHost}
use secrets_store_csi_driver.SecretObject.{SecretObject}
use secrets_store_csi_driver.SecretObject.Listing.{object_type_oos}
use secrets_store_csi_driver.Server.Kinds.{IsKms}
use secrets_store_csi_driver.Server.Answer.{IsMounted}
use secrets_store_csi_driver.Server.Mount.{Outside, MountRequest, MountResponse}

-- An object of a known type, with no endpoint or one that is a KMS host.
abbrev pub IsServed : SecretObject → Type 0
IsServed s =
    (IsKms s.object_type ⊎ (s.object_type ≡ object_type_oos))
    × ((s.kms_endpoint ≡ []) ⊎ IsKmsHost (trim_space s.kms_endpoint))

module _ {W : Type 0} (outside : Outside W) where
  -- An answer for these objects, with the permission of the request.
  abbrev pub IsAnswered : MountRequest → List SecretObject → MountResponse → Type 0
  IsAnswered req ss response =
      (permission : ℕ) × (outside.unmarshal_permission req.permission ≡ done permission)
      × IsMounted permission ss response
