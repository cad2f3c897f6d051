-- ===== src/Server/Fetchable.antt =====
-- The loop of `Mount` in server/server.go changes nothing of what fetching an object needs.
use secrets_store_csi_driver.Prelude.{ℕ, some, ◌≡◌, sym, subst, List, [], ◌∷◌, map, All}
use secrets_store_csi_driver.Outcome.{done}
use secrets_store_csi_driver.SecretObject.{SecretObject, get_mount_path, get_file_name}
use secrets_store_csi_driver.SecretValue.{JsonTools}
use secrets_store_csi_driver.Provider.Types.{
  KmsRequest, Services, SecretsManagerProvider, kms_request,
}
use secrets_store_csi_driver.Provider.Origins.{Origin, AsksFor, read_back, from_kms, from_oos}
use secrets_store_csi_driver.Provider.Needs.{IsHeld, in_file, in_kms, in_oos, IsFetchable}
use secrets_store_csi_driver.Server.Resolved.{bare}

module _ {W : Type 0} (services : Services W) where
  -- An origin of a secret is a place where it is held.
  pub Origin-IsHeld :
      (provider : SecretsManagerProvider) (s : SecretObject) (bytes : List ℕ)
      → Origin services provider s bytes
      → IsHeld services s bytes
  unfolding kms_request
  Origin-IsHeld provider s bytes (read_back w n e) = in_file w e
  Origin-IsHeld provider s bytes (from_kms c q body w t serves asks e h) =
      in_kms c body w
        (subst (λ r. (services.get_secret_value c r w).0 ≡ done (some body)) (asked q asks) e) h
    where
      asked : (q : KmsRequest) → AsksFor s q → q ≡ kms_request s
      asked q a = rw (a.secret_name, a.version_id, a.version_stage)
  Origin-IsHeld provider s bytes (from_oos c text w t serves e h) = in_oos c text w e h

  IsHeld-bare :
      (s : SecretObject) (bytes : List ℕ) → IsHeld services (bare s) bytes → IsHeld services s bytes
  unfolding kms_request get_mount_path get_file_name
  IsHeld-bare s bytes (in_file w e) = in_file w e
  IsHeld-bare s bytes (in_kms c body w e h) = in_kms c body w e h
  IsHeld-bare s bytes (in_oos c text w e h) = in_oos c text w e h

  bare-IsHeld :
      (s : SecretObject) (bytes : List ℕ) → IsHeld services s bytes → IsHeld services (bare s) bytes
  unfolding kms_request get_mount_path get_file_name
  bare-IsHeld s bytes (in_file w e) = in_file w e
  bare-IsHeld s bytes (in_kms c body w e h) = in_kms c body w e h
  bare-IsHeld s bytes (in_oos c text w e h) = in_oos c text w e h

  module _ (E : Type 0) (tools : JsonTools) where
    IsFetchable-bare :
        (s : SecretObject) → IsFetchable services E tools (bare s) → IsFetchable services E tools s
    unfolding kms_request get_mount_path get_file_name
    IsFetchable-bare s h = record {
      kms = h.kms;
      oos = h.oos;
      file = h.file;
      entries = λ bytes k. h.entries bytes (bare-IsHeld s bytes k);
    }

    bare-IsFetchable :
        (s : SecretObject) → IsFetchable services E tools s → IsFetchable services E tools (bare s)
    unfolding kms_request get_mount_path get_file_name
    bare-IsFetchable s h = record {
      kms = h.kms;
      oos = h.oos;
      file = h.file;
      entries = λ bytes k. h.entries bytes (IsHeld-bare s bytes k);
    }

    to_bare :
        (ss : List SecretObject)
        → All (IsFetchable services E tools) ss
        → All (IsFetchable services E tools) (map bare ss)
    to_bare [] h = tt
    to_bare (s ∷ ss) (h, hs) = (bare-IsFetchable s h, to_bare ss hs)

    from_bare :
        (ss : List SecretObject)
        → All (IsFetchable services E tools) (map bare ss)
        → All (IsFetchable services E tools) ss
    from_bare [] h = tt
    from_bare (s ∷ ss) (h, hs) = (IsFetchable-bare s h, from_bare ss hs)

    -- Objects that differ in their clients only.
    pub resolved-IsFetchable :
        (ss rs : List SecretObject)
        → map bare rs ≡ map bare ss
        → All (IsFetchable services E tools) ss
        → All (IsFetchable services E tools) rs
    resolved-IsFetchable ss rs e h =
        from_bare rs (subst (All (IsFetchable services E tools)) (sym e) (to_bare ss h))
