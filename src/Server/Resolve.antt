-- ===== src/Server/Resolve.antt =====
-- server/server.go: the loop of `Mount` that gives each object its client.
use secrets_store_csi_driver.Prelude.{
  ℕ, Text, List, [], ◌∷◌, Option, none, some, Bool, not, ◌||◌, if◌then◌else◌, eq_text, is_empty,
}
use secrets_store_csi_driver.Outcome.{
  ok, err, Error, unsupported_object_type, kms_client_failed, oos_client_failed,
  cross_account_kms_client_failed, cross_account_oos_client_failed, assume_role_failed,
}
use secrets_store_csi_driver.Exec.{Exec, pure, lift, wrapped, ◌>>=◌}
use secrets_store_csi_driver.SecretObject.{SecretObject}
use secrets_store_csi_driver.SecretObject.Listing.{object_type_kms, object_type_oos}
use secrets_store_csi_driver.Auth.Methods.{Credential}
use secrets_store_csi_driver.Server.Keyed.{Keyed, load, store}
use secrets_store_csi_driver.Server.Clients.{
  Sdk, new_kms_client, new_oos_client, create_cross_account_credential,
}

-- The clients of one kind: the base client, and those by role, a placeholder being `none`.
pub record Cache : Type 0 where
  pub base : Option ℕ
  pub by_role : Keyed (Option ℕ)

-- The local variables of the loop.
pub record Caches : Type 0 where
  pub kms : Cache
  pub oos : Cache
  pub credentials : Keyed Credential

abbrev pub no_caches : Caches
no_caches = record {
  kms = record { base = none; by_role = [] };
  oos = record { base = none; by_role = [] };
  credentials = [];
}

-- `supportedObjectTypes[t]`
unfoldable pub is_supported : Text → Bool
is_supported t = eq_text t object_type_kms || eq_text t object_type_oos || is_empty t

module _ {W : Type 0} where
  -- What follows `LoadOrStore` of a placeholder: an entry that is there is used, and a client is made
  -- and stored otherwise. If that fails the request ends, and its maps with it.
  unfoldable pub loaded_or_made :
      Exec W ℕ
      → (Error → Error)
      → Text
      → Keyed (Option ℕ)
      → Option (Option ℕ)
      → Exec W (Option ℕ × Keyed (Option ℕ))
  loaded_or_made make wrap key m (some actual) = pure (actual, m)
  loaded_or_made make wrap key m none = do
    client ← λ w. wrapped wrap (make w)
    pure (some client, store key (some client) (store key none m))

  unfoldable pub role_client :
      Exec W ℕ → (Error → Error) → Text → Keyed (Option ℕ) → Exec W (Option ℕ × Keyed (Option ℕ))
  role_client make wrap key m = loaded_or_made make wrap key m (load key m)

  -- The base client, made when it is first needed.
  unfoldable pub base_client : Exec W ℕ → (Error → Error) → Option ℕ → Exec W ℕ
  base_client make wrap (some client) w = (ok client, w)
  base_client make wrap none w = wrapped wrap (make w)

-- A client that was found replaces the object's; nil leaves it.
abbrev pub replaced_by : Option ℕ → Option ℕ → Option ℕ
replaced_by old none = old
replaced_by old (some c) = some c

module _ {W : Type 0} (sdk : Sdk W) (cred : Credential) (region : Text) where
  -- The credential for a role: the one made before, or a new one.
  unfoldable pub credential_from :
      Text → Text → Keyed Credential → Option Credential → Exec W (Credential × Keyed Credential)
  credential_from name key m (some c) = pure (c, m)
  credential_from name key m none = do
    c ← λ w.
        wrapped (assume_role_failed key name)
          (create_cross_account_credential sdk (some cred) key w)
    pure (c, store key c m)

  unfoldable pub role_credential :
      Text → Text → Keyed Credential → Exec W (Credential × Keyed Credential)
  role_credential name key m = credential_from name key m (load key m)

  -- A client of one kind: for the object's role, or the base client. The makers of a client take the
  -- credential.
  unfoldable pub client_for :
      (Credential → Exec W ℕ)
      → (base_wrap role_wrap : Error → Error) → (name role_arn : Text) → Cache
      → Keyed Credential
      → Exec W (Option ℕ × Cache × Keyed Credential)
  client_for make base_wrap role_wrap name [] cache creds = do
    client ← base_client (make cred) base_wrap cache.base
    pure (some client, record cache { base = some client }, creds)
  client_for make base_wrap role_wrap name (c ∷ s) cache creds = do
    (role_cred, more_creds) ← role_credential name (c ∷ s) creds
    (client, by_role) ← role_client (make role_cred) role_wrap (c ∷ s) cache.by_role
    pure (client, record cache { by_role = by_role }, more_creds)

  -- One round of the loop.
  unfoldable pub resolve : SecretObject → Caches → Exec W (SecretObject × Caches)
  resolve s caches =
      if not (is_supported s.object_type)
      then lift (err (unsupported_object_type s.object_type))
      else if is_empty s.object_type || eq_text s.object_type object_type_kms
      then (do
        (client, cache, creds) ←
            client_for (λ c. new_kms_client sdk c s.kms_endpoint region) kms_client_failed
              cross_account_kms_client_failed s.object_name s.cross_account_role_arn caches.kms
              caches.credentials
        pure (
          record s { kms_client = replaced_by s.kms_client client },
          record caches { kms = cache; credentials = creds },
        ))
      else if eq_text s.object_type object_type_oos
      then (do
        (client, cache, creds) ←
            client_for (λ c. new_oos_client sdk c region) oos_client_failed
              cross_account_oos_client_failed s.object_name s.cross_account_role_arn caches.oos
              caches.credentials
        pure (
          record s { oos_client = replaced_by s.oos_client client },
          record caches { oos = cache; credentials = creds },
        ))
      else pure (s, caches)

  -- The loop.
  unfoldable pub resolve_all : List SecretObject → Caches → Exec W (List SecretObject × Caches)
  resolve_all [] caches = pure ([], caches)
  resolve_all (s ∷ ss) caches = do
    (s', next) ← resolve s caches
    (ss', last) ← resolve_all ss next
    pure (s' ∷ ss', last)
