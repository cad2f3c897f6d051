-- ===== src/Provider.antt =====
-- provider/secret_manager_provider.go: fetching the secrets of a mount request.
pub mod Types
pub mod Backoff
pub mod Calls
pub mod Values
pub mod Origins
pub mod Sourced
pub mod Versions
pub mod Needs
pub mod Complete
pub mod Requests
pub mod Pinned
use secrets_store_csi_driver.Prelude.{
  ℕ, Text, codes, List, [], ◌∷◌, ◌++◌, Option, none, some, Bool, true, false, not, ◌||◌,
  if◌then◌else◌, eq_text, is_empty,
}
use secrets_store_csi_driver.Outcome.{
  Outcome, ok, err, Reply, done, failed, kms_client_empty, oos_client_empty,
  unsupported_secret_type, fetch_failed, passed_on,
}
use secrets_store_csi_driver.Exec.{Exec, pure, lift, reply, continue, ◌>>=◌, ◌>>◌}
use secrets_store_csi_driver.PullLimit.{Limiter, wait}
use secrets_store_csi_driver.SecretObject.{
  KmsClient, OosClient, SecretObject, get_file_name, get_mount_path,
}
use secrets_store_csi_driver.SecretObject.Listing.{object_type_kms, object_type_oos}
use secrets_store_csi_driver.SecretValue.{SecretValue, JsonTools, get_json_secrets}
use secrets_store_csi_driver.VersionMap.{ObjectVersion, VersionMap, lookup, insert}
use Types.{
  KmsRequest, OosRequest, Services, SecretsManagerProvider, wait_timeout, kms_request,
  get_wait_time_exponential, judge_need_retry, read_kms_body, read_oos_body,
}

-- `SecretsManagerProvider.isCurrent`; its error is always nil.
unfoldable pub is_current_version : SecretObject → Option ObjectVersion → Bool × Text
is_current_version s none = (false, [])
is_current_version s (some cur) =
    if is_empty s.object_version
    then (false, [])
    else (eq_text cur.version s.object_version, cur.version)

unfoldable pub is_current : SecretObject → VersionMap → Bool × Text
unfolding is_current_version
is_current s cur_map = is_current_version s (lookup (get_file_name s) cur_map)

-- A client of its own, or the provider's.
abbrev pub own_or : {A : Type 0} → Option A → Option A → Option A
own_or none default = default
own_or (some c) default = some c

-- The entry of a file in the map of versions.
abbrev pub record_version : Text → Text → VersionMap → VersionMap
record_version file version m = insert file (record { id = file; version = version }) m

-- The entries of the extracted values.
unfoldable pub record_versions : Text → List SecretValue → VersionMap → VersionMap
record_versions version [] m = m
record_versions version (v ∷ vs) m =
    record_versions version vs (record_version (get_file_name v.secret_obj) version m)

module _ {W : Type 0} (services : Services W) where
  open services use {
    rate_wait, get_secret_value, get_secret_parameter, sleep, read_file, base64_decode,
  }

  -- The second request, behind the pause.
  unfoldable pub retry : {A : Type 0} → (W → Reply A × W) → Text → Exec W A
  retry call name w = reply (call (sleep (get_wait_time_exponential 1) w)) (fetch_failed name)

  -- What follows the first request.
  unfoldable pub after_first : {A : Type 0} → (W → Reply A × W) → Text → Reply A × W → Outcome A × W
  after_first call name (done a, w) = (ok a, w)
  after_first call name (failed f, w) =
      if not (judge_need_retry f) then (err (fetch_failed name f), w) else retry call name w

  -- A request, and one more after a pause if the error of the first asks for it.
  unfoldable pub with_retry : {A : Type 0} → (W → Reply A × W) → Text → Exec W A
  with_retry call name w = after_first call name (call w)

  -- `getKMSSecret`
  unfoldable pub get_kms_secret : Option KmsClient → SecretObject → Exec W (Text × SecretValue)
  get_kms_secret none s = lift (err kms_client_empty)
  get_kms_secret (some c) s = do
    response ← with_retry (get_secret_value c (kms_request s)) s.object_name
    lift (read_kms_body base64_decode s response)

  -- `getOOSSecret`
  unfoldable pub get_oos_secret : Option OosClient → SecretObject → Exec W (Text × SecretValue)
  get_oos_secret none s = lift (err oos_client_empty)
  get_oos_secret (some c) s = do
    response ←
        with_retry
          (get_secret_parameter c (record { name = s.object_name; with_decryption = true }))
          s.object_name
    lift (read_oos_body s response)

  -- `reloadSecret`
  unfoldable pub reload_secret : SecretObject → Exec W SecretValue
  reload_secret s = do
    value ← λ w. reply (read_file (get_mount_path s) w) passed_on
    pure (record { value = value; secret_obj = s })

  module _ (limiter : Limiter) (provider : SecretsManagerProvider) where
    -- `fetchSecret`; `limiter` is the global `LimiterInstance`.
    unfoldable pub fetch_secret : SecretObject → Exec W (Text × SecretValue)
    fetch_secret s =
        if eq_text s.object_type object_type_kms || is_empty s.object_type
        then (do
          wait rate_wait limiter.kms wait_timeout
          get_kms_secret (own_or s.kms_client provider.kms_client) s)
        else if eq_text s.object_type object_type_oos
        then (do
          wait rate_wait limiter.oos wait_timeout
          get_oos_secret (own_or s.oos_client provider.oos_client) s)
        else lift (err (unsupported_secret_type s.object_type))

    -- The version and the value of one object: read back if it is current, fetched otherwise.
    unfoldable pub obtain : SecretObject → Bool × Text → Exec W (Text × SecretValue)
    obtain s (true, version) = do secret ← reload_secret s; pure (version, secret)
    obtain s (false, version) = fetch_secret s

    module _ (tools : JsonTools) where
      -- One round of the loop: the values of the object, and the map of versions behind it.
      unfoldable pub get_object : SecretObject → VersionMap → Exec W (List SecretValue × VersionMap)
      get_object s cur_map = do
        (version, secret) ← obtain s (is_current s cur_map)
        json_secrets ← lift (get_json_secrets tools secret)
        let extracted = record_versions version json_secrets cur_map
        pure (secret ∷ json_secrets, record_version (get_file_name s) version extracted)

      -- `GetSecretValues`; the map of versions is changed in place, so it is a result too.
      unfoldable pub get_secret_values :
          List SecretObject → VersionMap → Exec W (List SecretValue × VersionMap)
      get_secret_values [] cur_map = pure ([], cur_map)
      get_secret_values (s ∷ ss) cur_map = do
        (values, next_map) ← get_object s cur_map
        (more, last_map) ← get_secret_values ss next_map
        pure (values ++ more, last_map)
