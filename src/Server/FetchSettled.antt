-- ===== src/Server/FetchSettled.antt =====
-- provider/secret_manager_provider.go: fetching settles if everything outside does.
use secrets_store_csi_driver.Prelude.{
  Text, ◌≡◌, ◌≢◌, sym, refl, subst, List, [], ◌∷◌, All, Option, none, some, Bool, true, false,
}
use secrets_store_csi_driver.Outcome.{ok, passed_on}
use secrets_store_csi_driver.Exec.{lift, reply, continue}
use secrets_store_csi_driver.Settles.{
  Settles, Replies, IsSome, IsAnything, Settles-continue, Settles-reply,
}
use secrets_store_csi_driver.PullLimit.{Limiter, wait, wait_on}
use secrets_store_csi_driver.SecretObject.{SecretObject, KmsClient, OosClient, get_mount_path}
use secrets_store_csi_driver.SecretValue.{SecretValue, JsonTools, get_json_secrets}
use secrets_store_csi_driver.VersionMap.{VersionMap}
use secrets_store_csi_driver.Server.Resolved.{HasClient, kms, oos}
use secrets_store_csi_driver.Server.Supplied.{kms_first, oos_not_first, oos_second}
use secrets_store_csi_driver.Exec.{Ensures-at}
use secrets_store_csi_driver.Provider.Origins.{Fetches}
use secrets_store_csi_driver.Provider.Sourced.{current-Fetches, current-versioned}
use secrets_store_csi_driver.Server.Fetchable.{Origin-IsHeld}
use secrets_store_csi_driver.Provider.Types.{
  Services, SecretsManagerProvider, kms_request, wait_timeout,
}
use secrets_store_csi_driver.Provider.{
  is_current, own_or, get_kms_secret, get_oos_secret, reload_secret, fetch_secret, obtain,
  get_object, get_secret_values,
}
use secrets_store_csi_driver.Provider.Complete.{
  get_kms_secret-Settles, get_oos_secret-Settles, wait_on-Settles, get_json_secrets_of-Settles,
}
use secrets_store_csi_driver.Provider.Needs.{
  Admits, IsFetchable, IsExtractable, IsLegible, parameter_of,
}

module _ (E : Type 0) {W : Type 0} (services : Services W) (limiter : Limiter)
    (admits : Admits E services limiter) where
  kms_fetch-Settles :
      (s : SecretObject) (own default : Option KmsClient) (c : KmsClient) (w : W)
      → own ≡ some c
      → ((c : KmsClient) (w : W)
          → Replies E
              (IsLegible E services.base64_decode)
              (services.get_secret_value c (kms_request s) w).0)
      → Settles E
          (continue
            (wait services.rate_wait limiter.kms wait_timeout w)
            (λ _. get_kms_secret services (own_or own default) s)).0
  unfolding wait
  kms_fetch-Settles s none default c w e h = cc
  kms_fetch-Settles s (some d) default c w e h =
      Settles-continue E (wait_on services.rate_wait limiter.kms.secret_pull_limiter wait_timeout w)
        _
        (wait_on-Settles E services limiter.kms.secret_pull_limiter wait_timeout w
          admits.kms_limiter admits.rate_wait)
        (λ _ w' q. get_kms_secret-Settles E services d s w' (h d))

  oos_fetch-Settles :
      (s : SecretObject) (own default : Option OosClient) (c : OosClient) (w : W)
      → own ≡ some c
      → ((c : OosClient) (w : W)
          → Replies E IsSome (services.get_secret_parameter c (parameter_of s) w).0)
      → Settles E
          (continue
            (wait services.rate_wait limiter.oos wait_timeout w)
            (λ _. get_oos_secret services (own_or own default) s)).0
  unfolding wait
  oos_fetch-Settles s none default c w e h = cc
  oos_fetch-Settles s (some d) default c w e h =
      Settles-continue E (wait_on services.rate_wait limiter.oos.secret_pull_limiter wait_timeout w)
        _
        (wait_on-Settles E services limiter.oos.secret_pull_limiter wait_timeout w
          admits.oos_limiter admits.rate_wait)
        (λ _ w' q. get_oos_secret-Settles E services d s w' (h d))

  module _ (tools : JsonTools) (provider : SecretsManagerProvider) where
    fetch_secret-Settles :
        (s : SecretObject) (w : W)
        → HasClient s
        → IsFetchable services E tools s
        → Settles E (fetch_secret services limiter provider s w).0
    unfolding fetch_secret
    fetch_secret-Settles s w (kms c t e) h =
        rw (kms_first s.object_type t)
          (kms_fetch-Settles s s.kms_client provider.kms_client c w e (h.kms t))
    fetch_secret-Settles s w (oos c t e) h =
        rw (oos_not_first s.object_type t, oos_second s.object_type t)
          (oos_fetch-Settles s s.oos_client provider.oos_client c w e (h.oos t))

    obtain-Settles :
        (s : SecretObject) (current : Bool × Text) (w : W)
        → HasClient s
        → IsFetchable services E tools s
        → (current.0 ≡ true → s.object_version ≢ [])
        → Settles E (obtain services limiter provider s current w).0
    unfolding obtain reload_secret
    obtain-Settles s (false, version) w h k n = fetch_secret-Settles s w h k
    obtain-Settles s (true, version) w h k n =
        Settles-continue E (reload_secret services s w) _
          (Settles-continue E (reply (services.read_file (get_mount_path s) w) passed_on) _
            (Settles-reply E IsAnything (services.read_file (get_mount_path s) w) passed_on
              (k.file (n refl) w))
            (λ b w' q. tt))
          (λ v w' q. tt)

    -- The values of the entries can be extracted from what was obtained.
    extracted-Settles :
        (s : SecretObject) (m : VersionMap) (x : Text × SecretValue) (w w' : W)
        → IsFetchable services E tools s
        → obtain services limiter provider s (is_current s m) w ≡ (ok x, w')
        → Settles E (get_json_secrets tools x.1)
    unfolding get_json_secrets
    extracted-Settles s m x w w' h e =
        let (same, origin) =
          Ensures-at (Fetches services provider s) _ x w' e
            (current-Fetches services provider limiter s m w) in
        get_json_secrets_of-Settles E tools x.1 x.1.secret_obj.jmes_path (
          subst (λ o. IsExtractable E tools o x.1.value) (sym same)
            (h.entries x.1.value (Origin-IsHeld services provider s x.1.value origin)))

    get_object-Settles :
        (s : SecretObject) (m : VersionMap) (w : W)
        → HasClient s
        → IsFetchable services E tools s
        → Settles E (get_object services limiter provider tools s m w).0
    unfolding get_object
    get_object-Settles s m w h k =
        Settles-continue E (obtain services limiter provider s (is_current s m) w) _
          (obtain-Settles s (is_current s m) w h k (current-versioned s m))
          (λ (x : Text × SecretValue) w' q.
            Settles-continue E (lift (get_json_secrets tools x.1) w') _
              (extracted-Settles s m x w w' k q) (λ vs w'' r. tt))

    pub get_secret_values-Settles :
        (ss : List SecretObject) (m : VersionMap) (w : W)
        → All HasClient ss
        → All (IsFetchable services E tools) ss
        → Settles E (get_secret_values services limiter provider tools ss m w).0
    unfolding get_secret_values
    get_secret_values-Settles [] m w h k = tt
    get_secret_values-Settles (s ∷ ss) m w (h, hs) (k, ks) =
        Settles-continue E (get_object services limiter provider tools s m w) _
          (get_object-Settles s m w h k)
          (λ (x : List SecretValue × VersionMap) w' q.
            Settles-continue E (get_secret_values services limiter provider tools ss x.1 w') _
              (get_secret_values-Settles ss x.1 w' hs ks) (λ y w'' r. tt))
