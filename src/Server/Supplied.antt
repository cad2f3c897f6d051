-- ===== src/Server/Supplied.antt =====
-- The errors of fetching in provider/secret_manager_provider.go, for objects that have their clients.
use secrets_store_csi_driver.Prelude.{
  ℕ, Text, ◌≡◌, refl, inl, inr, List, [], ◌∷◌, All, Option, none, some, Bool, true, false, ◌||◌,
  eq_text, is_empty, Bool-cases,
}
use secrets_store_csi_driver.Outcome.{Reply, done, failed, Errs, fetch_failed, passed_on}
use secrets_store_csi_driver.Exec.{lift, reply, continue, Errs-continue, Errs-reply}
use secrets_store_csi_driver.PullLimit.{Limiter, PullLimiter, RateLimiter, wait, wait_on}
use secrets_store_csi_driver.SecretObject.{SecretObject, KmsClient, OosClient, get_mount_path}
use secrets_store_csi_driver.SecretObject.Listing.{object_type_kms, object_type_oos}
use secrets_store_csi_driver.SecretValue.{SecretValue, JsonTools, get_json_secrets}
use secrets_store_csi_driver.VersionMap.{VersionMap}
use secrets_store_csi_driver.Provider.Types.{
  Services, SecretsManagerProvider, judge_need_retry, get_wait_time_exponential, kms_request,
  wait_timeout,
}
use secrets_store_csi_driver.Provider.{
  is_current, own_or, retry, after_first, with_retry, get_kms_secret, get_oos_secret, reload_secret,
  fetch_secret, obtain, get_object, get_secret_values,
}
use secrets_store_csi_driver.Server.Resolved.{HasClient, kms, oos}
use secrets_store_csi_driver.Server.Kinds.{IsKms}
use secrets_store_csi_driver.Server.Errors.{
  IsSupplied, read_kms_body-IsSupplied, read_oos_body-IsSupplied, get_json_secrets_of-IsSupplied,
}

pub kms_first : (t : Text) → IsKms t → (eq_text t object_type_kms || is_empty t) ≡ true
unfolding eq_text
kms_first t (inl e) = rw e refl
kms_first t (inr e) = rw e refl

pub oos_not_first :
    (t : Text) → t ≡ object_type_oos → (eq_text t object_type_kms || is_empty t) ≡ false
unfolding eq_text
oos_not_first t e = rw e refl

pub oos_second : (t : Text) → t ≡ object_type_oos → eq_text t object_type_oos ≡ true
unfolding eq_text
oos_second t e = rw e refl

module _ {W : Type 0} (services : Services W) where
  after_first-IsSupplied :
      {A : Type 0} (call : W → Reply A × W) (name : Text) (p : Reply A × W)
      → Errs IsSupplied (after_first services call name p).0
  unfolding after_first retry
  after_first-IsSupplied call name (done a, w) = tt
  after_first-IsSupplied call name (failed f, w) = elim (Bool-cases (judge_need_retry f)) [
    | inl q ↦ rw q (
        Errs-reply IsSupplied (call (services.sleep (get_wait_time_exponential 1) w))
          (fetch_failed name) (λ g. tt))
    | inr q ↦ rw q tt
  ]

  wait_on-IsSupplied :
      (l : Option RateLimiter) (t : ℕ) (w : W)
      → Errs IsSupplied (wait_on services.rate_wait l t w).0
  wait_on-IsSupplied none t w = tt
  wait_on-IsSupplied (some l) t w =
      Errs-reply IsSupplied (services.rate_wait l t w) passed_on (λ f. tt)

  wait-IsSupplied :
      (k : PullLimiter) (t : ℕ) (w : W) → Errs IsSupplied (wait services.rate_wait k t w).0
  unfolding wait
  wait-IsSupplied k t w = wait_on-IsSupplied k.secret_pull_limiter t w

  get_kms_secret-IsSupplied :
      (c : KmsClient) (s : SecretObject) (w : W)
      → Errs IsSupplied (get_kms_secret services (some c) s w).0
  unfolding get_kms_secret with_retry
  get_kms_secret-IsSupplied c s w =
      let call = services.get_secret_value c (kms_request s) in
      Errs-continue IsSupplied (after_first services call s.object_name (call w)) _
        (after_first-IsSupplied call s.object_name (call w))
        (λ r w'. read_kms_body-IsSupplied services.base64_decode s r)

  get_oos_secret-IsSupplied :
      (c : OosClient) (s : SecretObject) (w : W)
      → Errs IsSupplied (get_oos_secret services (some c) s w).0
  unfolding get_oos_secret with_retry
  get_oos_secret-IsSupplied c s w =
      let call =
        services.get_secret_parameter c (record { name = s.object_name; with_decryption = true }) in
      Errs-continue IsSupplied (after_first services call s.object_name (call w)) _
        (after_first-IsSupplied call s.object_name (call w)) (λ r w'. read_oos_body-IsSupplied s r)

  module _ (limiter : Limiter) (provider : SecretsManagerProvider) where
    kms_fetch-IsSupplied :
        (s : SecretObject) (own : Option KmsClient) (c : KmsClient) (w : W)
        → own ≡ some c
        → Errs IsSupplied
            (continue
              (wait services.rate_wait limiter.kms wait_timeout w)
              (λ _. get_kms_secret services (own_or own provider.kms_client) s)).0
    kms_fetch-IsSupplied s none c w e = cc
    kms_fetch-IsSupplied s (some d) c w e =
        Errs-continue IsSupplied (wait services.rate_wait limiter.kms wait_timeout w) _
          (wait-IsSupplied limiter.kms wait_timeout w) (λ _ w'. get_kms_secret-IsSupplied d s w')

    oos_fetch-IsSupplied :
        (s : SecretObject) (own : Option OosClient) (c : OosClient) (w : W)
        → own ≡ some c
        → Errs IsSupplied
            (continue
              (wait services.rate_wait limiter.oos wait_timeout w)
              (λ _. get_oos_secret services (own_or own provider.oos_client) s)).0
    oos_fetch-IsSupplied s none c w e = cc
    oos_fetch-IsSupplied s (some d) c w e =
        Errs-continue IsSupplied (wait services.rate_wait limiter.oos wait_timeout w) _
          (wait-IsSupplied limiter.oos wait_timeout w) (λ _ w'. get_oos_secret-IsSupplied d s w')

    fetch_secret-IsSupplied :
        (s : SecretObject) (w : W)
        → HasClient s
        → Errs IsSupplied (fetch_secret services limiter provider s w).0
    unfolding fetch_secret
    fetch_secret-IsSupplied s w (kms c t e) =
        rw (kms_first s.object_type t) (kms_fetch-IsSupplied s s.kms_client c w e)
    fetch_secret-IsSupplied s w (oos c t e) =
        rw (oos_not_first s.object_type t, oos_second s.object_type t)
          (oos_fetch-IsSupplied s s.oos_client c w e)

    obtain-IsSupplied :
        (s : SecretObject) (current : Bool × Text) (w : W)
        → HasClient s
        → Errs IsSupplied (obtain services limiter provider s current w).0
    unfolding obtain reload_secret
    obtain-IsSupplied s (false, version) w h = fetch_secret-IsSupplied s w h
    obtain-IsSupplied s (true, version) w h =
        Errs-continue IsSupplied (reload_secret services s w) _
          (Errs-continue IsSupplied (reply (services.read_file (get_mount_path s) w) passed_on) _
            (Errs-reply IsSupplied (services.read_file (get_mount_path s) w) passed_on (λ f. tt))
            (λ b w'. tt))
          (λ v w'. tt)

    module _ (tools : JsonTools) where
      get_object-IsSupplied :
          (s : SecretObject) (m : VersionMap) (w : W)
          → HasClient s
          → Errs IsSupplied (get_object services limiter provider tools s m w).0
      unfolding get_object get_json_secrets
      get_object-IsSupplied s m w h =
          Errs-continue IsSupplied (obtain services limiter provider s (is_current s m) w) _
            (obtain-IsSupplied s (is_current s m) w h)
            (λ (x : Text × SecretValue) w'.
              Errs-continue IsSupplied (lift (get_json_secrets tools x.1) w') _
                (get_json_secrets_of-IsSupplied tools x.1 x.1.secret_obj.jmes_path) (λ vs w''. tt))

      pub get_secret_values-IsSupplied :
          (ss : List SecretObject) (m : VersionMap) (w : W)
          → All HasClient ss
          → Errs IsSupplied (get_secret_values services limiter provider tools ss m w).0
      unfolding get_secret_values
      get_secret_values-IsSupplied [] m w h = tt
      get_secret_values-IsSupplied (s ∷ ss) m w (h, hs) =
          Errs-continue IsSupplied (get_object services limiter provider tools s m w) _
            (get_object-IsSupplied s m w h)
            (λ (x : List SecretValue × VersionMap) w'.
              Errs-continue IsSupplied (get_secret_values services limiter provider tools ss x.1 w')
                _ (get_secret_values-IsSupplied ss x.1 w' hs) (λ y w''. tt))
