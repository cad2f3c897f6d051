-- ===== src/Provider/Requests.antt =====
-- provider/secret_manager_provider.go: how many requests a fetch makes.
use mathlib.Core.Bool.{false≢true}
use native.Mathlib.Nat.{mul-suc}
use secrets_store_csi_driver.Prelude.{
  ℕ, suc, ◌+◌, ◌*◌, ◌≤◌, Text, ◌≡◌, inl, inr, List, [], ◌∷◌, Option, none, some, Bool, true, false,
  ◌||◌, eq_text, is_empty, length, Bool-cases, arith, ◌⊎◌, sym, ap, ◌∙◌, refl,
}
use secrets_store_csi_driver.Outcome.{
  Outcome, ok, err, panic, Failure, Error, Reply, done, failed, fetch_failed, passed_on,
}
use secrets_store_csi_driver.Exec.{Exec, lift, reply, continue}
use secrets_store_csi_driver.PullLimit.{Limiter, RateLimiter, wait, wait_on}
use secrets_store_csi_driver.SecretObject.{SecretObject, KmsClient, OosClient, get_mount_path}
use secrets_store_csi_driver.SecretObject.Listing.{object_type_kms, object_type_oos}
use secrets_store_csi_driver.SecretValue.{SecretValue, JsonTools, get_json_secrets}
use secrets_store_csi_driver.VersionMap.{VersionMap}
use secrets_store_csi_driver.Provider.Types.{
  KmsRequest, OosRequest, Services, SecretsManagerProvider, judge_need_retry,
  get_wait_time_exponential, kms_request, wait_timeout,
}
use secrets_store_csi_driver.Provider.{
  is_current, own_or, retry, after_first, with_retry, get_kms_secret, get_oos_secret, reload_secret,
  fetch_secret, obtain, get_object, get_secret_values,
}

module _ {W : Type 0} (services : Services W) where
  -- A measure of the world that each request to KMS or OOS raises by one, and nothing else changes.
  pub record CountsRequests (requests : W → ℕ) : Type 0 where
    pub kms :
        (c : KmsClient) (r : KmsRequest) (w : W)
        → requests (services.get_secret_value c r w).1 ≡ suc (requests w)
    pub oos :
        (c : OosClient) (r : OosRequest) (w : W)
        → requests (services.get_secret_parameter c r w).1 ≡ suc (requests w)
    pub limited :
        (l : RateLimiter) (t : ℕ) (w : W) → requests (services.rate_wait l t w).1 ≡ requests w
    pub slept : (n : ℕ) (w : W) → requests (services.sleep n w) ≡ requests w
    pub read : (path : Text) (w : W) → requests (services.read_file path w).1 ≡ requests w

  -- Neither service answers an error of the kind that the retry is for.
  pub record HasForeignErrors : Type 0 where
    pub kms :
        (c : KmsClient) (r : KmsRequest) (w : W) (f : Failure)
        → (services.get_secret_value c r w).0 ≡ failed f
        → f.client_code ≡ none
    pub oos :
        (c : OosClient) (r : OosRequest) (w : W) (f : Failure)
        → (services.get_secret_parameter c r w).0 ≡ failed f
        → f.client_code ≡ none

  -- How many requests suffice for an object: two, or one if no error is of that kind.
  abbrev Suffices : ℕ → Type 0
  Suffices most = (2 ≤ most) ⊎ ((1 ≤ most) × HasForeignErrors)

  -- The same for one call.
  abbrev SufficesFor : {A : Type 0} → ℕ → (W → Reply A × W) → Type 0
  SufficesFor most call =
      (2 ≤ most)
      ⊎ ((1 ≤ most) × ((w : W) (f : Failure) → (call w).0 ≡ failed f → f.client_code ≡ none))

  not_retried : (f : Failure) → f.client_code ≡ none → judge_need_retry f ≡ false
  unfolding judge_need_retry
  not_retried f h = rw h refl

  module _ (requests : W → ℕ) (counts : CountsRequests requests) (most : ℕ)
      (enough : Suffices most) where
    -- At most `n` requests more than in the world before.
    abbrev Within : {A : Type 0} → ℕ → W → A × W → Type 0
    Within n w r = requests r.1 ≤ requests w + n

    continue-Within :
        {A B : Type 0} (n m : ℕ) (w : W) (r : Outcome A × W) (f : A → Exec W B)
        → Within n w r
        → ((a : A) (w' : W) → Within m w' (f a w'))
        → Within (n + m) w (continue r f)
    continue-Within n m w (ok a, w') f h k = let more = k a w' in omega arith
    continue-Within n m w (err e, w') f h k = omega arith
    continue-Within n m w (panic, w') f h k = omega arith

    -- The same with a bound of its own.
    total-Within :
        {A B : Type 0} (n m k : ℕ) (w : W) (r : Outcome A × W) (f : A → Exec W B)
        → n + m ≤ k
        → Within n w r
        → ((a : A) (w' : W) → Within m w' (f a w'))
        → Within k w (continue r f)
    total-Within n m k w r f b h c = let total = continue-Within n m w r f h c in omega arith

    -- A step that makes no more requests, behind others and in front of them.
    last-Within :
        {A B : Type 0} (n : ℕ) (w : W) (r : Outcome A × W) (f : A → Exec W B)
        → Within n w r
        → ((a : A) (w' : W) → Within 0 w' (f a w'))
        → Within n w (continue r f)
    last-Within n w r f = total-Within n 0 n w r f (omega arith)

    then-Within :
        {A B : Type 0} (n : ℕ) (w : W) (r : Outcome A × W) (f : A → Exec W B)
        → Within 0 w r
        → ((a : A) (w' : W) → Within n w' (f a w'))
        → Within n w (continue r f)
    then-Within n w r f = total-Within 0 n n w r f (omega arith)

    reply-Within :
        {A : Type 0} (n : ℕ) (w : W) (r : Reply A × W) (e : Failure → Error)
        → Within n w r
        → Within n w (reply r e)
    reply-Within n w (done a, w') e h = h
    reply-Within n w (failed f, w') e h = h

    after_first-Within :
        {A : Type 0} (call : W → Reply A × W) (name : Text) (w : W) (p : Reply A × W)
        → ((w : W) → requests (call w).1 ≡ suc (requests w))
        → SufficesFor most call
        → call w ≡ p
        → Within most w (after_first services call name p)
    unfolding after_first retry
    after_first-Within call name w (done a, w') h m e =
        let first = h w in let same = ap (λ q. requests q.1) e in ground arith
    after_first-Within call name w (failed f, w') h m e =
        let first = sym (ap (λ q. requests q.1) e) ∙ h w in
        elim (Bool-cases (judge_need_retry f)) [
          | inr q ↦ rw q (elim m [ inl b ↦ omega arith | inr (b, _) ↦ omega arith ])
          | inl q ↦ elim m [
            | inl b ↦ rw q (
                let pause = services.sleep (get_wait_time_exponential 1) w' in
                let slept = counts.slept (get_wait_time_exponential 1) w' in
                let once = h pause in
                reply-Within most w (call pause) (fetch_failed name) (omega arith))
            | inr (b, foreign) ↦
                absurd (false≢true (sym (not_retried f (foreign w f (ap (λ q. q.0) e))) ∙ q))
          ]
        ]

    kms_enough : (c : KmsClient) (r : KmsRequest) → SufficesFor most (services.get_secret_value c r)
    kms_enough c r = elim enough [ inl b ↦ inl b | inr (b, h) ↦ inr (b, h.kms c r) ]

    oos_enough :
        (c : OosClient) (r : OosRequest) → SufficesFor most (services.get_secret_parameter c r)
    oos_enough c r = elim enough [ inl b ↦ inl b | inr (b, h) ↦ inr (b, h.oos c r) ]

    get_kms_secret-Within :
        (c : Option KmsClient) (s : SecretObject) (w : W)
        → Within most w (get_kms_secret services c s w)
    unfolding get_kms_secret with_retry
    get_kms_secret-Within none s w = omega arith
    get_kms_secret-Within (some c) s w =
        let call = services.get_secret_value c (kms_request s) in
        last-Within most w (after_first services call s.object_name (call w)) _
          (after_first-Within call s.object_name w (call w) (counts.kms c (kms_request s))
            (kms_enough c (kms_request s)) refl)
          (λ r w'. omega arith)

    get_oos_secret-Within :
        (c : Option OosClient) (s : SecretObject) (w : W)
        → Within most w (get_oos_secret services c s w)
    unfolding get_oos_secret with_retry
    get_oos_secret-Within none s w = omega arith
    get_oos_secret-Within (some c) s w =
        let request : OosRequest = record { name = s.object_name; with_decryption = true } in
        let call = services.get_secret_parameter c request in
        last-Within most w (after_first services call s.object_name (call w)) _
          (after_first-Within call s.object_name w (call w) (counts.oos c request)
            (oos_enough c request) refl)
          (λ r w'. omega arith)

    wait_on-Within :
        (l : Option RateLimiter) (t : ℕ) (w : W) → Within 0 w (wait_on services.rate_wait l t w)
    wait_on-Within none t w = omega arith
    wait_on-Within (some l) t w =
        let same = counts.limited l t w in
        reply-Within 0 w (services.rate_wait l t w) passed_on (omega arith)

    module _ (limiter : Limiter) (provider : SecretsManagerProvider) where
      fetch_secret-Within :
          (s : SecretObject) (w : W) → Within most w (fetch_secret services limiter provider s w)
      unfolding fetch_secret wait
      fetch_secret-Within s w =
          elim (Bool-cases (eq_text s.object_type object_type_kms || is_empty s.object_type)) [
            | inl q ↦ rw q (
                then-Within most w
                  (wait_on services.rate_wait limiter.kms.secret_pull_limiter wait_timeout w) _
                  (wait_on-Within limiter.kms.secret_pull_limiter wait_timeout w)
                  (λ _ w'. get_kms_secret-Within (own_or s.kms_client provider.kms_client) s w'))
            | inr q ↦ elim (Bool-cases (eq_text s.object_type object_type_oos)) [
              | inl p ↦
                  rw (q, p)
                    (then-Within most w
                      (wait_on services.rate_wait limiter.oos.secret_pull_limiter wait_timeout w) _
                      (wait_on-Within limiter.oos.secret_pull_limiter wait_timeout w)
                      (λ _ w'.
                        get_oos_secret-Within (own_or s.oos_client provider.oos_client) s w'))
              | inr p ↦ rw (q, p) (omega arith)
            ]
          ]

      obtain-Within :
          (s : SecretObject) (current : Bool × Text) (w : W)
          → Within most w (obtain services limiter provider s current w)
      unfolding obtain reload_secret
      obtain-Within s (false, version) w = fetch_secret-Within s w
      obtain-Within s (true, version) w =
          let same = counts.read (get_mount_path s) w in
          last-Within most w (reload_secret services s w) _
            (last-Within most w (reply (services.read_file (get_mount_path s) w) passed_on) _
              (reply-Within most w (services.read_file (get_mount_path s) w) passed_on
                (omega arith))
              (λ b w'. omega arith))
            (λ v w'. omega arith)

      module _ (tools : JsonTools) where
        get_object-Within :
            (s : SecretObject) (m : VersionMap) (w : W)
            → Within most w (get_object services limiter provider tools s m w)
        unfolding get_object
        get_object-Within s m w =
            last-Within most w (obtain services limiter provider s (is_current s m) w) _
              (obtain-Within s (is_current s m) w)
              (λ (x : Text × SecretValue) w'.
                continue-Within 0 0 w' (lift (get_json_secrets tools x.1) w') _ (omega arith)
                  (λ vs w''. omega arith))

        get_secret_values-Within :
            (ss : List SecretObject) (m : VersionMap) (w : W)
            → Within (most * length ss) w (get_secret_values services limiter provider tools ss m w)
        unfolding get_secret_values
        get_secret_values-Within [] m w = omega arith
        get_secret_values-Within (s ∷ ss) m w =
            let step = mul-suc most (length ss) in
            total-Within most (most * length ss) (most * suc (length ss)) w
              (get_object services limiter provider tools s m w) _ (omega arith)
              (get_object-Within s m w)
              (λ (x : List SecretValue × VersionMap) w'.
                total-Within (most * length ss) 0 (most * length ss) w'
                  (get_secret_values services limiter provider tools ss x.1 w') _ (omega arith)
                  (get_secret_values-Within ss x.1 w') (λ y w''. omega arith))

  module _ (requests : W → ℕ) (counts : CountsRequests requests) (limiter : Limiter)
      (provider : SecretsManagerProvider) (tools : JsonTools) where
    -- In a measure of the world that counts the requests to KMS and OOS, `GetSecretValues` makes at
    -- most two for each object, whatever the services answer.
    pub get_secret_values-requests :
        (ss : List SecretObject) (m : VersionMap) (w : W)
        → requests (get_secret_values services limiter provider tools ss m w).1
          ≤ requests w + 2 * length ss
    get_secret_values-requests ss m w =
        get_secret_values-Within requests counts 2 (inl (omega arith)) limiter provider tools ss m w

    -- If no error of KMS or OOS is a `ClientError` of alibaba-cloud-sdk-go, `GetSecretValues` makes at
    -- most one request for each object: nothing is retried, throttled or not.
    pub get_secret_values-HasForeignErrors :
        (ss : List SecretObject) (m : VersionMap) (w : W)
        → HasForeignErrors
        → requests (get_secret_values services limiter provider tools ss m w).1
          ≤ requests w + length ss
    get_secret_values-HasForeignErrors ss m w foreign =
        let within =
          get_secret_values-Within requests counts 1 (inr (omega arith, foreign)) limiter provider
            tools ss m w in
        omega arith
