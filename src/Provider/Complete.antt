-- ===== src/Provider/Complete.antt =====
-- provider/secret_manager_provider.go: responses are read, and requests made, without a panic if the responses are
-- complete.
use secrets_store_csi_driver.Prelude.{
  ℕ, Text, ◌≡◌, ◌≢◌, All, refl, inl, inr, List, [], ◌∷◌, Option, none, some, Bool-cases,
}
use secrets_store_csi_driver.Outcome.{Reply, done, failed, fetch_failed, passed_on}
use secrets_store_csi_driver.Settles.{
  Settles, Gives, Gives-reply, Gives-continue, Replies, IsSome, IsAnything, Settles-bind,
  Settles-reply,
}
use secrets_store_csi_driver.PullLimit.{RateLimiter, wait_on}
use secrets_store_csi_driver.SecretObject.{SecretObject, JmesPathObject, KmsClient, OosClient}
use secrets_store_csi_driver.Provider.Origins.{deref-eq-ok}
use secrets_store_csi_driver.SecretValue.{
  SecretValue, Json, JsonTools, string_result, extract, extract_from, get_json_secrets_of,
}
use secrets_store_csi_driver.Provider.Types.{
  KmsBody, Services, judge_need_retry, get_wait_time_exponential, kms_request, deref, decoded,
  is_binary, kms_bytes, read_kms_body, read_oos_body,
}
use secrets_store_csi_driver.Provider.{
  retry, after_first, with_retry, get_kms_secret, get_oos_secret,
}
use secrets_store_csi_driver.Provider.Needs.{IsLegible, parameter_of, HasStrings}

module _ (E : Type 0) where
  deref-Settles : {A : Type 0} (o : Option A) → IsSome o → Settles E (deref o)
  deref-Settles none h = h
  deref-Settles (some a) h = tt

  decoded-Settles :
      (s : SecretObject) (r : Reply (List ℕ)) → Replies E IsAnything r → Settles E (decoded s r)
  decoded-Settles s (done bytes) h = tt
  decoded-Settles s (failed f) h = h

  read_oos_body-Settles :
      (s : SecretObject) (r : Option Text) → IsSome r → Settles E (read_oos_body s r)
  unfolding read_oos_body
  read_oos_body-Settles s r h = Settles-bind E (deref r) _ (deref-Settles r h) (λ t e. tt)

  module _ {W : Type 0} (services : Services W) where
    kms_bytes-Settles :
        (s : SecretObject) (body : KmsBody)
        → IsLegible E services.base64_decode (some body)
        → Settles E (kms_bytes services.base64_decode s body)
    unfolding kms_bytes
    kms_bytes-Settles s body (h, _, decodes) = elim (Bool-cases (is_binary body.secret_data_type)) [
      | inl q ↦ rw q (
          Settles-bind E (deref body.secret_data) _ (deref-Settles body.secret_data h) (λ t e.
            decoded-Settles s (services.base64_decode t)
              (decodes t q (deref-eq-ok body.secret_data t e))))
      | inr q ↦
          rw q (
            Settles-bind E (deref body.secret_data) _ (deref-Settles body.secret_data h)
              (λ t e. tt))
    ]

    read_kms_body-Settles :
        (s : SecretObject) (r : Option KmsBody)
        → IsLegible E services.base64_decode r
        → Settles E (read_kms_body services.base64_decode s r)
    unfolding read_kms_body
    read_kms_body-Settles s none h = h
    read_kms_body-Settles s (some body) (h, k, d) =
        Settles-bind E (kms_bytes services.base64_decode s body) _
          (kms_bytes-Settles s body (h, k, d))
          (λ bytes e.
            Settles-bind E (deref body.version_id) _ (deref-Settles body.version_id k) (λ v f. tt))

    -- A request and its repetition give what the call gives.
    after_first-Gives :
        {A : Type 0} (P : A → Type 0) (call : W → Reply A × W) (name : Text) (p : Reply A × W)
        → ((w : W) → Replies E P (call w).0)
        → Replies E P p.0
        → Gives E P (after_first services call name p).0
    unfolding after_first retry
    after_first-Gives P call name (done a, w) h k = k
    after_first-Gives P call name (failed f, w) h k = elim (Bool-cases (judge_need_retry f)) [
      | inl q ↦ rw q (
          let again = services.sleep (get_wait_time_exponential 1) w in
          Gives-reply E P (call again) (fetch_failed name) (h again))
      | inr q ↦ rw q k
    ]

    with_retry-Gives :
        {A : Type 0} (P : A → Type 0) (call : W → Reply A × W) (name : Text) (w : W)
        → ((w : W) → Replies E P (call w).0)
        → Gives E P (with_retry services call name w).0
    unfolding with_retry
    with_retry-Gives P call name w h = after_first-Gives P call name (call w) h (h w)

    pub get_kms_secret-Settles :
        (c : KmsClient) (s : SecretObject) (w : W)
        → ((w : W)
            → Replies E
                (IsLegible E services.base64_decode)
                (services.get_secret_value c (kms_request s) w).0)
        → Settles E (get_kms_secret services (some c) s w).0
    unfolding get_kms_secret
    get_kms_secret-Settles c s w answers =
        let call = services.get_secret_value c (kms_request s) in
        Gives-continue E (IsLegible E services.base64_decode)
          (with_retry services call s.object_name w) _
          (with_retry-Gives (IsLegible E services.base64_decode) call s.object_name w answers)
          (λ r w' h. read_kms_body-Settles s r h)

    pub get_oos_secret-Settles :
        (c : OosClient) (s : SecretObject) (w : W)
        → ((w : W) → Replies E IsSome (services.get_secret_parameter c (parameter_of s) w).0)
        → Settles E (get_oos_secret services (some c) s w).0
    unfolding get_oos_secret
    get_oos_secret-Settles c s w answers =
        let call = services.get_secret_parameter c (parameter_of s) in
        Gives-continue E IsSome (with_retry services call s.object_name w) _
          (with_retry-Gives IsSome call s.object_name w answers)
          (λ r w' h. read_oos_body-Settles s r h)

    pub wait_on-Settles :
        (l : Option RateLimiter) (t : ℕ) (w : W)
        → (l ≡ none → E)
        → ((l : RateLimiter) (t : ℕ) (w : W) → Replies E IsAnything (services.rate_wait l t w).0)
        → Settles E (wait_on services.rate_wait l t w).0
    wait_on-Settles none t w h k = h refl
    wait_on-Settles (some l) t w h k =
        Settles-reply E IsAnything (services.rate_wait l t w) passed_on (k l t w)

  module _ (tools : JsonTools) where
    extract-Settles :
        (s : SecretObject) (json : Json) (es : List JmesPathObject)
        → All (λ e. Settles E (string_result e (tools.search e.path json))) es
        → Settles E (extract tools s json es)
    unfolding extract
    extract-Settles s json [] h = tt
    extract-Settles s json (e ∷ es) (h, hs) =
        Settles-bind E (string_result e (tools.search e.path json)) _ h (λ t q.
          Settles-bind E (extract tools s json es) _ (extract-Settles s json es hs) (λ vs r. tt))

    extract_from-Settles :
        (s : SecretObject) (r : Reply Json)
        → Replies E (HasStrings E tools s) r
        → Settles E (extract_from tools s r)
    unfolding extract_from
    extract_from-Settles s (failed f) h = h
    extract_from-Settles s (done json) h = extract-Settles s json s.jmes_path h

    pub get_json_secrets_of-Settles :
        (v : SecretValue) (es : List JmesPathObject)
        → (es ≢ [] → Replies E (HasStrings E tools v.secret_obj) (tools.unmarshal v.value))
        → Settles E (get_json_secrets_of tools v es)
    unfolding get_json_secrets_of
    get_json_secrets_of-Settles v [] h = tt
    get_json_secrets_of-Settles v (e ∷ es) h =
        extract_from-Settles v.secret_obj (tools.unmarshal v.value) (h (λ q. cc))
