-- ===== src/Provider/Origins.antt =====
-- provider/secret_manager_provider.go: where the bytes of the values come from.
use secrets_store_csi_driver.Prelude.{
  ℕ, Text, ◌≡◌, ◌≢◌, refl, ap, sym, ◌⊎◌, inl, inr, List, [], true, false, Option, none, some,
  Bool-cases, utf8,
}
use secrets_store_csi_driver.Outcome
use secrets_store_csi_driver.Outcome.{
  ok-injective, Outcome, ok, err, panic, Error, Failure, Reply, done, failed, passed_on,
  unsupported_secret_type, fetch_failed,
}
use secrets_store_csi_driver.Exec.{reply, Ensures, Ensures-lift, Ensures-bind}
use secrets_store_csi_driver.SecretObject.{KmsClient, OosClient, SecretObject, get_mount_path}
use secrets_store_csi_driver.SecretObject.Listing.{object_type_kms, object_type_oos}
use secrets_store_csi_driver.SecretValue.{SecretValue}
use secrets_store_csi_driver.Provider.Types.{
  KmsBody, KmsRequest, OosRequest, Services, SecretsManagerProvider, deref, decoded, is_binary,
  judge_need_retry, kms_bytes, read_kms_body, read_oos_body, kms_request, unless_empty,
}
use secrets_store_csi_driver.Provider.{
  retry, after_first, with_retry, get_kms_secret, get_oos_secret, own_or,
}

-- The client that serves an object: its own, or the provider's if it has none.
abbrev pub Serves : {A : Type 0} → Option A → Option A → A → Type 0
Serves own default c = (own ≡ some c) ⊎ ((own ≡ none) × (default ≡ some c))

-- A request to KMS for the secret, the version and the stage of this object.
pub record AsksFor (s : SecretObject) (q : KmsRequest) : Type 0 where
  pub secret_name : q.secret_name ≡ s.object_name
  pub version_id : q.version_id ≡ unless_empty s.object_version
  pub version_stage : q.version_stage ≡ unless_empty s.object_version_label

-- The bytes that a response of KMS holds: those of its text, or what its binary data decode to.
abbrev pub Holds : (Text → Reply (List ℕ)) → KmsBody → List ℕ → Type 0
Holds decode body bytes =
    (text : Text) × (body.secret_data ≡ some text)
    × (((is_binary body.secret_data_type ≡ true) × (decode text ≡ done bytes))
        ⊎ ((is_binary body.secret_data_type ≡ false) × (bytes ≡ utf8 text)))

pub deref-eq-ok : {A : Type 0} (p : Option A) (t : A) → deref p ≡ ok t → p ≡ some t
deref-eq-ok none t e = cc
deref-eq-ok (some u) t e = ap some (ok-injective u t e)

kms_bytes-Holds :
    (decode : Text → Reply (List ℕ)) (s : SecretObject) (body : KmsBody) (bytes : List ℕ)
    → kms_bytes decode s body ≡ ok bytes
    → Holds decode body bytes
unfolding kms_bytes
kms_bytes-Holds decode s body bytes h = elim (Bool-cases (is_binary body.secret_data_type)) [
  | inl b ↦
      let (text, e, h') = Outcome.>>=-eq-ok (deref body.secret_data) _ (rw b at h) in
      (text, deref-eq-ok body.secret_data text e, inl (b, decoded-eq-ok (decode text) h'))
  | inr b ↦
      let (text, e, h') = Outcome.>>=-eq-ok (deref body.secret_data) _ (rw b at h) in
      (text, deref-eq-ok body.secret_data text e, inr (b, sym (ok-injective (utf8 text) bytes h')))
]
  where
    decoded-eq-ok : (r : Reply (List ℕ)) → decoded s r ≡ ok bytes → r ≡ done bytes
    decoded-eq-ok (done b) e = ap done (ok-injective b bytes e)
    decoded-eq-ok (failed f) e = cc

Serves-own_or :
    {A : Type 0} (own default : Option A) (c : A)
    → own_or own default ≡ some c
    → Serves own default c
Serves-own_or none default c e = inr (refl, e)
Serves-own_or (some d) default c e = inl e

module _ {W : Type 0} (services : Services W) (provider : SecretsManagerProvider) where
  -- How the bytes of an object's own secret were obtained, in some state of the world: read back from its
  -- file if it asks for a version; in a response of KMS, if its type is that or empty; or as a parameter
  -- of OOS.
  pub data Origin (s : SecretObject) (bytes : List ℕ) : Type 0 where
    read_back :
        (w : W)
        → s.object_version ≢ []
        → (services.read_file (get_mount_path s) w).0 ≡ done bytes
        → Origin s bytes
    from_kms :
        (c : KmsClient) (q : KmsRequest) (body : KmsBody) (w : W)
        → (s.object_type ≡ object_type_kms) ⊎ (s.object_type ≡ [])
        → Serves s.kms_client provider.kms_client c
        → AsksFor s q
        → (services.get_secret_value c q w).0 ≡ done (some body)
        → Holds services.base64_decode body bytes
        → Origin s bytes
    from_oos :
        (c : OosClient) (text : Text) (w : W)
        → s.object_type ≡ object_type_oos
        → Serves s.oos_client provider.oos_client c
        → (services.get_secret_parameter c
            (record { name = s.object_name; with_decryption = true })
            w).0
          ≡ done (some text)
        → bytes ≡ utf8 text
        → Origin s bytes

  -- An object's own secret.
  abbrev pub IsSecretOf : SecretObject → SecretValue → Type 0
  IsSecretOf s v = (v.secret_obj ≡ s) × Origin s v.value

  abbrev pub Fetches : SecretObject → Text × SecretValue → W → Type 0
  Fetches s x w = IsSecretOf s x.1

  -- What a call answered in some state of the world.
  abbrev pub WasAnswered : {A : Type 0} → (W → Reply A × W) → A → W → Type 0
  WasAnswered call a w = (v : W) × ((call v).0 ≡ done a)

  pub reply-WasAnswered :
      {A : Type 0} (call : W → Reply A × W) (v : W) (e : Failure → Error) (r : Reply A × W)
      → call v ≡ r
      → Ensures (WasAnswered call) (reply r e)
  reply-WasAnswered call v e (done a, w) h = (v, rw h)
  reply-WasAnswered call v e (failed f, w) h = tt

  after_first-WasAnswered :
      {A : Type 0} (call : W → Reply A × W) (name : Text) (w : W) (r : Reply A × W)
      → call w ≡ r
      → Ensures (WasAnswered call) (after_first services call name r)
  unfolding after_first retry
  after_first-WasAnswered call name w (done a, w') h = (w, rw h)
  after_first-WasAnswered call name w (failed f, w') h = elim (Bool-cases (judge_need_retry f)) [
    | inl b ↦ rw b (reply-WasAnswered call _ (fetch_failed name) _ refl)
    | inr b ↦ rw b tt
  ]

  with_retry-WasAnswered :
      {A : Type 0} (call : W → Reply A × W) (name : Text) (w : W)
      → Ensures (WasAnswered call) (with_retry services call name w)
  unfolding with_retry
  with_retry-WasAnswered call name w = after_first-WasAnswered call name w (call w) refl

  read_kms_body-Fetches :
      (c : KmsClient) (s : SecretObject) (r : Option KmsBody) (x : Text × SecretValue) (v : W)
      → (s.object_type ≡ object_type_kms) ⊎ (s.object_type ≡ [])
      → Serves s.kms_client provider.kms_client c
      → (services.get_secret_value c (kms_request s) v).0 ≡ done r
      → read_kms_body services.base64_decode s r ≡ ok x
      → IsSecretOf s x.1
  unfolding read_kms_body
  read_kms_body-Fetches c s none x v t serves answered h = cc
  read_kms_body-Fetches c s (some body) x v t serves answered h =
      let (bytes, e, h') = Outcome.>>=-eq-ok (kms_bytes services.base64_decode s body) _ h in
      let (version, _, last) = Outcome.>>=-eq-ok (deref body.version_id) _ h' in
      rw (← ok-injective _ x last) (
        refl,
        from_kms c (kms_request s) body v t serves
            (unfold kms_request in
              record { secret_name = refl; version_id = refl; version_stage = refl })
            answered (kms_bytes-Holds services.base64_decode s body bytes e),
      )

  pub get_kms_secret-Fetches :
      (o : Option KmsClient) (s : SecretObject) (w : W)
      → (s.object_type ≡ object_type_kms) ⊎ (s.object_type ≡ [])
      → own_or s.kms_client provider.kms_client ≡ o
      → Ensures (Fetches s) (get_kms_secret services o s w)
  unfolding get_kms_secret
  get_kms_secret-Fetches none s w t h = tt
  get_kms_secret-Fetches (some c) s w t h =
      Ensures-bind _ (Fetches s)
        (with_retry services (services.get_secret_value c (kms_request s)) s.object_name w) _
        (with_retry-WasAnswered _ s.object_name w)
        (λ r w' (v, answered). Ensures-lift (Fetches s) _ w' (λ x.
          read_kms_body-Fetches c s r x v t (Serves-own_or s.kms_client provider.kms_client c h)
            answered))

  abbrev parameter_of : SecretObject → OosRequest
  parameter_of s = record { name = s.object_name; with_decryption = true }

  read_oos_body-Fetches :
      (c : OosClient) (s : SecretObject) (r : Option Text) (x : Text × SecretValue) (v : W)
      → s.object_type ≡ object_type_oos
      → Serves s.oos_client provider.oos_client c
      → (services.get_secret_parameter c (parameter_of s) v).0 ≡ done r
      → read_oos_body s r ≡ ok x
      → IsSecretOf s x.1
  unfolding read_oos_body
  read_oos_body-Fetches c s none x v t serves answered h = cc
  read_oos_body-Fetches c s (some text) x v t serves answered h =
      rw (← ok-injective _ x h) (refl, from_oos c text v t serves answered refl)

  pub get_oos_secret-Fetches :
      (o : Option OosClient) (s : SecretObject) (w : W)
      → s.object_type ≡ object_type_oos
      → own_or s.oos_client provider.oos_client ≡ o
      → Ensures (Fetches s) (get_oos_secret services o s w)
  unfolding get_oos_secret
  get_oos_secret-Fetches none s w t h = tt
  get_oos_secret-Fetches (some c) s w t h =
      Ensures-bind _ (Fetches s)
        (with_retry services (services.get_secret_parameter c (parameter_of s)) s.object_name w) _
        (with_retry-WasAnswered _ s.object_name w)
        (λ r w' (v, answered). Ensures-lift (Fetches s) _ w' (λ x.
          read_oos_body-Fetches c s r x v t (Serves-own_or s.oos_client provider.oos_client c h)
            answered))
