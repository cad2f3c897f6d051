-- ===== src/Provider/Sourced.antt =====
-- What `GetSecretValues` returns: for each object its secret, then the values extracted from it, all
-- with their origin.
use mathlib.Core.Bool.{false≢true}
use secrets_store_csi_driver.Prelude.{
  Text, ◌≡◌, ◌≢◌, refl, ap, ◌⊎◌, inl, inr, List, [], ◌∷◌, ◌++◌, Bool, true, false, Option, none,
  some, is_empty, eq_text, eq_text_iff, ◌||◌, Bool-cases, is_empty→ne_nil,
}
use secrets_store_csi_driver.Outcome.{ok, done, passed_on}
use secrets_store_csi_driver.Exec.{
  lift, reply, Ensures, Ensures-at, Ensures-all, Ensures-lift, Ensures-bind,
}
use secrets_store_csi_driver.PullLimit.{Limiter, wait}
use secrets_store_csi_driver.SecretObject.{SecretObject, get_mount_path, get_file_name}
use secrets_store_csi_driver.SecretObject.Listing.{object_type_kms, object_type_oos}
use secrets_store_csi_driver.SecretValue.{SecretValue, Json, JsonTools, get_json_secrets}
use secrets_store_csi_driver.SecretValue.Extraction.{Extracts, get_json_secrets_sound}
use secrets_store_csi_driver.VersionMap.{VersionMap, ObjectVersion, lookup}
use secrets_store_csi_driver.Provider.Types.{Services, SecretsManagerProvider, wait_timeout}
use secrets_store_csi_driver.Provider.Origins.{
  IsSecretOf, Fetches, WasAnswered, reply-WasAnswered, read_back, get_kms_secret-Fetches,
  get_oos_secret-Fetches,
}
use secrets_store_csi_driver.Provider.{
  is_current, is_current_version, reload_secret, fetch_secret, obtain, get_object,
  get_secret_values, own_or,
}

-- The condition of the first branch of `fetchSecret`.
of_kms :
    (t : Text) → (eq_text t object_type_kms || is_empty t) ≡ true → (t ≡ object_type_kms) ⊎ (t ≡ [])
of_kms t h = elim (Bool-cases (eq_text t object_type_kms)) [
  | inl b ↦ inl ((eq_text_iff t object_type_kms).0 b)
  | inr b ↦ inr (empty t (rw b at h))
]
  where
    empty : (u : Text) → is_empty u ≡ true → u ≡ []
    empty [] e = refl
    empty (c ∷ u) e = cc

-- An object that is current asks for a version.
current-pinned :
    (s : SecretObject) (o : Option ObjectVersion) (v : Text)
    → is_current_version s o ≡ (true, v)
    → s.object_version ≢ []
unfolding is_current_version
current-pinned s none v h = cc
current-pinned s (some cur) v h = elim (Bool-cases (is_empty s.object_version)) [
  | inl b ↦ absurd (false≢true (ap (λ (x : Bool × Text). x.0) (rw b at h)))
  | inr b ↦ is_empty→ne_nil s.object_version b
]

pub current-versioned :
    (s : SecretObject) (m : VersionMap) → (is_current s m).0 ≡ true → s.object_version ≢ []
unfolding is_current
current-versioned s m h =
    current-pinned s (lookup (get_file_name s) m) (is_current s m).1
      (ap (λ b. (b, (is_current s m).1)) h)

module _ {W : Type 0} (services : Services W) (provider : SecretsManagerProvider)
    (limiter : Limiter) where
  fetch_secret-Fetches :
      (s : SecretObject) (w : W)
      → Ensures (Fetches services provider s) (fetch_secret services limiter provider s w)
  unfolding fetch_secret
  fetch_secret-Fetches s w =
      elim (Bool-cases (eq_text s.object_type object_type_kms || is_empty s.object_type)) [
        | inl k ↦ rw k (
            Ensures-bind (λ a v. Unit) (Fetches services provider s)
              (wait services.rate_wait limiter.kms wait_timeout w) _ (Ensures-all _ _ (λ a v. tt))
              (λ _ v _.
                get_kms_secret-Fetches services provider (own_or s.kms_client provider.kms_client) s
                  v (of_kms s.object_type k) refl))
        | inr k ↦ rw k (elim (Bool-cases (eq_text s.object_type object_type_oos)) [
          | inl q ↦ rw q (
              Ensures-bind (λ a v. Unit) (Fetches services provider s)
                (wait services.rate_wait limiter.oos wait_timeout w) _ (Ensures-all _ _ (λ a v. tt))
                (λ _ v _.
                  get_oos_secret-Fetches services provider (own_or s.oos_client provider.oos_client)
                    s v ((eq_text_iff s.object_type object_type_oos).0 q) refl))
          | inr q ↦ rw q tt
        ])
      ]

  reload_secret-Fetches :
      (s : SecretObject) (w : W)
      → s.object_version ≢ []
      → Ensures (λ v u. IsSecretOf services provider s v) (reload_secret services s w)
  unfolding reload_secret
  reload_secret-Fetches s w n =
      Ensures-bind (WasAnswered services provider (services.read_file (get_mount_path s))) _
        (reply (services.read_file (get_mount_path s) w) passed_on) _
        (reply-WasAnswered services provider (services.read_file (get_mount_path s)) w passed_on _
          refl)
        (λ bytes u (v, answered). (refl, read_back v n answered))

  obtain-Fetches :
      (s : SecretObject) (current : Bool × Text) (w : W)
      → (current.0 ≡ true → s.object_version ≢ [])
      → Ensures (Fetches services provider s) (obtain services limiter provider s current w)
  unfolding obtain
  obtain-Fetches s (true, version) w n =
      Ensures-bind (λ v u. IsSecretOf services provider s v) (Fetches services provider s)
        (reload_secret services s w) _ (reload_secret-Fetches s w (n refl)) (λ v u h. h)
  obtain-Fetches s (false, version) w n = fetch_secret-Fetches s w

  -- The object's secret as the loop gets it.
  pub current-Fetches :
      (s : SecretObject) (m : VersionMap) (w : W)
      → Ensures
          (Fetches services provider s)
          (obtain services limiter provider s (is_current s m) w)
  current-Fetches s m w = obtain-Fetches s (is_current s m) w (current-versioned s m)

  module _ (tools : JsonTools) where
    -- The values extracted from a secret: none, if its object has no entries, and otherwise the strings
    -- that the entries' searches find in its JSON.
    abbrev pub AreExtracted : SecretValue → List SecretValue → Type 0
    AreExtracted v vs =
        ((v.secret_obj.jmes_path ≡ []) × (vs ≡ []))
        ⊎ ((json : Json) × (tools.unmarshal v.value ≡ done json)
            × Extracts tools v.secret_obj json v.secret_obj.jmes_path vs)

    -- The values of these objects: for each one its own secret and what is extracted from it, in order.
    pub data Values : List SecretObject → List SecretValue → Type 0 where
      nothing : Values [] []
      and_then :
          (s : SecretObject) (ss : List SecretObject) (v : SecretValue) (vs rest : List SecretValue)
          → IsSecretOf services provider s v
          → AreExtracted v vs
          → Values ss rest
          → Values (s ∷ ss) (v ∷ vs ++ rest)

    abbrev OfObject : SecretObject → List SecretValue × VersionMap → W → Type 0
    OfObject s r w =
        (v : SecretValue) × (vs : List SecretValue) × (r.0 ≡ v ∷ vs)
        × IsSecretOf services provider s v
        × AreExtracted v vs

    get_object-OfObject :
        (s : SecretObject) (m : VersionMap) (w : W)
        → Ensures (OfObject s) (get_object services limiter provider tools s m w)
    unfolding get_object
    get_object-OfObject s m w =
        Ensures-bind (Fetches services provider s) (OfObject s)
          (obtain services limiter provider s (is_current s m) w) _ (current-Fetches s m w)
          (λ (x : Text × SecretValue) u f.
            Ensures-bind (λ vs _. AreExtracted x.1 vs) (OfObject s)
              (lift (get_json_secrets tools x.1) u) _
              (Ensures-lift _ (get_json_secrets tools x.1) u (get_json_secrets_sound tools x.1))
              (λ vs u' e. (x.1, vs, refl, f, e)))

    abbrev Returns : List SecretObject → List SecretValue × VersionMap → W → Type 0
    Returns ss r w = Values ss r.0

    get_secret_values-Returns :
        (ss : List SecretObject) (m : VersionMap) (w : W)
        → Ensures (Returns ss) (get_secret_values services limiter provider tools ss m w)
    unfolding get_secret_values
    get_secret_values-Returns [] m w = nothing
    get_secret_values-Returns (s ∷ ss) m w =
        Ensures-bind (OfObject s) (Returns (s ∷ ss))
          (get_object services limiter provider tools s m w) _ (get_object-OfObject s m w)
          (λ (x : List SecretValue × VersionMap) u (v, vs, e, own, extracted).
            Ensures-bind (Returns ss) (Returns (s ∷ ss))
              (get_secret_values services limiter provider tools ss x.1 u) _
              (get_secret_values-Returns ss x.1 u)
              (λ (y : List SecretValue × VersionMap) u' f.
                rw e (and_then s ss v vs y.0 own extracted f)))

    -- When `GetSecretValues` succeeds, it returns for each object, in order, its own secret and then one
    -- value for each of its JMESPath entries under the entry's alias. The bytes of the secret were read
    -- back from the object's file, if it asks for a version, or stand, decoded if they are binary, in a
    -- response of the service of its type, KMS for the empty one, which its own client or else the
    -- provider's asked for the secret by its name, for KMS with its version and stage too; and those of
    -- an entry are the string that its search found in the JSON of these bytes.
    pub get_secret_values_sound :
        (ss : List SecretObject) (m m' : VersionMap) (vs : List SecretValue) (w w' : W)
        → get_secret_values services limiter provider tools ss m w ≡ (ok (vs, m'), w')
        → Values ss vs
    get_secret_values_sound ss m m' vs w w' h =
        Ensures-at (Returns ss) _ (vs, m') w' h (get_secret_values-Returns ss m w)
