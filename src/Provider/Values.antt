-- ===== src/Provider/Values.antt =====
-- Which objects the values of `GetSecretValues` are of.
use mathlib.Core.List.{map-append}
use mathlib.Core.Path.{ap₂}
use secrets_store_csi_driver.Prelude.{
  ℕ, Text, ◌≡◌, refl, ap, sym, ◌∙◌, inl, inr, List, [], ◌∷◌, ◌++◌, map, Bool, true, false, Option,
  none, some, is_empty, eq_text, ◌||◌, Bool-cases, if◌then◌else◌,
}
use secrets_store_csi_driver.Outcome
use secrets_store_csi_driver.Outcome.{
  ok-injective, Outcome, ok, err, panic, Error, Reply, done, failed, passed_on,
  unsupported_secret_type,
}
use secrets_store_csi_driver.Exec.{
  lift, reply, Ensures, Ensures-all, Ensures-lift, Ensures-bind, ◌>>◌,
}
use secrets_store_csi_driver.PullLimit.{Limiter, wait}
use secrets_store_csi_driver.SecretObject.{
  KmsClient, OosClient, SecretObject, get_mount_path, get_jmes_entry_secret_object,
}
use secrets_store_csi_driver.SecretObject.Listing.{object_type_kms, object_type_oos}
use secrets_store_csi_driver.SecretValue.{SecretValue, JsonTools, get_json_secrets}
use secrets_store_csi_driver.SecretValue.Extraction.{get_json_secrets-objects}
use secrets_store_csi_driver.VersionMap.{VersionMap}
use secrets_store_csi_driver.Provider.Types.{
  KmsBody, Services, SecretsManagerProvider, deref, kms_bytes, read_kms_body, read_oos_body,
  kms_request, wait_timeout,
}
use secrets_store_csi_driver.Provider.{
  is_current, with_retry, get_kms_secret, get_oos_secret, reload_secret, fetch_secret, obtain,
  get_object, get_secret_values, own_or,
}

-- The objects whose values are returned for an object.
abbrev pub shown : SecretObject → List SecretObject
shown s = s ∷ map (get_jmes_entry_secret_object s) s.jmes_path

abbrev pub all_shown : List SecretObject → List SecretObject
all_shown [] = []
all_shown (s ∷ ss) = shown s ++ all_shown ss

read_kms_body-object :
    (decode : Text → Reply (List ℕ)) (s : SecretObject) (r : Option KmsBody)
    (x : Text × SecretValue)
    → read_kms_body decode s r ≡ ok x
    → x.1.secret_obj ≡ s
unfolding read_kms_body
read_kms_body-object decode s r x h =
    let (body, _, h') = Outcome.>>=-eq-ok (deref r) _ h in
    let (bytes, _, h'') = Outcome.>>=-eq-ok (kms_bytes decode s body) _ h' in
    let (version, _, last) = Outcome.>>=-eq-ok (deref body.version_id) _ h'' in
    sym (ap (λ (y : Text × SecretValue). y.1.secret_obj) (ok-injective _ x last))

read_oos_body-object :
    (s : SecretObject) (r : Option Text) (x : Text × SecretValue)
    → read_oos_body s r ≡ ok x
    → x.1.secret_obj ≡ s
unfolding read_oos_body
read_oos_body-object s r x h =
    let (text, _, last) = Outcome.>>=-eq-ok (deref r) _ h in
    sym (ap (λ (y : Text × SecretValue). y.1.secret_obj) (ok-injective _ x last))

module _ {W : Type 0} (services : Services W) where
  -- A value of this object.
  abbrev pub IsOf : SecretObject → Text × SecretValue → W → Type 0
  IsOf s x w = x.1.secret_obj ≡ s

  -- Nothing is known.
  abbrev IsAny : {A : Type 0} → A → W → Type 0
  IsAny a w = Unit

  get_kms_secret-IsOf :
      (c : Option KmsClient) (s : SecretObject) (w : W)
      → Ensures (IsOf s) (get_kms_secret services c s w)
  unfolding get_kms_secret
  get_kms_secret-IsOf none s w = tt
  get_kms_secret-IsOf (some c) s w =
      Ensures-bind IsAny (IsOf s)
        (with_retry services (services.get_secret_value c (kms_request s)) s.object_name w) _
        (Ensures-all IsAny _ (λ a w'. tt))
        (λ r w' _. Ensures-lift (IsOf s) _ w' (read_kms_body-object services.base64_decode s r))

  get_oos_secret-IsOf :
      (c : Option OosClient) (s : SecretObject) (w : W)
      → Ensures (IsOf s) (get_oos_secret services c s w)
  unfolding get_oos_secret
  get_oos_secret-IsOf none s w = tt
  get_oos_secret-IsOf (some c) s w =
      Ensures-bind IsAny (IsOf s) (with_retry services _ s.object_name w) _
        (Ensures-all IsAny _ (λ a w'. tt))
        (λ r w' _. Ensures-lift (IsOf s) _ w' (read_oos_body-object s r))

  -- A value read back for this object.
  abbrev IsReread : SecretObject → SecretValue → W → Type 0
  IsReread s v w = v.secret_obj ≡ s

  reload_secret-IsReread :
      (s : SecretObject) (w : W) → Ensures (IsReread s) (reload_secret services s w)
  unfolding reload_secret
  reload_secret-IsReread s w =
      Ensures-bind IsAny (IsReread s) (reply (services.read_file (get_mount_path s) w) passed_on) _
        (Ensures-all IsAny _ (λ a w'. tt)) (λ value w' _. refl)

  -- Values of these objects.
  abbrev pub AreOf : List SecretObject → List SecretValue → W → Type 0
  AreOf os vs w = map (λ (v : SecretValue). v.secret_obj) vs ≡ os

  abbrev pub ReturnsOf : List SecretObject → List SecretValue × VersionMap → W → Type 0
  ReturnsOf os r w = AreOf os r.0 w

  module _ (limiter : Limiter) (provider : SecretsManagerProvider) where
    fetch_secret-IsOf :
        (s : SecretObject) (w : W) → Ensures (IsOf s) (fetch_secret services limiter provider s w)
    unfolding fetch_secret
    fetch_secret-IsOf s w =
        elim (Bool-cases (eq_text s.object_type object_type_kms || is_empty s.object_type)) [
          | inl k ↦ rw k (
              Ensures-bind IsAny (IsOf s) (wait services.rate_wait limiter.kms wait_timeout w) _
                (Ensures-all IsAny _ (λ a w'. tt))
                (λ _ w' _. get_kms_secret-IsOf (own_or s.kms_client provider.kms_client) s w'))
          | inr k ↦ rw k (oos (eq_text s.object_type object_type_oos))
        ]
      where
        oos :
            (b : Bool)
            → Ensures (IsOf s) (
                (if b
                    then (do
                      wait services.rate_wait limiter.oos wait_timeout
                      get_oos_secret services (own_or s.oos_client provider.oos_client) s)
                    else lift (err (unsupported_secret_type s.object_type)))
                  w)
        oos true =
            Ensures-bind IsAny (IsOf s) (wait services.rate_wait limiter.oos wait_timeout w) _
              (Ensures-all IsAny _ (λ a w'. tt))
              (λ _ w' _. get_oos_secret-IsOf (own_or s.oos_client provider.oos_client) s w')
        oos false = tt

    pub obtain-IsOf :
        (s : SecretObject) (current : Bool × Text) (w : W)
        → Ensures (IsOf s) (obtain services limiter provider s current w)
    unfolding obtain
    obtain-IsOf s (true, version) w =
        Ensures-bind (IsReread s) (IsOf s) (reload_secret services s w) _
          (reload_secret-IsReread s w) (λ v w' e. e)
    obtain-IsOf s (false, version) w = fetch_secret-IsOf s w

    module _ (tools : JsonTools) where
      get_object-ReturnsOf :
          (s : SecretObject) (m : VersionMap) (w : W)
          → Ensures (ReturnsOf (shown s)) (get_object services limiter provider tools s m w)
      unfolding get_object
      get_object-ReturnsOf s m w =
          let entries = map (get_jmes_entry_secret_object s) s.jmes_path in
          Ensures-bind (IsOf s) (ReturnsOf (shown s))
            (obtain services limiter provider s (is_current s m) w) _
            (obtain-IsOf s (is_current s m) w)
            (λ (x : Text × SecretValue) w' e.
              Ensures-bind (AreOf entries) (ReturnsOf (shown s))
                (lift (get_json_secrets tools x.1) w') _
                (Ensures-lift (AreOf entries) (get_json_secrets tools x.1) w' (λ vs h.
                  get_json_secrets-objects tools x.1 vs h
                  ∙ ap (λ (o : SecretObject). map (get_jmes_entry_secret_object o) o.jmes_path) e))
                (λ vs w'' f. ap₂ (λ y ys. y ∷ ys) e f))

      pub get_secret_values-ReturnsOf :
          (ss : List SecretObject) (m : VersionMap) (w : W)
          → Ensures
              (ReturnsOf (all_shown ss))
              (get_secret_values services limiter provider tools ss m w)
      unfolding get_secret_values
      get_secret_values-ReturnsOf [] m w = refl
      get_secret_values-ReturnsOf (s ∷ ss) m w =
          Ensures-bind (ReturnsOf (shown s)) (ReturnsOf (all_shown (s ∷ ss)))
            (get_object services limiter provider tools s m w) _ (get_object-ReturnsOf s m w)
            (λ (x : List SecretValue × VersionMap) w' e.
              Ensures-bind (ReturnsOf (all_shown ss)) (ReturnsOf (all_shown (s ∷ ss)))
                (get_secret_values services limiter provider tools ss x.1 w') _
                (get_secret_values-ReturnsOf ss x.1 w')
                (λ (y : List SecretValue × VersionMap) w'' f.
                  map-append (λ (v : SecretValue). v.secret_obj) x.0 y.0
                  ∙ ap₂ (λ xs ys. xs ++ ys) e f))
