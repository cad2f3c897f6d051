-- ===== src/Server/ResolveSettled.antt =====
-- The loop of `Mount` in server/server.go settles if the SDKs do.
use secrets_store_csi_driver.Prelude.{
  ℕ, Text, ◌≡◌, ◌≢◌, inl, inr, List, [], ◌∷◌, All, Option, none, some, false, ◌||◌, eq_text,
  is_empty, Bool-cases,
}
use secrets_store_csi_driver.Outcome.{
  Error, role_provider_failed, passed_on, assume_role_failed, kms_client_failed, oos_client_failed,
  cross_account_kms_client_failed, cross_account_oos_client_failed,
}
use secrets_store_csi_driver.Exec.{Exec, wrapped, lift}
use secrets_store_csi_driver.Settles.{
  Settles, Replies, IsAnything, Settles-bind, Settles-continue, Settles-reply, Settles-wrapped,
}
use secrets_store_csi_driver.SecretObject.{SecretObject}
use secrets_store_csi_driver.SecretObject.Listing.{object_type_kms, object_type_oos}
use secrets_store_csi_driver.Auth.Methods.{Credential}
use secrets_store_csi_driver.Server.Keyed.{Keyed, load}
use secrets_store_csi_driver.Server.Config.{ClientConfig, kms_endpoint_of, kms_config, oos_config}
use secrets_store_csi_driver.Server.Clients.{
  Sdk, new_kms_client, new_oos_client, create_cross_account_credential,
}
use secrets_store_csi_driver.Server.Resolve.{
  Cache, Caches, is_supported, loaded_or_made, role_client, base_client, credential_from,
  role_credential, client_for, resolve, resolve_all,
}

-- What the loop needs of the SDKs: no failure if `E` is empty.
pub record SdkAnswers (E : Type 0) {W : Type 0} (sdk : Sdk W) : Type 0 where
  pub new_kms : (c : ClientConfig) (w : W) → Replies E IsAnything (sdk.new_kms c w).0
  pub new_oos : (c : ClientConfig) (w : W) → Replies E IsAnything (sdk.new_oos c w).0
  pub new_role_credential :
      (base : Credential) (role_arn session_name : Text) (w : W)
      → role_arn ≢ []
      → Replies E IsAnything (sdk.new_role_credential base role_arn session_name w).0

-- The object's type is supported and its endpoint accepted, or failures are allowed.
abbrev pub IsServable : Type 0 → Text → SecretObject → Type 0
IsServable E region s =
    (is_supported s.object_type ≡ false → E) × Settles E (kms_endpoint_of s.kms_endpoint region)

module _ {W : Type 0} (E : Type 0) where
  loaded_or_made-Settles :
      (make : Exec W ℕ) (wrap : Error → Error) (key : Text) (m : Keyed (Option ℕ))
      (found : Option (Option ℕ)) (w : W)
      → Settles E (make w).0
      → Settles E (loaded_or_made make wrap key m found w).0
  unfolding loaded_or_made
  loaded_or_made-Settles make wrap key m (some actual) w h = tt
  loaded_or_made-Settles make wrap key m none w h =
      Settles-continue E (wrapped wrap (make w)) _ (Settles-wrapped E wrap (make w) h)
        (λ c w' e. tt)

  base_client-Settles :
      (make : Exec W ℕ) (wrap : Error → Error) (base : Option ℕ) (w : W)
      → Settles E (make w).0
      → Settles E (base_client make wrap base w).0
  unfolding base_client
  base_client-Settles make wrap (some c) w h = tt
  base_client-Settles make wrap none w h = Settles-wrapped E wrap (make w) h

module _ {W : Type 0} (E : Type 0) (sdk : Sdk W) (answers : SdkAnswers E sdk) (cred : Credential)
    (region : Text) where
  new_kms_client-Settles :
      (c : Credential) (endpoint : Text) (w : W)
      → Settles E (kms_endpoint_of endpoint region)
      → Settles E (new_kms_client sdk c endpoint region w).0
  unfolding new_kms_client kms_config
  new_kms_client-Settles c endpoint w h =
      Settles-continue E (lift (kms_config c endpoint region) w) _
        (Settles-bind E (kms_endpoint_of endpoint region) _ h (λ host e. tt))
        (λ config w' e.
          Settles-reply E IsAnything (sdk.new_kms config w') passed_on (answers.new_kms config w'))

  new_oos_client-Settles : (c : Credential) (w : W) → Settles E (new_oos_client sdk c region w).0
  unfolding new_oos_client
  new_oos_client-Settles c w =
      Settles-reply E IsAnything (sdk.new_oos (oos_config c region) w) passed_on
        (answers.new_oos (oos_config c region) w)

  credential_from-Settles :
      (name : Text) (d : ℕ) (s : Text) (m : Keyed Credential) (found : Option Credential) (w : W)
      → Settles E (credential_from sdk cred region name (d ∷ s) m found w).0
  unfolding credential_from create_cross_account_credential
  credential_from-Settles name d s m (some c) w = tt
  credential_from-Settles name d s m none w =
      Settles-continue E
        (wrapped (assume_role_failed (d ∷ s) name)
          (create_cross_account_credential sdk (some cred) (d ∷ s) w))
        _
        (Settles-wrapped E (assume_role_failed (d ∷ s) name) _ (
          Settles-reply E IsAnything _ (role_provider_failed (d ∷ s))
            (answers.new_role_credential cred (d ∷ s) _ w (λ q. cc))))
        (λ c w' e. tt)

  client_for-Settles :
      (make : Credential → Exec W ℕ) (base_wrap role_wrap : Error → Error) (name role_arn : Text)
      (cache : Cache) (creds : Keyed Credential) (w : W)
      → ((c : Credential) (w : W) → Settles E (make c w).0)
      → Settles E
          (client_for sdk cred region make base_wrap role_wrap name role_arn cache creds w).0
  unfolding client_for role_credential role_client
  client_for-Settles make base_wrap role_wrap name [] cache creds w h =
      Settles-continue E (base_client (make cred) base_wrap cache.base w) _
        (base_client-Settles E (make cred) base_wrap cache.base w (h cred w)) (λ c w' e. tt)
  client_for-Settles make base_wrap role_wrap name (d ∷ s) cache creds w h =
      Settles-continue E (role_credential sdk cred region name (d ∷ s) creds w) _
        (credential_from-Settles name d s creds (load (d ∷ s) creds) w)
        (λ (r : Credential × Keyed Credential) w' e.
          Settles-continue E (role_client (make r.0) role_wrap (d ∷ s) cache.by_role w') _
            (loaded_or_made-Settles E (make r.0) role_wrap (d ∷ s) cache.by_role
              (load (d ∷ s) cache.by_role) w' (h r.0 w'))
            (λ x w'' f. tt))

  resolve-Settles :
      (s : SecretObject) (caches : Caches) (w : W)
      → IsServable E region s
      → Settles E (resolve sdk cred region s caches w).0
  unfolding resolve
  resolve-Settles s caches w (h, k) = elim (Bool-cases (is_supported s.object_type)) [
    | inr q ↦ rw q (h q)
    | inl q ↦ elim (Bool-cases (is_empty s.object_type || eq_text s.object_type object_type_kms)) [
      | inl p ↦
          rw (q, p)
            (Settles-continue E
              (client_for sdk cred region (λ c. new_kms_client sdk c s.kms_endpoint region)
                kms_client_failed cross_account_kms_client_failed s.object_name
                s.cross_account_role_arn caches.kms caches.credentials w)
              _
              (client_for-Settles _ _ _ _ _ caches.kms caches.credentials w
                (λ c w'. new_kms_client-Settles c s.kms_endpoint w' k))
              (λ x w' e. tt))
      | inr p ↦ elim (Bool-cases (eq_text s.object_type object_type_oos)) [
        | inl r ↦
            rw (q, p, r)
              (Settles-continue E
                (client_for sdk cred region (λ c. new_oos_client sdk c region) oos_client_failed
                  cross_account_oos_client_failed s.object_name s.cross_account_role_arn caches.oos
                  caches.credentials w)
                _
                (client_for-Settles _ _ _ _ _ caches.oos caches.credentials w
                  (λ c w'. new_oos_client-Settles c w'))
                (λ x w' e. tt))
        | inr r ↦ rw (q, p, r) tt
      ]
    ]
  ]

  pub resolve_all-Settles :
      (ss : List SecretObject) (caches : Caches) (w : W)
      → All (IsServable E region) ss
      → Settles E (resolve_all sdk cred region ss caches w).0
  unfolding resolve_all
  resolve_all-Settles [] caches w h = tt
  resolve_all-Settles (s ∷ ss) caches w (h, hs) =
      Settles-continue E (resolve sdk cred region s caches w) _ (resolve-Settles s caches w h)
        (λ (x : SecretObject × Caches) w' e.
          Settles-continue E (resolve_all sdk cred region ss x.1 w') _
            (resolve_all-Settles ss x.1 w' hs) (λ y w'' f. tt))
