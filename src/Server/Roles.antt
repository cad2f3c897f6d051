-- ===== src/Server/Roles.antt =====
-- The loop of `Mount` in server/server.go: a round makes at most one credential for a
-- role.
use mathlib.Core.Bool.{false≢true}
use secrets_store_csi_driver.Prelude.{
  ℕ, suc, Text, ◌≡◌, refl, sym, ◌∙◌, ◌⊎◌, inl, inr, List, [], ◌∷◌, ◌++◌, map, In, Option, none,
  some, ◌||◌, eq_text, eq_text_iff, is_empty, Bool-cases,
}
use secrets_store_csi_driver.Outcome.{
  ok, Error, Failure, Reply, done, failed, Outcome, err, panic, passed_on, assume_role_failed,
  role_provider_failed, kms_client_failed, oos_client_failed, cross_account_kms_client_failed,
  cross_account_oos_client_failed,
}
use secrets_store_csi_driver.Exec.{Exec, lift, reply, wrapped, Ensures, Ensures-bind, Ensures-lift}
use secrets_store_csi_driver.SecretObject.{SecretObject}
use secrets_store_csi_driver.SecretObject.Listing.{object_type_kms, object_type_oos}
use secrets_store_csi_driver.Auth.Methods.{Credential}
use secrets_store_csi_driver.Server.Config.{ClientConfig, kms_config, oos_config}
use secrets_store_csi_driver.Server.Keyed.{Keyed, load, store}
use secrets_store_csi_driver.Server.Clients.{
  Sdk, new_kms_client, new_oos_client, create_cross_account_credential,
}
use secrets_store_csi_driver.Server.Resolve.{
  Cache, Caches, is_supported, loaded_or_made, role_client, base_client, credential_from,
  role_credential, client_for, resolve,
}

abbrev pub keys : {A : Type 0} → Keyed A → List Text
keys m = map (λ e. e.0) m

-- A key that is not found is new, and is stored behind the others.
keys-store :
    {A : Type 0} (key : Text) (a : A) (m : Keyed A)
    → load key m ≡ none
    → (keys (store key a m) ≡ keys m ++ key ∷ []) × ¬ In key (keys m)
unfolding load store
keys-store key a [] e = (refl, λ h. h)
keys-store key a ((k, b) ∷ m) e = elim (Bool-cases (eq_text k key)) [
  | inl q ↦ absurd (found b (rw q at e))
  | inr q ↦
      let (f, n) = keys-store key a m (rw q at e) in
      (
        rw (q, f) refl,
        λ h. elim h [ inl i ↦ false≢true (sym q ∙ (eq_text_iff k key).1 i) | inr i ↦ n i ],
      )
]
  where
    found : {B : Type 0} (b : B) → some b ≡ none → ⊥
    found b h = cc

module _ {W : Type 0} (made : W → ℕ) where
  -- There is no new credential, or one has been made for the role.
  abbrev pub Grown : Text → Keyed Credential → W → Keyed Credential → W → Type 0
  Grown role m w n v =
      ((keys n ≡ keys m) × (made v ≡ made w))
      ⊎ ((¬ In role (keys m)) × (keys n ≡ keys m ++ role ∷ []) × (made v ≡ suc (made w)))

  abbrev pub RoundGrown : SecretObject → Caches → W → SecretObject × Caches → W → Type 0
  RoundGrown s caches w r v = Grown s.cross_account_role_arn caches.credentials w r.1.credentials v

module _ {W : Type 0} (sdk : Sdk W) where
  -- A measure of the world that counts the credentials that the SDK makes for roles.
  pub record CountsRoleCredentials (made : W → ℕ) : Type 0 where
    pub role_credential :
        (base : Credential) (role session : Text) (w : W)
        → made (sdk.new_role_credential base role session w).1 ≡ suc (made w)
    pub kms : (c : ClientConfig) (w : W) → made (sdk.new_kms c w).1 ≡ made w
    pub oos : (c : ClientConfig) (w : W) → made (sdk.new_oos c w).1 ≡ made w

  module _ (made : W → ℕ) (counts : CountsRoleCredentials made) (cred : Credential)
      (region : Text) where
    abbrev Same : {A : Type 0} → W → A → W → Type 0
    Same w a w' = made w' ≡ made w

    reply-Ensures :
        {A : Type 0} (P : W → Type 0) (r : Reply A × W) (e : Failure → Error)
        → P r.1
        → Ensures (λ a w. P w) (reply r e)
    reply-Ensures P (done a, w) e h = h
    reply-Ensures P (failed f, w) e h = tt

    wrapped-Ensures :
        {A : Type 0} (P : W → Type 0) (r : Outcome A × W) (f : Error → Error)
        → Ensures (λ a w. P w) r
        → Ensures (λ a w. P w) (wrapped f r)
    wrapped-Ensures P (ok a, w) f h = h
    wrapped-Ensures P (err e, w) f h = tt
    wrapped-Ensures P (panic, w) f h = tt

    credential_from-Grown :
        (name key : Text) (m : Keyed Credential) (found : Option Credential) (w : W)
        → load key m ≡ found
        → Ensures
            (λ r v. Grown made key m w r.1 v)
            (credential_from sdk cred region name key m found w)
    unfolding credential_from create_cross_account_credential
    credential_from-Grown name key m (some c) w e = inl (refl, refl)
    credential_from-Grown name [] m none w e = tt
    credential_from-Grown name (d ∷ s) m none w e =
        Ensures-bind (λ c v. made v ≡ suc (made w)) (λ r v. Grown made (d ∷ s) m w r.1 v)
          (wrapped (assume_role_failed (d ∷ s) name)
            (create_cross_account_credential sdk (some cred) (d ∷ s) w))
          _
          (wrapped-Ensures (λ v. made v ≡ suc (made w)) _ (assume_role_failed (d ∷ s) name)
            (reply-Ensures (λ v. made v ≡ suc (made w)) (sdk.new_role_credential cred (d ∷ s) _ w)
              (role_provider_failed (d ∷ s)) (counts.role_credential cred (d ∷ s) _ w)))
          (λ c v h. let (f, n) = keys-store (d ∷ s) c m e in inr (n, f, h))

    -- A maker of clients that makes no credential.
    abbrev IsIdle : Exec W ℕ → Type 0
    IsIdle make = (w : W) → Ensures (Same w) (make w)

    role_client-Same :
        (make : Exec W ℕ) (wrap : Error → Error) (key : Text) (m : Keyed (Option ℕ))
        (found : Option (Option ℕ)) (w : W)
        → IsIdle make
        → Ensures (Same w) (loaded_or_made make wrap key m found w)
    unfolding loaded_or_made
    role_client-Same make wrap key m (some c) w h = refl
    role_client-Same make wrap key m none w h =
        Ensures-bind (Same w) (Same w) (wrapped wrap (make w)) _
          (wrapped-Ensures (λ v. made v ≡ made w) (make w) wrap (h w)) (λ c v e. e)

    base_client-Same :
        (make : Exec W ℕ) (wrap : Error → Error) (base : Option ℕ) (w : W)
        → IsIdle make
        → Ensures (Same w) (base_client make wrap base w)
    unfolding base_client
    base_client-Same make wrap (some c) w h = refl
    base_client-Same make wrap none w h = wrapped-Ensures (λ v. made v ≡ made w) (make w) wrap (h w)

    abbrev IsGrown : Text → Keyed Credential → W → Option ℕ × Cache × Keyed Credential → W → Type 0
    IsGrown role m w r v = Grown made role m w r.2 v

    client_for-IsGrown :
        (make : Credential → Exec W ℕ) (base_wrap role_wrap : Error → Error) (name role : Text)
        (cache : Cache) (creds : Keyed Credential) (w : W)
        → ((c : Credential) → IsIdle (make c))
        → Ensures
            (IsGrown role creds w)
            (client_for sdk cred region make base_wrap role_wrap name role cache creds w)
    unfolding client_for role_credential role_client
    client_for-IsGrown make base_wrap role_wrap name [] cache creds w h =
        Ensures-bind (Same w) (IsGrown [] creds w) (base_client (make cred) base_wrap cache.base w)
          _ (base_client-Same (make cred) base_wrap cache.base w (h cred)) (λ c v e. inl (refl, e))
    client_for-IsGrown make base_wrap role_wrap name (d ∷ s) cache creds w h =
        Ensures-bind (λ r v. Grown made (d ∷ s) creds w r.1 v) (IsGrown (d ∷ s) creds w)
          (role_credential sdk cred region name (d ∷ s) creds w) _
          (credential_from-Grown name (d ∷ s) creds (load (d ∷ s) creds) w refl)
          (λ (r : Credential × Keyed Credential) v g.
            Ensures-bind (Same v) (IsGrown (d ∷ s) creds w)
              (role_client (make r.0) role_wrap (d ∷ s) cache.by_role v) _
              (role_client-Same (make r.0) role_wrap (d ∷ s) cache.by_role
                (load (d ∷ s) cache.by_role) v (h r.0))
              (λ x u e. elim g [ inl (a, b) ↦ inl (a, e ∙ b) | inr (n, a, b) ↦ inr (n, a, e ∙ b) ]))

    new_kms_client-IsIdle :
        (c : Credential) (endpoint : Text) → IsIdle (new_kms_client sdk c endpoint region)
    unfolding new_kms_client
    new_kms_client-IsIdle c endpoint w =
        Ensures-bind (Same w) (Same w) (lift (kms_config c endpoint region) w) _
          (Ensures-lift (Same w) (kms_config c endpoint region) w (λ a e. refl))
          (λ config v e.
            reply-Ensures (λ u. made u ≡ made w) (sdk.new_kms config v) passed_on
              (counts.kms config v ∙ e))

    new_oos_client-IsIdle : (c : Credential) → IsIdle (new_oos_client sdk c region)
    unfolding new_oos_client
    new_oos_client-IsIdle c w =
        reply-Ensures (λ u. made u ≡ made w) (sdk.new_oos (oos_config c region) w) passed_on
          (counts.oos (oos_config c region) w)

    pub resolve-RoundGrown :
        (s : SecretObject) (caches : Caches) (w : W)
        → Ensures (RoundGrown made s caches w) (resolve sdk cred region s caches w)
    unfolding resolve
    resolve-RoundGrown s caches w = elim (Bool-cases (is_supported s.object_type)) [
      | inr q ↦ rw q tt
      | inl q ↦
          elim (Bool-cases (is_empty s.object_type || eq_text s.object_type object_type_kms)) [
            | inl p ↦
                rw (q, p)
                  (Ensures-bind (IsGrown s.cross_account_role_arn caches.credentials w)
                    (RoundGrown made s caches w)
                    (client_for sdk cred region (λ c. new_kms_client sdk c s.kms_endpoint region)
                      kms_client_failed cross_account_kms_client_failed s.object_name
                      s.cross_account_role_arn caches.kms caches.credentials w)
                    _
                    (client_for-IsGrown _ _ _ _ _ caches.kms caches.credentials w
                      (λ c. new_kms_client-IsIdle c s.kms_endpoint))
                    (λ x v g. g))
            | inr p ↦ elim (Bool-cases (eq_text s.object_type object_type_oos)) [
              | inl k ↦
                  rw (q, p, k)
                    (Ensures-bind (IsGrown s.cross_account_role_arn caches.credentials w)
                      (RoundGrown made s caches w)
                      (client_for sdk cred region (λ c. new_oos_client sdk c region)
                        oos_client_failed cross_account_oos_client_failed s.object_name
                        s.cross_account_role_arn caches.oos caches.credentials w)
                      _
                      (client_for-IsGrown _ _ _ _ _ caches.oos caches.credentials w
                        (λ c. new_oos_client-IsIdle c))
                      (λ x v g. g))
              | inr k ↦ rw (q, p, k) (inl (refl, refl))
            ]
          ]
    ]
