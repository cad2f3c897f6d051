-- ===== src/Server/Shared.antt =====
-- The loop of `Mount` in server/server.go: objects of one role share a client.
use secrets_store_csi_driver.Prelude.{
  ℕ, Text, ◌≡◌, ◌≢◌, refl, ap, sym, ◌∙◌, [], ◌∷◌, Option, none, some, eq_text_refl,
}
use secrets_store_csi_driver.Outcome.{
  ok, Error, kms_client_failed, cross_account_kms_client_failed, assume_role_failed,
}
use secrets_store_csi_driver.Exec.{Exec, wrapped, Ensures, Ensures-at, Ensures-all, Ensures-bind}
use secrets_store_csi_driver.SecretObject.{SecretObject}
use secrets_store_csi_driver.Auth.Methods.{Credential}
use secrets_store_csi_driver.Server.Keyed.{Keyed, load, store, load-store}
use secrets_store_csi_driver.Server.Clients.{Sdk, new_kms_client, create_cross_account_credential}
use secrets_store_csi_driver.Server.Resolve.{
  Cache, Caches, loaded_or_made, role_client, client_for, resolve, role_credential, credential_from,
  replaced_by,
}
use secrets_store_csi_driver.Server.Resolved.{NoPlaceholder}
use secrets_store_csi_driver.Server.Kinds.{IsKms, kms_supported, kms_tested}

-- The key stands for this value.
stored : {A : Type 0} (key : Text) (a : A) (m : Keyed A) → load key (store key a m) ≡ some a
stored key a m = rw (load-store, eq_text_refl) refl

-- Nothing is known.
abbrev IsAny : {A W : Type 0} → A → W → Type 0
IsAny a w = Unit

module _ {W : Type 0} (key : Text) where
  -- The client that was found is stored under the key.
  abbrev IsStored : Option ℕ × Keyed (Option ℕ) → W → Type 0
  IsStored r w = (c : ℕ) × (r.0 ≡ some c) × (load key r.1 ≡ some (some c))

  loaded_or_made-IsStored :
      (make : Exec W ℕ) (wrap : Error → Error) (m : Keyed (Option ℕ)) (found : Option (Option ℕ))
      (w : W)
      → load key m ≡ found
      → found ≢ some none
      → Ensures IsStored (loaded_or_made make wrap key m found w)
  unfolding loaded_or_made
  loaded_or_made-IsStored make wrap m none w e n =
      Ensures-bind IsAny IsStored (wrapped wrap (make w)) _ (Ensures-all IsAny _ (λ a k. tt))
        (λ c w' _. (c, refl, stored key (some c) (store key none m)))
  loaded_or_made-IsStored make wrap m (some none) w e n = absurd (n refl)
  loaded_or_made-IsStored make wrap m (some (some c)) w e n = (c, refl, e)

  -- The credential is stored under the key.
  abbrev IsKnown : Credential × Keyed Credential → W → Type 0
  IsKnown r w = load key r.1 ≡ some r.0

  credential_from-IsKnown :
      (sdk : Sdk W) (cred : Credential) (region name : Text) (m : Keyed Credential)
      (found : Option Credential) (w : W)
      → load key m ≡ found
      → Ensures IsKnown (credential_from sdk cred region name key m found w)
  unfolding credential_from
  credential_from-IsKnown sdk cred region name m (some c) w e = e
  credential_from-IsKnown sdk cred region name m none w e =
      Ensures-bind IsAny IsKnown
        (wrapped (assume_role_failed key name)
          (create_cross_account_credential sdk (some cred) key w))
        _ (Ensures-all IsAny _ (λ a k. tt)) (λ c w' _. stored key c m)

module _ {W : Type 0} (sdk : Sdk W) (cred : Credential) (region : Text) where
  -- What an object of a role leaves behind: its client and a credential, under the role.
  abbrev IsRemembered : Text → Option ℕ × Cache × Keyed Credential → W → Type 0
  IsRemembered key r w =
      (c : ℕ) × (k : Credential) × (r.0 ≡ some c)
      × (load key r.1.by_role ≡ some (some c))
      × (load key r.2 ≡ some k)

  client_for-IsRemembered :
      (make : Credential → Exec W ℕ) (base_wrap role_wrap : Error → Error) (name key : Text)
      (cache : Cache) (creds : Keyed Credential) (w : W)
      → key ≢ []
      → load key cache.by_role ≢ some none
      → Ensures
          (IsRemembered key)
          (client_for sdk cred region make base_wrap role_wrap name key cache creds w)
  unfolding client_for role_client role_credential
  client_for-IsRemembered make base_wrap role_wrap name [] cache creds w given n =
      absurd (given refl)
  client_for-IsRemembered make base_wrap role_wrap name (d ∷ s) cache creds w given n =
      Ensures-bind (IsKnown (d ∷ s)) (IsRemembered (d ∷ s))
        (role_credential sdk cred region name (d ∷ s) creds w) _
        (credential_from-IsKnown (d ∷ s) sdk cred region name creds (load (d ∷ s) creds) w refl)
        (λ (r : Credential × Keyed Credential) w' known.
          Ensures-bind (IsStored (d ∷ s)) (IsRemembered (d ∷ s))
            (role_client (make r.0) role_wrap (d ∷ s) cache.by_role w') _
            (loaded_or_made-IsStored (d ∷ s) (make r.0) role_wrap cache.by_role
              (load (d ∷ s) cache.by_role) w' refl n)
            (λ (x : Option ℕ × Keyed (Option ℕ)) w'' (c, e, f). (c, r.0, e, f, known)))

  -- A role that is remembered needs no call.
  client_for-again :
      (make : Credential → Exec W ℕ) (base_wrap role_wrap : Error → Error) (name key : Text)
      (cache : Cache) (creds : Keyed Credential) (c : ℕ) (k : Credential) (w : W)
      → key ≢ []
      → load key cache.by_role ≡ some (some c)
      → load key creds ≡ some k
      → client_for sdk cred region make base_wrap role_wrap name key cache creds w
        ≡ (ok (some c, cache, creds), w)
  unfolding client_for role_client role_credential loaded_or_made credential_from
  client_for-again make base_wrap role_wrap name [] cache creds c k w given e f =
      absurd (given refl)
  client_for-again make base_wrap role_wrap name (d ∷ s) cache creds c k w given e f =
      rw (f, e) refl

  -- What a round leaves behind for a role.
  abbrev Remembers : Text → SecretObject × Caches → W → Type 0
  Remembers key r w =
      (c : ℕ) × (k : Credential) × (r.0.kms_client ≡ some c)
      × (load key r.1.kms.by_role ≡ some (some c))
      × (load key r.1.credentials ≡ some k)

  resolve-Remembers :
      (s : SecretObject) (caches : Caches) (w : W)
      → IsKms s.object_type
      → s.cross_account_role_arn ≢ []
      → NoPlaceholder caches.kms.by_role
      → Ensures (Remembers s.cross_account_role_arn) (resolve sdk cred region s caches w)
  unfolding resolve
  resolve-Remembers s caches w t given n =
      rw (kms_supported s.object_type t, kms_tested s.object_type t)
        (Ensures-bind (IsRemembered s.cross_account_role_arn) (Remembers s.cross_account_role_arn)
          (client_for sdk cred region (λ c. new_kms_client sdk c s.kms_endpoint region)
            kms_client_failed cross_account_kms_client_failed s.object_name s.cross_account_role_arn
            caches.kms caches.credentials w)
          _
          (client_for-IsRemembered (λ c. new_kms_client sdk c s.kms_endpoint region)
            kms_client_failed cross_account_kms_client_failed s.object_name s.cross_account_role_arn
            caches.kms caches.credentials w given (n s.cross_account_role_arn))
          (λ (r : Option ℕ × Cache × Keyed Credential) w' (c, k, e, f, g).
            (c, k, ap (λ x. replaced_by s.kms_client x) e, f, g)))

  resolve-again :
      (s : SecretObject) (caches : Caches) (c : ℕ) (k : Credential) (w : W)
      → IsKms s.object_type
      → s.cross_account_role_arn ≢ []
      → load s.cross_account_role_arn caches.kms.by_role ≡ some (some c)
      → load s.cross_account_role_arn caches.credentials ≡ some k
      → resolve sdk cred region s caches w ≡ (ok (record s { kms_client = some c }, caches), w)
  unfolding resolve
  resolve-again s caches c k w t given e f =
      rw
        (
          kms_supported s.object_type t,
          kms_tested s.object_type t,
          client_for-again (λ b. new_kms_client sdk b s.kms_endpoint region) kms_client_failed
              cross_account_kms_client_failed s.object_name s.cross_account_role_arn caches.kms
              caches.credentials c k w given e f,
        )
        refl

  -- Two objects for KMS of one role get one client, if no placeholder stands in the caches: when the
  -- first has been gone through, the second gets the client of the first, with no call of the SDK, and
  -- the caches stay as they are.
  pub resolve-same_role :
      (s s' t : SecretObject) (caches caches' : Caches) (w w' v : W)
      → IsKms s.object_type
      → IsKms s'.object_type
      → s.cross_account_role_arn ≢ []
      → s'.cross_account_role_arn ≡ s.cross_account_role_arn
      → NoPlaceholder caches.kms.by_role
      → resolve sdk cred region s caches w ≡ (ok (t, caches'), w')
      → (c : ℕ) × (t.kms_client ≡ some c)
        × (resolve sdk cred region s' caches' v
            ≡ (ok (record s' { kms_client = some c }, caches'), v))
  resolve-same_role s s' t caches caches' w w' v kind kind' given same n h =
      let (c, k, e, f, g) =
        Ensures-at (Remembers s.cross_account_role_arn) _ (t, caches') w' h
          (resolve-Remembers s caches w kind given n) in
      (
        c,
        e,
        resolve-again s' caches' c k v kind' (λ q. given (sym same ∙ q))
            (ap (λ r. load r caches'.kms.by_role) same ∙ f)
            (ap (λ r. load r caches'.credentials) same ∙ g),
      )
