-- ===== src/Server/Resolved.antt =====
-- The loop of `Mount` in server/server.go: every object has its client behind it.
use mathlib.Core.Path.{ap₂}
use secrets_store_csi_driver.Prelude.{
  ℕ, Text, ◌≡◌, ◌≢◌, refl, ◌⊎◌, inl, inr, List, [], ◌∷◌, map, All, Option, none, some, true, false,
  ◌||◌, eq_text, eq_text_iff, is_empty, Bool-cases, arith,
}
use secrets_store_csi_driver.Outcome.{
  ok, Error, kms_client_failed, oos_client_failed, cross_account_kms_client_failed,
  cross_account_oos_client_failed,
}
use secrets_store_csi_driver.Exec.{Exec, wrapped, Ensures, Ensures-at, Ensures-all, Ensures-bind}
use secrets_store_csi_driver.SecretObject.{KmsClient, OosClient, SecretObject}
use secrets_store_csi_driver.SecretObject.Listing.{object_type_kms, object_type_oos}
use secrets_store_csi_driver.Auth.Methods.{Credential}
use secrets_store_csi_driver.Server.Keyed.{Keyed, load, store, load-store}
use secrets_store_csi_driver.Server.Clients.{Sdk, new_kms_client, new_oos_client}
use secrets_store_csi_driver.Server.Resolve.{
  Cache, Caches, no_caches, is_supported, loaded_or_made, role_client, base_client, replaced_by,
  role_credential, client_for, resolve, resolve_all,
}

-- An object without its clients.
abbrev pub bare : SecretObject → SecretObject
bare s = record s { kms_client = none; oos_client = none }

-- No key stands for a placeholder.
abbrev pub NoPlaceholder : Keyed (Option ℕ) → Type 0
NoPlaceholder m = (key : Text) → load key m ≢ some none

abbrev IsFull : Caches → Type 0
IsFull c = NoPlaceholder c.kms.by_role × NoPlaceholder c.oos.by_role

-- The object has a client for its type.
pub data HasClient (s : SecretObject) : Type 0 where
  kms :
      (c : KmsClient)
      → (s.object_type ≡ object_type_kms) ⊎ (s.object_type ≡ [])
      → s.kms_client ≡ some c
      → HasClient s
  oos : (c : OosClient) → s.object_type ≡ object_type_oos → s.oos_client ≡ some c → HasClient s

replaced_by-some : (old new : Option ℕ) → new ≢ none → (c : ℕ) × (replaced_by old new ≡ some c)
replaced_by-some old none h = absurd (h refl)
replaced_by-some old (some c) h = (c, refl)

pub kms_type :
    (t : Text) → (is_empty t || eq_text t object_type_kms) ≡ true → (t ≡ object_type_kms) ⊎ (t ≡ [])
kms_type [] h = inr refl
kms_type (c ∷ t) h = inl ((eq_text_iff (c ∷ t) object_type_kms).0 h)

pub not_supported :
    (t : Text)
    → is_supported t ≡ true
    → (is_empty t || eq_text t object_type_kms) ≡ false
    → eq_text t object_type_oos ≡ false
    → ⊥
unfolding is_supported
not_supported t h p k = ground (arith, h, p, k)

kms_client-HasClient :
    (s : SecretObject) (c : Option ℕ)
    → c ≢ none
    → (s.object_type ≡ object_type_kms) ⊎ (s.object_type ≡ [])
    → HasClient (record s { kms_client = replaced_by s.kms_client c })
kms_client-HasClient s c h t = let (d, e) = replaced_by-some s.kms_client c h in kms d t e

oos_client-HasClient :
    (s : SecretObject) (c : Option ℕ)
    → c ≢ none
    → s.object_type ≡ object_type_oos
    → HasClient (record s { oos_client = replaced_by s.oos_client c })
oos_client-HasClient s c h t = let (d, e) = replaced_by-some s.oos_client c h in oos d t e

pub store-NoPlaceholder :
    (key : Text) (c : ℕ) (m : Keyed (Option ℕ))
    → NoPlaceholder m
    → NoPlaceholder (store key (some c) (store key none m))
store-NoPlaceholder key c m h other e = ground (
  arith,
  load-store key other (some c) (store key none m),
  load-store key other none m,
  h other,
  e,
)

module _ {W : Type 0} where
  -- A client that is there, and the entries behind.
  abbrev IsClient : Option ℕ × Keyed (Option ℕ) → W → Type 0
  IsClient r w = (r.0 ≢ none) × NoPlaceholder r.1

  abbrev IsAny : {A : Type 0} → A → W → Type 0
  IsAny a w = Unit

  loaded_or_made-IsClient :
      (make : Exec W ℕ) (wrap : Error → Error) (key : Text) (m : Keyed (Option ℕ))
      (found : Option (Option ℕ)) (w : W)
      → NoPlaceholder m
      → found ≢ some none
      → Ensures IsClient (loaded_or_made make wrap key m found w)
  unfolding loaded_or_made
  loaded_or_made-IsClient make wrap key m none w h n =
      Ensures-bind IsAny IsClient (wrapped wrap (make w)) _ (Ensures-all IsAny _ (λ a k. tt))
        (λ c w' _. ((λ q. cc), store-NoPlaceholder key c m h))
  loaded_or_made-IsClient make wrap key m (some none) w h n = absurd (n refl)
  loaded_or_made-IsClient make wrap key m (some (some c)) w h n = ((λ q. cc), h)

  -- What is known of a client for an object.
  abbrev IsClientFor : Option ℕ × Cache × Keyed Credential → W → Type 0
  IsClientFor r w = (r.0 ≢ none) × NoPlaceholder r.1.by_role

module _ {W : Type 0} (sdk : Sdk W) (cred : Credential) (region : Text) where
  client_for-IsClientFor :
      (make : Credential → Exec W ℕ) (base_wrap role_wrap : Error → Error) (name role_arn : Text)
      (cache : Cache) (creds : Keyed Credential) (w : W)
      → NoPlaceholder cache.by_role
      → Ensures IsClientFor
          (client_for sdk cred region make base_wrap role_wrap name role_arn cache creds w)
  unfolding client_for role_client
  client_for-IsClientFor make base_wrap role_wrap name [] cache creds w h =
      Ensures-bind IsAny IsClientFor (base_client (make cred) base_wrap cache.base w) _
        (Ensures-all IsAny _ (λ a k. tt)) (λ c w' _. ((λ q. cc), h))
  client_for-IsClientFor make base_wrap role_wrap name (c ∷ s) cache creds w h =
      Ensures-bind IsAny IsClientFor (role_credential sdk cred region name (c ∷ s) creds w) _
        (Ensures-all IsAny _ (λ a k. tt))
        (λ (r : Credential × Keyed Credential) w' _.
          Ensures-bind IsClient IsClientFor
            (role_client (make r.0) role_wrap (c ∷ s) cache.by_role w') _
            (loaded_or_made-IsClient (make r.0) role_wrap (c ∷ s) cache.by_role
              (load (c ∷ s) cache.by_role) w' h (h (c ∷ s)))
            (λ (x : Option ℕ × Keyed (Option ℕ)) w'' k. k))

  -- A round gives the object its client, and leaves the rest of it and no placeholder.
  abbrev IsResolved : SecretObject → SecretObject × Caches → W → Type 0
  IsResolved s r w = HasClient r.0 × (bare r.0 ≡ bare s) × IsFull r.1

  resolve-IsResolved :
      (s : SecretObject) (caches : Caches) (w : W)
      → IsFull caches
      → Ensures (IsResolved s) (resolve sdk cred region s caches w)
  unfolding resolve
  resolve-IsResolved s caches w (hk, ho) = elim (Bool-cases (is_supported s.object_type)) [
    | inr q ↦ rw q tt
    | inl q ↦ elim (Bool-cases (is_empty s.object_type || eq_text s.object_type object_type_kms)) [
      | inl p ↦
          rw (q, p)
            (Ensures-bind IsClientFor (IsResolved s)
              (client_for sdk cred region (λ c. new_kms_client sdk c s.kms_endpoint region)
                kms_client_failed cross_account_kms_client_failed s.object_name
                s.cross_account_role_arn caches.kms caches.credentials w)
              _ (client_for-IsClientFor _ _ _ _ _ caches.kms caches.credentials w hk)
              (λ (r : Option ℕ × Cache × Keyed Credential) w' (n, full).
                (kms_client-HasClient s r.0 n (kms_type s.object_type p), refl, (full, ho))))
      | inr p ↦ elim (Bool-cases (eq_text s.object_type object_type_oos)) [
        | inl k ↦
            rw (q, p, k)
              (Ensures-bind IsClientFor (IsResolved s)
                (client_for sdk cred region (λ c. new_oos_client sdk c region) oos_client_failed
                  cross_account_oos_client_failed s.object_name s.cross_account_role_arn caches.oos
                  caches.credentials w)
                _ (client_for-IsClientFor _ _ _ _ _ caches.oos caches.credentials w ho)
                (λ (r : Option ℕ × Cache × Keyed Credential) w' (n, full). (
                  oos_client-HasClient s r.0 n ((eq_text_iff s.object_type object_type_oos).0 k),
                  refl,
                  (hk, full),
                )))
        | inr k ↦ absurd (not_supported s.object_type q p k)
      ]
    ]
  ]

  -- The loop gives every object its client, and changes nothing else of them.
  abbrev pub AreResolved : List SecretObject → List SecretObject × Caches → W → Type 0
  AreResolved ss r w = All HasClient r.0 × (map bare r.0 ≡ map bare ss)

  resolve_all-AreResolved :
      (ss : List SecretObject) (caches : Caches) (w : W)
      → IsFull caches
      → Ensures (AreResolved ss) (resolve_all sdk cred region ss caches w)
  unfolding resolve_all
  resolve_all-AreResolved [] caches w h = (tt, refl)
  resolve_all-AreResolved (s ∷ ss) caches w h =
      Ensures-bind (IsResolved s) (AreResolved (s ∷ ss)) (resolve sdk cred region s caches w) _
        (resolve-IsResolved s caches w h)
        (λ (x : SecretObject × Caches) w' k.
          Ensures-bind (AreResolved ss) (AreResolved (s ∷ ss))
            (resolve_all sdk cred region ss x.1 w') _ (resolve_all-AreResolved ss x.1 w' k.2)
            (λ (y : List SecretObject × Caches) w'' l.
              ((k.0, l.0), ap₂ (λ (o : SecretObject) os. o ∷ os) k.1 l.1)))

  pub no_caches-AreResolved :
      (ss : List SecretObject) (w : W)
      → Ensures (AreResolved ss) (resolve_all sdk cred region ss no_caches w)
  no_caches-AreResolved ss w =
      resolve_all-AreResolved ss no_caches w
        ((λ key. unfold load in λ e. cc), (λ key. unfold load in λ e. cc))

  -- When the loop ends, every object has a client for its type, and is the object that it was but for
  -- the clients.
  pub resolve_all-HasClient :
      (ss rs : List SecretObject) (caches : Caches) (w w' : W)
      → resolve_all sdk cred region ss no_caches w ≡ (ok (rs, caches), w')
      → All HasClient rs × (map bare rs ≡ map bare ss)
  resolve_all-HasClient ss rs caches w w' h =
      Ensures-at (AreResolved ss) _ (rs, caches) w' h (no_caches-AreResolved ss w)
