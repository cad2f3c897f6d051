-- ===== src/Server/OneClient.antt =====
-- The loop of `Mount` in server/server.go: the objects of one kind and role have one client.
use secrets_store_csi_driver.Prelude.{
  ℕ, Text, ◌≡◌, refl, ap, sym, ◌∙◌, inl, inr, List, [], ◌∷◌, All, All-In, In, Bool, if◌then◌else◌,
  Option, some, false, ◌||◌, eq_text, eq_text_iff, is_empty, Bool-cases,
}
use secrets_store_csi_driver.Outcome.{
  ok, kms_client_failed, oos_client_failed, cross_account_kms_client_failed,
  cross_account_oos_client_failed,
}
use secrets_store_csi_driver.Exec.{Ensures, Ensures-at, Ensures-bind}
use secrets_store_csi_driver.SecretObject.{SecretObject}
use secrets_store_csi_driver.SecretObject.Listing.{object_type_kms, object_type_oos}
use secrets_store_csi_driver.Auth.Methods.{Credential}
use secrets_store_csi_driver.Server.Keyed.{Keyed, load}
use secrets_store_csi_driver.Server.Clients.{Sdk, new_kms_client, new_oos_client}
use secrets_store_csi_driver.Server.Resolve.{
  Cache, Caches, no_caches, is_supported, replaced_by, client_for, resolve, resolve_all,
}
use secrets_store_csi_driver.Server.Resolved.{NoPlaceholder, kms_type, not_supported}
use secrets_store_csi_driver.Server.Kinds.{IsKms}
use secrets_store_csi_driver.Server.Sharing.{cached_client, Grows, IsShared, client_for-IsShared}

-- A type for KMS is not that of OOS.
kms_not_oos : (t : Text) → IsKms t → eq_text t object_type_oos ≡ false
unfolding eq_text
kms_not_oos t (inl e) = rw e refl
kms_not_oos t (inr e) = rw e refl

-- The object's client is the one that the caches have for its kind and role.
pub data IsAssigned (caches : Caches) (s : SecretObject) : Type 0 where
  from_kms :
      (c : ℕ)
      → IsKms s.object_type
      → s.kms_client ≡ some c
      → cached_client caches.kms s.cross_account_role_arn ≡ some c
      → IsAssigned caches s
  from_oos :
      (c : ℕ)
      → s.object_type ≡ object_type_oos
      → s.oos_client ≡ some c
      → cached_client caches.oos s.cross_account_role_arn ≡ some c
      → IsAssigned caches s

abbrev IsFull : Caches → Type 0
IsFull caches = NoPlaceholder caches.kms.by_role × NoPlaceholder caches.oos.by_role

-- Both caches only grow.
abbrev AllGrow : Caches → Caches → Type 0
AllGrow a b = Grows a.kms b.kms × Grows a.oos b.oos

IsAssigned-Grows : (a b : Caches) (s : SecretObject) → AllGrow a b → IsAssigned a s → IsAssigned b s
IsAssigned-Grows a b s (g, h) (from_kms c t e f) = from_kms c t e (g s.cross_account_role_arn c f)
IsAssigned-Grows a b s (g, h) (from_oos c t e f) = from_oos c t e (h s.cross_account_role_arn c f)

-- The client that the fetching of an object uses.
abbrev pub client_of : SecretObject → Option ℕ
client_of s = if eq_text s.object_type object_type_oos then s.oos_client else s.kms_client

abbrev cache_of : Caches → Bool → Cache
cache_of caches is_oos = if is_oos then caches.oos else caches.kms

-- The client of an object by its kind and role.
abbrev IsCached : Caches → SecretObject → Type 0
IsCached caches s =
    (c : ℕ) × (client_of s ≡ some c)
    × (cached_client (cache_of caches (eq_text s.object_type object_type_oos))
          s.cross_account_role_arn
        ≡ some c)

IsAssigned-IsCached : (caches : Caches) (s : SecretObject) → IsAssigned caches s → IsCached caches s
IsAssigned-IsCached caches s (from_kms c t e f) =
    (c, rw (kms_not_oos s.object_type t) e, rw (kms_not_oos s.object_type t) f)
IsAssigned-IsCached caches s (from_oos c t e f) =
    let is_oos = (eq_text_iff s.object_type object_type_oos).1 t in (c, rw is_oos e, rw is_oos f)

module _ {W : Type 0} (sdk : Sdk W) (cred : Credential) (region : Text) where
  abbrev Assigns : Caches → SecretObject × Caches → W → Type 0
  Assigns caches r w = IsAssigned r.1 r.0 × AllGrow caches r.1 × IsFull r.1

  resolve-Assigns :
      (s : SecretObject) (caches : Caches) (w : W)
      → IsFull caches
      → Ensures (Assigns caches) (resolve sdk cred region s caches w)
  unfolding resolve
  resolve-Assigns s caches w (nk, full) = elim (Bool-cases (is_supported s.object_type)) [
    | inr q ↦ rw q tt
    | inl q ↦ elim (Bool-cases (is_empty s.object_type || eq_text s.object_type object_type_kms)) [
      | inl p ↦
          rw (q, p)
            (Ensures-bind (IsShared s.cross_account_role_arn caches.kms) (Assigns caches)
              (client_for sdk cred region (λ c. new_kms_client sdk c s.kms_endpoint region)
                kms_client_failed cross_account_kms_client_failed s.object_name
                s.cross_account_role_arn caches.kms caches.credentials w)
              _ (client_for-IsShared sdk cred region _ _ _ _ _ caches.kms caches.credentials w nk)
              (λ (r : Option ℕ × Cache × Keyed Credential) w' (c, e, f, g, n). (
                from_kms c (kms_type s.object_type p) (ap (λ x. replaced_by s.kms_client x) e) f,
                (g, λ role d h. h),
                (n, full),
              )))
      | inr p ↦ elim (Bool-cases (eq_text s.object_type object_type_oos)) [
        | inl k ↦
            rw (q, p, k)
              (Ensures-bind (IsShared s.cross_account_role_arn caches.oos) (Assigns caches)
                (client_for sdk cred region (λ c. new_oos_client sdk c region) oos_client_failed
                  cross_account_oos_client_failed s.object_name s.cross_account_role_arn caches.oos
                  caches.credentials w)
                _
                (client_for-IsShared sdk cred region _ _ _ _ _ caches.oos caches.credentials w full)
                (λ (r : Option ℕ × Cache × Keyed Credential) w' (c, e, f, g, n). (
                  from_oos c ((eq_text_iff s.object_type object_type_oos).0 k)
                      (ap (λ x. replaced_by s.oos_client x) e) f,
                  ((λ role d h. h), g),
                  (nk, n),
                )))
        | inr k ↦ absurd (not_supported s.object_type q p k)
      ]
    ]
  ]

  abbrev AllAssign : Caches → List SecretObject × Caches → W → Type 0
  AllAssign caches r w = All (IsAssigned r.1) r.0 × AllGrow caches r.1

  resolve_all-AllAssign :
      (ss : List SecretObject) (caches : Caches) (w : W)
      → IsFull caches
      → Ensures (AllAssign caches) (resolve_all sdk cred region ss caches w)
  unfolding resolve_all
  resolve_all-AllAssign [] caches w n = (tt, ((λ role c h. h), λ role c h. h))
  resolve_all-AllAssign (s ∷ ss) caches w n =
      Ensures-bind (Assigns caches) (AllAssign caches) (resolve sdk cred region s caches w) _
        (resolve-Assigns s caches w n)
        (λ (x : SecretObject × Caches) w' (a, (g, h), full).
          Ensures-bind (AllAssign x.1) (AllAssign caches) (resolve_all sdk cred region ss x.1 w') _
            (resolve_all-AllAssign ss x.1 w' full)
            (λ (y : List SecretObject × Caches) w'' (b, (g', h')). (
              (IsAssigned-Grows x.1 y.1 x.0 (g', h') a, b),
              ((λ role c e. g' role c (g role c e)), λ role c e. h' role c (h role c e)),
            )))

  -- When the loop ends, any two objects of one kind and one role, or of one kind and no role, have one
  -- client, wherever they stand in the list.
  pub resolve_all-one_client :
      (ss rs : List SecretObject) (caches : Caches) (w w' : W) (r s : SecretObject)
      → resolve_all sdk cred region ss no_caches w ≡ (ok (rs, caches), w')
      → In r rs
      → In s rs
      → eq_text r.object_type object_type_oos ≡ eq_text s.object_type object_type_oos
      → r.cross_account_role_arn ≡ s.cross_account_role_arn
      → (c : ℕ) × (client_of r ≡ some c) × (client_of s ≡ some c)
  resolve_all-one_client ss rs caches w w' r s h in_r in_s kind role =
      let all =
        Ensures-at (AllAssign no_caches) _ (rs, caches) w' h
          (resolve_all-AllAssign ss no_caches w
            ((λ key. unfold load in λ e. cc), (λ key. unfold load in λ e. cc))) in
      let (c, e, f) = IsAssigned-IsCached caches r (All-In (IsAssigned caches) r rs all.0 in_r) in
      let (d, g, k) = IsAssigned-IsCached caches s (All-In (IsAssigned caches) s rs all.0 in_s) in
      let same : some d ≡ some c = sym k ∙ rw (sym kind, sym role) f in (c, e, g ∙ same)
