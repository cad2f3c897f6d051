-- ===== src/Server/Sharing.antt =====
-- The loop of `Mount` in server/server.go: the caches only grow.
use secrets_store_csi_driver.Prelude.{
  ℕ, Text, ◌≡◌, refl, inl, inr, [], ◌∷◌, Option, none, some, eq_text, eq_text_iff, eq_text_refl,
  Bool-cases,
}
use secrets_store_csi_driver.Outcome.{Error}
use secrets_store_csi_driver.Exec.{Exec, wrapped, Ensures, Ensures-all, Ensures-bind}
use secrets_store_csi_driver.Auth.Methods.{Credential}
use secrets_store_csi_driver.Server.Keyed.{Keyed, load, store, load-store}
use secrets_store_csi_driver.Server.Clients.{Sdk}
use secrets_store_csi_driver.Server.Resolve.{
  Cache, loaded_or_made, role_client, base_client, role_credential, client_for,
}
use secrets_store_csi_driver.Server.Resolved.{NoPlaceholder, store-NoPlaceholder}

-- The client that the map has for a role.
abbrev pub or_nil : Option (Option ℕ) → Option ℕ
or_nil none = none
or_nil (some client) = client

-- The client of the caches for a role, the base client for none.
abbrev pub cached_client : Cache → Text → Option ℕ
cached_client cache [] = cache.base
cached_client cache (c ∷ role) = or_nil (load (c ∷ role) cache.by_role)

-- A client that is there stays.
abbrev pub Grows : Cache → Cache → Type 0
Grows a b = (role : Text) (c : ℕ) → cached_client a role ≡ some c → cached_client b role ≡ some c

Grows-by_role :
    (base : Option ℕ) (m n : Keyed (Option ℕ))
    → ((key : Text) (c : ℕ) → or_nil (load key m) ≡ some c → or_nil (load key n) ≡ some c)
    → Grows (record { base = base; by_role = m }) (record { base = base; by_role = n })
Grows-by_role base m n h [] c e = e
Grows-by_role base m n h (d ∷ role) c e = h (d ∷ role) c e

Grows-base :
    (old new : Option ℕ) (m : Keyed (Option ℕ))
    → ((c : ℕ) → old ≡ some c → new ≡ some c)
    → Grows (record { base = old; by_role = m }) (record { base = new; by_role = m })
Grows-base old new m h [] c e = h c e
Grows-base old new m h (d ∷ role) c e = e

-- A missing key is filled, and nothing else changes.
load-filled :
    (key other : Text) (new c : ℕ) (m : Keyed (Option ℕ))
    → load key m ≡ none
    → or_nil (load other m) ≡ some c
    → or_nil (load other (store key (some new) (store key none m))) ≡ some c
load-filled key other new c m e h = elim (Bool-cases (eq_text key other)) [
  | inl q ↦ cc (rw ((eq_text_iff key other).0 q) at e)
  | inr q ↦ rw (load-store, q, load-store, q) h
]

module _ {W : Type 0} where
  abbrev IsAny : {A : Type 0} → A → W → Type 0
  IsAny a w = Unit

  -- The client under the key, with what was there.
  abbrev IsFilled : Text → Keyed (Option ℕ) → Option ℕ × Keyed (Option ℕ) → W → Type 0
  IsFilled key m r w =
      (c : ℕ) × (r.0 ≡ some c)
      × (or_nil (load key r.1) ≡ some c)
      × ((other : Text) (d : ℕ) → or_nil (load other m) ≡ some d → or_nil (load other r.1) ≡ some d)
      × NoPlaceholder r.1

  loaded_or_made-IsFilled :
      (make : Exec W ℕ) (wrap : Error → Error) (key : Text) (m : Keyed (Option ℕ))
      (found : Option (Option ℕ)) (w : W)
      → load key m ≡ found
      → NoPlaceholder m
      → Ensures (IsFilled key m) (loaded_or_made make wrap key m found w)
  unfolding loaded_or_made
  loaded_or_made-IsFilled make wrap key m none w e n =
      Ensures-bind IsAny (IsFilled key m) (wrapped wrap (make w)) _
        (Ensures-all IsAny _ (λ a k. tt))
        (λ c w' _. (
          c,
          refl,
          rw (load-store, eq_text_refl) refl,
          λ other d h. load-filled key other c d m e h,
          store-NoPlaceholder key c m n,
        ))
  loaded_or_made-IsFilled make wrap key m (some none) w e n = absurd (n key e)
  loaded_or_made-IsFilled make wrap key m (some (some c)) w e n =
      (c, refl, rw e refl, (λ other d h. h), n)

  -- The base client that was there, if there was one.
  abbrev IsBase : Option ℕ → ℕ → W → Type 0
  IsBase base client w = (c : ℕ) → base ≡ some c → some client ≡ some c

  base_client-IsBase :
      (make : Exec W ℕ) (wrap : Error → Error) (base : Option ℕ) (w : W)
      → Ensures (IsBase base) (base_client make wrap base w)
  unfolding base_client
  base_client-IsBase make wrap none w = Ensures-all (IsBase none) _ (λ a k c e. cc)
  base_client-IsBase make wrap (some b) w = λ c e. e

  -- The client for a role, with what was there.
  abbrev pub IsShared : Text → Cache → Option ℕ × Cache × Keyed Credential → W → Type 0
  IsShared role cache r w =
      (c : ℕ) × (r.0 ≡ some c)
      × (cached_client r.1 role ≡ some c)
      × Grows cache r.1
      × NoPlaceholder r.1.by_role

module _ {W : Type 0} (sdk : Sdk W) (cred : Credential) (region : Text) where
  pub client_for-IsShared :
      (make : Credential → Exec W ℕ) (base_wrap role_wrap : Error → Error) (name role : Text)
      (cache : Cache) (creds : Keyed Credential) (w : W)
      → NoPlaceholder cache.by_role
      → Ensures
          (IsShared role cache)
          (client_for sdk cred region make base_wrap role_wrap name role cache creds w)
  unfolding client_for role_client
  client_for-IsShared make base_wrap role_wrap name [] cache creds w n =
      Ensures-bind (IsBase cache.base) (IsShared [] cache)
        (base_client (make cred) base_wrap cache.base w) _
        (base_client-IsBase (make cred) base_wrap cache.base w)
        (λ c w' h. (c, refl, refl, Grows-base cache.base (some c) cache.by_role h, n))
  client_for-IsShared make base_wrap role_wrap name (d ∷ s) cache creds w n =
      Ensures-bind IsAny (IsShared (d ∷ s) cache)
        (role_credential sdk cred region name (d ∷ s) creds w) _ (Ensures-all IsAny _ (λ a k. tt))
        (λ (r : Credential × Keyed Credential) w' _.
          Ensures-bind (IsFilled (d ∷ s) cache.by_role) (IsShared (d ∷ s) cache)
            (role_client (make r.0) role_wrap (d ∷ s) cache.by_role w') _
            (loaded_or_made-IsFilled (make r.0) role_wrap (d ∷ s) cache.by_role
              (load (d ∷ s) cache.by_role) w' refl n)
            (λ (x : Option ℕ × Keyed (Option ℕ)) w'' (c, e, f, g, k).
              (c, e, f, Grows-by_role cache.base cache.by_role x.1 g, k)))
