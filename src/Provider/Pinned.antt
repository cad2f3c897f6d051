-- ===== src/Provider/Pinned.antt =====
-- provider/secret_manager_provider.go: objects that are pinned to the versions that the driver has.
use mathlib.Core.Option.{some-injective}
use secrets_store_csi_driver.Prelude.{
  ℕ, Text, ◌≡◌, ◌≢◌, refl, ap, subst, sym, ◌∙◌, inl, inr, List, [], ◌∷◌, All, some, true, eq_text,
  eq_text_iff, ne_nil→is_empty, Bool-cases,
}
use secrets_store_csi_driver.Outcome.{
  ok-injective, Outcome, ok, err, panic, Reply, done, failed, passed_on,
}
use secrets_store_csi_driver.Exec.{Exec, continue}
use secrets_store_csi_driver.PullLimit.{Limiter}
use secrets_store_csi_driver.SecretObject.{SecretObject, get_file_name, get_mount_path}
use secrets_store_csi_driver.SecretValue.{
  SecretValue, JsonTools, get_json_secrets, get_json_secrets_of,
}
use secrets_store_csi_driver.VersionMap.{ObjectVersion, VersionMap, lookup, lookup-insert}
use secrets_store_csi_driver.Provider.Types.{Services, SecretsManagerProvider}
use secrets_store_csi_driver.Provider.{
  is_current_version, is_current, record_version, record_versions, reload_secret, obtain,
  get_object, get_secret_values,
}

-- The object has no entries, and is pinned to the version that the map has for its file.
pub record IsPinned (m : VersionMap) (s : SecretObject) : Type 0 where
  pub current : ObjectVersion
  pub found : lookup (get_file_name s) m ≡ some current
  pub pinned : s.object_version ≢ []
  pub same : current.version ≡ s.object_version
  pub plain : s.jmes_path ≡ []

is_current-IsPinned :
    (m : VersionMap) (s : SecretObject) → IsPinned m s → is_current s m ≡ (true, s.object_version)
unfolding is_current is_current_version
is_current-IsPinned m s h = rw (
  h.found,
  ne_nil→is_empty s.object_version h.pinned,
  (eq_text_iff h.current.version s.object_version).1 h.same,
  h.same,
)

-- The map behind a pinned object.
abbrev behind : SecretObject → VersionMap → VersionMap
behind s m = record_version (get_file_name s) s.object_version m

-- An object that is pinned stays so behind another one, even if both have one file.
behind-IsPinned :
    (m : VersionMap) (s t : SecretObject) → IsPinned m s → IsPinned m t → IsPinned (behind s m) t
behind-IsPinned m s t h k = elim (Bool-cases (eq_text (get_file_name s) (get_file_name t))) [
  | inl q ↦ record {
    current = record { id = get_file_name s; version = s.object_version };
    found = rw (lookup-insert, q) refl;
    pinned = k.pinned;
    same =
        sym h.same
        ∙ ap (λ (v : ObjectVersion). v.version)
            (some-injective h.current k.current (
              sym h.found
              ∙ ap (λ f. lookup f m) ((eq_text_iff (get_file_name s) (get_file_name t)).0 q)
              ∙ k.found))
        ∙ k.same;
    plain = k.plain;
  }
  | inr q ↦ record {
    current = k.current;
    found = rw (lookup-insert, q) k.found;
    pinned = k.pinned;
    same = k.same;
    plain = k.plain;
  }
]

later-IsPinned :
    (m : VersionMap) (s : SecretObject) (ss : List SecretObject)
    → IsPinned m s
    → All (IsPinned m) ss
    → All (IsPinned (behind s m)) ss
later-IsPinned m s [] h hs = tt
later-IsPinned m s (t ∷ ss) h (k, hs) = (behind-IsPinned m s t h k, later-IsPinned m s ss h hs)

module _ {W : Type 0} (services : Services W) (limiter : Limiter)
    (provider : SecretsManagerProvider) (tools : JsonTools) where
  -- What a pinned object gives: what its file holds, if it can be read.
  abbrev read_back :
      SecretObject → VersionMap → Reply (List ℕ) × W → Outcome (List SecretValue × VersionMap) × W
  read_back s m (done bytes, w) =
      (ok (record { value = bytes; secret_obj = s } ∷ [], behind s m), w)
  read_back s m (failed f, w) = (err (passed_on f), w)

  get_object-IsPinned :
      (s : SecretObject) (m : VersionMap) (w : W)
      → IsPinned m s
      → get_object services limiter provider tools s m w
        ≡ read_back s m (services.read_file (get_mount_path s) w)
  unfolding get_object obtain reload_secret get_json_secrets get_json_secrets_of record_versions
  get_object-IsPinned s m w h = through (services.read_file (get_mount_path s) w) refl
    where
      through :
          (r : Reply (List ℕ) × W)
          → services.read_file (get_mount_path s) w ≡ r
          → get_object services limiter provider tools s m w ≡ read_back s m r
      through (done bytes, w') e = rw (is_current-IsPinned m s h, e, h.plain) refl
      through (failed f, w') e = rw (is_current-IsPinned m s h, e) refl

  read_back-seen :
      {A : Type 0} (observe : W → A) (s : SecretObject) (m : VersionMap) (p : Reply (List ℕ) × W)
      → observe (read_back s m p).1 ≡ observe p.1
  read_back-seen observe s m (done bytes, w) = refl
  read_back-seen observe s m (failed f, w) = refl

  read_back-behind :
      (s : SecretObject) (m : VersionMap) (p : Reply (List ℕ) × W)
      (x : List SecretValue × VersionMap) (w : W)
      → read_back s m p ≡ (ok x, w)
      → behind s m ≡ x.1
  read_back-behind s m (done bytes, v) x w e = ap (λ y. y.1) (ok-injective _ x (ap (λ y. y.0) e))
  read_back-behind s m (failed f, v) x w e = cc

  continue-seen :
      {A B C : Type 0} (observe : W → A) (w : W) (r : Outcome B × W) (f : B → Exec W C)
      → observe r.1 ≡ observe w
      → ((b : B) (w' : W) → r ≡ (ok b, w') → observe (f b w').1 ≡ observe w')
      → observe (continue r f).1 ≡ observe w
  continue-seen observe w (ok b, w') f h k = k b w' refl ∙ h
  continue-seen observe w (err e, w') f h k = h
  continue-seen observe w (panic, w') f h k = h

  -- Objects that are pinned to the versions that the driver has are read back from their files, and
  -- nothing else is called: whatever is observed of the world stays as it is, if reading a file leaves
  -- it alone.
  pub get_secret_values-IsPinned :
      {A : Type 0} (observe : W → A) (ss : List SecretObject) (m : VersionMap) (w : W)
      → ((path : Text) (w : W) → observe (services.read_file path w).1 ≡ observe w)
      → All (IsPinned m) ss
      → observe (get_secret_values services limiter provider tools ss m w).1 ≡ observe w
  unfolding get_secret_values
  get_secret_values-IsPinned observe [] m w h p = refl
  get_secret_values-IsPinned observe (s ∷ ss) m w h (p, ps) =
      let read = services.read_file (get_mount_path s) w in
      let one = get_object-IsPinned s m w p in
      continue-seen observe w (get_object services limiter provider tools s m w) _
        (ap (λ r. observe r.1) one ∙ read_back-seen observe s m read ∙ h (get_mount_path s) w)
        (λ (x : List SecretValue × VersionMap) w' e.
          let next = read_back-behind s m read x w' (sym one ∙ e) in
          continue-seen observe w' (get_secret_values services limiter provider tools ss x.1 w') _
            (get_secret_values-IsPinned observe ss x.1 w' h
              (subst (λ n. All (IsPinned n) ss) next (later-IsPinned m s ss p ps)))
            (λ y w'' f. refl))
