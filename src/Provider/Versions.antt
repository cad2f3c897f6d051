-- ===== src/Provider/Versions.antt =====
-- The map of versions behind `GetSecretValues`.
use mathlib.Core.List.{map-append}
use secrets_store_csi_driver.Prelude.{
  Text, ◌≡◌, refl, subst, ◌∙◌, List, [], ◌∷◌, ◌++◌, All, All-append, In, In-append_left,
  In-append-cases, All-append-split, In-append_right, some, inl, inr, arith, eq_text, eq_text_iff,
  map, Bool-cases,
}
use secrets_store_csi_driver.Outcome.{ok}
use secrets_store_csi_driver.Exec.{Ensures, Ensures-at, Ensures-all, Ensures-bind, lift}
use secrets_store_csi_driver.PullLimit.{Limiter}
use secrets_store_csi_driver.SecretObject.{SecretObject, get_file_name}
use secrets_store_csi_driver.SecretValue.{SecretValue, JsonTools, get_json_secrets}
use secrets_store_csi_driver.VersionMap.{ObjectVersion, VersionMap, lookup, lookup-insert}
use secrets_store_csi_driver.Provider.Types.{Services, SecretsManagerProvider}
use secrets_store_csi_driver.Provider.Values.{IsOf, obtain-IsOf}
use secrets_store_csi_driver.Provider.{
  is_current, obtain, get_object, get_secret_values, record_versions, record_version,
}

-- The map has an entry for the file, under the file's own name.
abbrev pub Records : VersionMap → Text → Type 0
Records m file = (v : ObjectVersion) × (lookup file m ≡ some v) × (v.id ≡ file)

record_version-same :
    (file version : Text) (m : VersionMap) → Records (record_version file version m) file
record_version-same file version m = (
  record { id = file; version = version },
  rw (lookup-insert, (eq_text_iff file file).1 refl),
  refl,
)

record_version-keeps :
    (file version other : Text) (m : VersionMap)
    → Records m other
    → Records (record_version file version m) other
record_version-keeps file version other m (v, found, e) = elim (Bool-cases (eq_text file other)) [
  | inl q ↦ rw (← (eq_text_iff file other).0 q) (record_version-same file version m)
  | inr q ↦ (v, rw (lookup-insert, q) found, e)
]

-- The files of values.
abbrev pub files : List SecretValue → List Text
files vs = map (λ (v : SecretValue). get_file_name v.secret_obj) vs

-- What the loop does to a map: every returned file is recorded, what was recorded stays so, and no
-- other key is touched.
pub record Updates (m : VersionMap) (vs : List SecretValue) (m' : VersionMap) : Type 0 where
  pub recorded : All (Records m') (files vs)
  pub kept : (file : Text) → Records m file → Records m' file
  pub untouched : (file : Text) → ¬ In file (files vs) → lookup file m' ≡ lookup file m

All-map-Records :
    (m m' : VersionMap) (fs : List Text)
    → ((file : Text) → Records m file → Records m' file)
    → All (Records m) fs
    → All (Records m') fs
All-map-Records m m' [] keep h = tt
All-map-Records m m' (f ∷ fs) keep (h, hs) = (keep f h, All-map-Records m m' fs keep hs)

Updates-record :
    (m : VersionMap) (v : SecretValue) (version : Text)
    → Updates m (v ∷ []) (record_version (get_file_name v.secret_obj) version m)
Updates-record m v version =
    let file = get_file_name v.secret_obj in
    record {
      recorded = (record_version-same file version m, tt);
      kept = λ k h. record_version-keeps file version k m h;
      untouched =
          λ k h. rw lookup-insert (ground (arith, eq_text_iff file k, λ (q : file ≡ k). h (inl q)));
    }

-- One update behind another; the values may be listed in any way with the same files.
Updates-trans :
    (m m' m'' : VersionMap) (vs us : List SecretValue)
    → Updates m vs m'
    → Updates m' us m''
    → Updates m (vs ++ us) m''
Updates-trans m m' m'' vs us a b = record {
  recorded = rw map-append (
      All-append (Records m'') (files vs) (files us)
        (All-map-Records m' m'' (files vs) b.kept a.recorded) b.recorded);
  kept = λ k h. b.kept k (a.kept k h);
  untouched = λ k h.
      b.untouched k (λ q. h (rw map-append (In-append_right k (files vs) (files us) q)))
      ∙ a.untouched k (λ q. h (rw map-append (In-append_left k (files vs) (files us) q)));
}

-- The same update with the last value listed first.
Updates-rotate :
    (m m' : VersionMap) (v : SecretValue) (vs : List SecretValue)
    → Updates m (vs ++ v ∷ []) m'
    → Updates m (v ∷ vs) m'
Updates-rotate m m' v vs a =
    let front = get_file_name v.secret_obj in
    let (rest, last) =
      All-append-split (Records m') (files vs) (front ∷ [])
        (subst (All (Records m')) (map-append _ vs (v ∷ [])) a.recorded) in
    record {
      recorded = (last.0, rest);
      kept = a.kept;
      untouched = λ k h. a.untouched k (λ q. h (front_or k q));
    }
  where
    front_or : (k : Text) → In k (files (vs ++ v ∷ [])) → In k (files (v ∷ vs))
    front_or k q =
        elim (In-append-cases k (files vs) (files (v ∷ []))
          (subst (In k) (map-append _ vs (v ∷ [])) q)) [
            | inl i ↦ inr i
            | inr (inl e) ↦ inl e
            | inr (inr none_left) ↦ elim none_left [ ]
          ]

Updates-none : (m : VersionMap) → Updates m [] m
Updates-none m = record { recorded = tt; kept = λ k h. h; untouched = λ k h. refl }

record_versions-Updates :
    (version : Text) (vs : List SecretValue) (m : VersionMap)
    → Updates m vs (record_versions version vs m)
unfolding record_versions
record_versions-Updates version [] m = Updates-none m
record_versions-Updates version (v ∷ vs) m =
    let next = record_version (get_file_name v.secret_obj) version m in
    Updates-trans m next (record_versions version vs next) (v ∷ []) vs (Updates-record m v version)
      (record_versions-Updates version vs next)

-- The extracted values are recorded first, the object's own file last.
get_object-update :
    (version : Text) (v : SecretValue) (vs : List SecretValue) (m : VersionMap)
    → Updates m
        (v ∷ vs)
        (record_version (get_file_name v.secret_obj) version (record_versions version vs m))
get_object-update version v vs m =
    let mid = record_versions version vs m in
    Updates-rotate m _ v vs (
      Updates-trans m mid (record_version (get_file_name v.secret_obj) version mid) vs (v ∷ [])
        (record_versions-Updates version vs m) (Updates-record mid v version))

module _ {W : Type 0} (services : Services W) (limiter : Limiter)
    (provider : SecretsManagerProvider) (tools : JsonTools) where
  -- A result of the loop updates the map it began with.
  abbrev pub Updated : VersionMap → List SecretValue × VersionMap → W → Type 0
  Updated m r w = Updates m r.0 r.1

  abbrev IsAny : {A : Type 0} → A → W → Type 0
  IsAny a w = Unit

  get_object-Updated :
      (s : SecretObject) (m : VersionMap) (w : W)
      → Ensures (Updated m) (get_object services limiter provider tools s m w)
  unfolding get_object
  get_object-Updated s m w =
      Ensures-bind (IsOf services s) (Updated m)
        (obtain services limiter provider s (is_current s m) w) _
        (obtain-IsOf services limiter provider s (is_current s m) w)
        (λ (x : Text × SecretValue) w' e.
          Ensures-bind IsAny (Updated m) (lift (get_json_secrets tools x.1) w') _
            (Ensures-all IsAny _ (λ a k. tt))
            (λ vs w'' _. rw (← e) (get_object-update x.0 x.1 vs m)))

  pub get_secret_values-Updated :
      (ss : List SecretObject) (m : VersionMap) (w : W)
      → Ensures (Updated m) (get_secret_values services limiter provider tools ss m w)
  unfolding get_secret_values
  get_secret_values-Updated [] m w = Updates-none m
  get_secret_values-Updated (s ∷ ss) m w =
      Ensures-bind (Updated m) (Updated m) (get_object services limiter provider tools s m w) _
        (get_object-Updated s m w)
        (λ (x : List SecretValue × VersionMap) w' e.
          Ensures-bind (Updated x.1) (Updated m)
            (get_secret_values services limiter provider tools ss x.1 w') _
            (get_secret_values-Updated ss x.1 w')
            (λ (y : List SecretValue × VersionMap) w'' f. Updates-trans m x.1 y.1 x.0 y.0 e f))

  -- When `GetSecretValues` succeeds, every returned value has an entry in the map of versions, under
  -- the name of its file; a file that had an entry keeps one, and a key that is no returned file is
  -- left as it was.
  pub get_secret_values-Updates :
      (ss : List SecretObject) (m m' : VersionMap) (vs : List SecretValue) (w w' : W)
      → get_secret_values services limiter provider tools ss m w ≡ (ok (vs, m'), w')
      → Updates m vs m'
  get_secret_values-Updates ss m m' vs w w' h =
      Ensures-at (Updated m) _ (vs, m') w' h (get_secret_values-Updated ss m w)
