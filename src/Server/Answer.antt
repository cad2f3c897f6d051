-- ===== src/Server/Answer.antt =====
-- What the answer to a mount request of server/server.go holds: the files and their versions.
use mathlib.Core.Path.{ap₂}
use mathlib.Core.List.{map-append, map-map}
use mathlib.Core.Option.{some-injective}
use secrets_store_csi_driver.Prelude.{
  ℕ, ◌%◌, ◌^◌, Text, ◌≡◌, refl, ap, sym, ◌∙◌, List, [], ◌∷◌, ◌++◌, map, All, In, some, eq_text, inl,
  inr, Bool-cases,
}
use secrets_store_csi_driver.SecretObject.{
  SecretObject, get_file_name, get_jmes_entry_secret_object,
}
use secrets_store_csi_driver.SecretValue.{SecretValue}
use secrets_store_csi_driver.VersionMap.{ObjectVersion, VersionMap, lookup}
use secrets_store_csi_driver.Provider.Versions.{Records, files}
use secrets_store_csi_driver.Provider.Values.{shown, all_shown}
use secrets_store_csi_driver.Server.Resolved.{bare}
use secrets_store_csi_driver.Server.Mount.{MountResponse, File, file_of, mount_response}

-- The files of the objects of a list, in order.
abbrev pub shown_files : List SecretObject → List Text
shown_files ss = map get_file_name (all_shown ss)

get_file_name-bare : (s : SecretObject) → get_file_name s ≡ get_file_name (bare s)
unfolding get_file_name
get_file_name-bare s = refl

shown-bare : (s : SecretObject) → map get_file_name (shown s) ≡ map get_file_name (shown (bare s))
unfolding get_file_name get_jmes_entry_secret_object
shown-bare s = refl

shown_files-bare : (ss : List SecretObject) → shown_files ss ≡ shown_files (map bare ss)
shown_files-bare [] = refl
shown_files-bare (s ∷ ss) =
    map-append get_file_name (shown s) (all_shown ss)
    ∙ ap₂ (λ fs gs. fs ++ gs) (shown-bare s) (shown_files-bare ss)
    ∙ sym (map-append get_file_name (shown (bare s)) (all_shown (map bare ss)))

-- The clients are not part of a file's name.
pub shown_files-same :
    (rs ss : List SecretObject) → map bare rs ≡ map bare ss → shown_files rs ≡ shown_files ss
shown_files-same rs ss e = shown_files-bare rs ∙ ap shown_files e ∙ sym (shown_files-bare ss)

-- An entry of the map is among its values.
lookup-In :
    (key : Text) (v : ObjectVersion) (m : VersionMap)
    → lookup key m ≡ some v
    → In v (map (λ (e : Text × ObjectVersion). e.1) m)
unfolding lookup
lookup-In key v [] h = cc
lookup-In key v ((k, w) ∷ m) h = elim (Bool-cases (eq_text k key)) [
  | inl q ↦ inl (some-injective w v (rw q at h))
  | inr q ↦ inr (lookup-In key v m (rw q at h))
]

-- The answer names a version for the file.
abbrev pub HasVersion : List ObjectVersion → Text → Type 0
HasVersion vs path = (v : ObjectVersion) × In v vs × (v.id ≡ path)

Records→HasVersion :
    (m : VersionMap) (fs : List Text)
    → All (Records m) fs
    → All (HasVersion (map (λ (e : Text × ObjectVersion). e.1) m)) fs
Records→HasVersion m [] h = tt
Records→HasVersion m (f ∷ fs) ((v, found, e), h) =
    ((v, lookup-In f v m found, e), Records→HasVersion m fs h)

-- The answer for a list of objects: one file for each value, in their order, with the permission as its
-- mode, and a version for each.
pub record IsMounted (permission : ℕ) (ss : List SecretObject) (response : MountResponse)
    : Type 0 where
  pub paths : map (λ (f : File). f.path) response.files ≡ shown_files ss
  pub versions :
      All (HasVersion response.object_version) (map (λ (f : File). f.path) response.files)
  pub modes : All (λ (f : File). f.mode ≡ permission % 2 ^ 32) response.files

-- The values and the map of versions that make such an answer.
abbrev pub IsFetched : List SecretObject → List SecretValue × VersionMap → Type 0
IsFetched ss r = (files r.0 ≡ shown_files ss) × All (Records r.1) (files r.0)

file_of-mode :
    (permission : ℕ) (vs : List SecretValue)
    → All (λ (f : File). f.mode ≡ permission % 2 ^ 32) (map (file_of permission) vs)
unfolding file_of
file_of-mode permission [] = tt
file_of-mode permission (v ∷ vs) = (refl, file_of-mode permission vs)

pub mount_response-IsMounted :
    (permission : ℕ) (ss : List SecretObject) (r : List SecretValue × VersionMap)
    → IsFetched ss r
    → IsMounted permission ss (mount_response permission r)
unfolding mount_response file_of
mount_response-IsMounted permission ss (vs, m) (e, h) =
    let same : map (λ (f : File). f.path) (map (file_of permission) vs) ≡ files vs =
      map-map (λ (f : File). f.path) (file_of permission) vs in
    record {
      paths = same ∙ e;
      versions = rw same (Records→HasVersion m (files vs) h);
      modes = file_of-mode permission vs;
    }
