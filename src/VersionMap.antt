-- ===== src/VersionMap.antt =====
-- The map of current versions, `map[string]*v1alpha1.ObjectVersion`, as a list of its entries.
use secrets_store_csi_driver.Prelude.{
  Text, List, [], ◌∷◌, Option, none, some, ◌≡◌, refl, if◌then◌else◌, eq_text, eq_text_iff, arith,
}

-- `v1alpha1.ObjectVersion`, a message of the CSI driver.
pub record ObjectVersion : Type 0 where
  pub id : Text
  pub version : Text

abbrev pub VersionMap : Type 0
VersionMap = List (Text × ObjectVersion)

-- `m[key]`; a missing key gives nil.
unfoldable pub lookup : Text → VersionMap → Option ObjectVersion
lookup key [] = none
lookup key ((k, v) ∷ m) = if eq_text k key then some v else lookup key m

-- `m[key] = v`
unfoldable pub insert : Text → ObjectVersion → VersionMap → VersionMap
insert key v [] = (key, v) ∷ []
insert key v ((k, w) ∷ m) = if eq_text k key then (key, v) ∷ m else (k, w) ∷ insert key v m

pub lookup-insert :
    (key other : Text) (v : ObjectVersion) (m : VersionMap)
    → lookup other (insert key v m) ≡ (if eq_text key other then some v else lookup other m)
unfolding lookup insert
lookup-insert key other v [] = refl
lookup-insert key other v ((k, w) ∷ m) = ground (
  arith,
  eq_text_iff key other,
  eq_text_iff k key,
  eq_text_iff k other,
  lookup-insert key other v m,
)
