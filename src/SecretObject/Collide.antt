-- ===== src/SecretObject/Collide.antt =====
-- What the keys of provider/secret_object.go let through: two objects with one file.
use secrets_store_csi_driver.Prelude.{
  ℕ, Text, codes, colon, ◌≡◌, refl, ◌∙◌, arith, List, [], ◌∷◌, ◌++◌, Option, some, false, eq_text,
}
use secrets_store_csi_driver.Outcome.{ok, Reply, done}
use secrets_store_csi_driver.SecretObject.{SecretObject, get_file_name, get_mount_path}
use secrets_store_csi_driver.SecretObject.Validation.{validate_secret_object}
use secrets_store_csi_driver.SecretObject.Listing.{
  object_type_kms, object_type_oos, type_name_key, has_name, claim, claim_alias, claim_jmes, place,
  translation, process_secret_object, process_all, new_secret_object_list,
}

-- A common prefix does not matter to a comparison.
eq_text-prefix : (name a b : Text) → eq_text (name ++ a) (name ++ b) ≡ eq_text a b
unfolding eq_text
eq_text-prefix [] a b = refl
eq_text-prefix (c ∷ name) a b = ground (arith, eq_text-prefix name a b)

-- An object with neither alias nor entries, of this type.
abbrev pub of_type : Text → SecretObject → SecretObject
of_type type s = record s { object_alias = []; object_type = type; jmes_path = [] }

-- One name for KMS and for OOS: both objects are accepted, though they have one mount path, so that the
-- second file replaces the first.
pub two_types-one_path :
    (unicode : ℕ → ℕ) (unmarshal : Text → Reply (List (Option SecretObject))) (s : SecretObject)
    (mount_dir spec : Text)
    → unmarshal spec
      ≡ done (some (of_type object_type_kms s) ∷ some (of_type object_type_oos s) ∷ [])
    → validate_secret_object (place (codes "_") mount_dir (of_type object_type_kms s)) ≡ ok tt
    → (new_secret_object_list unicode unmarshal mount_dir [] spec
        ≡ ok (
            place (codes "_") mount_dir (of_type object_type_kms s)
            ∷ place (codes "_") mount_dir (of_type object_type_oos s)
            ∷ []))
      × (get_mount_path (place (codes "_") mount_dir (of_type object_type_kms s))
          ≡ get_mount_path (place (codes "_") mount_dir (of_type object_type_oos s)))
unfolding new_secret_object_list translation process_all process_secret_object claim has_name
    claim_alias claim_jmes get_mount_path get_file_name
two_types-one_path unicode unmarshal s mount_dir spec read valid =
    let valid_oos : validate_secret_object (place (codes "_") mount_dir (of_type object_type_oos s))
        ≡ ok tt =
      unfold validate_secret_object in valid in
    let differ : eq_text (type_name_key (of_type object_type_kms s))
          (type_name_key (of_type object_type_oos s))
        ≡ false =
      eq_text-prefix s.object_name (colon ∷ colon ∷ object_type_kms)
        (colon ∷ colon ∷ object_type_oos)
      ∙ (unfold eq_text in refl) in
    (rw (read, valid, valid_oos, differ) refl, refl)
