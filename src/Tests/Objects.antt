-- ===== src/Tests/Objects.antt =====
-- Secret objects at concrete inputs.
use mathlib.Core.Bool.{false≢true}
use secrets_store_csi_driver.Prelude.{
  ℕ, Text, codes, slash, ◌≡◌, ◌≢◌, refl, inl, ◌↔◌, List, [], ◌∷◌, ◌++◌, map, All, In, Distinct,
  Option, some, true, false, eq_text, eq_text_iff, has_prefix, trim_left,
}
use secrets_store_csi_driver.Outcome.{ok, err, bad_path, Reply, done}
use secrets_store_csi_driver.Regex.{full_match, is_dot}
use secrets_store_csi_driver.FilePath.{
  elements, join_elements, clean_elements, dot_dot, is_rooted, step, step_back, is_here,
}
use secrets_store_csi_driver.FilePath.Below.{kept}
use secrets_store_csi_driver.SecretObject.{
  SecretObject, JmesPathObject, get_file_name, get_mount_path, get_jmes_entry_secret_object,
}
use secrets_store_csi_driver.SecretObject.Validation.{
  bad_path_re, two_dots, check_arn, check_jmes_path, validate_secret_object,
}
use secrets_store_csi_driver.SecretObject.Listing.{new_secret_object_list, translation, place}
use secrets_store_csi_driver.SecretObject.BadPath.{
  HasPair, bad_path_re_iff, dot_dot-refused, AreDots,
}
use secrets_store_csi_driver.SecretObject.Valid.{IsValid, NamesKms, validate_secret_object_iff}
use secrets_store_csi_driver.SecretObject.Inside.{get_mount_path-inside}
use secrets_store_csi_driver.SecretObject.Listed.{keys_of, new_secret_object_list_iff}
use secrets_store_csi_driver.SecretObject.Gaps.{
  dot_dot_alias-escapes, jmes_alias-unchecked, two_letter_directory-refused,
}
use secrets_store_csi_driver.Tests.Fixtures.{aliased, plain}

bad_path_re_iff_example :
    (full_match bad_path_re (codes "a/../b") ≡ true) ↔ HasPair (codes "a/../b")
bad_path_re_iff_example = bad_path_re_iff (codes "a/../b")

no_match : full_match bad_path_re (codes "abc/d") ≡ false
unfolding full_match bad_path_re two_dots is_dot
no_match = refl

not_dot_dot : codes "abc/d" ≢ dot_dot
unfolding eq_text
not_dot_dot e = false≢true ((eq_text_iff (codes "abc/d") dot_dot).1 e)

dot_dot-refused_example : ¬ (In dot_dot (elements (codes "abc/d")))
dot_dot-refused_example = dot_dot-refused (codes "abc/d") no_match not_dot_dot

validate_secret_object_iff_example : (validate_secret_object plain ≡ ok tt) ↔ IsValid plain
validate_secret_object_iff_example = validate_secret_object_iff plain

plain_accepted : validate_secret_object plain ≡ ok tt
unfolding validate_secret_object check_arn has_prefix full_match bad_path_re two_dots is_dot
    get_file_name trim_left check_jmes_path
plain_accepted = refl

rooted : is_rooted plain.mount_dir ≡ true
unfolding is_rooted
rooted = refl

named : get_file_name plain ≢ dot_dot
unfolding eq_text get_file_name trim_left
named e = false≢true ((eq_text_iff (codes "db") dot_dot).1 e)

get_mount_path-inside_example :
    (get_mount_path plain
      ≡ slash
        ∷ join_elements (clean_elements (codes "/m") ++ kept (elements (get_file_name plain))))
    × (¬ In dot_dot (kept (elements (get_file_name plain))))
    × ((kept (elements (get_file_name plain)) ≡ [])
        ↔ All (λ e. is_here e ≡ true) (elements (get_file_name plain)))
get_mount_path-inside_example = get_mount_path-inside plain plain_accepted rooted named

abbrev read_plain : Text → Reply (List (Option SecretObject))
read_plain t = done (some plain ∷ [])

abbrev ascii : ℕ → ℕ
ascii c = c

new_secret_object_list_iff_example :
    (new_secret_object_list ascii read_plain (codes "/m") (codes "False") [] ≡ ok (plain ∷ [])) ↔ (
      (t : Text) × (ss : List SecretObject) × (translation ascii (codes "False") ≡ ok t)
      × (read_plain [] ≡ done (map some ss))
      × (plain ∷ [] ≡ map (place t (codes "/m")) ss)
      × All IsValid (plain ∷ [])
      × Distinct (keys_of (plain ∷ [])))
new_secret_object_list_iff_example =
    new_secret_object_list_iff ascii read_plain (codes "/m") (codes "False") [] (plain ∷ [])

name_given : plain.object_name ≢ []
name_given e = cc

names_kms : NamesKms (codes "db")
unfolding has_prefix
names_kms = inl refl

abbrev parent : SecretObject
parent = aliased (codes "..") List.[]

mount_elements : clean_elements (codes "/m") ≡ [] ++ (codes "m") ∷ []
unfolding clean_elements elements is_rooted step step_back is_here
mount_elements = refl

last_named : codes "m" ≢ dot_dot
unfolding eq_text
last_named e = false≢true ((eq_text_iff (codes "m") dot_dot).1 e)

dot_dot_alias-escapes_example :
    (validate_secret_object parent ≡ ok tt) × (get_mount_path parent ≡ slash ∷ join_elements [])
dot_dot_alias-escapes_example =
    dot_dot_alias-escapes parent [] (codes "m") name_given names_kms tt refl rooted mount_elements
      last_named

abbrev escaping : JmesPathObject
escaping = record { path = codes "user"; object_alias = codes "../u" }

jmes_alias-unchecked_example :
    (validate_secret_object (record plain { jmes_path = escaping ∷ [] }) ≡ ok tt)
    × (get_file_name (get_jmes_entry_secret_object plain escaping) ≡ codes "../u")
jmes_alias-unchecked_example =
    jmes_alias-unchecked plain (codes "user") 46 (codes "./u") plain_accepted refl (λ e. cc)
      (λ e. cc)

letters : AreDots 117 115
unfolding is_dot
letters = (refl, refl)

two_letter_directory-refused_example :
    validate_secret_object (aliased (codes "us/db") []) ≡ err (bad_path (codes "db"))
two_letter_directory-refused_example =
    two_letter_directory-refused (aliased (codes "us/db") []) 117 115 (codes "db") name_given
      names_kms refl refl letters (λ e. cc)
