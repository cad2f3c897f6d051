-- ===== src/SecretObject/Inside.antt =====
-- Where the file of an accepted object is: at or below its mount directory, unless its name is `..`.
use mathlib.Core.Bool.{false≢true}
use secrets_store_csi_driver.Prelude.{
  Text, slash, ◌≡◌, ◌≢◌, ap, ◌∙◌, inl, inr, List, [], ◌∷◌, ◌++◌, true, false, In, ne_nil→is_empty,
  Bool-cases, All, ◌↔◌,
}
use secrets_store_csi_driver.Outcome.{ok}
use secrets_store_csi_driver.Regex.{full_match}
use secrets_store_csi_driver.FilePath.{
  elements, join_elements, dot_dot, is_rooted, is_here, clean_elements, clean, join,
}
use secrets_store_csi_driver.FilePath.Below.{
  kept, kept-In, kept-nil_iff, clean_elements-below, is_rooted-append,
}
use secrets_store_csi_driver.SecretObject.{SecretObject, get_file_name, get_mount_path}
use secrets_store_csi_driver.SecretObject.BadPath.{bad_path_re_iff, dot_dot-refused}
use secrets_store_csi_driver.SecretObject.Valid.{IsValid, validate_secret_object_iff}
use secrets_store_csi_driver.SecretObject.Validation.{bad_path_re, validate_secret_object}

pub rooted-ne-nil : (dir : Text) → is_rooted dir ≡ true → dir ≢ []
unfolding is_rooted
rooted-ne-nil [] h e = false≢true h
rooted-ne-nil (c ∷ dir) h e = cc

-- `GetMountPath` below an absolute directory.
pub mount_path_rooted :
    (s : SecretObject)
    → is_rooted s.mount_dir ≡ true
    → get_mount_path s
      ≡ slash ∷ join_elements (clean_elements (s.mount_dir ++ (slash ∷ get_file_name s)))
unfolding get_mount_path join clean
mount_path_rooted s r =
    let n = rooted-ne-nil s.mount_dir r in
    rw (ne_nil→is_empty s.mount_dir n, is_rooted-append s.mount_dir (slash ∷ get_file_name s) n, r)

-- The mount path of an accepted object whose file name is not `..` itself has the elements of its
-- absolute mount directory and then those of the file name that are neither empty nor `.`, and no `..`
-- is among these: it is below the mount directory, or it is that directory itself exactly if every
-- element of the file name is empty or `.`, as for the aliases `.` and, with the translation off, `/`.
pub get_mount_path-inside :
    (s : SecretObject)
    → validate_secret_object s ≡ ok tt
    → is_rooted s.mount_dir ≡ true
    → get_file_name s ≢ dot_dot
    → let own = kept (elements (get_file_name s)) in
      (get_mount_path s ≡ slash ∷ join_elements (clean_elements s.mount_dir ++ own))
      × (¬ In dot_dot own)
      × ((own ≡ []) ↔ All (λ e. is_here e ≡ true) (elements (get_file_name s)))
get_mount_path-inside s accepted r n = (
  mount_path_rooted s r
      ∙ ap (λ (es : List Text). slash ∷ join_elements es)
          (clean_elements-below s.mount_dir (get_file_name s) (rooted-ne-nil s.mount_dir r) below),
  (λ i. below (kept-In dot_dot (elements (get_file_name s)) i)),
  kept-nil_iff (elements (get_file_name s)),
)
  where
    valid : IsValid s
    valid = (validate_secret_object_iff s).0 accepted

    no_match : full_match bad_path_re (get_file_name s) ≡ false
    no_match = elim (Bool-cases (full_match bad_path_re (get_file_name s))) [
      | inl b ↦ absurd (valid.no_pair ((bad_path_re_iff (get_file_name s)).0 b))
      | inr b ↦ b
    ]

    below : ¬ In dot_dot (elements (get_file_name s))
    below = dot_dot-refused (get_file_name s) no_match n
