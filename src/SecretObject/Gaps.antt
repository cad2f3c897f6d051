-- ===== src/SecretObject/Gaps.antt =====
-- What the validation of provider/secret_object.go does not see.
use mathlib.Core.List.{foldl, foldl-append, reverse, reverse-reverse, reverse-append}
use mathlib.Core.Bool.{false≢true}
use secrets_store_csi_driver.Prelude.{
  ℕ, Text, slash, ◌≡◌, ◌≢◌, refl, ap, sym, ◌∙◌, inl, inr, List, [], ◌∷◌, ◌++◌, true, false, All,
  is_empty, replace_all, trim_left, eq_text_iff, Bool-cases, arith, Bool, ne_nil→is_empty,
}
use secrets_store_csi_driver.Outcome.{ok, err, bad_path}
use secrets_store_csi_driver.Regex.{full_match, is_dot}
use secrets_store_csi_driver.FilePath.{
  elements, join_elements, dot_dot, is_rooted, is_here, clean_elements, step, step_back,
}
use secrets_store_csi_driver.FilePath.Below.{is_rooted-append, elements-append}
use secrets_store_csi_driver.SecretObject.{
  JmesPathObject, SecretObject, get_file_name, get_mount_path, get_jmes_entry_secret_object,
}
use secrets_store_csi_driver.SecretObject.Validation.{bad_path_re, validate_secret_object}
use secrets_store_csi_driver.SecretObject.BadPath.{bad_path_re_iff, AreDots}
use secrets_store_csi_driver.SecretObject.Inside.{mount_path_rooted, rooted-ne-nil}
use secrets_store_csi_driver.SecretObject.Valid.{
  IsComplete, NamesKms, validate_secret_object_iff, check_arn-of-NamesKms,
}

get_file_name-dot_dot : (s : SecretObject) → s.object_alias ≡ dot_dot → get_file_name s ≡ dot_dot
unfolding get_file_name replace_all trim_left
get_file_name-dot_dot s h = elim (Bool-cases (is_empty s.translate)) [
  | inl e ↦ rw (h, e)
  | inr e ↦ rw (h, e)
]

dot_dot-no_match : full_match bad_path_re dot_dot ≡ false
unfolding full_match bad_path_re is_dot
dot_dot-no_match = refl

stepped :
    (rooted : Bool) (last : Text) (es : List Text)
    → last ≢ dot_dot
    → step rooted (last ∷ es) dot_dot ≡ es
unfolding step is_here step_back
stepped true last es h = ground (arith, eq_text_iff last dot_dot)
stepped false last es h = ground (arith, eq_text_iff last dot_dot)

elements-dot_dot : elements dot_dot ≡ dot_dot ∷ []
unfolding elements
elements-dot_dot = refl

-- The elements in reverse, from the elements.
reversed :
    (out dirs : List Text) (last : Text)
    → reverse out ≡ dirs ++ last ∷ []
    → out ≡ last ∷ reverse dirs
reversed out dirs last e =
    sym (reverse-reverse out) ∙ ap reverse e ∙ reverse-append dirs (last ∷ [])

-- `..` behind a directory takes its last element away.
clean_elements-parent :
    (dir : Text) (dirs : List Text) (last : Text)
    → dir ≢ []
    → clean_elements dir ≡ dirs ++ last ∷ []
    → last ≢ dot_dot
    → clean_elements (dir ++ (slash ∷ dot_dot)) ≡ dirs
unfolding clean_elements
clean_elements-parent dir dirs last n e h =
    let out = foldl (step (is_rooted dir)) [] (elements dir) in
    rw
      (
        is_rooted-append dir (slash ∷ dot_dot) n,
        elements-append dir dot_dot,
        elements-dot_dot,
        foldl-append,
        reversed out dirs last e,
        stepped (is_rooted dir) last (reverse dirs) h,
      )
      (reverse-reverse dirs)

-- An object with the alias .. is accepted, whatever the path translation is, and its mount path is
-- the parent of its absolute mount directory.
pub dot_dot_alias-escapes :
    (s : SecretObject) (dirs : List Text) (last : Text)
    → s.object_name ≢ []
    → NamesKms s.object_name
    → All IsComplete s.jmes_path
    → s.object_alias ≡ dot_dot
    → is_rooted s.mount_dir ≡ true
    → clean_elements s.mount_dir ≡ dirs ++ last ∷ []
    → last ≢ dot_dot
    → (validate_secret_object s ≡ ok tt) × (get_mount_path s ≡ slash ∷ join_elements dirs)
dot_dot_alias-escapes s dirs last named kms complete alias rooted e h =
    let file = get_file_name-dot_dot s alias in
    let n = rooted-ne-nil s.mount_dir rooted in
    (
      (validate_secret_object_iff s).1 (record {
        named = named;
        kms = kms;
        no_pair =
            λ p. false≢true (sym dot_dot-no_match ∙ (bad_path_re_iff dot_dot).1 (rw file at p));
        complete = complete;
      }),
      mount_path_rooted s rooted
          ∙ ap (λ (f : Text). slash ∷ join_elements (clean_elements (s.mount_dir ++ (slash ∷ f))))
              file
          ∙ ap (λ (es : List Text). slash ∷ join_elements es)
              (clean_elements-parent s.mount_dir dirs last n e h),
    )

-- With the path translation off, an object that is accepted stays so with a JMESPath entry of any
-- alias that is not empty and begins with no slash, and that alias is the entry's file name, `../` and
-- all.
pub jmes_alias-unchecked :
    (s : SecretObject) (path : Text) (c : ℕ) (alias : Text)
    → validate_secret_object s ≡ ok tt
    → s.translate ≡ []
    → path ≢ []
    → c ≢ slash
    → let j : JmesPathObject = record { path = path; object_alias = c ∷ alias } in
      (validate_secret_object (record s { jmes_path = j ∷ [] }) ≡ ok tt)
      × (get_file_name (get_jmes_entry_secret_object s j) ≡ c ∷ alias)
unfolding get_jmes_entry_secret_object
jmes_alias-unchecked s path c alias accepted off p n =
    let valid = (validate_secret_object_iff s).0 accepted in
    let j : JmesPathObject = record { path = path; object_alias = c ∷ alias } in
    (
      (validate_secret_object_iff (record s { jmes_path = j ∷ [] })).1 (record {
        named = valid.named;
        kms = valid.kms;
        no_pair = unfold get_file_name in valid.no_pair;
        complete = ((p, λ e. cc), tt);
      }),
      unfold get_file_name trim_left in ground arith,
    )

-- With the path translation off, an object is refused for any directory of two characters in front of
-- its alias, whatever the characters are but newlines and slashes.
pub two_letter_directory-refused :
    (s : SecretObject) (a b : ℕ) (rest : Text)
    → s.object_name ≢ []
    → NamesKms s.object_name
    → s.translate ≡ []
    → s.object_alias ≡ a ∷ b ∷ slash ∷ rest
    → AreDots a b
    → a ≢ slash
    → validate_secret_object s ≡ err (bad_path s.object_name)
two_letter_directory-refused s a b rest named kms off alias dots n =
    let file : get_file_name s ≡ a ∷ b ∷ slash ∷ rest =
      unfold get_file_name trim_left in rw (alias, off) (ground arith) in
    let found = (bad_path_re_iff (a ∷ b ∷ slash ∷ rest)).1 (inr (inl (a, b, rest, dots, refl))) in
    unfold validate_secret_object in
    rw (ne_nil→is_empty s.object_name named, check_arn-of-NamesKms s.object_name kms, file, found)
