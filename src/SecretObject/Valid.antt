-- ===== src/SecretObject/Valid.antt =====
-- Exactly which objects `validateSecretObject` accepts.
use mathlib.Core.Bool.{false≢true}
use secrets_store_csi_driver.Prelude.{
  Text, codes, ◌≡◌, ◌≢◌, refl, sym, ◌∙◌, ◌⊎◌, inl, inr, List, [], ◌∷◌, true, false, ◌↔◌, All,
  is_empty, is_empty_iff, ne_nil→is_empty, has_prefix, Bool-cases, eq_text_iff, not, Bool,
}
use secrets_store_csi_driver.Outcome.{
  Outcome, ok, err, panic, refuse_if-eq-ok, guard-eq-ok, >>=-eq-ok,
}
use secrets_store_csi_driver.Arn.{Arn, arn_prefix, parse_arn}
use secrets_store_csi_driver.Regex.{full_match}
use secrets_store_csi_driver.SecretObject.{JmesPathObject, SecretObject, get_file_name}
use secrets_store_csi_driver.SecretObject.BadPath.{HasPair, bad_path_re_iff}
use secrets_store_csi_driver.SecretObject.Validation.{
  bad_path_re, check_service, check_arn, check_jmes_path, validate_secret_object,
}

-- A name that looks like an ARN is one of the service kms.
abbrev pub NamesKms : Text → Type 0
NamesKms name =
    (has_prefix name arn_prefix ≡ false)
    ⊎ ((arn : Arn) × (parse_arn name ≡ ok arn) × (arn.service ≡ codes "kms"))

abbrev pub IsComplete : JmesPathObject → Type 0
IsComplete j = (j.path ≢ []) × (j.object_alias ≢ [])

pub record IsValid (s : SecretObject) : Type 0 where
  pub named : s.object_name ≢ []
  pub kms : NamesKms s.object_name
  pub no_pair : ¬ HasPair (get_file_name s)
  pub complete : All IsComplete s.jmes_path

not-eq-false : (b : Bool) → not b ≡ false → b ≡ true
not-eq-false true h = refl
not-eq-false false h = cc

not-empty : {A : Type 0} (s : List A) → is_empty s ≡ false → s ≢ []
not-empty s h e = false≢true (sym h ∙ (is_empty_iff s).1 e)

check_service-eq-ok :
    (name : Text) (parsed : Outcome Arn)
    → check_service name parsed ≡ ok tt
    → (arn : Arn) × (parsed ≡ ok arn) × (arn.service ≡ codes "kms")
unfolding check_service
check_service-eq-ok name (ok arn) h =
    (arn, refl, (eq_text_iff arn.service (codes "kms")).0 (not-eq-false _ (refuse_if-eq-ok _ _ h)))
check_service-eq-ok name (err e) h = cc
check_service-eq-ok name panic h = cc

check_arn-eq-ok : (name : Text) → check_arn name ≡ ok tt → NamesKms name
unfolding check_arn
check_arn-eq-ok name h = elim (Bool-cases (has_prefix name arn_prefix)) [
  | inl p ↦ inr (check_service-eq-ok name (parse_arn name) (rw p at h))
  | inr p ↦ inl p
]

pub check_arn-of-NamesKms : (name : Text) → NamesKms name → check_arn name ≡ ok tt
unfolding check_arn
check_arn-of-NamesKms name (inl p) = rw p
check_arn-of-NamesKms name (inr (arn, parsed, kms)) =
    elim (Bool-cases (has_prefix name arn_prefix)) [
      | inl p ↦
          rw (p, parsed)
            (unfold check_service in rw ((eq_text_iff arn.service (codes "kms")).1 kms))
      | inr p ↦ rw p
    ]

check_jmes_path_iff : (js : List JmesPathObject) → (check_jmes_path js ≡ ok tt) ↔ All IsComplete js
unfolding check_jmes_path
check_jmes_path_iff js = (forth js, back js)
  where
    forth : (es : List JmesPathObject) → check_jmes_path es ≡ ok tt → All IsComplete es
    forth [] h = tt
    forth (j ∷ es) h =
        let (p, h') = guard-eq-ok (is_empty j.path) _ _ tt h in
        let (a, h'') = guard-eq-ok (is_empty j.object_alias) _ _ tt h' in
        ((not-empty j.path p, not-empty j.object_alias a), forth es h'')

    back : (es : List JmesPathObject) → All IsComplete es → check_jmes_path es ≡ ok tt
    back [] h = refl
    back (j ∷ es) ((p, a), h) =
        rw (ne_nil→is_empty j.path p, ne_nil→is_empty j.object_alias a) (back es h)

-- An object is accepted exactly when it has a name, a name that begins with acs: is an ARN of the
-- service kms, its file name has no directory of two characters, and each of its JMESPath entries has
-- a path and an alias.
pub validate_secret_object_iff : (s : SecretObject) → (validate_secret_object s ≡ ok tt) ↔ IsValid s
unfolding validate_secret_object
validate_secret_object_iff s = (forth, back)
  where
    forth : validate_secret_object s ≡ ok tt → IsValid s
    forth h =
        let (n, h') = guard-eq-ok (is_empty s.object_name) _ _ tt h in
        let (_, arn, h'') = >>=-eq-ok (check_arn s.object_name) _ h' in
        let (bad, j) = guard-eq-ok (full_match bad_path_re (get_file_name s)) _ _ tt h'' in
        record {
          named = not-empty s.object_name n;
          kms = check_arn-eq-ok s.object_name arn;
          no_pair = λ p. false≢true (sym bad ∙ (bad_path_re_iff (get_file_name s)).1 p);
          complete = (check_jmes_path_iff s.jmes_path).0 j;
        }

    not_bad : ¬ HasPair (get_file_name s) → full_match bad_path_re (get_file_name s) ≡ false
    not_bad n = elim (Bool-cases (full_match bad_path_re (get_file_name s))) [
      | inl b ↦ absurd (n ((bad_path_re_iff (get_file_name s)).0 b))
      | inr b ↦ b
    ]

    back : IsValid s → validate_secret_object s ≡ ok tt
    back v =
        rw
          (
            ne_nil→is_empty s.object_name v.named,
            check_arn-of-NamesKms s.object_name v.kms,
            not_bad v.no_pair,
          )
          ((check_jmes_path_iff s.jmes_path).1 v.complete)
