-- ===== src/SecretObject/Settled.antt =====
-- provider/secret_object.go: reading the objects does not panic if none is null.
use secrets_store_csi_driver.Prelude.{
  ℕ, Text, codes, ◌≡◌, ◌≢◌, refl, subst, inl, inr, List, [], ◌∷◌, ◌++◌, All, Option, none, some,
  Bool, true, false, not, eq_text, is_empty, has_prefix, ◌==◌, utf8_length, to_lower, Bool-cases,
}
use secrets_store_csi_driver.Outcome.{
  Outcome, ok, err, panic, Reply, done, failed, Error, bad_path, duplicate_alias, refuse_if,
  ok-injective, ◌>>=◌,
}
use secrets_store_csi_driver.Settles.{Settles, Replies, IsSome, Settles-bind, Settles-refuse_if}
use secrets_store_csi_driver.Arn.{Arn, arn_prefix, parse_arn}
use secrets_store_csi_driver.Arn.Parse.{parse_arn_cases}
use secrets_store_csi_driver.Regex.{full_match}
use secrets_store_csi_driver.SecretObject.{JmesPathObject, SecretObject, get_file_name}
use secrets_store_csi_driver.SecretObject.Validation.{
  bad_path_re, check_service, check_arn, check_jmes_path, validate_secret_object,
}
use secrets_store_csi_driver.SecretObject.Listing.{
  ValidationState, has_name, claim, claim_alias, claim_jmes, process_secret_object, process_all,
  translation, read_spec, new_secret_object_list, place, type_name_key, jmes_key,
}

-- A guard does not panic.
guard-Settles :
    {A : Type 0} (b : Bool) (e : Error) (f : Unit {0} → Outcome A)
    → Settles Unit (f tt)
    → Settles Unit (refuse_if b e >>= f)
guard-Settles true e f h = tt
guard-Settles false e f h = h

check_service-Settles :
    (name : Text) (r : Outcome Arn) → r ≢ panic → Settles Unit (check_service name r)
unfolding check_service
check_service-Settles name (ok arn) h = Settles-refuse_if Unit _ _ (λ _. tt)
check_service-Settles name (err e) h = tt
check_service-Settles name panic h = h refl

parse_arn-ne-panic : (s : Text) → parse_arn s ≢ panic
parse_arn-ne-panic s = elim (parse_arn_cases s) [
  | inl (_, e) ↦ λ q. cc
  | inr (inl (_, _, e)) ↦ λ q. cc
  | inr (inr (_, _, (a, e))) ↦ λ q. cc
]

check_arn-Settles : (name : Text) → Settles Unit (check_arn name)
unfolding check_arn
check_arn-Settles name = elim (Bool-cases (has_prefix name arn_prefix)) [
  | inl q ↦ rw q (check_service-Settles name (parse_arn name) (parse_arn-ne-panic name))
  | inr q ↦ rw q tt
]

check_jmes_path-Settles : (es : List JmesPathObject) → Settles Unit (check_jmes_path es)
unfolding check_jmes_path
check_jmes_path-Settles [] = tt
check_jmes_path-Settles (e ∷ es) =
    guard-Settles (is_empty e.path) _ _
      (guard-Settles (is_empty e.object_alias) _ _ (check_jmes_path-Settles es))

validate_secret_object-Settles : (s : SecretObject) → Settles Unit (validate_secret_object s)
unfolding validate_secret_object
validate_secret_object-Settles s = guard-Settles (is_empty s.object_name) _ _ (
    Settles-bind Unit (check_arn s.object_name) _ (check_arn-Settles s.object_name) (λ _ e.
      guard-Settles (full_match bad_path_re (get_file_name s)) (bad_path s.object_name)
        (λ _. check_jmes_path s.jmes_path) (check_jmes_path-Settles s.jmes_path)))

claim-Settles : (names : List Text) (key : Text) (e : Error) → Settles Unit (claim names key e)
unfolding claim
claim-Settles names key e = guard-Settles (has_name names key) e (λ _. ok (names ++ key ∷ [])) tt

claim_alias-Settles : (names : List Text) (alias : Text) → Settles Unit (claim_alias names alias)
unfolding claim_alias
claim_alias-Settles names alias = elim (Bool-cases (is_empty alias)) [
  | inl q ↦ rw q tt
  | inr q ↦ rw q (claim-Settles names alias (duplicate_alias alias))
]

claim_jmes-Settles :
    (names : List Text) (js : List JmesPathObject) → Settles Unit (claim_jmes names js)
unfolding claim_jmes
claim_jmes-Settles names [] = tt
claim_jmes-Settles names (j ∷ js) =
    Settles-bind Unit (claim names (jmes_key j) _) _ (claim-Settles names (jmes_key j) _)
      (λ names' e. claim_jmes-Settles names' js)

process_secret_object-Settles :
    (state : ValidationState) (spec : Option SecretObject)
    → IsSome spec
    → Settles Unit (process_secret_object state spec)
unfolding process_secret_object
process_secret_object-Settles state none h = h
process_secret_object-Settles state (some spec) h =
    let s = place state.translate state.mount_dir spec in
    Settles-bind Unit (validate_secret_object s) _ (validate_secret_object-Settles s) (λ _ e.
      Settles-bind Unit (claim state.names (type_name_key s) _) _
        (claim-Settles state.names (type_name_key s) _)
        (λ keyed f.
          Settles-bind Unit (claim_alias keyed s.object_alias) _
            (claim_alias-Settles keyed s.object_alias)
            (λ aliased g.
              Settles-bind Unit (claim_jmes aliased s.jmes_path) _
                (claim_jmes-Settles aliased s.jmes_path) (λ extracted k. tt))))

process_all-Settles :
    (state : ValidationState) (specs : List (Option SecretObject))
    → All IsSome specs
    → Settles Unit (process_all state specs)
unfolding process_all
process_all-Settles state [] h = tt
process_all-Settles state (spec ∷ specs) (h, hs) =
    Settles-bind Unit (process_secret_object state spec) _
      (process_secret_object-Settles state spec h) (λ state' e. process_all-Settles state' specs hs)

translation-Settles :
    (unicode : ℕ → ℕ) (translate : Text) → Settles Unit (translation unicode translate)
unfolding translation
translation-Settles unicode translate = elim (Bool-cases (is_empty translate)) [
  | inl q ↦ rw q tt
  | inr q ↦ elim (Bool-cases (eq_text (to_lower unicode translate) (codes "false"))) [
    | inl p ↦ rw (q, p) tt
    | inr p ↦ elim (Bool-cases (not (utf8_length translate == 1))) [
      | inl k ↦ rw (q, p, k) tt
      | inr k ↦ rw (q, p, k) tt
    ]
  ]
]

read_spec-Settles : (r : Reply (List (Option SecretObject))) → Settles Unit (read_spec r)
read_spec-Settles (done specs) = tt
read_spec-Settles (failed f) = tt

-- The specification is unreadable, or has no null item.
abbrev pub NoNull : Reply (List (Option SecretObject)) → Type 0
NoNull r = Replies Unit (All IsSome) r

read_spec-IsSome :
    (r : Reply (List (Option SecretObject))) (specs : List (Option SecretObject))
    → NoNull r
    → read_spec r ≡ ok specs
    → All IsSome specs
read_spec-IsSome (done os) specs h e = subst (All IsSome) (ok-injective os specs e) h
read_spec-IsSome (failed f) specs h e = cc

pub new_secret_object_list-Settles :
    (unicode : ℕ → ℕ) (unmarshal : Text → Reply (List (Option SecretObject)))
    (mount_dir translate object_spec : Text)
    → NoNull (unmarshal object_spec)
    → Settles Unit (new_secret_object_list unicode unmarshal mount_dir translate object_spec)
unfolding new_secret_object_list
new_secret_object_list-Settles unicode unmarshal mount_dir translate object_spec h =
    Settles-bind Unit (translation unicode translate) _ (translation-Settles unicode translate)
      (λ t e.
        Settles-bind Unit (read_spec (unmarshal object_spec)) _
          (read_spec-Settles (unmarshal object_spec))
          (λ specs f.
            Settles-bind Unit (process_all _ specs) _
              (process_all-Settles _ specs (read_spec-IsSome (unmarshal object_spec) specs h f))
              (λ state g. tt)))
