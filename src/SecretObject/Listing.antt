-- ===== src/SecretObject/Listing.antt =====
-- `processSecretObject` and `NewSecretObjectList` of provider/secret_object.go.
use secrets_store_csi_driver.Prelude.{
  ℕ, Text, codes, colon, List, [], ◌∷◌, ◌++◌, Option, none, some, Bool, false, ◌||◌, ◌==◌,
  if◌then◌else◌, eq_text, to_lower, utf8_length, is_empty, not,
}
use secrets_store_csi_driver.Outcome.{
  Outcome, ok, err, panic, Error, Reply, done, failed, bad_translation, spec_unreadable,
  duplicate_name, duplicate_alias, duplicate_jmes_alias, refuse_if, ◌>>=◌, ◌>>◌,
}
use secrets_store_csi_driver.SecretObject.{JmesPathObject, SecretObject}
use secrets_store_csi_driver.SecretObject.Validation.{validate_secret_object}

-- `validationState`; `names` holds the keys that the map has, in the order in which they came, and
-- the current `specObj` is an argument.
pub record ValidationState : Type 0 where
  pub names : List Text
  pub objects : List SecretObject
  pub translate : Text
  pub mount_dir : Text

-- `state.names[key]`
unfoldable pub has_name : List Text → Text → Bool
has_name [] key = false
has_name (n ∷ ns) key = eq_text n key || has_name ns key

-- The guard on a key, and the key's entry.
unfoldable pub claim : List Text → Text → Error → Outcome (List Text)
claim names key duplicate = do refuse_if (has_name names key) duplicate; ok (names ++ key ∷ [])

-- `ObjectTypeKMS`
abbrev pub object_type_kms : Text
object_type_kms = codes "kms"

-- `ObjectTypeOOS`
abbrev pub object_type_oos : Text
object_type_oos = codes "oos"

-- The object's type, KMS by default.
abbrev pub type_or_kms : SecretObject → Text
type_or_kms s = if is_empty s.object_type then object_type_kms else s.object_type

-- `typeNameKey`
abbrev pub type_name_key : SecretObject → Text
type_name_key s = s.object_name ++ (colon ∷ s.object_alias ++ (colon ∷ type_or_kms s))

-- `jmesKey`
abbrev pub jmes_key : JmesPathObject → Text
jmes_key j = codes "jmes:" ++ j.object_alias

unfoldable pub claim_alias : List Text → Text → Outcome (List Text)
claim_alias names alias =
    if is_empty alias then ok names else claim names alias (duplicate_alias alias)

unfoldable pub claim_jmes : List Text → List JmesPathObject → Outcome (List Text)
claim_jmes names [] = ok names
claim_jmes names (j ∷ js) = do
  names' ← claim names (jmes_key j) (duplicate_jmes_alias j.object_alias)
  claim_jmes names' js

-- The properties that do not come from the specification.
abbrev pub place : Text → Text → SecretObject → SecretObject
place translate mount_dir spec = record spec { translate = translate; mount_dir = mount_dir }

-- `processSecretObject`; a nil object is dereferenced.
unfoldable pub process_secret_object :
    ValidationState → Option SecretObject → Outcome ValidationState
process_secret_object state none = panic
process_secret_object state (some spec) = do
  let s = place state.translate state.mount_dir spec
  validate_secret_object s
  let objects = state.objects ++ s ∷ []
  keyed ← claim state.names (type_name_key s) (duplicate_name s.object_name (type_or_kms s))
  aliased ← claim_alias keyed s.object_alias
  extracted ← claim_jmes aliased s.jmes_path
  ok (record state { names = extracted; objects = objects })

unfoldable pub process_all : ValidationState → List (Option SecretObject) → Outcome ValidationState
process_all state [] = ok state
process_all state (spec ∷ specs) = do
  state' ← process_secret_object state spec
  process_all state' specs

-- The character that stands for a slash, or none.
unfoldable pub translation : (ℕ → ℕ) → Text → Outcome Text
translation unicode translate =
    if is_empty translate
    then ok (codes "_")
    else if eq_text (to_lower unicode translate) (codes "false")
    then ok []
    else if not (utf8_length translate == 1)
    then err bad_translation
    else ok translate

-- What `yaml.Unmarshal` made of the specification.
abbrev pub read_spec : Reply (List (Option SecretObject)) → Outcome (List (Option SecretObject))
read_spec (done specs) = ok specs
read_spec (failed f) = err (spec_unreadable f)

-- `NewSecretObjectList`; `unicode` is the table of `unicode.ToLower` beyond ASCII, and `unmarshal` is
-- `yaml.Unmarshal` of sigs.k8s.io/yaml, in which a null item is a nil pointer.
unfoldable pub new_secret_object_list :
    (unicode : ℕ → ℕ) (unmarshal : Text → Reply (List (Option SecretObject)))
    (mount_dir translate object_spec : Text)
    → Outcome (List SecretObject)
new_secret_object_list unicode unmarshal mount_dir translate object_spec = do
  translate' ← translation unicode translate
  specs ← read_spec (unmarshal object_spec)
  state ←
      process_all
        (record { names = []; objects = []; translate = translate'; mount_dir = mount_dir }) specs
  ok state.objects
