-- ===== src/SecretValue.antt =====
-- provider/secret_value.go: the values extracted from a secret by JMESPath.
pub mod Extraction
use secrets_store_csi_driver.Prelude.{ℕ, Text, Bool, List, [], ◌∷◌, String, utf8}
use secrets_store_csi_driver.Outcome.{
  Outcome, ok, err, Reply, done, failed, invalid_json, invalid_jmes_path, jmes_not_string,
  jmes_no_object, ◌>>=◌,
}
use secrets_store_csi_driver.SecretObject.{
  JmesPathObject, SecretObject, get_jmes_entry_secret_object,
}

-- `SecretValue`
pub record SecretValue : Type 0 where
  pub value : List ℕ
  pub secret_obj : SecretObject

-- `SecretValue.String`
abbrev pub redacted : SecretValue → String
redacted sv = "<REDACTED>"

-- What encoding/json puts into an `interface{}`; a number is a float64, by its bits.
mutual
  pub data Json : Type 0 where
    null : Json
    boolean : Bool → Json
    number : ℕ → Json
    string : Text → Json
    array : Items → Json
    object : Members → Json

  pub data Items : Type 0 where
    nil : Items
    cons : Json → Items → Items

  pub data Members : Type 0 where
    end : Members
    member : Text → Json → Members → Members

-- `json.Unmarshal` into an `interface{}`, and `jmespath.Search` of github.com/jmespath/go-jmespath.
pub record JsonTools : Type 0 where
  pub unmarshal : List ℕ → Reply Json
  pub search : Text → Json → Reply Json

-- The checks on one result: found, not nil, a string.
unfoldable pub string_result : JmesPathObject → Reply Json → Outcome Text
string_result entry (failed f) = err (invalid_jmes_path entry.path)
string_result entry (done null) = err (jmes_no_object entry.path entry.object_alias)
string_result entry (done (string t)) = ok t
string_result entry (done _) = err (jmes_not_string entry.path)

module _ (tools : JsonTools) where
  -- The loop over the entries of `parent`.
  unfoldable pub extract : SecretObject → Json → List JmesPathObject → Outcome (List SecretValue)
  extract parent json [] = ok []
  extract parent json (entry ∷ entries) = do
    t ← string_result entry (tools.search entry.path json)
    rest ← extract parent json entries
    ok (record { value = utf8 t; secret_obj = get_jmes_entry_secret_object parent entry } ∷ rest)

  unfoldable pub extract_from : SecretObject → Reply Json → Outcome (List SecretValue)
  extract_from parent (failed f) = err (invalid_json parent.object_name)
  extract_from parent (done json) = extract parent json parent.jmes_path

  -- `getJsonSecrets` on the entries of the secret's object.
  unfoldable pub get_json_secrets_of :
      SecretValue → List JmesPathObject → Outcome (List SecretValue)
  get_json_secrets_of sv [] = ok []
  get_json_secrets_of sv (entry ∷ entries) = extract_from sv.secret_obj (tools.unmarshal sv.value)

  -- `getJsonSecrets`
  unfoldable pub get_json_secrets : SecretValue → Outcome (List SecretValue)
  unfolding get_json_secrets_of
  get_json_secrets sv = get_json_secrets_of sv sv.secret_obj.jmes_path
