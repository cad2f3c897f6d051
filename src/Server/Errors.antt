-- ===== src/Server/Errors.antt =====
-- The errors of reading a response and of extracting values: none is about a missing client.
use secrets_store_csi_driver.Prelude.{
  ℕ, Text, inl, inr, List, [], ◌∷◌, Option, none, some, Bool-cases,
}
use secrets_store_csi_driver.Outcome.{
  Error, Reply, done, failed, Errs, Errs-bind, kms_client_empty, oos_client_empty,
  unsupported_secret_type,
}
use secrets_store_csi_driver.SecretObject.{SecretObject, JmesPathObject}
use secrets_store_csi_driver.SecretValue.{
  SecretValue, Json, JsonTools, null, string, string_result, extract, extract_from,
  get_json_secrets_of,
}
use secrets_store_csi_driver.Provider.Types.{
  KmsBody, deref, decoded, is_binary, kms_bytes, read_kms_body, read_oos_body,
}

-- Every error but those of a missing client and of an unknown type.
abbrev pub IsSupplied : Error → Type 0
IsSupplied kms_client_empty = ⊥
IsSupplied oos_client_empty = ⊥
IsSupplied (unsupported_secret_type t) = ⊥
IsSupplied _ = Unit

pub deref-IsSupplied : {A : Type 0} (o : Option A) → Errs IsSupplied (deref o)
deref-IsSupplied none = tt
deref-IsSupplied (some a) = tt

pub decoded-IsSupplied : (s : SecretObject) (r : Reply (List ℕ)) → Errs IsSupplied (decoded s r)
decoded-IsSupplied s (done bytes) = tt
decoded-IsSupplied s (failed f) = tt

pub kms_bytes-IsSupplied :
    (decode : Text → Reply (List ℕ)) (s : SecretObject) (body : KmsBody)
    → Errs IsSupplied (kms_bytes decode s body)
unfolding kms_bytes
kms_bytes-IsSupplied decode s body = elim (Bool-cases (is_binary body.secret_data_type)) [
  | inl q ↦ rw q (
      Errs-bind IsSupplied (deref body.secret_data) _ (deref-IsSupplied body.secret_data)
        (λ t. decoded-IsSupplied s (decode t)))
  | inr q ↦ rw q (
      Errs-bind IsSupplied (deref body.secret_data) _ (deref-IsSupplied body.secret_data) (λ t. tt))
]

pub read_kms_body-IsSupplied :
    (decode : Text → Reply (List ℕ)) (s : SecretObject) (r : Option KmsBody)
    → Errs IsSupplied (read_kms_body decode s r)
unfolding read_kms_body
read_kms_body-IsSupplied decode s r = Errs-bind IsSupplied (deref r) _ (deref-IsSupplied r) (λ body.
    Errs-bind IsSupplied (kms_bytes decode s body) _ (kms_bytes-IsSupplied decode s body) (λ bytes.
      Errs-bind IsSupplied (deref body.version_id) _ (deref-IsSupplied body.version_id) (λ v. tt)))

pub read_oos_body-IsSupplied :
    (s : SecretObject) (r : Option Text) → Errs IsSupplied (read_oos_body s r)
unfolding read_oos_body
read_oos_body-IsSupplied s r = Errs-bind IsSupplied (deref r) _ (deref-IsSupplied r) (λ t. tt)

pub string_result-IsSupplied :
    (e : JmesPathObject) (r : Reply Json) → Errs IsSupplied (string_result e r)
unfolding string_result
string_result-IsSupplied e (failed f) = tt
string_result-IsSupplied e (done null) = tt
string_result-IsSupplied e (done (string t)) = tt
string_result-IsSupplied e (done _) = tt

module _ (tools : JsonTools) where
  extract-IsSupplied :
      (s : SecretObject) (json : Json) (es : List JmesPathObject)
      → Errs IsSupplied (extract tools s json es)
  unfolding extract
  extract-IsSupplied s json [] = tt
  extract-IsSupplied s json (e ∷ es) =
      Errs-bind IsSupplied (string_result e (tools.search e.path json)) _
        (string_result-IsSupplied e (tools.search e.path json))
        (λ t.
          Errs-bind IsSupplied (extract tools s json es) _ (extract-IsSupplied s json es)
            (λ vs. tt))

  extract_from-IsSupplied :
      (s : SecretObject) (r : Reply Json) → Errs IsSupplied (extract_from tools s r)
  unfolding extract_from
  extract_from-IsSupplied s (failed f) = tt
  extract_from-IsSupplied s (done json) = extract-IsSupplied s json s.jmes_path

  pub get_json_secrets_of-IsSupplied :
      (v : SecretValue) (es : List JmesPathObject)
      → Errs IsSupplied (get_json_secrets_of tools v es)
  unfolding get_json_secrets_of
  get_json_secrets_of-IsSupplied v [] = tt
  get_json_secrets_of-IsSupplied v (e ∷ es) =
      extract_from-IsSupplied v.secret_obj (tools.unmarshal v.value)
