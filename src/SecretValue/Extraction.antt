-- ===== src/SecretValue/Extraction.antt =====
-- What `getJsonSecrets` returns.
use secrets_store_csi_driver.Prelude.{
  Text, ◌≡◌, refl, ap, sym, ◌⊎◌, inl, inr, List, [], ◌∷◌, map, utf8,
}
use secrets_store_csi_driver.Outcome.{ok, Reply, done, failed, >>=-eq-ok, ok-injective}
use secrets_store_csi_driver.SecretObject.{
  JmesPathObject, SecretObject, get_jmes_entry_secret_object,
}
use secrets_store_csi_driver.SecretValue.{
  SecretValue, Json, JsonTools, null, string, string_result, extract, extract_from,
  get_json_secrets_of, get_json_secrets,
}

module _ (tools : JsonTools) where
  -- The values that the entries stand for: each search finds a string, and the value is its bytes.
  abbrev pub Extracts : SecretObject → Json → List JmesPathObject → List SecretValue → Type 0
  Extracts parent json [] [] = Unit
  Extracts parent json [] (v ∷ vs) = ⊥
  Extracts parent json (e ∷ es) [] = ⊥
  Extracts parent json (e ∷ es) (v ∷ vs) =
      ((t : Text) × (tools.search e.path json ≡ done (string t))
        × (v ≡ record { value = utf8 t; secret_obj = get_jmes_entry_secret_object parent e }))
      × Extracts parent json es vs

  string_result-eq-ok :
      (e : JmesPathObject) (r : Reply Json) (t : Text)
      → string_result e r ≡ ok t
      → r ≡ done (string t)
  unfolding string_result
  string_result-eq-ok e (failed f) t h = cc
  string_result-eq-ok e (done null) t h = cc
  string_result-eq-ok e (done (string u)) t h = ap (λ x. done (string x)) (ok-injective u t h)
  string_result-eq-ok e (done _) t h = cc

  extract_sound :
      (parent : SecretObject) (json : Json) (es : List JmesPathObject) (vs : List SecretValue)
      → extract tools parent json es ≡ ok vs
      → Extracts parent json es vs
  unfolding extract
  extract_sound parent json [] [] h = tt
  extract_sound parent json [] (v ∷ vs) h = cc
  extract_sound parent json (e ∷ es) vs h =
      let (t, ht, h') = >>=-eq-ok (string_result e (tools.search e.path json)) _ h in
      let (rest, hr, last) = >>=-eq-ok (extract tools parent json es) _ h' in
      built vs (string_result-eq-ok e (tools.search e.path json) t ht)
        (extract_sound parent json es rest hr) (ok-injective _ vs last)
    where
      built :
          {t : Text} {rest : List SecretValue} (ws : List SecretValue)
          → tools.search e.path json ≡ done (string t)
          → Extracts parent json es rest
          → (record { value = utf8 t; secret_obj = get_jmes_entry_secret_object parent e }) ∷ rest
            ≡ ws
          → Extracts parent json (e ∷ es) ws
      built ws found below same = rw (← same) ((_, found, refl), below)

  -- The objects of the extracted values are those of the entries, in their order.
  pub Extracts-objects :
      (parent : SecretObject) (json : Json) (es : List JmesPathObject) (vs : List SecretValue)
      → Extracts parent json es vs
      → map (λ (v : SecretValue). v.secret_obj) vs ≡ map (get_jmes_entry_secret_object parent) es
  Extracts-objects parent json [] [] h = refl
  Extracts-objects parent json [] (v ∷ vs) h = absurd h
  Extracts-objects parent json (e ∷ es) [] h = absurd h
  Extracts-objects parent json (e ∷ es) (v ∷ vs) ((t, found, same), h) =
      rw (same, Extracts-objects parent json es vs h)

  extract_from_sound :
      (sv : SecretValue) (r : Reply Json) (vs : List SecretValue)
      → tools.unmarshal sv.value ≡ r
      → extract_from tools sv.secret_obj r ≡ ok vs
      → (json : Json) × (tools.unmarshal sv.value ≡ done json)
        × Extracts sv.secret_obj json sv.secret_obj.jmes_path vs
  unfolding extract_from
  extract_from_sound sv (failed f) vs e h = cc
  extract_from_sound sv (done json) vs e h =
      (json, e, extract_sound sv.secret_obj json sv.secret_obj.jmes_path vs h)

  by_entries :
      (sv : SecretValue) (es : List JmesPathObject) (vs : List SecretValue)
      → sv.secret_obj.jmes_path ≡ es
      → get_json_secrets_of tools sv es ≡ ok vs
      → ((sv.secret_obj.jmes_path ≡ []) × (vs ≡ []))
        ⊎ ((json : Json) × (tools.unmarshal sv.value ≡ done json)
            × Extracts sv.secret_obj json sv.secret_obj.jmes_path vs)
  unfolding get_json_secrets_of
  by_entries sv [] vs e h = inl (e, sym (ok-injective [] vs h))
  by_entries sv (x ∷ es) vs e h = inr (extract_from_sound sv (tools.unmarshal sv.value) vs refl h)

  -- When `getJsonSecrets` succeeds on a secret with entries, the secret's value is JSON, each entry's
  -- search finds a string in it, and there is one value for each entry, in order, with the string's
  -- bytes.  With no entry there is no value, and the secret is not read as JSON.
  pub get_json_secrets_sound :
      (sv : SecretValue) (vs : List SecretValue)
      → get_json_secrets tools sv ≡ ok vs
      → ((sv.secret_obj.jmes_path ≡ []) × (vs ≡ []))
        ⊎ ((json : Json) × (tools.unmarshal sv.value ≡ done json)
            × Extracts sv.secret_obj json sv.secret_obj.jmes_path vs)
  get_json_secrets_sound sv vs h =
      by_entries sv sv.secret_obj.jmes_path vs refl (unfold get_json_secrets in h)

  pub get_json_secrets-objects :
      (sv : SecretValue) (vs : List SecretValue)
      → get_json_secrets tools sv ≡ ok vs
      → map (λ (v : SecretValue). v.secret_obj) vs
        ≡ map (get_jmes_entry_secret_object sv.secret_obj) sv.secret_obj.jmes_path
  get_json_secrets-objects sv vs h = elim (get_json_secrets_sound sv vs h) [
    | inl (e, e') ↦ rw (e, e')
    | inr (json, _, all) ↦ Extracts-objects sv.secret_obj json sv.secret_obj.jmes_path vs all
  ]
