-- ===== src/Tests/Fetching.antt =====
-- Fetching secrets, at concrete inputs.
use secrets_store_csi_driver.Prelude.{
  ◌+◌, codes, ◌≡◌, refl, ◌⊎◌, List, [], ◌∷◌, some, if◌then◌else◌, arith, eq_text, utf8,
}
use secrets_store_csi_driver.Outcome.{ok, done}
use secrets_store_csi_driver.PullLimit.{wait}
use secrets_store_csi_driver.SecretObject.{get_file_name, get_jmes_entry_secret_object}
use secrets_store_csi_driver.SecretValue.{
  SecretValue, Json, get_json_secrets, get_json_secrets_of, extract_from, extract, string_result,
}
use secrets_store_csi_driver.SecretValue.Extraction.{Extracts, get_json_secrets_sound}
use secrets_store_csi_driver.VersionMap.{ObjectVersion, lookup, insert}
use secrets_store_csi_driver.Provider.Types.{
  kms_request, get_wait_time_exponential, read_kms_body, kms_bytes, is_binary,
}
use secrets_store_csi_driver.Provider.{
  is_current, is_current_version, obtain, fetch_secret, get_kms_secret, with_retry, after_first,
  get_object, get_secret_values, record_versions,
}
use secrets_store_csi_driver.Provider.Backoff.{capped_pause, get_wait_time_exponential_lem}
use secrets_store_csi_driver.Provider.Calls.{asks_again, get_kms_secret-calls}
use secrets_store_csi_driver.Provider.Sourced.{Values, get_secret_values_sound}
use secrets_store_csi_driver.Provider.Versions.{Updates, get_secret_values-Updates}
use secrets_store_csi_driver.Tests.Fixtures.{
  plain, entry_user, with_entry, services, limiter, provider, tools,
}

abbrev secret : SecretValue
secret = record { value = codes "s"; secret_obj = plain }

abbrev version_two : ObjectVersion
version_two = record { id = codes "db"; version = codes "v2" }

fetched :
    get_secret_values services limiter provider tools (plain ∷ []) [] 0
    ≡ (ok (secret ∷ [], (codes "db", version_two) ∷ []), 1)
unfolding get_secret_values get_object obtain is_current is_current_version lookup fetch_secret wait
    get_kms_secret with_retry after_first read_kms_body kms_bytes is_binary get_json_secrets
    get_json_secrets_of record_versions insert get_file_name utf8 eq_text
fetched = refl

get_secret_values_sound_example : Values services provider limiter tools (plain ∷ []) (secret ∷ [])
get_secret_values_sound_example =
    get_secret_values_sound services provider limiter tools (plain ∷ []) []
      ((codes "db", version_two) ∷ []) (secret ∷ []) 0 1 fetched

get_secret_values-Updates_example : Updates [] (secret ∷ []) ((codes "db", version_two) ∷ [])
get_secret_values-Updates_example =
    get_secret_values-Updates services limiter provider tools (plain ∷ []) []
      ((codes "db", version_two) ∷ []) (secret ∷ []) 0 1 fetched

get_kms_secret-calls_example :
    (get_kms_secret services (some 4) plain 0).1
    ≡ 0 + (if asks_again (services.get_secret_value 4 (kms_request plain) 0).0 then 2 else 1)
get_kms_secret-calls_example =
    get_kms_secret-calls services (λ w. w) (record { request = λ c s w. refl; pause = λ n w. refl })
      4 plain 0

get_wait_time_exponential_lem_example : get_wait_time_exponential 5 ≡ capped_pause 5
get_wait_time_exponential_lem_example = get_wait_time_exponential_lem 5 (omega arith)

abbrev with_json : SecretValue
with_json = record { value = codes "x"; secret_obj = with_entry }

abbrev extracted : List SecretValue
extracted =
    record { value = codes "j"; secret_obj = get_jmes_entry_secret_object with_entry entry_user }
    ∷ []

json_runs : get_json_secrets tools with_json ≡ ok extracted
unfolding get_json_secrets get_json_secrets_of extract_from extract string_result utf8
    get_jmes_entry_secret_object
json_runs = refl

get_json_secrets_sound_example :
    ((with_entry.jmes_path ≡ []) × (extracted ≡ []))
    ⊎ ((json : Json) × (tools.unmarshal with_json.value ≡ done json)
        × Extracts tools with_entry json with_entry.jmes_path extracted)
get_json_secrets_sound_example = get_json_secrets_sound tools with_json extracted json_runs
