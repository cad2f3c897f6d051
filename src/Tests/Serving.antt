-- ===== src/Tests/Serving.antt =====
-- The requests of the driver at concrete inputs.
use secrets_store_csi_driver.Prelude.{
  Text, codes, ◌≡◌, ◌≢◌, refl, ◌⊎◌, [], ◌∷◌, map, All, some, true, eq_text, contains, trim_space,
  has_prefix, replace_all, trim_left, utf8,
}
use secrets_store_csi_driver.Outcome.{
  ok, err, done, endpoint_refused, fetch_failed, kms_client_empty, oos_client_empty,
  unsupported_secret_type,
}
use secrets_store_csi_driver.Endpoint.Hosts.{IsKmsHost}
use secrets_store_csi_driver.Server.Config.{default_kms_endpoint, kms_config, kms_endpoint_of}
use secrets_store_csi_driver.Server.Clients.{new_kms_client}
use secrets_store_csi_driver.Server.Endpoints.{client_at, new_kms_client_cases}
use secrets_store_csi_driver.Server.Kubernetes.{
  get_k8s_client, get_k8s_client-once, after_config, after_client, beside,
}
use secrets_store_csi_driver.Server.Resolve.{
  Caches, no_caches, is_supported, base_client, client_for, resolve, resolve_all,
}
use secrets_store_csi_driver.Server.Resolved.{bare, HasClient, resolve_all-HasClient}
use secrets_store_csi_driver.Server.Mount.{
  MountResponse, mount, mount_with, pod_role_arn, mount_objects, fetch_all, mount_response, file_of,
  region_of, current_versions, or_no_role,
}
use secrets_store_csi_driver.Auth.{get_kms_auth_cred, new_credential_of, or_next, links}
use secrets_store_csi_driver.Auth.Config.{
  auth_config, get_oidc_provider_arn, build_oidc_provider_arn,
}
use secrets_store_csi_driver.PullLimit.{wait}
use secrets_store_csi_driver.Regex.{full_match, is_dot}
use secrets_store_csi_driver.SecretObject.{SecretObject, get_file_name}
use secrets_store_csi_driver.Server.Fetched.{get_secret_values-resolve_all}
use secrets_store_csi_driver.SecretObject.Validation.{
  bad_path_re, two_dots, check_arn, check_jmes_path, validate_secret_object,
}
use secrets_store_csi_driver.SecretObject.Listing.{
  new_secret_object_list, translation, process_all, process_secret_object, claim, has_name,
  claim_alias, claim_jmes,
}
use secrets_store_csi_driver.SecretValue.{get_json_secrets, get_json_secrets_of}
use secrets_store_csi_driver.VersionMap.{lookup, insert}
use secrets_store_csi_driver.Provider.Types.{judge_need_retry, read_kms_body, kms_bytes, is_binary}
use secrets_store_csi_driver.Provider.{
  is_current, is_current_version, obtain, fetch_secret, get_kms_secret, with_retry, after_first,
  get_object, get_secret_values, record_versions,
}
use secrets_store_csi_driver.Auth.Methods.{
  Entries, entry, pod_service_account_auth, oidc_role_auth, ram_role_auth, node_publish_secret_auth,
  ak_auth, ecs_role_auth, ask, tokens_json,
}
use secrets_store_csi_driver.Server.Mounted.{Serves, mount-IsMounted}
use secrets_store_csi_driver.Tests.Fixtures.{
  plain, sdk, cluster, fresh, outside, request, auth, failing, throttled, limiter, provider, tools,
}

new_kms_client_cases_example :
    ((codes "evil.com" ≡ [])
      × (new_kms_client sdk 7 (codes "evil.com") (codes "r") 0
          ≡ client_at sdk (default_kms_endpoint (codes "r")) 7 (codes "r") 0))
    ⊎ ((codes "evil.com" ≢ [])
        × IsKmsHost (trim_space (codes "evil.com"))
        × (new_kms_client sdk 7 (codes "evil.com") (codes "r") 0
            ≡ client_at sdk (codes "evil.com") 7 (codes "r") 0))
    ⊎ ((codes "evil.com" ≢ [])
        × ¬ IsKmsHost (trim_space (codes "evil.com"))
        × (new_kms_client sdk 7 (codes "evil.com") (codes "r") 0
            ≡ (err (endpoint_refused (codes "evil.com")), 0)))
new_kms_client_cases_example = new_kms_client_cases sdk 7 (codes "evil.com") (codes "r") 0

settles : (get_k8s_client cluster (fresh, 0)).1.0.is_init ≡ true
unfolding get_k8s_client after_config after_client
settles = refl

get_k8s_client-once_example :
    get_k8s_client cluster ((get_k8s_client cluster (fresh, 0)).1.0, 5)
    ≡ ((get_k8s_client cluster (fresh, 0)).0, ((get_k8s_client cluster (fresh, 0)).1.0, 5))
get_k8s_client-once_example = get_k8s_client-once cluster fresh 0 5 settles

abbrev one_client : Caches
one_client = record no_caches { kms = record { base = some 4; by_role = [] } }

resolved : resolve_all sdk 7 (codes "r") (plain ∷ []) no_caches 0 ≡ (ok (plain ∷ [], one_client), 0)
unfolding resolve_all resolve is_supported client_for base_client new_kms_client kms_config
    kms_endpoint_of default_kms_endpoint contains eq_text
resolved = refl

resolve_all-HasClient_example :
    All HasClient (plain ∷ []) × (map bare (plain ∷ []) ≡ map bare (plain ∷ []))
resolve_all-HasClient_example =
    resolve_all-HasClient sdk 7 (codes "r") (plain ∷ []) (plain ∷ []) one_client 0 0 resolved

fails :
    get_secret_values failing limiter provider tools (plain ∷ []) [] 0
    ≡ (err (fetch_failed (codes "db") throttled), 1)
unfolding get_secret_values get_object obtain is_current is_current_version lookup fetch_secret wait
    get_kms_secret with_retry after_first judge_need_retry
fails = refl

get_secret_values-resolve_all_example :
    (fetch_failed (codes "db") throttled ≢ kms_client_empty)
    × (fetch_failed (codes "db") throttled ≢ oos_client_empty)
    × ((t : Text) → fetch_failed (codes "db") throttled ≢ unsupported_secret_type t)
get_secret_values-resolve_all_example =
    get_secret_values-resolve_all sdk failing limiter tools 7 (codes "r") (plain ∷ []) (plain ∷ [])
      one_client provider [] (fetch_failed (codes "db") throttled) 0 0 0 1 resolved fails

abbrev elsewhere : SecretObject
elsewhere = record plain { kms_endpoint = codes "evil.com" }

abbrev response : MountResponse
response = record {
  files = (record { path = codes "db"; contents = codes "s"; mode = 420 }) ∷ [];
  object_version = (record { id = codes "db"; version = codes "v2" }) ∷ [];
}

mounts : mount outside request (fresh, 0) ≡ (ok response, (fresh, 1))
unfolding mount mount_with pod_role_arn mount_objects fetch_all mount_response file_of region_of
    current_versions or_no_role beside entry get_kms_auth_cred new_credential_of or_next links
    pod_service_account_auth oidc_role_auth ram_role_auth node_publish_secret_auth ak_auth
    ecs_role_auth ask auth_config get_oidc_provider_arn build_oidc_provider_arn tokens_json
    new_secret_object_list translation process_all process_secret_object validate_secret_object
    check_arn check_jmes_path full_match bad_path_re two_dots is_dot has_prefix claim has_name
    claim_alias claim_jmes get_file_name replace_all trim_left resolve_all resolve is_supported
    client_for base_client new_kms_client kms_config kms_endpoint_of default_kms_endpoint contains
    get_secret_values get_object obtain is_current is_current_version lookup fetch_secret wait
    get_kms_secret with_retry after_first read_kms_body kms_bytes is_binary get_json_secrets
    get_json_secrets_of record_versions insert utf8 eq_text
mounts = refl

mount-IsMounted_example :
    (attrib : Entries) × (auth.unmarshal_strings request.attributes ≡ done attrib)
    × Serves outside request attrib response
mount-IsMounted_example = mount-IsMounted outside request response (fresh, 0) (fresh, 1) mounts
