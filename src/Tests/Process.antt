-- ===== src/Tests/Process.antt =====
-- The process, the fetching of several objects and their keys, at concrete inputs.
use secrets_store_csi_driver.Prelude.{
  ℕ, suc, ◌+◌, ◌*◌, ◌≤◌, Text, codes, colon, ◌≡◌, refl, inl, inr, All, In, Distinct, List, [], ◌∷◌,
  Option, none, some, eq_text, has_prefix, contains, replace_all, trim_left, length,
}
use secrets_store_csi_driver.Outcome.{ok, Reply, done, failed}
use secrets_store_csi_driver.Regex.{full_match, is_dot}
use secrets_store_csi_driver.SecretObject.{SecretObject, get_file_name, get_mount_path}
use secrets_store_csi_driver.SecretObject.Collide.{of_type, two_types-one_path}
use secrets_store_csi_driver.SecretObject.Validation.{
  bad_path_re, two_dots, check_arn, check_jmes_path, validate_secret_object,
}
use secrets_store_csi_driver.SecretObject.Listing.{
  object_type_kms, object_type_oos, place, new_secret_object_list,
}
use secrets_store_csi_driver.Provider.{get_secret_values}
use secrets_store_csi_driver.Provider.Requests.{
  CountsRequests, HasForeignErrors, get_secret_values-requests, get_secret_values-HasForeignErrors,
}
use secrets_store_csi_driver.Provider.Types.{Services, second}
use secrets_store_csi_driver.Main.{System, Running, Event, signalled, elsewhere}
use secrets_store_csi_driver.VersionMap.{lookup}
use secrets_store_csi_driver.Provider.Pinned.{IsPinned, get_secret_values-IsPinned}
use secrets_store_csi_driver.Server.Config.{default_kms_endpoint, kms_config, kms_endpoint_of}
use secrets_store_csi_driver.Server.Clients.{Sdk, new_kms_client, create_cross_account_credential}
use secrets_store_csi_driver.Server.Keyed.{load, store}
use secrets_store_csi_driver.Server.Resolve.{
  Caches, no_caches, is_supported, base_client, client_for, role_client, loaded_or_made,
  role_credential, credential_from, resolve, resolve_all,
}
use secrets_store_csi_driver.Server.Roles.{keys, CountsRoleCredentials}
use secrets_store_csi_driver.Server.RoleCredentials.{roles, resolve_all-made}
use secrets_store_csi_driver.Server.OneClient.{client_of, resolve_all-one_client}
use secrets_store_csi_driver.Tests.Fixtures.{
  plain, aliased, mounted, version_one, sdk, services, limiter, provider, tools, throttled,
}

-- The world is the number of calls that remove a file.
abbrev system : System ℕ
system = record {
  new_limiter = λ l b w. (1, w);
  remove = λ p w. (done tt, suc w);
  new_grpc_server = λ w. (2, w);
  listen = λ p w. (done 3, w);
  close = λ l w. (done tt, w);
  address = λ l. codes "/s";
  register_provider = λ s p w. w;
  register_health = λ s p w. w;
  graceful_stop = λ s w. w;
  format_uint = λ n. codes "8989";
  join_host_port = λ h p. colon ∷ p;
}

abbrev up : Running
up = record {
  limiter = record {
    kms = record { secret_pull_limiter = some 1 };
    oos = record { secret_pull_limiter = some 1 };
  };
  region = codes "cn-hangzhou";
  socket = codes "/etc/kubernetes/secrets-store-csi-providers/alibabacloud.sock";
  listener = 3;
  grpc_server = 2;
  provider_server = record { grpc_server = none };
  healthz = record {
    host = codes ":8989";
    path = codes "/healthz";
    unix_socket_path = codes "/s";
    rpc_timeout = 5 * second;
  };
}

abbrev events : List (Event ℕ)
events = elsewhere (λ w. w + 5) ∷ signalled ∷ []

-- The world counts the requests to both services.
abbrev counting : Services ℕ
counting = record services { get_secret_parameter = λ c r w. (done (some (codes "p")), suc w) }

counted : CountsRequests counting (λ w. w)
counted = record {
  kms = λ c r w. refl;
  oos = λ c r w. refl;
  limited = λ l t w. refl;
  slept = λ n w. refl;
  read = λ p w. refl;
}

get_secret_values-requests_example :
    (get_secret_values counting limiter provider tools (plain ∷ plain ∷ []) [] 3).1
    ≤ 3 + 2 * length (plain ∷ plain ∷ [])
get_secret_values-requests_example =
    get_secret_values-requests counting (λ w. w) counted limiter provider tools (plain ∷ plain ∷ [])
      [] 3

-- KMS throttles every request, with an error that is no `ClientError`.
abbrev throttling : Services ℕ
throttling = record counting { get_secret_value = λ c r w. (failed throttled, suc w) }

throttling_counted : CountsRequests throttling (λ w. w)
throttling_counted = record {
  kms = λ c r w. refl;
  oos = λ c r w. refl;
  limited = λ l t w. refl;
  slept = λ n w. refl;
  read = λ p w. refl;
}

throttling-HasForeignErrors : HasForeignErrors throttling
throttling-HasForeignErrors = record { kms = λ c r w f e. cc; oos = λ c r w f e. cc }

get_secret_values-HasForeignErrors_example :
    (get_secret_values throttling limiter provider tools (plain ∷ plain ∷ []) [] 3).1
    ≤ 3 + length (plain ∷ plain ∷ [])
get_secret_values-HasForeignErrors_example =
    get_secret_values-HasForeignErrors throttling (λ w. w) throttling_counted limiter provider tools
      (plain ∷ plain ∷ []) [] 3 throttling-HasForeignErrors

abbrev both : Text → Reply (List (Option SecretObject))
both t = done (some (of_type object_type_kms plain) ∷ some (of_type object_type_oos plain) ∷ [])

accepted :
    validate_secret_object (place (codes "_") (codes "/m") (of_type object_type_kms plain)) ≡ ok tt
unfolding validate_secret_object check_arn check_jmes_path full_match bad_path_re two_dots is_dot
    has_prefix get_file_name replace_all trim_left eq_text
accepted = refl

two_types-one_path_example :
    (new_secret_object_list (λ c. c) both (codes "/m") [] (codes "y")
      ≡ ok (
          place (codes "_") (codes "/m") (of_type object_type_kms plain)
          ∷ place (codes "_") (codes "/m") (of_type object_type_oos plain)
          ∷ []))
    × (get_mount_path (place (codes "_") (codes "/m") (of_type object_type_kms plain))
        ≡ get_mount_path (place (codes "_") (codes "/m") (of_type object_type_oos plain)))
two_types-one_path_example =
    two_types-one_path (λ c. c) both plain (codes "/m") (codes "y") refl accepted

-- An object of a role, and the caches behind two of them with another object between.
abbrev of_role : SecretObject
of_role = record plain { cross_account_role_arn = codes "r" }

abbrev filled : Caches
filled = record {
  kms = record { base = some 4; by_role = (codes "r", some 4) ∷ [] };
  oos = record { base = none; by_role = [] };
  credentials = (codes "r", 8) ∷ [];
}

resolved :
    resolve_all sdk 7 (codes "r") (of_role ∷ plain ∷ of_role ∷ []) no_caches 0
    ≡ (ok (of_role ∷ plain ∷ of_role ∷ [], filled), 0)
unfolding resolve_all resolve is_supported client_for base_client role_client loaded_or_made
    role_credential credential_from load store create_cross_account_credential new_kms_client
    kms_config kms_endpoint_of default_kms_endpoint contains has_prefix eq_text
resolved = refl

resolve_all-one_client_example :
    (c : ℕ) × (client_of of_role ≡ some c) × (client_of of_role ≡ some c)
resolve_all-one_client_example =
    resolve_all-one_client sdk 7 (codes "r") (of_role ∷ plain ∷ of_role ∷ [])
      (of_role ∷ plain ∷ of_role ∷ []) filled 0 0 of_role of_role resolved (inl refl)
      (inr (inr (inl refl))) refl refl

-- An object pinned to the version that is mounted.
abbrev pinned : SecretObject
pinned = aliased [] (codes "v1")

pinned-IsPinned : IsPinned mounted pinned
unfolding lookup get_file_name trim_left eq_text
pinned-IsPinned = record {
  current = version_one;
  found = refl;
  pinned = λ q. cc;
  same = refl;
  plain = refl;
}

get_secret_values-IsPinned_example :
    (get_secret_values services limiter provider tools (pinned ∷ pinned ∷ []) mounted 3).1 ≡ 3
get_secret_values-IsPinned_example =
    get_secret_values-IsPinned services limiter provider tools (λ w. w) (pinned ∷ pinned ∷ [])
      mounted 3 (λ p w. refl) (pinned-IsPinned, (pinned-IsPinned, tt))

-- The world counts the credentials that are made for roles.
abbrev counting_sdk : Sdk ℕ
counting_sdk = record sdk { new_role_credential = λ b r s w. (done 8, suc w) }

roles_counted : CountsRoleCredentials counting_sdk (λ w. w)
roles_counted = record { role_credential = λ b r s w. refl; kms = λ c w. refl; oos = λ c w. refl }

made_once :
    resolve_all counting_sdk 7 (codes "r") (of_role ∷ plain ∷ of_role ∷ []) no_caches 0
    ≡ (ok (of_role ∷ plain ∷ of_role ∷ [], filled), 1)
unfolding resolve_all resolve is_supported client_for base_client role_client loaded_or_made
    role_credential credential_from load store create_cross_account_credential new_kms_client
    kms_config kms_endpoint_of default_kms_endpoint contains has_prefix eq_text
made_once = refl

resolve_all-made_example :
    (1 ≡ 0 + length (keys filled.credentials))
    × Distinct (keys filled.credentials)
    × All (λ k. In k (roles (of_role ∷ plain ∷ of_role ∷ []))) (keys filled.credentials)
resolve_all-made_example =
    resolve_all-made counting_sdk (λ w. w) roles_counted 7 (codes "r")
      (of_role ∷ plain ∷ of_role ∷ []) (of_role ∷ plain ∷ of_role ∷ []) filled 0 1 made_once
