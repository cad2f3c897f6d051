-- ===== src/Tests/Fixtures.antt =====
-- The inputs of the tests: an object, the world outside, and the requests.
use secrets_store_csi_driver.Prelude.{ℕ, suc, Text, codes, List, [], ◌∷◌, none, some, false}
use secrets_store_csi_driver.Outcome.{Failure, done, failed}
use secrets_store_csi_driver.PullLimit.{Limiter}
use secrets_store_csi_driver.SecretObject.{SecretObject, JmesPathObject}
use secrets_store_csi_driver.SecretValue.{JsonTools, string}
use secrets_store_csi_driver.VersionMap.{ObjectVersion, VersionMap}
use secrets_store_csi_driver.Provider.Types.{Services, SecretsManagerProvider}
use secrets_store_csi_driver.Auth.Config.{PodSaInfo}
use secrets_store_csi_driver.Auth.Methods.{AuthServices}
use secrets_store_csi_driver.Server.Kubernetes.{Cluster, ClientState}
use secrets_store_csi_driver.Server.Clients.{Sdk}
use secrets_store_csi_driver.Server.Mount.{Outside, MountRequest}

-- An object with this alias and this version, for which the path translation is off.
abbrev pub aliased : Text → Text → SecretObject
aliased alias version = record {
  object_name = codes "db";
  object_alias = alias;
  object_version = version;
  object_version_label = List.[];
  object_type = List.[];
  jmes_path = List.[];
  kms_endpoint = List.[];
  cross_account_role_arn = List.[];
  kms_client = some 4;
  oos_client = none;
  translate = List.[];
  mount_dir = codes "/m";
}

abbrev pub plain : SecretObject
plain = aliased List.[] List.[]

abbrev pub entry_user : JmesPathObject
entry_user = record { path = codes "user"; object_alias = codes "u" }

abbrev pub with_entry : SecretObject
with_entry = record plain { jmes_path = entry_user ∷ [] }

-- The world is the number of requests that KMS has seen.
abbrev pub services : Services ℕ
services = record {
  rate_wait = λ l n w. (done tt, w);
  get_secret_value = λ c r w. (
    done (
        some (record {
          secret_data_type = none;
          secret_data = some (codes "s");
          version_id = some (codes "v2");
        })),
    suc w,
  );
  get_secret_parameter = λ c r w. (done (some (codes "p")), w);
  sleep = λ n w. w;
  read_file = λ p w. (done (1 ∷ []), w);
  base64_decode = λ t. done [];
}

-- An error of an SDK whose errors are no `ClientError`.
abbrev pub throttled : Failure
throttled = record { client_code = none; message = codes "Rejected.Throttling" }

abbrev pub failing : Services ℕ
failing = record services { get_secret_value = λ c r w. (failed throttled, suc w) }

abbrev pub limiter : Limiter
limiter = record {
  kms = record { secret_pull_limiter = some 1 };
  oos = record { secret_pull_limiter = some 2 };
}

abbrev pub provider : SecretsManagerProvider
provider = record { kms_client = some 4; oos_client = none }

abbrev pub tools : JsonTools
tools = record {
  unmarshal = λ b. done (string (codes "j"));
  search = λ p j. done (string (codes "j"));
}

abbrev pub version_one : ObjectVersion
version_one = record { id = codes "db"; version = codes "v1" }

abbrev pub mounted : VersionMap
mounted = (codes "db", version_one) ∷ []

abbrev pub auth : AuthServices ℕ
auth = record {
  unmarshal_strings = λ t. done [];
  unmarshal_tokens = λ t. done [];
  create_temp = λ w. (done (codes "t"), w);
  write_string = λ p t w. (done tt, w);
  close = λ p w. (done tt, w);
  remove = λ p w. w;
  new_credential = λ c w. (done (some 7), w);
  unicode_lower = λ c. c;
}

abbrev pub no_environment : Text → Text
no_environment name = []

abbrev pub no_pod : PodSaInfo
no_pod = record {
  namespace = List.[];
  service_account = List.[];
  role_arn = List.[];
  use_pod_service_account = false;
  token_from_volume_context = List.[];
}

abbrev pub cluster : Cluster ℕ
cluster = record {
  in_cluster_config = λ w. (done 1, w);
  new_for_config = λ c w. (failed throttled, w);
  service_account = λ c n s w. (done [], w);
}

abbrev pub fresh : ClientState
fresh = record { client = none; is_init = false; error = none }

abbrev pub sdk : Sdk ℕ
sdk = record {
  new_kms = λ c w. (done 4, w);
  new_oos = λ c w. (done 5, w);
  new_role_credential = λ b r s w. (done 8, w);
}

abbrev pub outside : Outside ℕ
outside = record {
  cluster = cluster;
  auth = auth;
  sdk = sdk;
  services = services;
  tools = tools;
  unmarshal_objects = λ t. done (some plain ∷ []);
  unmarshal_permission = λ t. done 420;
  getenv = no_environment;
  region = codes "r";
  limiter = limiter;
}

abbrev pub request : MountRequest
request = record {
  target_path = codes "/m";
  attributes = List.[];
  secrets = List.[];
  permission = List.[];
  current_object_version = List.[];
}
