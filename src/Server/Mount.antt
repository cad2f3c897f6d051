-- ===== src/Server/Mount.antt =====
-- server/server.go: `Mount`, and the answers to the other requests.
use secrets_store_csi_driver.Prelude.{
  ℕ, Text, codes, ◌%◌, ◌^◌, List, [], ◌∷◌, map, Option, Bool, true, false, if◌then◌else◌, eq_text,
  is_empty,
}
use secrets_store_csi_driver.Outcome.{
  Outcome, ok, err, panic, Error, Failure, Reply, done, failed, missing_mount_path,
  attributes_unreadable, permission_unreadable,
}
use secrets_store_csi_driver.Exec.{Exec, pure, lift, ◌>>=◌}
use secrets_store_csi_driver.PullLimit.{Limiter}
use secrets_store_csi_driver.SecretObject.{SecretObject, get_file_name}
use secrets_store_csi_driver.SecretObject.Listing.{new_secret_object_list}
use secrets_store_csi_driver.SecretValue.{SecretValue, JsonTools}
use secrets_store_csi_driver.VersionMap.{ObjectVersion, VersionMap, insert}
use secrets_store_csi_driver.Provider.Types.{Services, SecretsManagerProvider}
use secrets_store_csi_driver.Provider.{get_secret_values}
use secrets_store_csi_driver.Auth.Config.{PodSaInfo}
use secrets_store_csi_driver.Auth.Methods.{
  AuthServices, Entries, entry, Credential, service_account_token_key,
}
use secrets_store_csi_driver.Auth.{get_kms_auth_cred}
use secrets_store_csi_driver.Server.Kubernetes.{
  Cluster, ClientState, beside, get_role_arn_from_service_account,
}
use secrets_store_csi_driver.Server.Clients.{Sdk}
use secrets_store_csi_driver.Server.Resolve.{no_caches, resolve_all}

-- `v1alpha1.MountRequest`, `v1alpha1.File` and `v1alpha1.MountResponse`, messages of the CSI driver.
pub record MountRequest : Type 0 where
  pub target_path : Text
  pub attributes : Text
  pub secrets : Text
  pub permission : Text
  pub current_object_version : List ObjectVersion

-- The mode is an int32, by its bits.
pub record File : Type 0 where
  pub path : Text
  pub contents : List ℕ
  pub mode : ℕ

pub record MountResponse : Type 0 where
  pub files : List File
  pub object_version : List ObjectVersion

-- Everything outside that a request uses, and the settings of the process: the environment,
-- `provider.Region` and `provider.LimiterInstance`.
pub record Outside (W : Type 0) : Type 0 where
  pub cluster : Cluster W
  pub auth : AuthServices W
  pub sdk : Sdk W
  pub services : Services W
  pub tools : JsonTools
  pub unmarshal_objects : Text → Reply (List (Option SecretObject))
  pub unmarshal_permission : Text → Reply ℕ
  pub getenv : Text → Text
  pub region : Text
  pub limiter : Limiter

-- The map of the versions that are mounted.
unfoldable pub current_versions : List ObjectVersion → VersionMap → VersionMap
current_versions [] m = m
current_versions (v ∷ vs) m = current_versions vs (insert v.id v m)

-- `json.Unmarshal` of a part of the request.
abbrev pub parsed : {A : Type 0} → Reply A → (Failure → Error) → Outcome A
parsed (done a) e = ok a
parsed (failed f) e = err (e f)

-- The file for a value, with the permission of the request.
unfoldable pub file_of : ℕ → SecretValue → File
file_of permission v = record {
  path = get_file_name v.secret_obj;
  contents = v.value;
  mode = permission % 2 ^ 32;
}

-- `MountResponse` from the values and the map of versions.
unfoldable pub mount_response : ℕ → List SecretValue × VersionMap → MountResponse
mount_response permission (values, versions) = record {
  files = map (file_of permission) values;
  object_version = map (λ (e : Text × ObjectVersion). e.1) versions;
}

-- The region of the attributes, or that of the process.
unfoldable pub region_of : Entries → Text → Text
region_of attrib region =
    if is_empty (entry (codes "region") attrib) then region else entry (codes "region") attrib

-- The role of the pod's account; an error in finding it is logged, and the role is left empty.
unfoldable pub or_no_role : {V : Type 0} → Outcome Text × V → Outcome Text × V
or_no_role (ok t, v) = (ok t, v)
or_no_role (err e, v) = (ok [], v)
or_no_role (panic, v) = (panic, v)

module _ {W : Type 0} (outside : Outside W) where
  open outside use {cluster, auth, sdk, services, tools, getenv}

  unfoldable pub pod_role_arn : Bool → Text → Text → Exec (ClientState × W) Text
  pod_role_arn false namespace account v = (ok [], v)
  pod_role_arn true namespace account v =
      or_no_role (get_role_arn_from_service_account cluster namespace account v)

  -- The objects with their clients, and the values of their files.
  unfoldable pub fetch_all :
      Credential → Text → List SecretObject → VersionMap → Exec W (List SecretValue × VersionMap)
  fetch_all cred region descriptors versions = do
    (resolved, caches) ← resolve_all sdk cred region descriptors no_caches
    let provider : SecretsManagerProvider = record {
      kms_client = caches.kms.base;
      oos_client = caches.oos.base;
    }
    get_secret_values services outside.limiter provider tools resolved versions

  -- The part of `Mount` behind the reading of the request.
  unfoldable pub mount_objects : MountRequest → Entries → ℕ → PodSaInfo → Exec W MountResponse
  mount_objects req attrib permission pod = do
    cred ← get_kms_auth_cred auth getenv req.secrets pod
    descriptors ← lift (
        new_secret_object_list auth.unicode_lower outside.unmarshal_objects req.target_path
          (entry (codes "pathTranslation") attrib) (entry (codes "objects") attrib))
    result ←
        fetch_all cred (region_of attrib outside.region) descriptors
          (current_versions req.current_object_version [])
    pure (mount_response permission result)

  -- `Mount` with the attributes read.
  unfoldable pub mount_with : MountRequest → Entries → Exec (ClientState × W) MountResponse
  mount_with req attrib = do
    permission ← lift (parsed (outside.unmarshal_permission req.permission) permission_unreadable)
    let namespace = entry (codes "csi.storage.k8s.io/pod.namespace") attrib
    let account = entry (codes "csi.storage.k8s.io/serviceAccount.name") attrib
    let uses_pod = eq_text (entry (codes "usePodServiceAccountToken") attrib) (codes "true")
    role_arn ← pod_role_arn uses_pod namespace account
    beside (
        mount_objects req attrib permission (record {
          namespace = namespace;
          service_account = account;
          role_arn = role_arn;
          use_pod_service_account = uses_pod;
          token_from_volume_context = entry service_account_token_key attrib;
        }))

  -- `Mount`
  unfoldable pub mount : MountRequest → Exec (ClientState × W) MountResponse
  mount req = if is_empty req.target_path then lift (err missing_mount_path) else (do
    attrib ← lift (parsed (auth.unmarshal_strings req.attributes) attributes_unreadable)
    mount_with req attrib)
