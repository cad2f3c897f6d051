-- ===== src/SecretObject.antt =====
-- provider/secret_object.go: the records of a mount request and the names of their files.
pub mod Validation
pub mod Listing
pub mod BadPath
pub mod Inside
pub mod Valid
pub mod Gaps
pub mod Collide
pub mod Names
pub mod Listed
pub mod Settled
use secrets_store_csi_driver.Prelude.{
  ℕ, Text, slash, List, Option, none, is_empty, if◌then◌else◌, replace_all, trim_left,
}
use secrets_store_csi_driver.FilePath.{join}

-- `*kms.Client` and `*oos.Client`: addresses of objects of the SDK.
abbrev pub KmsClient : Type 0
KmsClient = ℕ

abbrev pub OosClient : Type 0
OosClient = ℕ

-- `JMESPathObject`
pub record JmesPathObject : Type 0 where
  pub path : Text
  pub object_alias : Text

-- `SecretObject`; a client that is nil is `none`.
pub record SecretObject : Type 0 where
  pub object_name : Text
  pub object_alias : Text
  pub object_version : Text
  pub object_version_label : Text
  pub object_type : Text
  pub jmes_path : List JmesPathObject
  pub kms_endpoint : Text
  pub cross_account_role_arn : Text
  pub kms_client : Option KmsClient
  pub oos_client : Option OosClient
  pub translate : Text
  pub mount_dir : Text

-- `GetFileName`
unfoldable pub get_file_name : SecretObject → Text
unfolding replace_all trim_left
get_file_name s =
    let file_name = if is_empty s.object_alias then s.object_name else s.object_alias in
    if is_empty s.translate
    then trim_left file_name slash
    else replace_all file_name slash s.translate

-- `GetMountDir`
abbrev pub get_mount_dir : SecretObject → Text
get_mount_dir s = s.mount_dir

-- `GetMountPath`
unfoldable pub get_mount_path : SecretObject → Text
get_mount_path s = join (get_mount_dir s) (get_file_name s)

-- `getJmesEntrySecretObject`
unfoldable pub get_jmes_entry_secret_object : SecretObject → JmesPathObject → SecretObject
get_jmes_entry_secret_object p j = record {
  object_name = List.[];
  object_alias = j.object_alias;
  object_version = List.[];
  object_version_label = List.[];
  object_type = List.[];
  jmes_path = List.[];
  kms_endpoint = List.[];
  cross_account_role_arn = List.[];
  kms_client = none;
  oos_client = none;
  translate = p.translate;
  mount_dir = p.mount_dir;
}
