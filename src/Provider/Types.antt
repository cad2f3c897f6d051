-- ===== src/Provider/Types.antt =====
-- provider/secret_manager_provider.go: requests, responses, the retry policy and the decoding of a
-- response.
use secrets_store_csi_driver.Prelude.{
  ℕ, Text, codes, ◌*◌, ◌%◌, ◌^◌, List, [], ◌∷◌, Option, none, some, Bool, false, ◌&&◌, ◌||◌, not,
  leb, if◌then◌else◌, eq_text, utf8,
}
use secrets_store_csi_driver.Outcome.{
  Outcome, ok, err, panic, Failure, Reply, done, failed, decode_failed, ◌>>=◌,
}
use secrets_store_csi_driver.PullLimit.{RateLimiter}
use secrets_store_csi_driver.SecretObject.{KmsClient, OosClient, SecretObject}
use secrets_store_csi_driver.SecretValue.{SecretValue}

-- `kms.GetSecretValueRequest`, the fields that are set.
pub record KmsRequest : Type 0 where
  pub secret_name : Text
  pub version_id : Option Text
  pub version_stage : Option Text

-- `kms.GetSecretValueResponseBody`, the fields that are read; nil is `none`.
pub record KmsBody : Type 0 where
  pub secret_data_type : Option Text
  pub secret_data : Option Text
  pub version_id : Option Text

-- `oos.GetSecretParameterRequest`, the fields that are set.
pub record OosRequest : Type 0 where
  pub name : Text
  pub with_decryption : Bool

-- The world outside: the SDK's clients, the rate limiters, the clock, the file system, base64.
-- The responses are the body, or the parameter's value inside it, and nil is `none`.
pub record Services (W : Type 0) : Type 0 where
  pub rate_wait : RateLimiter → ℕ → W → Reply (Unit {0}) × W
  pub get_secret_value : KmsClient → KmsRequest → W → Reply (Option KmsBody) × W
  pub get_secret_parameter : OosClient → OosRequest → W → Reply (Option Text) × W
  pub sleep : ℕ → W → W
  pub read_file : Text → W → Reply (List ℕ) × W
  pub base64_decode : Text → Reply (List ℕ)

-- `SecretsManagerProvider`
pub record SecretsManagerProvider : Type 0 where
  pub kms_client : Option KmsClient
  pub oos_client : Option OosClient

-- `time.Second` in nanoseconds, `BACKOFF_DEFAULT_RETRY_INTERVAL`.
abbrev pub second : ℕ
second = 1_000_000_000

-- `BACKOFF_DEFAULT_CAPACITY`
abbrev pub backoff_default_capacity : ℕ
backoff_default_capacity = 10 * second

-- `5*time.Minute`
abbrev pub wait_timeout : ℕ
wait_timeout = 300 * second

-- `BinaryType`
abbrev pub binary_type : Text
binary_type = codes "binary"

-- Whether an int64 is negative, by its bits.
abbrev pub is_negative : ℕ → Bool
is_negative x = leb (2 ^ 63) x

-- `getWaitTimeExponential`, in the bits of an int64, for `retry_times` below 63: from there on the
-- conversion of the float64 to an integer is left open by Go.
unfoldable pub get_wait_time_exponential : ℕ → ℕ
get_wait_time_exponential retry_times =
    let sleep_interval = 2 ^ retry_times * second % 2 ^ 64 in
    if not (is_negative sleep_interval) && leb backoff_default_capacity sleep_interval
    then backoff_default_capacity
    else sleep_interval

-- `judgeNeedRetry`
unfoldable pub judge_need_retry : Failure → Bool
unfolding eq_text
judge_need_retry f = elim f.client_code [
  | none ↦ false
  | some c ↦
      eq_text c (codes "Rejected.Throttling")
      || eq_text c (codes "ServiceUnavailableTemporary")
      || eq_text c (codes "InternalFailure")
]

-- A text that is sent only if it is not empty.
abbrev pub unless_empty : Text → Option Text
unless_empty [] = none
unless_empty (c ∷ s) = some (c ∷ s)

unfoldable pub kms_request : SecretObject → KmsRequest
kms_request s = record {
  secret_name = s.object_name;
  version_id = unless_empty s.object_version;
  version_stage = unless_empty s.object_version_label;
}

-- `*p`
abbrev pub deref {ℓ} : {A : Type ℓ} → Option A → Outcome A
deref none = panic
deref (some a) = ok a

-- What `base64.StdEncoding.DecodeString` made of the data.
abbrev pub decoded : SecretObject → Reply (List ℕ) → Outcome (List ℕ)
decoded s (done bytes) = ok bytes
decoded s (failed f) = err (decode_failed f s.object_name)

-- The test `SecretDataType != nil && *SecretDataType == BinaryType`.
unfoldable pub is_binary : Option Text → Bool
is_binary none = false
is_binary (some t) = eq_text t binary_type

-- The bytes of the secret's data, decoded if they are binary.
unfoldable pub kms_bytes : (Text → Reply (List ℕ)) → SecretObject → KmsBody → Outcome (List ℕ)
kms_bytes base64_decode s body =
    if is_binary body.secret_data_type
    then (do text ← deref body.secret_data; decoded s (base64_decode text))
    else (do text ← deref body.secret_data; ok (utf8 text))

-- The value and the version in a response of KMS.
unfoldable pub read_kms_body :
    (Text → Reply (List ℕ)) → SecretObject → Option KmsBody → Outcome (Text × SecretValue)
read_kms_body base64_decode s response = do
  body ← deref response
  bytes ← kms_bytes base64_decode s body
  version ← deref body.version_id
  ok (version, record { value = bytes; secret_obj = s })

-- The value in a response of OOS, and the version that stands for all of its parameters.
unfoldable pub read_oos_body : SecretObject → Option Text → Outcome (Text × SecretValue)
read_oos_body s response = do
  text ← deref response
  ok (codes "v1", record { value = utf8 text; secret_obj = s })
