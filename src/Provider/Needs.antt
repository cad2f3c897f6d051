-- ===== src/Provider/Needs.antt =====
-- provider/secret_manager_provider.go: what fetching an object needs of everything outside.
use secrets_store_csi_driver.Prelude.{
  ℕ, Text, ◌≡◌, ◌≢◌, ◌⊎◌, All, utf8, List, [], Option, none, some, true,
}
use secrets_store_csi_driver.Outcome.{Reply, done}
use secrets_store_csi_driver.Settles.{Settles, Replies, IsSome, IsAnything}
use secrets_store_csi_driver.PullLimit.{Limiter, RateLimiter}
use secrets_store_csi_driver.SecretObject.{SecretObject, KmsClient, OosClient, get_mount_path}
use secrets_store_csi_driver.SecretObject.Listing.{object_type_kms, object_type_oos}
use secrets_store_csi_driver.Provider.Origins.{Holds}
use secrets_store_csi_driver.SecretValue.{Json, JsonTools, string_result}
use secrets_store_csi_driver.Provider.Types.{KmsBody, OosRequest, Services, kms_request, is_binary}

-- A response of KMS with its data and its version.
abbrev pub IsComplete : Option KmsBody → Type 0
IsComplete none = ⊥
IsComplete (some body) = IsSome body.secret_data × IsSome body.version_id

-- The same, with binary data that decode, or that may fail to.
abbrev pub IsLegible : Type 0 → (Text → Reply (List ℕ)) → Option KmsBody → Type 0
IsLegible E decode none = ⊥
IsLegible E decode (some body) =
    IsSome body.secret_data
    × IsSome body.version_id
    × ((t : Text)
        → is_binary body.secret_data_type ≡ true
        → body.secret_data ≡ some t
        → Replies E IsAnything (decode t))

abbrev pub parameter_of : SecretObject → OosRequest
parameter_of s = record { name = s.object_name; with_decryption = true }

-- What the limiters need: to be set, and to admit the calls, if `E` is empty.
pub record Admits (E : Type 0) {W : Type 0} (services : Services W) (limiter : Limiter)
    : Type 0 where
  pub kms_limiter : limiter.kms.secret_pull_limiter ≡ none → E
  pub oos_limiter : limiter.oos.secret_pull_limiter ≡ none → E
  pub rate_wait :
      (l : RateLimiter) (t : ℕ) (w : W) → Replies E IsAnything (services.rate_wait l t w).0

module _ (E : Type 0) (tools : JsonTools) where
  -- Every entry's search finds a string in this JSON.
  abbrev pub HasStrings : SecretObject → Json → Type 0
  HasStrings s json = All (λ e. Settles E (string_result e (tools.search e.path json))) s.jmes_path

  -- The bytes are JSON with a string for every entry, if the object has any.
  abbrev pub IsExtractable : SecretObject → List ℕ → Type 0
  IsExtractable s bytes = s.jmes_path ≢ [] → Replies E (HasStrings s) (tools.unmarshal bytes)

module _ {W : Type 0} (services : Services W) where
  -- What is held for an object: in its file, in a response of KMS, or as a parameter of OOS.
  pub data IsHeld (s : SecretObject) (bytes : List ℕ) : Type 0 where
    in_file : (w : W) → (services.read_file (get_mount_path s) w).0 ≡ done bytes → IsHeld s bytes
    in_kms :
        (c : KmsClient) (body : KmsBody) (w : W)
        → (services.get_secret_value c (kms_request s) w).0 ≡ done (some body)
        → Holds services.base64_decode body bytes
        → IsHeld s bytes
    in_oos :
        (c : OosClient) (text : Text) (w : W)
        → (services.get_secret_parameter c (parameter_of s) w).0 ≡ done (some text)
        → bytes ≡ utf8 text
        → IsHeld s bytes

  module _ (E : Type 0) (tools : JsonTools) where
    -- What fetching an object needs of the services, with no failure if `E` is empty: that of its type has
    -- its secret, its file can be read if it asks for a version, and what is held for it is JSON with a
    -- string for each of its entries, if it has any.
    pub record IsFetchable (s : SecretObject) : Type 0 where
      pub kms :
          (s.object_type ≡ object_type_kms) ⊎ (s.object_type ≡ [])
          → (c : KmsClient) (w : W)
          → Replies E
              (IsLegible E services.base64_decode)
              (services.get_secret_value c (kms_request s) w).0
      pub oos :
          s.object_type ≡ object_type_oos
          → (c : OosClient) (w : W)
          → Replies E IsSome (services.get_secret_parameter c (parameter_of s) w).0
      pub file :
          s.object_version ≢ []
          → (w : W) → Replies E IsAnything (services.read_file (get_mount_path s) w).0
      pub entries : (bytes : List ℕ) → IsHeld s bytes → IsExtractable E tools s bytes
