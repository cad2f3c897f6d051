-- ===== src/Server/Complete.antt =====
-- server/server.go: what a request needs of everything outside when failures are allowed.
use secrets_store_csi_driver.Prelude.{ℕ, Text, List, [], ◌∷◌, All, Option, none, some}
use secrets_store_csi_driver.Outcome.{Reply, done, failed}
use secrets_store_csi_driver.Settles.{Settles, Replies, IsAnything, IsSome}
use secrets_store_csi_driver.SecretObject.{
  SecretObject, KmsClient, OosClient, JmesPathObject, get_mount_path,
}
use secrets_store_csi_driver.SecretValue.{JsonTools, Json, null, string, string_result}
use secrets_store_csi_driver.Provider.Types.{KmsBody, Services, kms_request, KmsRequest, OosRequest}
use secrets_store_csi_driver.Provider.Needs.{
  IsComplete, IsLegible, IsFetchable, HasStrings, parameter_of,
}
use secrets_store_csi_driver.Auth.Chained.{HasCredential}
use secrets_store_csi_driver.Auth.Needs.{HasToken, IsReadable}
use secrets_store_csi_driver.Auth.Config.{AuthConfig, auth_config}
use secrets_store_csi_driver.Auth.Methods.{AuthServices, Entries, tokens_json}
use secrets_store_csi_driver.Server.Mount.{Outside, MountRequest}
use secrets_store_csi_driver.Server.MountSettled.{OutsideAnswers, AreReadable, pod_of}

pub any-Replies : {A : Type 0} (P : A → Type 0) → ((a : A) → P a) → (r : Reply A) → Replies Unit P r
any-Replies P h (done a) = h a
any-Replies P h (failed f) = tt

string_result-Settles : (e : JmesPathObject) (r : Reply Json) → Settles Unit (string_result e r)
unfolding string_result
string_result-Settles e (failed f) = tt
string_result-Settles e (done null) = tt
string_result-Settles e (done (string t)) = tt
string_result-Settles e (done _) = tt

-- Nothing is needed of what every request uses.
pub any-OutsideAnswers : {W : Type 0} (outside : Outside W) → OutsideAnswers Unit outside
any-OutsideAnswers outside = record {
  auth = record {
    create_temp = λ w. any-Replies IsAnything (λ a. tt) (outside.auth.create_temp w).0;
    write_string = λ p t w. any-Replies IsAnything (λ a. tt) (outside.auth.write_string p t w).0;
    close = λ p w. any-Replies IsAnything (λ a. tt) (outside.auth.close p w).0;
    new_credential =
        λ c w h. any-Replies (HasCredential Unit) (λ a q. tt) (outside.auth.new_credential c w).0;
  };
  sdk = record {
    new_kms = λ c w. any-Replies IsAnything (λ a. tt) (outside.sdk.new_kms c w).0;
    new_oos = λ c w. any-Replies IsAnything (λ a. tt) (outside.sdk.new_oos c w).0;
    new_role_credential =
        λ b r s w n. any-Replies IsAnything (λ a. tt) (outside.sdk.new_role_credential b r s w).0;
  };
  limits = record {
    kms_limiter = λ q. tt;
    oos_limiter = λ q. tt;
    rate_wait = λ l t w. any-Replies IsAnything (λ a. tt) (outside.services.rate_wait l t w).0;
  };
}

any-IsReadable :
    {W : Type 0} (services : AuthServices W) (c : AuthConfig) → IsReadable Unit services c
any-IsReadable services c = record {
  secrets =
      λ n. any-Replies IsAnything (λ a. tt) (services.unmarshal_strings c.node_publish_secret);
  tokens = λ u n.
      any-Replies (HasToken Unit) (λ a q. tt)
        (services.unmarshal_tokens (
          tokens_json (services.unmarshal_strings c.node_publish_secret)
            c.token_from_volume_context));
  provider = λ u e. tt;
}

pub any-AreReadable :
    {W : Type 0} (outside : Outside W) (req : MountRequest) (attrib : Entries)
    → AreReadable outside Unit req attrib
any-AreReadable outside req attrib role_arn =
    any-IsReadable outside.auth
      (auth_config outside.getenv req.secrets (pod_of outside attrib role_arn))

complete-IsLegible :
    (decode : Text → Reply (List ℕ)) (r : Reply (Option KmsBody))
    → Replies Unit IsComplete r
    → Replies Unit (IsLegible Unit decode) r
complete-IsLegible decode (failed f) h = tt
complete-IsLegible decode (done none) h = h
complete-IsLegible decode (done (some body)) (data_given, version_given) =
    (data_given, version_given, (λ t q e. any-Replies IsAnything (λ a. tt) (decode t)))

module _ {W : Type 0} (services : Services W) (tools : JsonTools) where
  any-HasStrings :
      (json : Json) (es : List JmesPathObject)
      → All (λ e. Settles Unit (string_result e (tools.search e.path json))) es
  any-HasStrings json [] = tt
  any-HasStrings json (e ∷ es) =
      (string_result-Settles e (tools.search e.path json), any-HasStrings json es)

  -- Complete responses are all that is needed of the services.
  pub complete-IsFetchable :
      (ss : List SecretObject)
      → ((c : KmsClient) (q : KmsRequest) (w : W)
          → Replies Unit IsComplete (services.get_secret_value c q w).0)
      → ((c : OosClient) (q : OosRequest) (w : W)
          → Replies Unit IsSome (services.get_secret_parameter c q w).0)
      → All (IsFetchable services Unit tools) ss
  complete-IsFetchable [] kms oos = tt
  complete-IsFetchable (s ∷ ss) kms oos = (
    record {
      kms = λ t c w.
          complete-IsLegible services.base64_decode
            (services.get_secret_value c (kms_request s) w).0 (kms c (kms_request s) w);
      oos = λ t c w. oos c (parameter_of s) w;
      file = λ n w. any-Replies IsAnything (λ a. tt) (services.read_file (get_mount_path s) w).0;
      entries = λ b h n.
          any-Replies (HasStrings Unit tools s) (λ json. any-HasStrings json s.jmes_path)
            (tools.unmarshal b);
    },
    complete-IsFetchable ss kms oos,
  )
