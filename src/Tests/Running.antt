-- ===== src/Tests/Running.antt =====
-- Whole requests, and the process, at concrete inputs.
use secrets_store_csi_driver.Prelude.{
  none, is_empty, if◌then◌else◌, ℕ, Text, codes, ◌≡◌, ◌≢◌, refl, [], ◌∷◌, some, eq_text, contains,
  trim_space, has_prefix,
}
use secrets_store_csi_driver.Outcome.{ok, panic, done, failed}
use secrets_store_csi_driver.Endpoint.{validate_kms_endpoint, kms_endpoint_re, label_re}
use secrets_store_csi_driver.Auth.Methods.{AuthServices}
use secrets_store_csi_driver.SecretValue.{JsonTools, string}
use secrets_store_csi_driver.Regex.{full_match}
use secrets_store_csi_driver.SecretObject.{SecretObject}
use secrets_store_csi_driver.Provider.Types.{Services, KmsBody}
use secrets_store_csi_driver.PrivateCa.{region_ca}
use secrets_store_csi_driver.Server.Config.{ClientConfig, kms_config, kms_endpoint_of}
use secrets_store_csi_driver.Server.Certificates.{HasCertificate, kms_config-HasCertificate}
use secrets_store_csi_driver.Server.Reached.{unset, Reachable, started, served, mount-ne-panic}
use secrets_store_csi_driver.Server.Mount.{Outside, mount}
use secrets_store_csi_driver.Tests.Fixtures.{
  with_entry, throttled, services, auth, outside, request,
}

-- A dedicated gateway, which gets the certificate of its region.
abbrev gateway : Text
gateway = codes "kst-1.cryptoservice.kms.aliyuncs.com"

abbrev config_of : Text → ClientConfig
config_of region = record { endpoint = gateway; credential = 7; ca = some (region_ca region) }

configured : kms_config 7 gateway (codes "cn-hangzhou") ≡ ok (config_of (codes "cn-hangzhou"))
unfolding kms_config kms_endpoint_of eq_text contains has_prefix validate_kms_endpoint trim_space
    full_match kms_endpoint_re label_re
configured = refl

kms_config-HasCertificate_example :
    HasCertificate (codes "cn-hangzhou") (config_of (codes "cn-hangzhou"))
kms_config-HasCertificate_example =
    kms_config-HasCertificate 7 gateway (codes "cn-hangzhou") (config_of (codes "cn-hangzhou"))
      (λ q. cc) configured

-- Services that answer one request and fail wherever they can on other inputs: the only text that is JSON
-- is the secret, the only search that finds something is the entry's, there are no files, tokens or
-- parameters, and nothing is base64.
abbrev strict_auth : AuthServices ℕ
strict_auth = record auth {
  unmarshal_strings = λ t. if is_empty t then done [] else failed throttled;
  unmarshal_tokens = λ t. failed throttled;
}

abbrev strict_services : Services ℕ
strict_services = record services {
  get_secret_parameter = λ c r w. (failed throttled, w);
  read_file = λ p w. (failed throttled, w);
  base64_decode = λ t. failed throttled;
}

abbrev strict_tools : JsonTools
strict_tools = record {
  unmarshal = λ b. if eq_text b (codes "s") then done (string (codes "j")) else failed throttled;
  search = λ p j. if eq_text p (codes "user") then done j else failed throttled;
}

abbrev working : Outside ℕ
working = record outside {
  auth = strict_auth;
  services = strict_services;
  tools = strict_tools;
  unmarshal_objects = λ t. done (some with_entry ∷ []);
  unmarshal_permission = λ t. if is_empty t then done 420 else failed throttled;
}

-- The state behind a first request.
later : Reachable working (mount working request (unset, 5)).1.0
later = served unset request 5 started

mount-ne-panic_example :
    (mount working request ((mount working request (unset, 5)).1.0, 9)).0 ≢ panic
mount-ne-panic_example =
    mount-ne-panic working (mount working request (unset, 5)).1.0 request 9 (λ c q w. (tt, tt))
      (λ c q w. tt) later (λ attrib e. (tt, tt))

abbrev placed : SecretObject
placed = record with_entry { translate = codes "_" }

-- The text in the response of KMS.
abbrev answer : KmsBody
answer = record {
  secret_data_type = none;
  secret_data = some (codes "s");
  version_id = some (codes "v2");
}
