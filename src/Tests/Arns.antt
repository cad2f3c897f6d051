-- ===== src/Tests/Arns.antt =====
-- ARNs, patterns and endpoints at concrete inputs.
use secrets_store_csi_driver.Prelude.{
  Text, codes, ◌≡◌, refl, ◌⊎◌, true, false, has_prefix, occurrences, ◌≤◌, ◌<◌, trim_space,
}
use secrets_store_csi_driver.Outcome.{ok, err, invalid_prefix, invalid_sections, endpoint_refused}
use secrets_store_csi_driver.Arn.{Arn, parse_arn, string, arn_prefix, of_sections, split_n}
use secrets_store_csi_driver.Arn.Parse.{
  IsCanonical, string-parse_arn, parse_arn-string, parse_arn_cases,
}
use secrets_store_csi_driver.Endpoint.{validate_kms_endpoint}
use secrets_store_csi_driver.Endpoint.Hosts.{IsKmsHost, validate_kms_endpoint_cases}

abbrev role : Arn
role = record {
  partition = codes "acs";
  service = codes "ram";
  region = codes "";
  account_id = codes "1";
  resource = codes "a:b";
}

abbrev role_text : Text
role_text = codes "acs:ram::1:a:b"

parsed_role : parse_arn role_text ≡ ok role
unfolding parse_arn of_sections has_prefix split_n
parsed_role = refl

string-parse_arn_example : IsCanonical role × (string role ≡ role_text)
string-parse_arn_example = string-parse_arn role_text role parsed_role

parse_arn-string_example : parse_arn (string role) ≡ ok role
parse_arn-string_example = parse_arn-string role (string-parse_arn role_text role parsed_role).0

parse_arn_cases_example :
    ((has_prefix role_text arn_prefix ≡ false) × (parse_arn role_text ≡ err invalid_prefix))
    ⊎ ((has_prefix role_text arn_prefix ≡ true)
        × (occurrences 58 role_text < 4)
        × (parse_arn role_text ≡ err invalid_sections))
    ⊎ ((has_prefix role_text arn_prefix ≡ true)
        × (4 ≤ occurrences 58 role_text)
        × ((a : Arn) × (parse_arn role_text ≡ ok a)))
parse_arn_cases_example = parse_arn_cases role_text

abbrev host : Text
host = codes "kms.cn-hangzhou.aliyuncs.com"

validate_kms_endpoint_cases_example :
    ((validate_kms_endpoint host ≡ ok tt) × IsKmsHost (trim_space host))
    ⊎ ((validate_kms_endpoint host ≡ err (endpoint_refused host)) × ¬ IsKmsHost (trim_space host))
validate_kms_endpoint_cases_example = validate_kms_endpoint_cases host
