-- ===== src/SecretObject/Validation.antt =====
-- `badPathRE` and `validateSecretObject` of provider/secret_object.go.
use secrets_store_csi_driver.Prelude.{
  Text, codes, List, [], ◌∷◌, if◌then◌else◌, eq_text, has_prefix, is_empty, not,
}
use secrets_store_csi_driver.Outcome.{
  Outcome, ok, err, panic, name_missing, invalid_arn, invalid_service, bad_path, jmes_path_missing,
  jmes_alias_missing, refuse_if, ◌>>◌,
}
use secrets_store_csi_driver.Regex.{
  Regex, epsilon, chr, seq, alt, full_match, literal, anything, is_dot,
}
use secrets_store_csi_driver.Arn.{Arn, arn_prefix, parse_arn}
use secrets_store_csi_driver.SecretObject.{JmesPathObject, SecretObject, get_file_name}

-- `..` of a pattern: its dots are any two characters but newlines.
unfoldable pub two_dots : Regex → Regex
unfolding is_dot
two_dots r = seq (chr is_dot) (seq (chr is_dot) r)

-- `badPathRE`, (/../)|(^../)|(/..$), searched anywhere in the text.
unfoldable pub bad_path_re : Regex
unfolding two_dots
bad_path_re = alt (seq anything (literal (codes "/") (two_dots (literal (codes "/") anything)))) (
    alt (two_dots (literal (codes "/") anything))
      (seq anything (literal (codes "/") (two_dots epsilon))))

-- The service of an ARN that could be parsed.
unfoldable pub check_service : Text → Outcome Arn → Outcome (Unit {0})
check_service name (ok arn) =
    refuse_if (not (eq_text arn.service (codes "kms"))) (invalid_service arn.service)
check_service name (err e) = err (invalid_arn name)
check_service name panic = panic

unfoldable pub check_arn : Text → Outcome (Unit {0})
check_arn name = if has_prefix name arn_prefix then check_service name (parse_arn name) else ok tt

-- Each entry has a path and an alias.
unfoldable pub check_jmes_path : List JmesPathObject → Outcome (Unit {0})
check_jmes_path [] = ok tt
check_jmes_path (entry ∷ entries) = do
  refuse_if (is_empty entry.path) jmes_path_missing
  refuse_if (is_empty entry.object_alias) jmes_alias_missing
  check_jmes_path entries

-- `validateSecretObject`
unfoldable pub validate_secret_object : SecretObject → Outcome (Unit {0})
validate_secret_object s = do
  refuse_if (is_empty s.object_name) name_missing
  check_arn s.object_name
  refuse_if (full_match bad_path_re (get_file_name s)) (bad_path s.object_name)
  check_jmes_path s.jmes_path
