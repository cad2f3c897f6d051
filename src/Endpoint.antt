-- ===== src/Endpoint.antt =====
-- server/endpoint_validation.go: the pattern of KMS endpoints and `validateKmsEndpoint`.
pub mod Hosts
use secrets_store_csi_driver.Prelude.{Text, codes, not, trim_space}
use secrets_store_csi_driver.Regex.{
  Regex, epsilon, chr, seq, alt, full_match, literal, plus, optional, is_label_char,
}
use secrets_store_csi_driver.Outcome.{Outcome, endpoint_refused, refuse_if}

-- `[a-z0-9-]+`
unfoldable pub label_re : Regex
unfolding is_label_char
label_re = plus (chr is_label_char)

-- `kmsEndpointRe`; its anchors make the whole text match.
unfoldable pub kms_endpoint_re : Regex
unfolding label_re
kms_endpoint_re =
    alt
      (literal (codes "kms") (
        seq (optional (literal (codes "-vpc") epsilon))
          (literal (codes ".") (seq label_re (literal (codes ".aliyuncs.com") epsilon)))))
      (seq label_re (literal (codes ".cryptoservice.kms.aliyuncs.com") epsilon))

-- `validateKmsEndpoint`
unfoldable pub validate_kms_endpoint : Text → Outcome (Unit {0})
validate_kms_endpoint endpoint =
    let host = trim_space endpoint in
    refuse_if (not (full_match kms_endpoint_re host)) (endpoint_refused endpoint)
