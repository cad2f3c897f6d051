-- ===== src/PrivateCa.antt =====
-- server/private_ca.go: the certificates of the dedicated KMS gateways, by region.
pub mod First
pub mod Second
pub mod Third
pub mod Fourth
pub mod Pem
pub mod Certified
use secrets_store_csi_driver.Prelude.{
  ℕ, Text, codes, String, List, [], ◌∷◌, ◌++◌, Option, none, some,
}
use secrets_store_csi_driver.Server.Keyed.{Keyed, load}
use First.{pre_env_ca, hz_ca, sgp_ca, sh_ca, bj_ca, sz_ca, jp_ca}
use Second.{shf_ca, de_ca, hk_ca, zjk_ca, qd_ca, my_ca, hhht_ca}
use Third.{usf_ca, usv_ca, id_ca, cd_ca, gb_ca, hy_ca, wlcb_ca}
use Fourth.{gz_ca, mec_ca, php_ca, bjf_ca, tha_ca, hya_ca}

-- A raw string by its lines.
unfoldable pub text_of : List String → Text
text_of [] = []
text_of (l ∷ []) = codes l
text_of (l ∷ m ∷ ls) = codes l ++ (b'\n' ∷ text_of (m ∷ ls))

-- `RegionIdAndCaMap`
unfoldable pub region_id_and_ca_map : Keyed (List String)
region_id_and_ca_map =
    (codes "cn-hangzhou", hz_ca)
    ∷ (codes "ap-southeast-1", sgp_ca)
    ∷ (codes "cn-shanghai", sh_ca)
    ∷ (codes "cn-beijing", bj_ca)
    ∷ (codes "cn-shenzhen", sz_ca)
    ∷ (codes "ap-northeast-1", jp_ca)
    ∷ (codes "cn-shanghai-finance-1", shf_ca)
    ∷ (codes "eu-central-1", de_ca)
    ∷ (codes "cn-hongkong", hk_ca)
    ∷ (codes "cn-zhangjiakou", zjk_ca)
    ∷ (codes "cn-qingdao", qd_ca)
    ∷ (codes "ap-southeast-3", my_ca)
    ∷ (codes "cn-huhehaote", hhht_ca)
    ∷ (codes "us-east-1", usf_ca)
    ∷ (codes "us-west-1", usv_ca)
    ∷ (codes "ap-southeast-5", id_ca)
    ∷ (codes "cn-chengdu", cd_ca)
    ∷ (codes "eu-west-1", gb_ca)
    ∷ (codes "cn-heyuan", hy_ca)
    ∷ (codes "cn-wulanchabu", wlcb_ca)
    ∷ (codes "cn-guangzhou", gz_ca)
    ∷ (codes "me-central-1", mec_ca)
    ∷ (codes "ap-southeast-6", php_ca)
    ∷ (codes "cn-beijing-finance-1", bjf_ca)
    ∷ (codes "ap-southeast-7", tha_ca)
    ∷ (codes "cn-heyuan-acdr-1", hya_ca)
    ∷ (codes "pre-env", pre_env_ca)
    ∷ []

-- The value of the map for a key, the empty string for a missing one.
abbrev pub or_no_lines : Option (List String) → List String
or_no_lines none = []
or_no_lines (some ls) = ls

-- `RegionIdAndCaMap[region]`
unfoldable pub region_ca : Text → Text
region_ca region = text_of (or_no_lines (load region region_id_and_ca_map))
