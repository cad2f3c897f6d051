-- ===== src/PrivateCa/Certified.antt =====
-- server/private_ca.go: which certificate the client of a dedicated gateway gets.
use secrets_store_csi_driver.Prelude.{
  Option-cases, Text, codes, ◌≡◌, ◌≢◌, refl, ◌⊎◌, inl, inr, Bool, true, ◌&&◌, ◌||◌, String, List,
  [], ◌∷◌, none, some, contains, eq_text, has_prefix, eq_text_iff, arith,
}
use secrets_store_csi_driver.PrivateCa.{region_id_and_ca_map, region_ca, text_of}
use secrets_store_csi_driver.PrivateCa.Pem.{
  is_certificate_of, block_body, inside_block, base64_bytes, sextet, group, is_sequence,
}
use secrets_store_csi_driver.Server.Keyed.{Keyed, load}

abbrev pub pre_env : Text
pre_env = codes "pre-env"

-- Every entry but that of the environment for tests is a certificate of its region.
unfoldable are_certified : Keyed (List String) → Bool
are_certified [] = true
are_certified ((region, ls) ∷ m) =
    (eq_text region pre_env || is_certificate_of region ls) && are_certified m

region_id_and_ca_map-are_certified : are_certified region_id_and_ca_map ≡ true
unfolding region_id_and_ca_map are_certified is_certificate_of block_body inside_block base64_bytes
    sextet group is_sequence contains has_prefix eq_text
region_id_and_ca_map-are_certified = refl

-- The lines are those of a certificate of the region.
abbrev pub Certifies : Text → List String → Type 0
Certifies region ls = is_certificate_of region ls ≡ true

-- A key that is found is not that of the environment for tests, and its lines are a certificate.
load-Certifies :
    (m : Keyed (List String)) (region : Text) (ls : List String)
    → are_certified m ≡ true
    → region ≢ pre_env
    → load region m ≡ some ls
    → Certifies region ls
unfolding are_certified load
load-Certifies [] region ls h n e = cc
load-Certifies ((k, c) ∷ m) region ls h n e =
    ground (arith, eq_text_iff k region, eq_text_iff k pre_env, load-Certifies m region ls)

-- What the map has for a region: no entry, and the empty text for it, or a certificate.
pub region_ca-cases :
    (region : Text)
    → region ≢ pre_env
    → ((load region region_id_and_ca_map ≡ none) × (region_ca region ≡ []))
      ⊎ ((ls : List String) × (region_ca region ≡ text_of ls) × Certifies region ls)
unfolding region_ca
region_ca-cases region n = elim (Option-cases (load region region_id_and_ca_map)) [
  | inl e ↦ inl (e, rw e (unfold text_of in refl))
  | inr (ls, e) ↦ inr (
    ls,
    rw e refl,
    load-Certifies region_id_and_ca_map region ls region_id_and_ca_map-are_certified n e,
  )
]
