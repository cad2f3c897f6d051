-- ===== src/Server/Kinds.antt =====
-- The loop of `Mount` in server/server.go: the types of objects that stand for KMS.
use secrets_store_csi_driver.Prelude.{
  Text, ◌≡◌, refl, ◌⊎◌, inl, inr, [], true, ◌||◌, eq_text, is_empty,
}
use secrets_store_csi_driver.SecretObject.Listing.{object_type_kms}
use secrets_store_csi_driver.Server.Resolve.{is_supported}

-- A type that stands for KMS.
abbrev pub IsKms : Text → Type 0
IsKms t = (t ≡ object_type_kms) ⊎ (t ≡ [])

pub kms_supported : (t : Text) → IsKms t → is_supported t ≡ true
unfolding is_supported eq_text
kms_supported t (inl e) = rw e refl
kms_supported t (inr e) = rw e refl

pub kms_tested : (t : Text) → IsKms t → (is_empty t || eq_text t object_type_kms) ≡ true
unfolding eq_text
kms_tested t (inl e) = rw e refl
kms_tested t (inr e) = rw e refl
