-- ===== src/Server/MountSettled.antt =====
-- `Mount` of server/server.go settles if everything outside does and the Kubernetes client is sound.
use secrets_store_csi_driver.Prelude.{
  ℕ, Text, codes, ◌≡◌, refl, ap, inl, inr, List, [], All, eq_text, is_empty, is_empty_iff, subst,
  Bool-cases,
}
use secrets_store_csi_driver.Outcome.{
  Outcome, ok, Error, Failure, Reply, done, failed, attributes_unreadable, permission_unreadable,
}
use secrets_store_csi_driver.Exec.{lift, continue}
use secrets_store_csi_driver.Settles.{Settles, Replies, IsAnything, Settles-continue}
use secrets_store_csi_driver.SecretObject.{SecretObject}
use secrets_store_csi_driver.SecretObject.Listing.{new_secret_object_list}
use secrets_store_csi_driver.VersionMap.{VersionMap}
use secrets_store_csi_driver.Provider.Needs.{Admits, IsFetchable}
use secrets_store_csi_driver.Auth.Config.{PodSaInfo, auth_config}
use secrets_store_csi_driver.Auth.Methods.{Entries, entry, Credential, service_account_token_key}
use secrets_store_csi_driver.Auth.{get_kms_auth_cred}
use secrets_store_csi_driver.Auth.Settled.{get_kms_auth_cred-Settles}
use secrets_store_csi_driver.Auth.Needs.{AuthAnswers, IsReadable}
use secrets_store_csi_driver.Server.Kubernetes.{ClientState, beside}
use secrets_store_csi_driver.Server.Resolve.{Caches, no_caches, resolve_all}
use secrets_store_csi_driver.Server.Resolved.{resolve_all-HasClient}
use secrets_store_csi_driver.Server.ResolveSettled.{SdkAnswers, IsServable, resolve_all-Settles}
use secrets_store_csi_driver.Server.Fetchable.{resolved-IsFetchable}
use secrets_store_csi_driver.Server.FetchSettled.{get_secret_values-Settles}
use secrets_store_csi_driver.Server.Mount.{
  Outside, MountRequest, current_versions, region_of, parsed, fetch_all, mount_objects, mount_with,
  mount, pod_role_arn,
}
use secrets_store_csi_driver.Server.Sound.{IsSound, pod_role_arn-IsSettled}

-- What every request needs of everything outside: no failure if `E` is empty.
pub record OutsideAnswers (E : Type 0) {W : Type 0} (outside : Outside W) : Type 0 where
  pub auth : AuthAnswers E outside.auth
  pub sdk : SdkAnswers E outside.sdk
  pub limits : Admits E outside.services outside.limiter

parsed-Settles :
    {A : Type 0} (E : Type 0) (r : Reply A) (e : Failure → Error)
    → Replies E IsAnything r
    → Settles E (parsed r e)
parsed-Settles E (done a) e h = tt
parsed-Settles E (failed f) e h = h

module _ {W : Type 0} (outside : Outside W) where
  -- What `NewSecretObjectList` makes of the attributes.
  abbrev pub listing : MountRequest → Entries → Outcome (List SecretObject)
  listing req attrib =
      new_secret_object_list outside.auth.unicode_lower outside.unmarshal_objects req.target_path
        (entry (codes "pathTranslation") attrib) (entry (codes "objects") attrib)

  -- What the attributes and the role of its account say of a request's pod.
  abbrev pub pod_of : Entries → Text → PodSaInfo
  pod_of attrib role_arn = record {
    namespace = entry (codes "csi.storage.k8s.io/pod.namespace") attrib;
    service_account = entry (codes "csi.storage.k8s.io/serviceAccount.name") attrib;
    role_arn = role_arn;
    use_pod_service_account =
        eq_text (entry (codes "usePodServiceAccountToken") attrib) (codes "true");
    token_from_volume_context = entry service_account_token_key attrib;
  }

  -- The texts of the request that the chain of methods reads.
  abbrev pub AreReadable : Type 0 → MountRequest → Entries → Type 0
  AreReadable E req attrib =
      (role_arn : Text)
      → IsReadable E outside.auth (auth_config outside.getenv req.secrets (pod_of attrib role_arn))

  -- The objects of the attributes are read and can be served and fetched.
  abbrev pub AreServable : Type 0 → MountRequest → Entries → Type 0
  AreServable E req attrib =
      Settles E (listing req attrib)
      × ((ss : List SecretObject)
          → listing req attrib ≡ ok ss
          → All (IsServable E (region_of attrib outside.region)) ss
            × All (IsFetchable outside.services E outside.tools) ss)
      × AreReadable E req attrib

module _ {W : Type 0} (E : Type 0) (outside : Outside W) (answers : OutsideAnswers E outside) where
  fetch_all-Settles :
      (cred : Credential) (region : Text) (ss : List SecretObject) (m : VersionMap) (w : W)
      → All (IsServable E region) ss
      → All (IsFetchable outside.services E outside.tools) ss
      → Settles E (fetch_all outside cred region ss m w).0
  unfolding fetch_all
  fetch_all-Settles cred region ss m w h k =
      Settles-continue E (resolve_all outside.sdk cred region ss no_caches w) _
        (resolve_all-Settles E outside.sdk answers.sdk cred region ss no_caches w h)
        (λ (x : List SecretObject × Caches) w' e.
          let (clients, same) = resolve_all-HasClient outside.sdk cred region ss x.0 x.1 w w' e in
          get_secret_values-Settles E outside.services outside.limiter answers.limits outside.tools
            (record { kms_client = x.1.kms.base; oos_client = x.1.oos.base }) x.0 m w' clients
            (resolved-IsFetchable outside.services E outside.tools ss x.0 same k))

  mount_objects-Settles :
      (req : MountRequest) (attrib : Entries) (permission : ℕ) (role_arn : Text) (w : W)
      → AreServable outside E req attrib
      → Settles E (mount_objects outside req attrib permission (pod_of outside attrib role_arn) w).0
  unfolding mount_objects
  mount_objects-Settles req attrib permission role_arn w (h, k, texts) =
      let pod = pod_of outside attrib role_arn in
      let region = region_of attrib outside.region in
      let versions = current_versions req.current_object_version [] in
      Settles-continue E (get_kms_auth_cred outside.auth outside.getenv req.secrets pod w) _
        (get_kms_auth_cred-Settles E outside.auth answers.auth outside.getenv req.secrets pod w
          (texts role_arn))
        (λ cred w' e. Settles-continue E (lift (listing outside req attrib) w') _ h (λ ss w'' f.
          Settles-continue E (fetch_all outside cred region ss versions w'') _
            (let (servable, fetchable) = k ss (ap (λ p. p.0) f) in
              fetch_all-Settles cred region ss versions w'' servable fetchable)
            (λ x v g. tt)))

  mount_with-Settles :
      (req : MountRequest) (attrib : Entries) (v : ClientState × W)
      → IsSound v.0
      → Replies E IsAnything (outside.unmarshal_permission req.permission)
      → AreServable outside E req attrib
      → Settles E (mount_with outside req attrib v).0
  unfolding mount_with beside
  mount_with-Settles req attrib v s p h =
      Settles-continue E
        (lift (parsed (outside.unmarshal_permission req.permission) permission_unreadable) v) _
        (parsed-Settles E (outside.unmarshal_permission req.permission) permission_unreadable p)
        (λ permission v' e.
          let uses_pod =
            eq_text (entry (codes "usePodServiceAccountToken") attrib) (codes "true") in
          let namespace = entry (codes "csi.storage.k8s.io/pod.namespace") attrib in
          let account = entry (codes "csi.storage.k8s.io/serviceAccount.name") attrib in
          Settles-continue E (pod_role_arn outside uses_pod namespace account v') _
            (pod_role_arn-IsSettled E outside uses_pod namespace account v'
              (subst (λ (r : Outcome ℕ × (ClientState × W)). IsSound r.1.0) e s)).0
            (λ role_arn v'' f. mount_objects-Settles req attrib permission role_arn v''.1 h))

  -- `Mount` settles if its objects can be served and the state is sound.
  pub mount-Settles :
      (req : MountRequest) (v : ClientState × W)
      → IsSound v.0
      → (req.target_path ≡ [] → E)
      → Replies E IsAnything (outside.auth.unmarshal_strings req.attributes)
      → Replies E IsAnything (outside.unmarshal_permission req.permission)
      → ((attrib : Entries)
          → outside.auth.unmarshal_strings req.attributes ≡ done attrib
          → AreServable outside E req attrib)
      → Settles E (mount outside req v).0
  unfolding mount
  mount-Settles req v s n a p h = elim (Bool-cases (is_empty req.target_path)) [
    | inl q ↦ rw q (n ((is_empty_iff req.target_path).0 q))
    | inr q ↦ rw q (read (outside.auth.unmarshal_strings req.attributes) refl)
  ]
    where
      read :
          (r : Reply Entries)
          → outside.auth.unmarshal_strings req.attributes ≡ r
          → Settles E
              (continue
                (lift (parsed r attributes_unreadable) v)
                (λ attrib. mount_with outside req attrib)).0
      read (failed f) e = subst (λ r. Replies E IsAnything r) e a
      read (done attrib) e = mount_with-Settles req attrib v s p (h attrib e)
