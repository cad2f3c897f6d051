-- ===== src/Server/Mounted.antt =====
-- What a mount request in server/server.go answers.
use mathlib.Core.List.{map-map}
use secrets_store_csi_driver.Prelude.{
  ℕ, Text, codes, ◌≡◌, refl, ap, sym, ◌∙◌, List, [], map, eq_text, is_empty, inl, inr, Bool-cases,
}
use secrets_store_csi_driver.Outcome.{
  Outcome, Error, Failure, ok-injective, ok, err, panic, Reply, done, failed, permission_unreadable,
  attributes_unreadable,
}
use secrets_store_csi_driver.Exec.{
  Exec, lift, continue, Ensures, Ensures-at, Ensures-all, Ensures-lift, Ensures-bind, Ensures-both,
}
use secrets_store_csi_driver.SecretObject.{SecretObject, get_file_name}
use secrets_store_csi_driver.SecretObject.Listing.{new_secret_object_list}
use secrets_store_csi_driver.SecretValue.{SecretValue}
use secrets_store_csi_driver.VersionMap.{VersionMap}
use secrets_store_csi_driver.Provider.Versions.{Updated, get_secret_values-Updated}
use secrets_store_csi_driver.Provider.Types.{SecretsManagerProvider}
use secrets_store_csi_driver.Provider.{get_secret_values}
use secrets_store_csi_driver.Provider.Values.{all_shown, ReturnsOf, get_secret_values-ReturnsOf}
use secrets_store_csi_driver.Auth.Config.{PodSaInfo}
use secrets_store_csi_driver.Auth.Methods.{Entries, entry, Credential}
use secrets_store_csi_driver.Auth.{get_kms_auth_cred}
use secrets_store_csi_driver.Server.Kubernetes.{ClientState, beside}
use secrets_store_csi_driver.Server.Resolve.{Caches, no_caches, resolve_all}
use secrets_store_csi_driver.Server.Resolved.{AreResolved, no_caches-AreResolved}
use secrets_store_csi_driver.Server.Mount.{
  Outside, MountRequest, MountResponse, current_versions, region_of, parsed, fetch_all,
  mount_objects, mount_with, mount, pod_role_arn,
}
use secrets_store_csi_driver.Server.Answer.{
  shown_files-same, IsMounted, IsFetched, mount_response-IsMounted,
}

-- Nothing is known.
abbrev IsAny : {A W : Type 0} → A → W → Type 0
IsAny a w = Unit

parsed-eq-ok :
    {A : Type 0} (r : Reply A) (e : Failure → Error) (a : A) → parsed r e ≡ ok a → r ≡ done a
parsed-eq-ok (done b) e a h = ap done (ok-injective b a h)
parsed-eq-ok (failed f) e a h = cc

module _ {W : Type 0} (outside : Outside W) where
  open outside use {auth}

  abbrev AreFetched : List SecretObject → List SecretValue × VersionMap → W → Type 0
  AreFetched ss r w = IsFetched ss r

  fetch_all-AreFetched :
      (cred : Credential) (region : Text) (ss : List SecretObject) (m : VersionMap) (w : W)
      → Ensures (AreFetched ss) (fetch_all outside cred region ss m w)
  unfolding fetch_all
  fetch_all-AreFetched cred region ss m w =
      Ensures-bind (AreResolved outside.sdk cred region ss) (AreFetched ss)
        (resolve_all outside.sdk cred region ss no_caches w) _
        (no_caches-AreResolved outside.sdk cred region ss w)
        (λ (x : List SecretObject × Caches) w' k.
          let provider : SecretsManagerProvider = record {
            kms_client = x.1.kms.base;
            oos_client = x.1.oos.base;
          } in
          Ensures-both (ReturnsOf outside.services (all_shown x.0))
            (Updated outside.services outside.limiter provider outside.tools m) (AreFetched ss)
            (get_secret_values outside.services outside.limiter provider outside.tools x.0 m w')
            (λ (r : List SecretValue × VersionMap) w'' e u. (
              sym (map-map get_file_name (λ (v : SecretValue). v.secret_obj) r.0)
                  ∙ ap (λ os. map get_file_name os) e
                  ∙ shown_files-same x.0 ss k.1,
              u.recorded,
            ))
            (get_secret_values-ReturnsOf outside.services outside.limiter provider outside.tools x.0
              m w')
            (get_secret_values-Updated outside.services outside.limiter provider outside.tools x.0 m
              w'))

  -- The permission and the objects of a request, as they are read, and the answer for them.
  abbrev pub Serves : MountRequest → Entries → MountResponse → Type 0
  Serves req attrib response =
      (permission : ℕ) × (outside.unmarshal_permission req.permission ≡ done permission)
      × (ss : List SecretObject) × (new_secret_object_list auth.unicode_lower
            outside.unmarshal_objects req.target_path (entry (codes "pathTranslation") attrib)
            (entry (codes "objects") attrib)
          ≡ ok ss)
      × IsMounted permission ss response

  abbrev ServesIn : {V : Type 0} → MountRequest → Entries → MountResponse → V → Type 0
  ServesIn req attrib response v = Serves req attrib response

  mount_objects-Serves :
      (req : MountRequest) (attrib : Entries) (permission : ℕ) (pod : PodSaInfo) (w : W)
      → outside.unmarshal_permission req.permission ≡ done permission
      → Ensures (ServesIn req attrib) (mount_objects outside req attrib permission pod w)
  unfolding mount_objects
  mount_objects-Serves req attrib permission pod w given =
      let listing =
        new_secret_object_list auth.unicode_lower outside.unmarshal_objects req.target_path
          (entry (codes "pathTranslation") attrib) (entry (codes "objects") attrib) in
      Ensures-bind IsAny (ServesIn req attrib)
        (get_kms_auth_cred auth outside.getenv req.secrets pod w) _
        (Ensures-all IsAny _ (λ a k. tt))
        (λ cred w' _.
          Ensures-bind (λ ss k. listing ≡ ok ss) (ServesIn req attrib) (lift listing w') _
            (Ensures-lift (λ ss k. listing ≡ ok ss) listing w' (λ ss e. e))
            (λ ss w'' e.
              Ensures-bind (AreFetched ss) (ServesIn req attrib)
                (fetch_all outside cred (region_of attrib outside.region) ss
                  (current_versions req.current_object_version []) w'')
                _
                (fetch_all-AreFetched cred (region_of attrib outside.region) ss
                  (current_versions req.current_object_version []) w'')
                (λ r w''' f.
                  (permission, given, ss, e, mount_response-IsMounted permission ss r f))))

  with_state :
      {A : Type 0} (P : A → Type 0) (s : ClientState) (r : Outcome A × W)
      → Ensures (λ a k. P a) r
      → Ensures {W = ClientState × W} (λ a k. P a) (r.0, (s, r.1))
  with_state P s (ok a, w) h = h
  with_state P s (err e, w) h = tt
  with_state P s (panic, w) h = tt

  beside-Ensures :
      {A : Type 0} (P : A → Type 0) (m : Exec W A) (v : ClientState × W)
      → ((w : W) → Ensures (λ a k. P a) (m w))
      → Ensures (λ a k. P a) (beside m v)
  unfolding beside
  beside-Ensures P m (s, w) h = with_state P s (m w) (h w)

  mount_with-Serves :
      (req : MountRequest) (attrib : Entries) (v : ClientState × W)
      → Ensures (ServesIn req attrib) (mount_with outside req attrib v)
  unfolding mount_with
  mount_with-Serves req attrib v =
      let read = parsed (outside.unmarshal_permission req.permission) permission_unreadable in
      Ensures-bind (λ permission k. read ≡ ok permission) (ServesIn req attrib) (lift read v) _
        (Ensures-lift (λ permission k. read ≡ ok permission) read v (λ permission e. e))
        (λ permission v' given.
          Ensures-bind IsAny (ServesIn req attrib)
            (pod_role_arn outside
              (eq_text (entry (codes "usePodServiceAccountToken") attrib) (codes "true"))
              (entry (codes "csi.storage.k8s.io/pod.namespace") attrib)
              (entry (codes "csi.storage.k8s.io/serviceAccount.name") attrib) v')
            _ (Ensures-all IsAny _ (λ a k. tt))
            (λ role_arn v'' _. beside-Ensures (Serves req attrib) _ v'' (λ w.
              mount_objects-Serves req attrib permission _ w (
                parsed-eq-ok (outside.unmarshal_permission req.permission) permission_unreadable
                  permission given))))

  -- The attributes of a request, and its objects.
  abbrev ServesSome : MountRequest → MountResponse → ClientState × W → Type 0
  ServesSome req response v =
      (attrib : Entries) × (auth.unmarshal_strings req.attributes ≡ done attrib)
      × Serves req attrib response

  read_attributes :
      (req : MountRequest) (r : Reply Entries) (v : ClientState × W)
      → auth.unmarshal_strings req.attributes ≡ r
      → Ensures (ServesSome req) (
          continue
            (lift (parsed r attributes_unreadable) v)
            (λ attrib. mount_with outside req attrib))
  read_attributes req (failed f) v e = tt
  read_attributes req (done attrib) v e =
      Ensures-both (ServesIn req attrib) IsAny (ServesSome req) (mount_with outside req attrib v)
        (λ response v' s _. (attrib, e, s)) (mount_with-Serves req attrib v)
        (Ensures-all IsAny _ (λ a k. tt))

  mount-Serves :
      (req : MountRequest) (v : ClientState × W) → Ensures (ServesSome req) (mount outside req v)
  unfolding mount
  mount-Serves req v = elim (Bool-cases (is_empty req.target_path)) [
    | inl q ↦ rw q tt
    | inr q ↦ rw q (read_attributes req (auth.unmarshal_strings req.attributes) v refl)
  ]

  -- When `Mount` succeeds, its attributes and its permission were read, `NewSecretObjectList` accepted the
  -- objects in them, and the answer has one file for each of these objects and of their JMESPath
  -- entries, in their order and under their file names, a version under the name of each file, and the permission
  -- as the mode of each.
  pub mount-IsMounted :
      (req : MountRequest) (response : MountResponse) (v v' : ClientState × W)
      → mount outside req v ≡ (ok response, v')
      → (attrib : Entries) × (auth.unmarshal_strings req.attributes ≡ done attrib)
        × Serves req attrib response
  mount-IsMounted req response v v' h =
      Ensures-at (ServesSome req) _ response v' h (mount-Serves req v)
