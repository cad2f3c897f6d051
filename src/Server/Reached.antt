-- ===== src/Server/Reached.antt =====
-- server/server.go: the states that a server reaches, and its requests in them.
use mathlib.Core.Bool.{false≢true}
use secrets_store_csi_driver.Prelude.{
  Text, codes, ◌≡◌, ◌≢◌, inl, inr, List, [], ◌∷◌, All, none, false, eq_text, is_empty, Bool-cases,
}
use secrets_store_csi_driver.Outcome.{
  Outcome, ok, err, panic, done, attributes_unreadable, permission_unreadable,
}
use secrets_store_csi_driver.Exec.{Exec, lift, continue}
use secrets_store_csi_driver.Settles.{Replies, IsAnything, IsSome, Settles, Settles-ne-panic}
use secrets_store_csi_driver.Endpoint.Hosts.{validate_kms_endpoint_cases}
use secrets_store_csi_driver.SecretObject.{SecretObject, KmsClient, OosClient}
use secrets_store_csi_driver.Provider.Types.{KmsRequest, OosRequest}
use secrets_store_csi_driver.Provider.Needs.{IsComplete}
use secrets_store_csi_driver.SecretObject.Settled.{NoNull, new_secret_object_list-Settles}
use secrets_store_csi_driver.Auth.Methods.{Entries, entry}
use secrets_store_csi_driver.Server.Config.{kms_endpoint_of}
use secrets_store_csi_driver.Server.Kubernetes.{ClientState, beside}
use secrets_store_csi_driver.Server.ResolveSettled.{IsServable}
use secrets_store_csi_driver.Server.Sound.{IsSound, pod_role_arn-IsSettled}
use secrets_store_csi_driver.Server.MountSettled.{mount-Settles}
use secrets_store_csi_driver.Server.Complete.{
  any-OutsideAnswers, any-AreReadable, any-Replies, complete-IsFetchable,
}
use secrets_store_csi_driver.Server.Mount.{
  Outside, MountRequest, region_of, parsed, mount_with, mount, pod_role_arn,
}

-- The variables of the Kubernetes client when the process starts.
abbrev pub unset : ClientState
unset = record { client = none; is_init = false; error = none }

-- The states of the variables that mount requests lead to, each in any world: between two requests
-- anything may happen outside.
pub data Reachable {W : Type 0} (outside : Outside W) : ClientState → Type 0 where
  started : Reachable outside unset
  served :
      (s : ClientState) (req : MountRequest) (w : W)
      → Reachable outside s
      → Reachable outside (mount outside req (s, w)).1.0

module _ {W : Type 0} where
  continue-IsSound :
      {A B : Type 0} (r : Outcome A × (ClientState × W)) (f : A → Exec (ClientState × W) B)
      → IsSound r.1.0
      → ((a : A) (v : ClientState × W) → IsSound v.0 → IsSound (f a v).1.0)
      → IsSound (continue r f).1.0
  continue-IsSound (ok a, v) f h k = k a v h
  continue-IsSound (err e, v) f h k = h
  continue-IsSound (panic, v) f h k = h

module _ {W : Type 0} (outside : Outside W) where
  mount_with-IsSound :
      (req : MountRequest) (attrib : Entries) (v : ClientState × W)
      → IsSound v.0
      → IsSound (mount_with outside req attrib v).1.0
  unfolding mount_with beside
  mount_with-IsSound req attrib v h =
      continue-IsSound
        (lift (parsed (outside.unmarshal_permission req.permission) permission_unreadable) v) _ h
        (λ permission v' k.
          let uses_pod =
            eq_text (entry (codes "usePodServiceAccountToken") attrib) (codes "true") in
          let namespace = entry (codes "csi.storage.k8s.io/pod.namespace") attrib in
          let account = entry (codes "csi.storage.k8s.io/serviceAccount.name") attrib in
          continue-IsSound (pod_role_arn outside uses_pod namespace account v') _
            (pod_role_arn-IsSettled Unit outside uses_pod namespace account v' k).1
            (λ role_arn v'' l. l))

  mount-IsSound :
      (req : MountRequest) (v : ClientState × W) → IsSound v.0 → IsSound (mount outside req v).1.0
  unfolding mount
  mount-IsSound req v h = elim (Bool-cases (is_empty req.target_path)) [
    | inl q ↦ rw q h
    | inr q ↦ rw q (
        continue-IsSound
          (lift (parsed (outside.auth.unmarshal_strings req.attributes) attributes_unreadable) v) _
          h (λ attrib v' k. mount_with-IsSound req attrib v' k))
  ]

  pub Reachable-IsSound : (s : ClientState) → Reachable outside s → IsSound s
  Reachable-IsSound _ started = λ e. absurd (false≢true e)
  Reachable-IsSound _ (served s req w r) = mount-IsSound req (s, w) (Reachable-IsSound s r)

  kms_endpoint_of-Settles :
      (endpoint region : Text) → Settles Unit (kms_endpoint_of endpoint region)
  unfolding kms_endpoint_of
  kms_endpoint_of-Settles [] region = tt
  kms_endpoint_of-Settles (c ∷ s) region = elim (validate_kms_endpoint_cases (c ∷ s)) [
    | inl (e, h) ↦ rw e tt
    | inr (e, h) ↦ rw e tt
  ]

  any-IsServable : (region : Text) (ss : List SecretObject) → All (IsServable Unit region) ss
  any-IsServable region [] = tt
  any-IsServable region (s ∷ ss) =
      (((λ _. tt), kms_endpoint_of-Settles s.kms_endpoint region), any-IsServable region ss)

  -- A mount request does not panic, in whatever state earlier requests have left the server and
  -- whatever has happened outside since, if the responses of KMS and OOS are complete and the
  -- specification of the objects has no null item; anything outside may fail.
  pub mount-ne-panic :
      (s : ClientState) (req : MountRequest) (w : W)
      → ((c : KmsClient) (q : KmsRequest) (w : W)
          → Replies Unit IsComplete (outside.services.get_secret_value c q w).0)
      → ((c : OosClient) (q : OosRequest) (w : W)
          → Replies Unit IsSome (outside.services.get_secret_parameter c q w).0)
      → Reachable outside s
      → ((attrib : Entries)
          → outside.auth.unmarshal_strings req.attributes ≡ done attrib
          → NoNull (outside.unmarshal_objects (entry (codes "objects") attrib)))
      → (mount outside req (s, w)).0 ≢ panic
  mount-ne-panic s req w kms oos r n = Settles-ne-panic (mount outside req (s, w)).0 (
      mount-Settles Unit outside (any-OutsideAnswers outside) req (s, w) (Reachable-IsSound s r)
        (λ _. tt) (any-Replies IsAnything (λ a. tt) (outside.auth.unmarshal_strings req.attributes))
        (any-Replies IsAnything (λ a. tt) (outside.unmarshal_permission req.permission))
        (λ attrib e. (
          new_secret_object_list-Settles outside.auth.unicode_lower outside.unmarshal_objects
              req.target_path (entry (codes "pathTranslation") attrib)
              (entry (codes "objects") attrib) (n attrib e),
          (λ ss f. (
            any-IsServable (region_of attrib outside.region) ss,
            complete-IsFetchable outside.services outside.tools ss kms oos,
          )),
          any-AreReadable outside req attrib,
        )))
