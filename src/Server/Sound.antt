-- ===== src/Server/Sound.antt =====
-- server/server.go: the variables of the client of Kubernetes stay sound.
use secrets_store_csi_driver.Prelude.{Text, ◌≡◌, refl, Bool, true, false, if◌then◌else◌}
use secrets_store_csi_driver.Outcome.{
  Outcome, ok, err, panic, Error, Reply, done, failed, k8s_client_failed, service_account_failed,
}
use secrets_store_csi_driver.Exec.{Exec, wrapped, continue}
use secrets_store_csi_driver.Settles.{Settles, Replies, IsAnything, Settles-reply}
use secrets_store_csi_driver.Server.Kubernetes.{
  Clientset, Cluster, ClientState, RestConfig, cached, beside, get_k8s_client, after_config,
  after_client, get_role_arn_from_service_account,
}
use secrets_store_csi_driver.Server.Mount.{Outside, or_no_role, pod_role_arn}

-- An initialised state has a client or an error.
abbrev pub IsSound : ClientState → Type 0
IsSound s = s.is_init ≡ true → Settles Unit (cached s)

module _ {W : Type 0} (cluster : Cluster W) where
  -- Settled, and a sound state behind it.
  abbrev pub IsSettled : {A : Type 0} → Type 0 → Outcome A × (ClientState × W) → Type 0
  IsSettled E r = Settles E r.0 × IsSound r.1.0

  after_client-IsSettled : (p : Reply Clientset × W) → IsSettled Unit (after_client cluster p)
  unfolding after_client
  after_client-IsSettled (done c, w) = (tt, λ e. tt)
  after_client-IsSettled (failed f, w) = (tt, λ e. tt)

  after_config-IsSettled :
      (s : ClientState) (p : Reply RestConfig × W)
      → s.is_init ≡ false
      → IsSettled Unit (after_config cluster s p)
  unfolding after_config
  after_config-IsSettled s (failed f, w) h = (tt, λ e. tt)
  after_config-IsSettled s (done config, w) h =
      after_client-IsSettled (cluster.new_for_config config w)

  get_k8s_client-IsSettled :
      (s : ClientState) (w : W) → IsSound s → IsSettled Unit (get_k8s_client cluster (s, w))
  unfolding get_k8s_client
  get_k8s_client-IsSettled s w h = tested s.is_init refl
    where
      tested :
          (b : Bool)
          → s.is_init ≡ b
          → IsSettled Unit (
              if b
              then (cached s, (s, w))
              else after_config cluster s (cluster.in_cluster_config w))
      tested true e = (h e, h)
      tested false e = after_config-IsSettled s (cluster.in_cluster_config w) e

  wrapped-IsSettled :
      {A : Type 0} (f : Error → Error) (r : Outcome A × (ClientState × W))
      → IsSettled Unit r
      → IsSettled Unit (wrapped f r)
  wrapped-IsSettled f (ok a, v) h = h
  wrapped-IsSettled f (err e, v) h = h
  wrapped-IsSettled f (panic, v) h = h

  pub continue-IsSettled :
      {A B : Type 0} (r : Outcome A × (ClientState × W)) (f : A → Exec (ClientState × W) B)
      → IsSettled Unit r
      → ((a : A) (v : ClientState × W) → IsSound v.0 → IsSettled Unit (f a v))
      → IsSettled Unit (continue r f)
  continue-IsSettled (ok a, v) f (h, s) k = k a v s
  continue-IsSettled (err e, v) f h k = h
  continue-IsSettled (panic, v) f h k = h

  pub get_role_arn_from_service_account-IsSettled :
      (namespace account : Text) (v : ClientState × W)
      → IsSound v.0
      → IsSettled Unit (get_role_arn_from_service_account cluster namespace account v)
  unfolding get_role_arn_from_service_account beside
  get_role_arn_from_service_account-IsSettled namespace account (s, w) h =
      continue-IsSettled (wrapped k8s_client_failed (get_k8s_client cluster (s, w))) _
        (wrapped-IsSettled k8s_client_failed (get_k8s_client cluster (s, w))
          (get_k8s_client-IsSettled s w h))
        (λ client v' k.
          continue-IsSettled _ _
            (
              Settles-reply Unit IsAnything (cluster.service_account client namespace account v'.1)
                  (service_account_failed namespace account)
                  (replies (cluster.service_account client namespace account v'.1).0),
              k,
            )
            (λ annotations v'' l. (tt, l)))
    where
      replies : {A : Type 0} (r : Reply A) → Replies Unit IsAnything r
      replies (done a) = tt
      replies (failed f) = tt

module _ {W : Type 0} (E : Type 0) (outside : Outside W) where
  or_no_role-IsSettled :
      (r : Outcome Text × (ClientState × W))
      → IsSettled outside.cluster Unit r
      → IsSettled outside.cluster E (or_no_role r)
  unfolding or_no_role
  or_no_role-IsSettled (ok t, v) h = h
  or_no_role-IsSettled (err e, v) (h, s) = (tt, s)
  or_no_role-IsSettled (panic, v) h = h

  -- Finding the role of the pod's account does not panic and leaves the state sound.
  pub pod_role_arn-IsSettled :
      (uses_pod : Bool) (namespace account : Text) (v : ClientState × W)
      → IsSound v.0
      → IsSettled outside.cluster E (pod_role_arn outside uses_pod namespace account v)
  unfolding pod_role_arn
  pod_role_arn-IsSettled false namespace account v h = (tt, h)
  pod_role_arn-IsSettled true namespace account v h =
      or_no_role-IsSettled _
        (get_role_arn_from_service_account-IsSettled outside.cluster namespace account v h)
