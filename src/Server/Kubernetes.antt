-- ===== src/Server/Kubernetes.antt =====
-- server/server.go: the client of Kubernetes and the role in a service account's annotations.
use mathlib.Core.Bool.{false≢true}
use secrets_store_csi_driver.Prelude.{
  ℕ, Text, codes, Option, none, some, Bool, true, false, ◌≡◌, refl, ap, sym, ◌∙◌, if◌then◌else◌,
}
use secrets_store_csi_driver.Outcome.{
  Outcome, ok, err, panic, Error, Reply, done, failed, cluster_config_failed, k8s_client_failed,
  service_account_failed, passed_on,
}
use secrets_store_csi_driver.Exec.{Exec, reply, wrapped, ◌>>=◌}
use secrets_store_csi_driver.Auth.Methods.{Entries, entry}

-- `kubernetes.Interface` and `*rest.Config`: addresses of objects of k8s.io/client-go.
abbrev pub Clientset : Type 0
Clientset = ℕ

abbrev pub RestConfig : Type 0
RestConfig = ℕ

-- What is used of k8s.io/client-go; an account answers by its annotations.
pub record Cluster (W : Type 0) : Type 0 where
  pub in_cluster_config : W → Reply RestConfig × W
  pub new_for_config : RestConfig → W → Reply Clientset × W
  pub service_account : Clientset → Text → Text → W → Reply Entries × W

-- The variables `k8sClient`, `k8sClientInit` and `k8sClientErr`; the mutex makes the calls of
-- `getK8sClient` follow one another.
pub record ClientState : Type 0 where
  pub client : Option Clientset
  pub is_init : Bool
  pub error : Option Error

-- `return k8sClient, k8sClientErr`; a nil client is a panic for the caller.
abbrev pub answer : Option Clientset → Option Error → Outcome Clientset
answer client (some e) = err e
answer (some c) none = ok c
answer none none = panic

abbrev pub cached : ClientState → Outcome Clientset
cached s = answer s.client s.error

-- A call that leaves the variables alone.
unfoldable pub beside : {W A : Type 0} → Exec W A → Exec (ClientState × W) A
beside m (s, w) = let (r, w') = m w in (r, (s, w'))

module _ {W : Type 0} (cluster : Cluster W) where
  -- What `kubernetes.NewForConfig` leaves behind.
  unfoldable pub after_client : Reply Clientset × W → Outcome Clientset × (ClientState × W)
  after_client (done c, w) = (ok c, (record { client = some c; is_init = true; error = none }, w))
  after_client (failed f, w) =
      (err (passed_on f), (record { client = none; is_init = true; error = some (passed_on f) }, w))

  unfoldable pub after_config :
      ClientState → Reply RestConfig × W → Outcome Clientset × (ClientState × W)
  after_config s (failed f, w) =
      (err (cluster_config_failed f), (record s { error = some (cluster_config_failed f) }, w))
  after_config s (done config, w) = after_client (cluster.new_for_config config w)

  -- `getK8sClient`
  unfoldable pub get_k8s_client : Exec (ClientState × W) Clientset
  get_k8s_client (s, w) =
      if s.is_init then (cached s, (s, w)) else after_config s (cluster.in_cluster_config w)

  -- `getRoleArnFromServiceAccount`
  unfoldable pub get_role_arn_from_service_account : Text → Text → Exec (ClientState × W) Text
  get_role_arn_from_service_account namespace account = do
    client ← λ v. wrapped k8s_client_failed (get_k8s_client v)
    annotations ← beside (λ w.
        reply (cluster.service_account client namespace account w)
          (service_account_failed namespace account))
    λ v. (ok (entry (codes "ack.alibabacloud.com/role-arn") annotations), v)

  after_client-once :
      (p : Reply Clientset × W) (w' : W)
      → get_k8s_client ((after_client p).1.0, w') ≡ ((after_client p).0, ((after_client p).1.0, w'))
  unfolding get_k8s_client after_client
  after_client-once (done c, w) w' = refl
  after_client-once (failed f, w) w' = refl

  after_config-once :
      (s : ClientState) (p : Reply RestConfig × W) (w' : W)
      → s.is_init ≡ false
      → (after_config s p).1.0.is_init ≡ true
      → get_k8s_client ((after_config s p).1.0, w')
        ≡ ((after_config s p).0, ((after_config s p).1.0, w'))
  unfolding after_config
  after_config-once s (failed f, w) w' h k = absurd (false≢true (sym h ∙ k))
  after_config-once s (done config, w) w' h k =
      after_client-once (cluster.new_for_config config w) w'

  -- The result of a call is the result of every later one, if it left the state initialised.
  abbrev IsFinal : Outcome Clientset × (ClientState × W) → Type 0
  IsFinal r = r.1.0.is_init ≡ true → (w' : W) → get_k8s_client (r.1.0, w') ≡ (r.0, (r.1.0, w'))

  tested-IsFinal :
      (s : ClientState) (w : W) (b : Bool)
      → s.is_init ≡ b
      → IsFinal (if b then (cached s, (s, w)) else after_config s (cluster.in_cluster_config w))
  unfolding get_k8s_client
  tested-IsFinal s w true e _ w' =
      ap (λ b. if b then (cached s, (s, w')) else after_config s (cluster.in_cluster_config w')) e
  tested-IsFinal s w false e h w' = after_config-once s (cluster.in_cluster_config w) w' e h

  -- Once a call of `getK8sClient` has left its state initialised, every later call gives the answer
  -- of that call again, be it a client or an error, and asks nothing of the world.
  pub get_k8s_client-once :
      (s : ClientState) (w w' : W)
      → (get_k8s_client (s, w)).1.0.is_init ≡ true
      → get_k8s_client ((get_k8s_client (s, w)).1.0, w')
        ≡ ((get_k8s_client (s, w)).0, ((get_k8s_client (s, w)).1.0, w'))
  unfolding get_k8s_client
  get_k8s_client-once s w w' h = tested-IsFinal s w s.is_init refl h w'
