-- ===== src/Auth/Settled.antt =====
-- auth/auth.go: the chain of authentication methods settles if everything outside does.
use secrets_store_csi_driver.Prelude.{
  is_empty→ne_nil, Text, codes, ◌≡◌, inl, inr, [], ◌∷◌, ◌||◌, not, is_empty, Bool-cases,
}
use secrets_store_csi_driver.Outcome.{Reply, done, failed, token_file_create, passed_on}
use secrets_store_csi_driver.Exec.{reply}
use secrets_store_csi_driver.Settles.{
  Settles, Gives, Replies, IsAnything, Settles-continue, Settles-reply, Gives-reply,
}
use secrets_store_csi_driver.Auth.Config.{
  AuthConfig, CredentialConfig, PodSaInfo, auth_config, oidc_role_arn, session_name,
}
use secrets_store_csi_driver.Auth.Methods.{
  AuthServices, Entries, entry, access_keys, tokens_json, ask, after_close, after_write,
  write_token, pod_credential, pod_tokens, pod_service_account_auth, oidc_role_auth, ram_role_auth,
  ak_auth, secret_entries, node_publish_secret_auth, ecs_role_auth,
}
use secrets_store_csi_driver.Auth.Chained.{HasCredential, AlwaysSettles, new_credential_of-Settles}
use secrets_store_csi_driver.Auth.{links, get_kms_auth_cred}
use secrets_store_csi_driver.Auth.Needs.{
  HasToken, IsFilled, IsReadable, AuthAnswers, either-false, not-false, pod_skips, filled,
}

module _ (E : Type 0) {W : Type 0} (services : AuthServices W)
    (answers : AuthAnswers E services) where
  ask-Settles : (c : CredentialConfig) (w : W) → IsFilled E c → Settles E (ask services c w).0
  unfolding ask
  ask-Settles c w h =
      Settles-reply E (HasCredential E) (services.new_credential c w) passed_on
        (answers.new_credential c w h)

  after_close-Settles :
      (path : Text) (p : Reply (Unit {0}) × W)
      → Replies E IsAnything p.0
      → Settles E (after_close services path p).0
  unfolding after_close
  after_close-Settles path (done _, w) h = tt
  after_close-Settles path (failed f, w) h = h

  after_write-Settles :
      (path : Text) (p : Reply (Unit {0}) × W)
      → Replies E IsAnything p.0
      → Settles E (after_write services path p).0
  unfolding after_write
  after_write-Settles path (done _, w) h =
      after_close-Settles path (services.close path w) (answers.close path w)
  after_write-Settles path (failed f, w) h = h

  pod_credential-Settles :
      (c : AuthConfig) (token : Text) (w : W)
      → (c.oidc_arn ≡ [] → E)
      → (c.pod_service_account_role_arn ≡ [] → E)
      → Settles E (pod_credential services c token w).0
  unfolding pod_credential write_token
  pod_credential-Settles c token w provider role =
      Settles-continue E (reply (services.create_temp w) token_file_create) _
        (Settles-reply E IsAnything (services.create_temp w) token_file_create
          (answers.create_temp w))
        (λ path w' e.
          Settles-continue E (write_token services path token w') _
            (after_write-Settles path (services.write_string path token w')
              (answers.write_string path token w'))
            (λ _ w'' f.
              ask-Settles
                (oidc_role_arn c.oidc_arn path c.pod_service_account_role_arn (session_name c)) w''
                (provider, role)))

  pod_tokens-Settles :
      (c : AuthConfig) (r : Reply Entries) (w : W)
      → (c.oidc_arn ≡ [] → E)
      → (c.pod_service_account_role_arn ≡ [] → E)
      → Replies E (HasToken E) r
      → Settles E (pod_tokens services c r w).0
  unfolding pod_tokens
  pod_tokens-Settles c (failed f) w provider role h = h
  pod_tokens-Settles c (done tokens) w provider role h =
      let token = entry (codes "sts.aliyuncs.com") tokens in
      elim (Bool-cases (is_empty token)) [
        | inl q ↦ rw q (h q)
        | inr q ↦ rw q (pod_credential-Settles c token w provider role)
      ]

  pod_service_account_auth-Settles :
      (c : AuthConfig)
      → IsReadable E services c
      → AlwaysSettles E (pod_service_account_auth services c)
  unfolding pod_service_account_auth
  pod_service_account_auth-Settles c r w =
      let json =
        tokens_json (services.unmarshal_strings c.node_publish_secret)
          c.token_from_volume_context in
      let skips =
        not c.use_pod_service_account_token
        || is_empty c.pod_service_account_role_arn
        || is_empty c.pod_namespace
        || is_empty c.pod_service_account in
      elim (Bool-cases skips) [
        | inl q ↦ rw q tt
        | inr q ↦ elim (Bool-cases (is_empty json)) [
          | inl k ↦ rw (q, k) tt
          | inr k ↦
              let (skipped, no_role) = pod_skips c q in
              let used = not-false c.use_pod_service_account_token skipped in
              rw (q, k)
                (pod_tokens-Settles c (services.unmarshal_tokens json) w (r.provider used)
                  (filled E c.pod_service_account_role_arn no_role)
                  (r.tokens used (is_empty→ne_nil json k)))
        ]
      ]

  oidc_role_auth-Settles : (c : AuthConfig) → AlwaysSettles E (oidc_role_auth services c)
  unfolding oidc_role_auth
  oidc_role_auth-Settles c w = elim (Bool-cases (is_empty c.oidc_arn || is_empty c.role_arn)) [
    | inl q ↦ rw q tt
    | inr q ↦
        let (p, r) = either-false (is_empty c.oidc_arn) (is_empty c.role_arn) q in
        rw q (ask-Settles _ w (filled E c.oidc_arn p, filled E c.role_arn r))
  ]

  ram_role_auth-Settles : (c : AuthConfig) → AlwaysSettles E (ram_role_auth services c)
  unfolding ram_role_auth
  ram_role_auth-Settles c w =
      elim (Bool-cases
        (is_empty c.access_key || is_empty c.access_secret_key || is_empty c.role_arn)) [
          | inl q ↦ rw q tt
          | inr q ↦
              let (keys, r) =
                either-false (is_empty c.access_key || is_empty c.access_secret_key)
                  (is_empty c.role_arn) q in
              let (a, b) =
                either-false (is_empty c.access_key) (is_empty c.access_secret_key) keys in
              rw q (
                ask-Settles _ w
                  (filled E c.access_key a, filled E c.access_secret_key b, filled E c.role_arn r))
        ]

  ak_auth-Settles : (c : AuthConfig) → AlwaysSettles E (ak_auth services c)
  unfolding ak_auth
  ak_auth-Settles c w = elim (Bool-cases (is_empty c.access_key || is_empty c.access_secret_key)) [
    | inl q ↦ rw q tt
    | inr q ↦
        let (a, b) = either-false (is_empty c.access_key) (is_empty c.access_secret_key) q in
        rw q (ask-Settles _ w (filled E c.access_key a, filled E c.access_secret_key b))
  ]

  secret_entries-Settles :
      (r : Reply Entries) (w : W)
      → Replies E IsAnything r
      → Settles E (secret_entries services r w).0
  unfolding secret_entries
  secret_entries-Settles (failed f) w h = h
  secret_entries-Settles (done secret) w h =
      let keys = access_keys services.unicode_lower secret ([], []) in
      elim (Bool-cases (is_empty keys.0 || is_empty keys.1)) [
        | inl q ↦ rw q tt
        | inr q ↦
            let (a, b) = either-false (is_empty keys.0) (is_empty keys.1) q in
            rw q (ask-Settles _ w (filled E keys.0 a, filled E keys.1 b))
      ]

  node_publish_secret_auth-Settles :
      (c : AuthConfig)
      → IsReadable E services c
      → AlwaysSettles E (node_publish_secret_auth services c)
  unfolding node_publish_secret_auth
  node_publish_secret_auth-Settles c r w = elim (Bool-cases (is_empty c.node_publish_secret)) [
    | inl q ↦ rw q tt
    | inr q ↦ rw q (
        secret_entries-Settles (services.unmarshal_strings c.node_publish_secret) w
          (r.secrets (is_empty→ne_nil c.node_publish_secret q)))
  ]

  ecs_role_auth-Gives :
      (c : AuthConfig) (w : W) → Gives E (HasCredential E) (ecs_role_auth services c w).0
  unfolding ecs_role_auth ask
  ecs_role_auth-Gives c w =
      Gives-reply E (HasCredential E) _ passed_on (answers.new_credential _ w tt)

  pub get_kms_auth_cred-Settles :
      (getenv : Text → Text) (secrets : Text) (pod : PodSaInfo) (w : W)
      → IsReadable E services (auth_config getenv secrets pod)
      → Settles E (get_kms_auth_cred services getenv secrets pod w).0
  unfolding get_kms_auth_cred links
  get_kms_auth_cred-Settles getenv secrets pod w r =
      let c = auth_config getenv secrets pod in
      new_credential_of-Settles E
        (pod_service_account_auth services c
          ∷ oidc_role_auth services c
          ∷ ram_role_auth services c
          ∷ node_publish_secret_auth services c
          ∷ ak_auth services c
          ∷ [])
        (ecs_role_auth services c) w
        (
          pod_service_account_auth-Settles c r,
          (
            oidc_role_auth-Settles c,
            (
              ram_role_auth-Settles c,
              (node_publish_secret_auth-Settles c r, (ak_auth-Settles c, tt)),
            ),
          ),
        )
        (ecs_role_auth-Gives c)
