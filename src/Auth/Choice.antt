-- ===== src/Auth/Choice.antt =====
-- The chain of auth/auth.go carries out the plan for its configuration.
use secrets_store_csi_driver.Prelude.{
  Text, ◌≡◌, refl, ◌∙◌, List, [], ◌∷◌, Option, none, Bool, true, false, not, ◌&&◌, ◌||◌,
  if◌then◌else◌, is_empty, inl, inr, Bool-cases,
}
use secrets_store_csi_driver.Outcome.{ok, Reply, done, failed}
use secrets_store_csi_driver.Exec.{Exec, pure}
use secrets_store_csi_driver.Auth.Config.{
  AuthConfig, PodSaInfo, CredentialConfig, access_key, ecs_ram_role, auth_config,
}
use secrets_store_csi_driver.Auth.Decimal.{atoi}
use secrets_store_csi_driver.Auth.Methods.{
  AuthServices, Credential, Entries, access_keys, ask, pod_tokens, pod_service_account_auth,
  oidc_role_auth, ram_role_auth, node_publish_secret_auth, secret_entries, ak_auth, ecs_role_auth,
}
use secrets_store_csi_driver.Auth.{or_next, new_credential_of, links, get_kms_auth_cred}
use secrets_store_csi_driver.Auth.Plan.{
  is_given, Plan, exchange, request, own_plan, keys_plan, secrets_plan, pod_json, without_role_plan,
  without_oidc_plan, without_pod_plan, plan, settled, carry_out, NeverNil,
}
use secrets_store_csi_driver.Auth.Answers.{
  Answers, or_next-Answers, ask-Answers, pod_tokens-Answers,
}

de_morgan : (a b : Bool) → (not a && not b) ≡ not (a || b)
de_morgan true b = refl
de_morgan false b = refl

de_morgan_three : (a b c : Bool) → (not a && not b && not c) ≡ not (a || b || c)
de_morgan_three true b c = refl
de_morgan_three false b c = de_morgan b c

module _ {W : Type 0} (services : AuthServices W) where
  open services use {unmarshal_strings, unmarshal_tokens, new_credential, unicode_lower}

  module _ (never_nil : NeverNil services) where
    link-skip :
        (m : Exec W (Option Credential)) (ms : List (Exec W (Option Credential))) (w : W)
        → m w ≡ (ok none, w)
        → new_credential_of (m ∷ ms) w ≡ new_credential_of ms w
    unfolding new_credential_of or_next
    link-skip m ms w h = rw h

    link-last :
        (m : Exec W (Option Credential)) (ms : List (Exec W (Option Credential))) (w : W)
        → Answers services (m w)
        → new_credential_of (m ∷ ms) w ≡ settled services (m w)
    unfolding new_credential_of
    link-last m ms w h = or_next-Answers services (new_credential_of ms) (m w) h

    -- A link that is skipped by a test, and asks the SDK otherwise.
    link-tested :
        (c : AuthConfig) (skipped given : Bool) (config : CredentialConfig)
        (ms : List (Exec W (Option Credential))) (q : Plan) (w : W)
        → given ≡ not skipped
        → new_credential_of ms w ≡ carry_out services c q w
        → new_credential_of ((if skipped then pure none else ask services config) ∷ ms) w
          ≡ carry_out services c (if given then request config else q) w
    link-tested c true given config ms q w e h = rw e (link-skip (pure none) ms w refl ∙ h)
    link-tested c false given config ms q w e h =
        rw e (link-last (ask services config) ms w (ask-Answers services never_nil config w))

    ecs-last :
        (c : AuthConfig) (w : W)
        → new_credential_of (ecs_role_auth services c ∷ []) w
          ≡ carry_out services c (request ecs_ram_role) w
    unfolding ecs_role_auth
    ecs-last c w =
        link-last (ask services ecs_ram_role) [] w (ask-Answers services never_nil ecs_ram_role w)

    ak-next :
        (c : AuthConfig) (w : W)
        → new_credential_of (ak_auth services c ∷ ecs_role_auth services c ∷ []) w
          ≡ carry_out services c (own_plan c) w
    unfolding ak_auth
    ak-next c w =
        link-tested c _ _ (access_key c.access_key c.access_secret_key) _ (request ecs_ram_role) w
          (de_morgan (is_empty c.access_key) (is_empty c.access_secret_key)) (ecs-last c w)

    keys-next :
        (c : AuthConfig) (keys : Text × Text) (w : W)
        → new_credential_of
            ((if is_empty keys.0 || is_empty keys.1
                then pure none
                else ask services (access_key keys.0 keys.1))
              ∷ ak_auth services c
              ∷ ecs_role_auth services c
              ∷ [])
            w
          ≡ carry_out services c (keys_plan c keys) w
    keys-next c (ak, sk) w =
        link-tested c _ _ (access_key ak sk) _ (own_plan c) w
          (de_morgan (is_empty ak) (is_empty sk)) (ak-next c w)

    secrets-next :
        (c : AuthConfig) (r : Reply Entries) (w : W)
        → new_credential_of
            (secret_entries services r ∷ ak_auth services c ∷ ecs_role_auth services c ∷ [])
            w
          ≡ carry_out services c (secrets_plan unicode_lower c r) w
    unfolding secret_entries
    secrets-next c (failed f) w = link-last _ _ w (unfold Answers in λ q. cc)
    secrets-next c (done m) w = keys-next c (access_keys unicode_lower m ([], [])) w

    secret-next :
        (c : AuthConfig) (w : W)
        → new_credential_of
            (node_publish_secret_auth services c
              ∷ ak_auth services c
              ∷ ecs_role_auth services c
              ∷ [])
            w
          ≡ carry_out services c (without_role_plan services c) w
    unfolding node_publish_secret_auth
    secret-next c w = elim (Bool-cases (is_empty c.node_publish_secret)) [
      | inl q ↦ rw q (link-skip _ _ w refl ∙ ak-next c w)
      | inr q ↦ rw q (secrets-next c (unmarshal_strings c.node_publish_secret) w)
    ]

    expiration-same :
        (t : Text) → (if is_given t then atoi t else none) ≡ (if is_empty t then none else atoi t)
    expiration-same [] = refl
    expiration-same (d ∷ t) = refl

    role-next :
        (c : AuthConfig) (w : W)
        → new_credential_of
            (ram_role_auth services c
              ∷ node_publish_secret_auth services c
              ∷ ak_auth services c
              ∷ ecs_role_auth services c
              ∷ [])
            w
          ≡ carry_out services c (without_oidc_plan services c) w
    unfolding ram_role_auth
    role-next c w = rw (expiration-same c.role_session_expiration) (
        link-tested c _ _ _ _ (without_role_plan services c) w
          (de_morgan_three (is_empty c.access_key) (is_empty c.access_secret_key)
            (is_empty c.role_arn))
          (secret-next c w))

    oidc-next :
        (c : AuthConfig) (w : W)
        → new_credential_of
            (oidc_role_auth services c
              ∷ ram_role_auth services c
              ∷ node_publish_secret_auth services c
              ∷ ak_auth services c
              ∷ ecs_role_auth services c
              ∷ [])
            w
          ≡ carry_out services c (without_pod_plan services c) w
    unfolding oidc_role_auth
    oidc-next c w =
        link-tested c _ _ _ _ (without_oidc_plan services c) w
          (de_morgan (is_empty c.oidc_arn) (is_empty c.role_arn)) (role-next c w)

    -- The first link: the five tests, on the values they test.
    pod-link :
        (c : AuthConfig) (may arn namespace account json : Bool) (m : Exec W (Option Credential))
        (ms : List (Exec W (Option Credential))) (p q : Plan) (w : W)
        → new_credential_of ms w ≡ carry_out services c q w
        → new_credential_of (m ∷ ms) w ≡ carry_out services c p w
        → new_credential_of
            ((if not may || arn || namespace || account
                then pure none
                else if json
                then pure none
                else m)
              ∷ ms)
            w
          ≡ carry_out services c
              (if may && not arn && not namespace && not account && not json then p else q)
              w
    pod-link c false arn namespace account json m ms p q w h k = link-skip _ ms w refl ∙ h
    pod-link c true true namespace account json m ms p q w h k = link-skip _ ms w refl ∙ h
    pod-link c true false true account json m ms p q w h k = link-skip _ ms w refl ∙ h
    pod-link c true false false true json m ms p q w h k = link-skip _ ms w refl ∙ h
    pod-link c true false false false true m ms p q w h k = link-skip _ ms w refl ∙ h
    pod-link c true false false false false m ms p q w h k = k

    -- `GetKMSAuthCred` does what the plan for its configuration says: the tokens of the pod are
    -- exchanged if the pod may use them and has them, and no other method is tried after that;
    -- otherwise the SDK is asked once, with the configuration of the first method that is set up.
    -- The SDK is to make a credential or an error.
    pub get_kms_auth_cred-plan :
        (getenv : Text → Text) (secrets : Text) (pod : PodSaInfo) (w : W)
        → get_kms_auth_cred services getenv secrets pod w
          ≡ (let c = auth_config getenv secrets pod in carry_out services c (plan services c) w)
    unfolding get_kms_auth_cred links pod_service_account_auth
    get_kms_auth_cred-plan getenv secrets pod w =
        let c = auth_config getenv secrets pod in
        let json = pod_json services c in
        pod-link c c.use_pod_service_account_token (is_empty c.pod_service_account_role_arn)
          (is_empty c.pod_namespace) (is_empty c.pod_service_account) (is_empty json)
          (pod_tokens services c (unmarshal_tokens json)) _ (exchange json)
          (without_pod_plan services c) w (oidc-next c w)
          (link-last (pod_tokens services c (unmarshal_tokens json)) _ w
            (pod_tokens-Answers services never_nil c (unmarshal_tokens json) w))
