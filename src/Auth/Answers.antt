-- ===== src/Auth/Answers.antt =====
-- Which methods of the chain in auth/auth.go end it: those that reach the SDK, or fail before.
use secrets_store_csi_driver.Prelude.{
  Text, codes, ◌≡◌, ◌≢◌, refl, Option, none, some, is_empty, inl, inr, Bool-cases,
}
use secrets_store_csi_driver.Outcome.{
  Outcome, ok, err, panic, Error, Failure, Reply, done, failed, passed_on, token_file_create,
}
use secrets_store_csi_driver.Exec.{Exec, reply, continue}
use secrets_store_csi_driver.Auth.Config.{AuthConfig, CredentialConfig, oidc_role_arn, session_name}
use secrets_store_csi_driver.Auth.Methods.{
  AuthServices, Credential, Entries, entry, ask, pod_tokens, pod_credential, write_token,
}
use secrets_store_csi_driver.Auth.{or_next}
use secrets_store_csi_driver.Auth.Plan.{settled, NeverNil}

module _ {W : Type 0} (services : AuthServices W) where
  open services use {unmarshal_strings, unmarshal_tokens, new_credential, unicode_lower}

  -- A method that answers, one way or another.
  unfoldable pub Answers : Outcome (Option Credential) × W → Type 0
  Answers r = r.0 ≢ ok none

  pub or_next-Answers :
      (rest : Exec W Credential) (r : Outcome (Option Credential) × W)
      → Answers r
      → or_next rest r ≡ settled services r
  unfolding or_next Answers
  or_next-Answers rest (ok none, w) h = absurd (h refl)
  or_next-Answers rest (ok (some cred), w) h = refl
  or_next-Answers rest (err e, w) h = refl
  or_next-Answers rest (panic, w) h = refl

  reply-Answers :
      (r : Reply (Option Credential) × W) (e : Failure → Error)
      → r.0 ≢ done none
      → Answers (reply r e)
  unfolding Answers
  reply-Answers (done none, w) e h = absurd (h refl)
  reply-Answers (done (some cred), w) e h = λ q. cc
  reply-Answers (failed f, w) e h = λ q. cc

  module _ (never_nil : NeverNil services) where
    pub ask-Answers : (config : CredentialConfig) (w : W) → Answers (ask services config w)
    unfolding ask
    ask-Answers config w = reply-Answers (new_credential config w) passed_on (never_nil config w)

    continue-Answers :
        {A : Type 0} (r : Outcome A × W) (f : A → Exec W (Option Credential))
        → ((a : A) (w : W) → Answers (f a w))
        → Answers (continue r f)
    unfolding Answers
    continue-Answers (ok a, w) f h = h a w
    continue-Answers (err e, w) f h = λ q. cc
    continue-Answers (panic, w) f h = λ q. cc

    pod_credential-Answers :
        (c : AuthConfig) (token : Text) (w : W) → Answers (pod_credential services c token w)
    unfolding pod_credential
    pod_credential-Answers c token w =
        continue-Answers (reply (services.create_temp w) token_file_create) _ (λ path w'.
          continue-Answers (write_token services path token w') _ (λ _ w''.
            ask-Answers
              (oidc_role_arn c.oidc_arn path c.pod_service_account_role_arn (session_name c)) w''))

    pub pod_tokens-Answers :
        (c : AuthConfig) (r : Reply Entries) (w : W) → Answers (pod_tokens services c r w)
    unfolding pod_tokens Answers
    pod_tokens-Answers c (failed f) w = λ q. cc
    pod_tokens-Answers c (done tokens) w =
        elim (Bool-cases (is_empty (entry (codes "sts.aliyuncs.com") tokens))) [
          | inl q ↦ rw q (λ h. cc)
          | inr q ↦ rw q (
              unfold Answers in
              pod_credential-Answers c (entry (codes "sts.aliyuncs.com") tokens) w)
        ]
