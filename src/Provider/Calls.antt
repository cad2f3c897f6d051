-- ===== src/Provider/Calls.antt =====
-- How often `getKMSSecret` calls KMS.
use secrets_store_csi_driver.Prelude.{
  ℕ, suc, Text, ◌≡◌, ◌+◌, refl, ap, ◌∙◌, Bool, false, Option, some, arith, if◌then◌else◌,
  Bool-cases, inl, inr,
}
use secrets_store_csi_driver.Outcome.{
  Outcome, ok, err, panic, Error, Failure, Reply, done, failed, fetch_failed,
}
use secrets_store_csi_driver.Exec.{reply, lift, continue}
use secrets_store_csi_driver.SecretObject.{KmsClient, SecretObject}
use secrets_store_csi_driver.Provider.Types.{
  Services, KmsBody, judge_need_retry, get_wait_time_exponential, kms_request, read_kms_body,
}
use secrets_store_csi_driver.Provider.{retry, after_first, with_retry, get_kms_secret}

-- Whether the answer to the first request asks for a second one.
abbrev pub asks_again : {A : Type 0} → Reply A → Bool
asks_again (done a) = false
asks_again (failed f) = judge_need_retry f

module _ {W : Type 0} (services : Services W) where
  -- A measure of the world that each KMS request raises by one and a pause leaves alone.
  pub record Counts (calls : W → ℕ) : Type 0 where
    pub request :
        (c : KmsClient) (s : SecretObject) (w : W)
        → calls (services.get_secret_value c (kms_request s) w).1 ≡ suc (calls w)
    pub pause : (n : ℕ) (w : W) → calls (services.sleep n w) ≡ calls w

  reply-world : {A : Type 0} (r : Reply A × W) (e : Failure → Error) → (reply r e).1 ≡ r.1
  reply-world (done a, w) e = refl
  reply-world (failed f, w) e = refl

  -- A pure step leaves the world as it is.
  continue-world :
      {A B : Type 0} (r : Outcome A × W) (f : A → Outcome B)
      → (continue r (λ a. lift (f a))).1 ≡ r.1
  continue-world (ok a, w) f = refl
  continue-world (err e, w) f = refl
  continue-world (panic, w) f = refl

  module _ (calls : W → ℕ) (counts : Counts calls) (c : KmsClient) (s : SecretObject) where
    abbrev request : W → Reply (Option KmsBody) × W
    request = services.get_secret_value c (kms_request s)

    calls-retry : (name : Text) (w : W) → calls (retry services request name w).1 ≡ suc (calls w)
    unfolding retry
    calls-retry name w =
        ap calls (
          reply-world (request (services.sleep (get_wait_time_exponential 1) w))
            (fetch_failed name))
        ∙ counts.request c s (services.sleep (get_wait_time_exponential 1) w)
        ∙ ap suc (counts.pause (get_wait_time_exponential 1) w)

    calls-after_first :
        (name : Text) (p : Reply (Option KmsBody) × W)
        → calls (after_first services request name p).1
          ≡ calls p.1 + (if asks_again p.0 then 1 else 0)
    unfolding after_first
    calls-after_first name (done a, w) = omega arith
    calls-after_first name (failed f, w) = elim (Bool-cases (judge_need_retry f)) [
      | inl q ↦ rw (q, calls-retry name w) (omega arith)
      | inr q ↦ rw q (omega arith)
    ]

    -- In a measure of the world that counts the requests to KMS, `getKMSSecret` makes one, and a second
    -- exactly when the error of the first asks for it.
    pub get_kms_secret-calls :
        (w : W)
        → calls (get_kms_secret services (some c) s w).1
          ≡ calls w + (if asks_again (request w).0 then 2 else 1)
    unfolding get_kms_secret with_retry
    get_kms_secret-calls w =
        ap calls (
          continue-world (with_retry services request s.object_name w)
            (read_kms_body services.base64_decode s))
        ∙ calls-after_first s.object_name (request w)
        ∙ ground (arith, counts.request c s w)
