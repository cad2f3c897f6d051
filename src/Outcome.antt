-- ===== src/Outcome.antt =====
-- The results of Go functions that return an error: a value, an error, or a panic.
use secrets_store_csi_driver.Prelude.{Text, Option, ◌≡◌, ◌≢◌, refl, Bool, true, false}

-- An error that code outside the repository made: the SDK's error code if it is a `ClientError`
-- (`sdkErr.ClientError`), and its message.
pub record Failure : Type 0 where
  pub client_code : Option Text
  pub message : Text

-- One constructor for each error that the program makes.
pub data Error : Type 0 where
  -- utils/arn.go
  invalid_prefix : Error
  invalid_sections : Error
  -- provider/secret_object.go
  bad_translation name_missing jmes_path_missing jmes_alias_missing : Error
  spec_unreadable : Failure → Error
  invalid_arn invalid_service bad_path duplicate_alias duplicate_jmes_alias : Text → Error
  duplicate_name : Text → Text → Error
  -- provider/pull_limit.go
  limiter_empty : Error
  -- provider/secret_value.go
  invalid_json invalid_jmes_path jmes_not_string : Text → Error
  jmes_no_object : Text → Text → Error
  -- provider/secret_manager_provider.go
  kms_client_empty oos_client_empty : Error
  unsupported_secret_type : Text → Error
  fetch_failed : Text → Failure → Error
  decode_failed : Failure → Text → Error
  -- auth/auth.go
  empty_credential : Error
  token_missing : Text → Text → Error
  tokens_unreadable secrets_unreadable token_file_create token_file_write token_file_close :
      Failure → Error
  -- server/endpoint_validation.go
  endpoint_refused : Text → Error
  -- server/server.go
  missing_mount_path base_credential_missing role_arn_missing : Error
  cluster_config_failed attributes_unreadable permission_unreadable : Failure → Error
  role_provider_failed : Text → Failure → Error
  service_account_failed : Text → Text → Failure → Error
  unsupported_object_type : Text → Error
  k8s_client_failed kms_client_failed oos_client_failed : Error → Error
  cross_account_kms_client_failed cross_account_oos_client_failed : Error → Error
  assume_role_failed : Text → Text → Error → Error
  unimplemented : Text → Error
  -- server/healthz.go
  not_serving : Error
  -- an error of outside code, passed on
  passed_on : Failure → Error

-- What a call of outside code answers: a value, or the error that it made.
pub data Reply {ℓ} (A : Type ℓ) : Type ℓ where
  done : A → Reply A
  failed : Failure → Reply A

pub data Outcome {ℓ} (A : Type ℓ) : Type ℓ where
  ok : A → Outcome A
  err : Error → Outcome A
  panic : Outcome A

module _ {ℓ κ} {X : Type ℓ} {Y : Type κ} where
  -- The rest of a function runs on a value only; an error is returned, and a panic goes on.
  infixl 5 ◌>>=◌
  abbrev pub ◌>>=◌ : Outcome X → (X → Outcome Y) → Outcome Y
  panic >>= next = panic
  err failure >>= next = err failure
  ok x >>= next = next x

  -- A result that is a value comes from a value of the first part.
  pub >>=-eq-ok :
      (first : Outcome X) (next : X → Outcome Y) {y : Y}
      → (first >>= next) ≡ ok y
      → (x : X) × (first ≡ ok x) × (next x ≡ ok y)
  >>=-eq-ok panic next e = cc
  >>=-eq-ok (err failure) next e = cc
  >>=-eq-ok (ok x) next e = (x, refl, e)

infixl 5 ◌>>◌
abbrev pub ◌>>◌ {ℓ} : {Y : Type ℓ} → Outcome (Unit {0}) → Outcome Y → Outcome Y
check >> rest = check >>= λ _. rest

-- `if refused { return e }`.
abbrev pub refuse_if : Bool → Error → Outcome (Unit {0})
refuse_if true e = err e
refuse_if false e = ok tt

pub ok-injective {ℓ} : {A : Type ℓ} (a b : A) → ok a ≡ ok b → a ≡ b
ok-injective a b h = cc

pub done-injective : {A : Type 0} (a b : A) → done a ≡ done b → a ≡ b
done-injective a b h = cc

pub err-ne-ok {ℓ} : {A : Type ℓ} (e : Error) (a : A) → err e ≢ ok a
err-ne-ok e a h = cc

pub refuse_if-eq-ok : (b : Bool) (e : Error) → refuse_if b e ≡ ok tt → b ≡ false
refuse_if-eq-ok true e h = cc
refuse_if-eq-ok false e h = refl

-- A guard and what follows it.
pub guard-eq-ok {ℓ} :
    {A : Type ℓ} (b : Bool) (e : Error) (m : Outcome A) (a : A)
    → (refuse_if b e >> m) ≡ ok a
    → (b ≡ false) × (m ≡ ok a)
guard-eq-ok true e m a h = cc
guard-eq-ok false e m a h = (refl, h)

-- What holds of the error, if there is one.
abbrev pub Errs {ℓ} : {A : Type ℓ} → (Error → Type 0) → Outcome A → Type 0
Errs P (ok a) = Unit
Errs P (err e) = P e
Errs P panic = Unit

module _ {ℓ κ} {X : Type ℓ} {Y : Type κ} (P : Error → Type 0) where
  pub Errs-bind :
      (r : Outcome X) (f : X → Outcome Y) → Errs P r → ((x : X) → Errs P (f x)) → Errs P (r >>= f)
  Errs-bind (ok x) f h k = k x
  Errs-bind (err e) f h k = h
  Errs-bind panic f h k = tt
