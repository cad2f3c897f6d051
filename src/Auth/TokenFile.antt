-- ===== src/Auth/TokenFile.antt =====
-- The temporary file with the token of a pod, in auth/auth.go.
use mathlib.Core.Bool.{false≢true}
use secrets_store_csi_driver.Prelude.{
  Text, ◌≡◌, ◌≢◌, refl, eq_text, eq_text_iff, Bool-cases, ◌⊎◌, inl, inr, sym, ◌∙◌, Option, Bool,
  true, false,
}
use secrets_store_csi_driver.Outcome.{
  Outcome, ok, err, panic, Failure, Reply, done, failed, token_file_create, passed_on,
}
use secrets_store_csi_driver.Exec.{reply, continue, ◌>>◌}
use secrets_store_csi_driver.Auth.Config.{AuthConfig, CredentialConfig, oidc_role_arn, session_name}
use secrets_store_csi_driver.Auth.Methods.{
  AuthServices, Credential, after_close, after_write, write_token, pod_credential, ask,
}

module _ {W : Type 0} (services : AuthServices W) (exists : W → Text → Bool) where
  open services use {create_temp, write_string, close, remove, new_credential}

  -- Two worlds with the same files, but for one.
  abbrev pub SameBut : Text → W → W → Type 0
  SameBut path w w' = (q : Text) → q ≢ path → exists w' q ≡ exists w q

  abbrev pub SameFiles : W → W → Type 0
  SameFiles w w' = (q : Text) → exists w' q ≡ exists w q

  -- What `os.CreateTemp` and `os.Remove` do to the files that exist; nothing else changes which do.
  pub record TempFiles : Type 0 where
    pub created :
        (w w' : W) (path : Text)
        → create_temp w ≡ (done path, w')
        → (exists w path ≡ false) × (exists w' path ≡ true) × SameBut path w w'
    pub not_created : (w w' : W) (f : Failure) → create_temp w ≡ (failed f, w') → SameFiles w w'
    pub wrote : (path token : Text) (w : W) → SameFiles w (write_string path token w).1
    pub closed : (path : Text) (w : W) → SameFiles w (close path w).1
    pub removed :
        (path : Text) (w : W)
        → (exists (remove path w) path ≡ false) × SameBut path w (remove path w)
    pub asked : (config : CredentialConfig) (w : W) → SameFiles w (new_credential config w).1

  -- What is known behind the writing of a file that is there: it is there, or it is gone with an error.
  abbrev Written : Text → W → Outcome (Unit {0}) × W → Type 0
  Written path w (ok _, w') = SameFiles w w'
  Written path w (err e, w') =
      (exists w' path ≡ false) × SameBut path w w' × ((f : Failure) → e ≢ passed_on f)
  Written path w (panic, w') = ⊥

  module _ (files : TempFiles) where
    after_close-Written :
        (path : Text) (w : W) (p : Reply (Unit {0}) × W)
        → SameFiles w p.1
        → Written path w (after_close services path p)
    unfolding after_close
    after_close-Written path w (failed f, w') h =
        let (gone, same) = files.removed path w' in (gone, λ q n. same q n ∙ h q, λ g e. cc)
    after_close-Written path w (done _, w') h = h

    after_write-Written :
        (path : Text) (w : W) (p : Reply (Unit {0}) × W)
        → SameFiles w p.1
        → Written path w (after_write services path p)
    unfolding after_write
    after_write-Written path w (failed f, w') h =
        let (gone, same) = files.removed path (close path w').1 in
        (gone, λ q n. same q n ∙ files.closed path w' q ∙ h q, λ g e. cc)
    after_write-Written path w (done _, w') h =
        after_close-Written path w (close path w') (λ q. files.closed path w' q ∙ h q)

    write_token-Written :
        (path token : Text) (w : W) → Written path w (write_token services path token w)
    unfolding write_token
    write_token-Written path token w =
        after_write-Written path w (write_string path token w) (files.wrote path token w)

    -- There is one file more.
    abbrev pub OneMore : W → W → Type 0
    OneMore w w' =
        (path : Text) × (exists w path ≡ false) × (exists w' path ≡ true) × SameBut path w w'

    -- What is known behind the method: an error before the SDK is asked leaves the files as they were;
    -- behind the SDK, whatever it answers, there is one file more.
    abbrev pub Leaves : W → Outcome (Option Credential) × W → Type 0
    Leaves w (ok cred, w') = OneMore w w'
    Leaves w (err e, w') =
        ((f : Failure) × (e ≡ passed_on f) × OneMore w w')
        ⊎ (((f : Failure) → e ≢ passed_on f) × SameFiles w w')
    Leaves w (panic, w') = ⊥

    reply-Leaves :
        (w : W) (r : Reply (Option Credential) × W) → OneMore w r.1 → Leaves w (reply r passed_on)
    reply-Leaves w (done cred, w') h = h
    reply-Leaves w (failed f, w') h = inl (f, refl, h)

    -- Behind the creation of the file `path`.
    after_create :
        (config : CredentialConfig) (w w' : W) (path : Text) (r : Outcome (Unit {0}) × W)
        → (exists w path ≡ false) × (exists w' path ≡ true) × SameBut path w w'
        → Written path w' r
        → Leaves w (continue r (λ _. ask services config))
    unfolding ask
    after_create config w w' path (ok _, v) (fresh, there, same) h =
        reply-Leaves w (new_credential config v) (
          path,
          fresh,
          files.asked config v path ∙ h path ∙ there,
          λ q n. files.asked config v q ∙ h q ∙ same q n,
        )
    after_create config w w' path (err e, v) (fresh, there, same) (gone, kept, own) =
        inr (own, restored)
      where
        restored : SameFiles w v
        restored q = elim (Bool-cases (eq_text q path)) [
          | inl k ↦ rw ((eq_text_iff q path).0 k) (gone ∙ sym fresh)
          | inr k ↦
              let n = λ (e : q ≡ path). false≢true (sym k ∙ (eq_text_iff q path).1 e) in
              kept q n ∙ same q n
        ]
    after_create config w w' path (panic, v) c h = elim h [ ]

    created-Leaves :
        (c : AuthConfig) (token : Text) (w : W) (r : Reply Text × W)
        → create_temp w ≡ r
        → Leaves w (
            continue (reply r token_file_create) (λ path.
              write_token services path token
              >> ask services
                  (oidc_role_arn c.oidc_arn path c.pod_service_account_role_arn (session_name c))))
    created-Leaves c token w (done path, w') h =
        after_create _ w w' path (write_token services path token w') (files.created w w' path h)
          (write_token-Written path token w')
    created-Leaves c token w (failed f, w') h = inr (λ g e. cc, files.not_created w w' f h)

    -- Where temporary files are created, written and removed as documented, the exchange of a pod's token
    -- does not panic.  If it fails before the SDK is asked, the same files exist as before; once the SDK
    -- is asked, one new file stays behind, whether it makes a credential or an error.
    pub pod_credential-Leaves :
        (c : AuthConfig) (token : Text) (w : W) → Leaves w (pod_credential services c token w)
    unfolding pod_credential
    pod_credential-Leaves c token w = created-Leaves c token w (create_temp w) refl
