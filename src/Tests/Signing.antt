-- ===== src/Tests/Signing.antt =====
-- The chain of authentication methods at concrete inputs.
use mathlib.Core.Bool.{false≢true}
use secrets_store_csi_driver.Prelude.{
  ℕ, Text, codes, ◌≡◌, ◌≢◌, refl, sym, ap, ◌∙◌, inl, inr, [], ◌∷◌, In, Distinct, some, Bool, true,
  false, if◌then◌else◌, eq_text, eq_text_iff, to_lower, Bool-cases,
}
use secrets_store_csi_driver.Outcome.{Failure, Reply, done, failed}
use secrets_store_csi_driver.Auth.Config.{AuthConfig, pos, auth_config}
use secrets_store_csi_driver.Auth.Methods.{AuthServices, Entries, access_keys, pod_credential}
use secrets_store_csi_driver.Auth.{get_kms_auth_cred}
use secrets_store_csi_driver.Auth.Plan.{plan, carry_out, NeverNil}
use secrets_store_csi_driver.Auth.Choice.{get_kms_auth_cred-plan}
use secrets_store_csi_driver.Auth.TokenFile.{TempFiles, Leaves, pod_credential-Leaves}
use secrets_store_csi_driver.Auth.Decimal.{atoi, positive, negative, unsigned, digits}
use secrets_store_csi_driver.Auth.Keys.{names, access_keys-order}
use secrets_store_csi_driver.Tests.Fixtures.{auth, no_environment, no_pod, throttled}

never_nil : NeverNil auth
never_nil config w e = cc

abbrev config : AuthConfig
config = auth_config no_environment [] no_pod

get_kms_auth_cred-plan_example :
    get_kms_auth_cred auth no_environment [] no_pod 0 ≡ carry_out auth config (plan auth config) 0
get_kms_auth_cred-plan_example = get_kms_auth_cred-plan auth never_nil no_environment [] no_pod 0

-- The world is the set of files, and there is one name for a temporary file.
abbrev World : Type 0
World = Text → Bool

abbrev token_file : Text
token_file = codes "t"

create : Bool → World → Reply Text × World
create true w = (failed throttled, w)
create false w = (done token_file, λ q. if eq_text token_file q then true else w q)

abbrev files_auth : AuthServices World
files_auth = record {
  unmarshal_strings = λ t. done [];
  unmarshal_tokens = λ t. done [];
  create_temp = λ w. create (w token_file) w;
  write_string = λ p t w. (done tt, w);
  close = λ p w. (failed throttled, w);
  remove = λ p w q. if eq_text p q then false else w q;
  new_credential = λ c w. (done (some 7), w);
  unicode_lower = λ c. c;
}

abbrev exists : World → Text → Bool
exists w q = w q

-- The test on a name is about that name alone.
other_name : (p q : Text) (a b : Bool) → q ≢ p → (if eq_text p q then a else b) ≡ b
other_name p q a b n = elim (Bool-cases (eq_text p q)) [
  | inl e ↦ absurd (n (sym ((eq_text_iff p q).0 e)))
  | inr e ↦ rw e refl
]

same_name : (p : Text) (a b : Bool) → (if eq_text p p then a else b) ≡ a
same_name p a b = rw ((eq_text_iff p p).1 refl) refl

name_of : Reply Text → Text
name_of (done p) = p
name_of (failed f) = []

created_file :
    (w w' : World) (path : Text) (taken : Bool)
    → w token_file ≡ taken
    → create taken w ≡ (done path, w')
    → (exists w path ≡ false)
      × (exists w' path ≡ true)
      × ((q : Text) → q ≢ path → exists w' q ≡ exists w q)
unfolding create name_of
created_file w w' path true e h = cc
created_file w w' path false e h =
    let named : token_file ≡ path = ap (λ (r : Reply Text × World). name_of r.0) h in
    let now : (q : Text) → (if eq_text token_file q then true else w q) ≡ w' q =
      λ q. ap (λ (r : Reply Text × World). r.1 q) h in
    (
      rw (← named) e,
      rw (← named) (sym (now token_file) ∙ same_name token_file true (w token_file)),
      λ q n. sym (now q) ∙ other_name token_file q true (w q) (λ k. n (k ∙ named)),
    )

not_created_file :
    (w w' : World) (f : Failure) (taken : Bool)
    → create taken w ≡ (failed f, w')
    → (q : Text) → exists w' q ≡ exists w q
unfolding create
not_created_file w w' f true h q = ap (λ (r : Reply Text × World). r.1 q) (sym h)
not_created_file w w' f false h q = cc

files : TempFiles files_auth exists
files = record {
  created = λ w w' path h. created_file w w' path (w token_file) refl h;
  not_created = λ w w' f h. not_created_file w w' f (w token_file) h;
  wrote = λ p t w q. refl;
  closed = λ p w q. refl;
  removed = λ p w. (same_name p false (w p), λ q n. other_name p q false (w q) n);
  asked = λ c w q. refl;
}

pod_credential-Leaves_example :
    Leaves files_auth exists files
      (λ q. false)
      (pod_credential files_auth config (codes "k") (λ q. false))
pod_credential-Leaves_example =
    pod_credential-Leaves files_auth exists files config (codes "k") (λ q. false)

abbrev two_keys : Entries
two_keys = (codes "access_key", codes "a") ∷ (codes "access_secret", codes "s") ∷ []

abbrev turned : Entries
turned = (codes "access_secret", codes "s") ∷ (codes "access_key", codes "a") ∷ []

abbrev ascii : ℕ → ℕ
ascii c = c

different : codes "access_key" ≢ codes "access_secret"
unfolding eq_text
different e = false≢true ((eq_text_iff (codes "access_key") (codes "access_secret")).1 e)

two_keys-Distinct : Distinct (names ascii two_keys)
unfolding to_lower
two_keys-Distinct = ((λ i. elim i [ inl e ↦ different (sym e) | inr n ↦ n ]), ((λ n. n), tt))

turned-Distinct : Distinct (names ascii turned)
unfolding to_lower
turned-Distinct = ((λ i. elim i [ inl e ↦ different e | inr n ↦ n ]), ((λ n. n), tt))

swapped : {a b e : Text × Text} → In e (a ∷ b ∷ []) → In e (b ∷ a ∷ [])
swapped (inl p) = inr (inl p)
swapped (inr (inl p)) = inl p
swapped (inr (inr n)) = elim n [ ]

access_keys-order_example : access_keys ascii two_keys ([], []) ≡ access_keys ascii turned ([], [])
access_keys-order_example =
    access_keys-order ascii two_keys turned two_keys-Distinct turned-Distinct
      (λ e. (swapped, swapped))

an_hour : atoi (codes "+3600") ≡ some (pos 3600)
unfolding atoi positive negative unsigned digits
an_hour = refl
