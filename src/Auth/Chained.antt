-- ===== src/Auth/Chained.antt =====
-- auth/auth.go: a chain of methods settles if its methods do and the last one gives a credential.
use secrets_store_csi_driver.Prelude.{◌≡◌, refl, List, [], ◌∷◌, ◌++◌, All, Option, none, some}
use secrets_store_csi_driver.Outcome.{Outcome, ok, err, panic}
use secrets_store_csi_driver.Exec.{Exec}
use secrets_store_csi_driver.Settles.{Settles, Gives}
use secrets_store_csi_driver.Auth.Methods.{Credential}
use secrets_store_csi_driver.Auth.{or_next, new_credential_of}

-- A credential, or nil if the lack of one is allowed.
abbrev pub HasCredential : Type 0 → Option Credential → Type 0
HasCredential E c = c ≡ none → E

module _ {W : Type 0} (E : Type 0) where
  or_next-Settles :
      (rest : Exec W Credential) (p : Outcome (Option Credential) × W)
      → Settles E p.0
      → ((w : W) → Settles E (rest w).0)
      → Settles E (or_next rest p).0
  unfolding or_next
  or_next-Settles rest (ok none, w) h k = k w
  or_next-Settles rest (ok (some c), w) h k = tt
  or_next-Settles rest (err e, w) h k = h
  or_next-Settles rest (panic, w) h k = h

  last-Settles :
      (p : Outcome (Option Credential) × W)
      → Gives E (HasCredential E) p.0
      → Settles E (or_next (new_credential_of []) p).0
  unfolding or_next new_credential_of
  last-Settles (ok none, w) h = h refl
  last-Settles (ok (some c), w) h = tt
  last-Settles (err e, w) h = h
  last-Settles (panic, w) h = h

  abbrev pub AlwaysSettles : Exec W (Option Credential) → Type 0
  AlwaysSettles m = (w : W) → Settles E (m w).0

  -- The chain settles if its links do and the last one gives a credential.
  pub new_credential_of-Settles :
      (ms : List (Exec W (Option Credential))) (last : Exec W (Option Credential)) (w : W)
      → All AlwaysSettles ms
      → ((w : W) → Gives E (HasCredential E) (last w).0)
      → Settles E (new_credential_of (ms ++ last ∷ []) w).0
  unfolding new_credential_of
  new_credential_of-Settles [] last w h k = last-Settles (last w) (k w)
  new_credential_of-Settles (m ∷ ms) last w (h, hs) k =
      or_next-Settles (new_credential_of (ms ++ last ∷ [])) (m w) (h w)
        (λ w'. new_credential_of-Settles ms last w' hs k)
