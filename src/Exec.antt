-- ===== src/Exec.antt =====
-- Code that acts on the world outside the program, and may fail or panic. `W` is the state of that
-- world; it stays as it is left behind beside an error too.
use secrets_store_csi_driver.Prelude.{◌≡◌, refl}
use secrets_store_csi_driver.Outcome.{
  Outcome, ok, err, panic, Error, Failure, Reply, done, failed, Errs,
}

abbrev pub Exec {ℓ κ} : Type ℓ → Type κ → Type (ℓ ⊔ κ)
Exec W A = W → Outcome A × W

module _ {W A : Type 0} where
  abbrev pub pure : A → Exec W A
  pure a w = (ok a, w)

  -- A computation with no effect.
  abbrev pub lift : Outcome A → Exec W A
  lift r w = (r, w)

  -- A call of outside code whose failure becomes an error of the program.
  abbrev pub reply : Reply A × W → (Failure → Error) → Outcome A × W
  reply (done a, w) e = (ok a, w)
  reply (failed f, w) e = (err (e f), w)

  -- The error wrapped, `fmt.Errorf("…: %w", err)`.
  abbrev pub wrapped : (Error → Error) → Outcome A × W → Outcome A × W
  wrapped f (ok a, w) = (ok a, w)
  wrapped f (err e, w) = (err (f e), w)
  wrapped f (panic, w) = (panic, w)

module _ {W A B : Type 0} where
  abbrev pub continue : Outcome A × W → (A → Exec W B) → Outcome B × W
  continue (ok a, w) f = f a w
  continue (err e, w) f = (err e, w)
  continue (panic, w) f = (panic, w)

  infixl 5 ◌>>=◌ ◌>>◌
  abbrev pub ◌>>=◌ : Exec W A → (A → Exec W B) → Exec W B
  ◌>>=◌ m f w = continue (m w) f

  abbrev pub ◌>>◌ : Exec W A → Exec W B → Exec W B
  m >> n = m >>= λ _. n

-- What holds of the value and of the world behind it, if there is a value.
abbrev pub Ensures : {W A : Type 0} → (A → W → Type 0) → Outcome A × W → Type 0
Ensures P (ok a, w) = P a w
Ensures P (err e, w) = Unit
Ensures P (panic, w) = Unit

module _ {W A : Type 0} (P : A → W → Type 0) where
  pub Ensures-at : (r : Outcome A × W) (a : A) (w : W) → r ≡ (ok a, w) → Ensures P r → P a w
  Ensures-at r a w e h = rw e at h

  pub Ensures-all : (r : Outcome A × W) → ((a : A) (w : W) → P a w) → Ensures P r
  Ensures-all (ok a, w) h = h a w
  Ensures-all (err e, w) h = tt
  Ensures-all (panic, w) h = tt

  -- A pure step: the equation says what its value is.
  pub Ensures-lift : (r : Outcome A) (w : W) → ((a : A) → r ≡ ok a → P a w) → Ensures P (lift r w)
  Ensures-lift (ok a) w h = h a refl
  Ensures-lift (err e) w h = tt
  Ensures-lift panic w h = tt

module _ {W A B : Type 0} (P : A → W → Type 0) (Q : B → W → Type 0) where
  pub Ensures-bind :
      (r : Outcome A × W) (f : A → Exec W B)
      → Ensures P r
      → ((a : A) (w : W) → P a w → Ensures Q (f a w))
      → Ensures Q (continue r f)
  Ensures-bind (ok a, w) f h k = k a w h
  Ensures-bind (err e, w) f h k = tt
  Ensures-bind (panic, w) f h k = tt

module _ {W A : Type 0} (P Q R : A → W → Type 0) where
  -- Two things that are known, together.
  pub Ensures-both :
      (r : Outcome A × W)
      → ((a : A) (w : W) → P a w → Q a w → R a w)
      → Ensures P r
      → Ensures Q r
      → Ensures R r
  Ensures-both (ok a, w) f p q = f a w p q
  Ensures-both (err e, w) f p q = tt
  Ensures-both (panic, w) f p q = tt

module _ {W A B : Type 0} (P : Error → Type 0) where
  -- The errors of a step and of what follows it.
  pub Errs-continue :
      (r : Outcome A × W) (f : A → Exec W B)
      → Errs P r.0
      → ((a : A) (w : W) → Errs P (f a w).0)
      → Errs P (continue r f).0
  Errs-continue (ok a, w) f h k = k a w
  Errs-continue (err e, w) f h k = h
  Errs-continue (panic, w) f h k = tt

module _ {W A : Type 0} (P : Error → Type 0) where
  pub Errs-reply :
      (r : Reply A × W) (e : Failure → Error) → ((f : Failure) → P (e f)) → Errs P (reply r e).0
  Errs-reply (done a, w) e h = tt
  Errs-reply (failed f, w) e h = h f
