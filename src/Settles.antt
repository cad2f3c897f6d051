-- ===== src/Settles.antt =====
-- Computations that do not panic, and fail only if failing is allowed: `E` is `Unit` where it is, and
-- `⊥` where it is not.
use secrets_store_csi_driver.Prelude.{◌≡◌, ◌≢◌, refl, Option, none, some, Bool, true, false}
use secrets_store_csi_driver.Outcome.{
  Outcome, ok, err, panic, Error, Failure, Reply, done, failed, refuse_if, ◌>>=◌,
}
use secrets_store_csi_driver.Exec.{Exec, reply, wrapped, continue}

abbrev pub Settles {ℓ} : {A : Type ℓ} → Type 0 → Outcome A → Type 0
Settles E (ok a) = Unit
Settles E (err e) = E
Settles E panic = ⊥

-- What outside code answers: a value with the property, or a failure if that is allowed.
abbrev pub Replies : {A : Type 0} → Type 0 → (A → Type 0) → Reply A → Type 0
Replies E P (done a) = P a
Replies E P (failed f) = E

-- The same with what is known of the value.
abbrev pub Gives : {A : Type 0} → Type 0 → (A → Type 0) → Outcome A → Type 0
Gives E P (ok a) = P a
Gives E P (err e) = E
Gives E P panic = ⊥

-- The pointer is not nil.
abbrev pub IsSome : {A : Type 0} → Option A → Type 0
IsSome none = ⊥
IsSome (some a) = Unit

abbrev pub IsAnything : {A : Type 0} → A → Type 0
IsAnything a = Unit

-- Where failures are allowed, what settles does not panic; where they are not, it is a value.
pub Settles-ne-panic {ℓ} : {A : Type ℓ} (r : Outcome A) → Settles Unit r → r ≢ panic
Settles-ne-panic (ok a) h q = cc
Settles-ne-panic (err e) h q = cc
Settles-ne-panic panic h q = h

pub Settles-eq-ok {ℓ} : {A : Type ℓ} (r : Outcome A) → Settles ⊥ r → (a : A) × (r ≡ ok a)
Settles-eq-ok (ok a) h = (a, refl)
Settles-eq-ok (err e) h = absurd h
Settles-eq-ok panic h = absurd h

module _ {ℓ κ} {X : Type ℓ} {Y : Type κ} (E : Type 0) where
  pub Settles-bind :
      (r : Outcome X) (f : X → Outcome Y)
      → Settles E r
      → ((x : X) → r ≡ ok x → Settles E (f x))
      → Settles E (r >>= f)
  Settles-bind (ok x) f h k = k x refl
  Settles-bind (err e) f h k = h
  Settles-bind panic f h k = h

module _ {W A B : Type 0} (E : Type 0) where
  pub Settles-continue :
      (r : Outcome A × W) (f : A → Exec W B)
      → Settles E r.0
      → ((a : A) (w : W) → r ≡ (ok a, w) → Settles E (f a w).0)
      → Settles E (continue r f).0
  Settles-continue (ok a, w) f h k = k a w refl
  Settles-continue (err e, w) f h k = h
  Settles-continue (panic, w) f h k = h

  pub Gives-continue :
      (P : A → Type 0) (r : Outcome A × W) (f : A → Exec W B)
      → Gives E P r.0
      → ((a : A) (w : W) → P a → Settles E (f a w).0)
      → Settles E (continue r f).0
  Gives-continue P (ok a, w) f h k = k a w h
  Gives-continue P (err e, w) f h k = h
  Gives-continue P (panic, w) f h k = h

module _ {W A : Type 0} (E : Type 0) where
  pub Gives-reply :
      (P : A → Type 0) (r : Reply A × W) (e : Failure → Error)
      → Replies E P r.0
      → Gives E P (reply r e).0
  Gives-reply P (done a, w) e h = h
  Gives-reply P (failed f, w) e h = h

  pub Settles-reply :
      (P : A → Type 0) (r : Reply A × W) (e : Failure → Error)
      → Replies E P r.0
      → Settles E (reply r e).0
  Settles-reply P (done a, w) e h = tt
  Settles-reply P (failed f, w) e h = h

  pub Settles-wrapped :
      (f : Error → Error) (r : Outcome A × W) → Settles E r.0 → Settles E (wrapped f r).0
  Settles-wrapped f (ok a, w) h = h
  Settles-wrapped f (err e, w) h = h
  Settles-wrapped f (panic, w) h = h

pub Settles-refuse_if :
    (E : Type 0) (b : Bool) (e : Error) → (b ≡ true → E) → Settles E (refuse_if b e)
Settles-refuse_if E true e h = h refl
Settles-refuse_if E false e h = tt
