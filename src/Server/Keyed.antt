-- ===== src/Server/Keyed.antt =====
-- The `sync.Map`s of a mount request in server/server.go, by key, each used by that request alone.
use secrets_store_csi_driver.Prelude.{
  Text, List, [], ◌∷◌, Option, none, some, ◌≡◌, refl, if◌then◌else◌, eq_text, eq_text_iff, arith,
}

abbrev pub Keyed : Type 0 → Type 0
Keyed A = List (Text × A)

module _ {A : Type 0} where
  -- `Load`
  unfoldable pub load : Text → Keyed A → Option A
  load key [] = none
  load key ((k, a) ∷ m) = if eq_text k key then some a else load key m

  -- `Store`
  unfoldable pub store : Text → A → Keyed A → Keyed A
  store key a [] = (key, a) ∷ []
  store key a ((k, b) ∷ m) = if eq_text k key then (key, a) ∷ m else (k, b) ∷ store key a m

  pub load-store :
      (key other : Text) (a : A) (m : Keyed A)
      → load other (store key a m) ≡ (if eq_text key other then some a else load other m)
  unfolding load store
  load-store key other a [] = refl
  load-store key other a ((k, b) ∷ m) = ground (
    arith,
    eq_text_iff key other,
    eq_text_iff k key,
    eq_text_iff k other,
    load-store key other a m,
  )
