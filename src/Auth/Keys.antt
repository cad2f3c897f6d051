-- ===== src/Auth/Keys.antt =====
-- The access key in the secrets of a request, in auth/auth.go: the order of the map does not matter.
use mathlib.Core.Bool.{false≢true}
use mathlib.Core.Path.{ap₂}
use secrets_store_csi_driver.Prelude.{
  ℕ, Text, codes, ◌≡◌, refl, sym, subst, ap, ◌∙◌, ◌↔◌, ◌⊎◌, inl, inr, List, [], ◌∷◌, map, In,
  Distinct, false, eq_text, eq_text_iff, Bool-cases, if◌then◌else◌, to_lower,
}
use secrets_store_csi_driver.Auth.Methods.{Entries, access_keys}

module _ (lower : ℕ → ℕ) where
  -- The names of the entries, as the loop compares them.
  abbrev pub names : Entries → List Text
  names m = map (λ (e : Text × Text). to_lower lower e.0) m

  -- The value of the last entry with a name, or the given one.
  last_of : Text → Entries → Text → Text
  last_of name [] d = d
  last_of name ((k, v) ∷ m) d = last_of name m (if eq_text (to_lower lower k) name then v else d)

  two_names : eq_text (codes "access_key") (codes "access_secret") ≡ false
  unfolding eq_text
  two_names = refl

  access_keys-last_of :
      (m : Entries) (ak sk : Text)
      → access_keys lower m (ak, sk)
        ≡ (last_of (codes "access_key") m ak, last_of (codes "access_secret") m sk)
  unfolding access_keys last_of
  access_keys-last_of [] ak sk = refl
  access_keys-last_of ((k, v) ∷ m) ak sk =
      elim (Bool-cases (eq_text (to_lower lower k) (codes "access_key"))) [
        | inl q ↦
            rw
              (
                q,
                ap (λ t. eq_text t (codes "access_secret"))
                      ((eq_text_iff (to_lower lower k) (codes "access_key")).0 q)
                    ∙ two_names,
              )
              (access_keys-last_of m v sk)
        | inr q ↦ elim (Bool-cases (eq_text (to_lower lower k) (codes "access_secret"))) [
          | inl p ↦ rw (q, p) (access_keys-last_of m ak v)
          | inr p ↦ rw (q, p) (access_keys-last_of m ak sk)
        ]
      ]

  last_of-absent :
      (name : Text) (m : Entries) (d : Text) → ¬ In name (names m) → last_of name m d ≡ d
  unfolding last_of
  last_of-absent name [] d h = refl
  last_of-absent name ((k, v) ∷ m) d h = elim (Bool-cases (eq_text (to_lower lower k) name)) [
    | inl q ↦ absurd (h (inl ((eq_text_iff (to_lower lower k) name).0 q)))
    | inr q ↦ rw q (last_of-absent name m d (λ i. h (inr i)))
  ]

  last_of-found :
      (m : Entries) (k v : Text) (d : Text)
      → Distinct (names m)
      → In (k, v) m
      → last_of (to_lower lower k) m d ≡ v
  unfolding last_of
  last_of-found [] k v d h i = elim i [ ]
  last_of-found ((k', v') ∷ m) k v d (fresh, h) (inl e) =
      let same_name : to_lower lower k' ≡ to_lower lower k =
        ap (λ (p : Text × Text). to_lower lower p.0) e in
      rw ((eq_text_iff (to_lower lower k') (to_lower lower k)).1 same_name) (
        last_of-absent (to_lower lower k) m v'
          (λ i. fresh (subst (λ t. In t (names m)) (sym same_name) i))
        ∙ ap (λ (p : Text × Text). p.1) e)
  last_of-found ((k', v') ∷ m) k v d (fresh, h) (inr i) = last_of-found m k v _ h i

  -- A name is absent, or it is that of an entry.
  named :
      (name : Text) (m : Entries)
      → (¬ In name (names m)) ⊎ ((k v : Text) × In (k, v) m × (to_lower lower k ≡ name))
  named name [] = inl (λ i. i)
  named name ((k, v) ∷ m) = elim (Bool-cases (eq_text (to_lower lower k) name)) [
    | inl q ↦ inr (k, v, inl refl, (eq_text_iff (to_lower lower k) name).0 q)
    | inr q ↦ elim (named name m) [
      | inr (k', v', i, e) ↦ inr (k', v', inr i, e)
      | inl n ↦ inl (λ i. elim i [
        | inl e ↦ false≢true (sym q ∙ (eq_text_iff (to_lower lower k) name).1 e)
        | inr j ↦ n j
      ])
    ]
  ]

  names-In : (m : Entries) (k v : Text) → In (k, v) m → In (to_lower lower k) (names m)
  names-In [] k v i = i
  names-In (e ∷ m) k v (inl p) = inl (ap (λ (q : Text × Text). to_lower lower q.0) p)
  names-In (e ∷ m) k v (inr i) = inr (names-In m k v i)

  last_of-same :
      (name : Text) (m m' : Entries) (d : Text)
      → Distinct (names m)
      → Distinct (names m')
      → ((e : Text × Text) → In e m ↔ In e m')
      → last_of name m d ≡ last_of name m' d
  last_of-same name m m' d h h' same = elim (named name m) [
    | inr (k, v, i, e) ↦
        rw (← e) (last_of-found m k v d h i ∙ sym (last_of-found m' k v d h' ((same (k, v)).0 i)))
    | inl n ↦
        last_of-absent name m d n
        ∙ sym (
            last_of-absent name m' d (λ i. elim (named name m') [
              | inl n' ↦ n' i
              | inr (k, v, j, e) ↦ n (rw (← e) (names-In m k v ((same (k, v)).1 j)))
            ]))
  ]

  -- The access key and the secret that `nodePublishSecretAuth` finds do not depend on the order of
  -- the entries, if no two names differ in case only.
  pub access_keys-order :
      (m m' : Entries)
      → Distinct (names m)
      → Distinct (names m')
      → ((e : Text × Text) → In e m ↔ In e m')
      → access_keys lower m ([], []) ≡ access_keys lower m' ([], [])
  access_keys-order m m' h h' same =
      access_keys-last_of m [] []
      ∙ ap₂ (λ a b. (a, b)) (last_of-same _ m m' [] h h' same) (last_of-same _ m m' [] h h' same)
      ∙ sym (access_keys-last_of m' [] [])
