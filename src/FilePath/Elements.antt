-- ===== src/FilePath/Elements.antt =====
-- The elements of a path, and that a path whose elements do not go back stays below its directory.
use native.Mathlib.Decide.{ℕ_discrete}
use secrets_store_csi_driver.Prelude.{
  ℕ, Text, slash, ◌≡◌, ◌≢◌, refl, ap, sym, ◌∙◌, ◌⊎◌, inl, inr, List, [], ◌∷◌, ◌++◌, append_assoc,
  In, arith,
}
use secrets_store_csi_driver.FilePath.{push, elements, join_elements}

pub elements-slash : (s : Text) → elements (slash ∷ s) ≡ [] ∷ elements s
unfolding elements
elements-slash s = ground arith

pub elements_other : (c : ℕ) (s : Text) → c ≢ slash → elements (c ∷ s) ≡ push c (elements s)
unfolding elements
elements_other c s h = ground arith

pub elements-ne-nil : (s : Text) → elements s ≢ []
elements-ne-nil [] h = unfold elements in cc
elements-ne-nil (c ∷ s) h = elim (ℕ_discrete c slash) [
  | yes e ↦ cc (h, ap elements (ap (λ (d : ℕ). d ∷ s) e), elements-slash s)
  | no n ↦ pushed (elements s) (elements-ne-nil s) (sym (elements_other c s n) ∙ h)
]
  where
    pushed : (es : List Text) → es ≢ [] → push c es ≡ [] → ⊥
    pushed [] n e = n refl
    pushed (x ∷ es) n e = cc

join-push : (c : ℕ) (es : List Text) → es ≢ [] → join_elements (push c es) ≡ c ∷ join_elements es
unfolding join_elements
join-push c [] h = absurd (h refl)
join-push c (e ∷ []) h = refl
join-push c (e ∷ f ∷ es) h = refl

join-cons :
    (e : Text) (es : List Text) → es ≢ [] → join_elements (e ∷ es) ≡ e ++ (slash ∷ join_elements es)
unfolding join_elements
join-cons e [] h = absurd (h refl)
join-cons e (f ∷ es) h = refl

-- The elements spell the path.
pub join-elements : (s : Text) → join_elements (elements s) ≡ s
join-elements [] = unfold elements join_elements in refl
join-elements (c ∷ s) = elim (ℕ_discrete c slash) [
  | yes e ↦ rw (e, elements-slash s, join-cons [] (elements s) (elements-ne-nil s), join-elements s)
  | no n ↦ rw (elements_other c s n, join-push c (elements s) (elements-ne-nil s), join-elements s)
]

-- Where an element of a path can stand.
abbrev pub Stands : Text → Text → Type 0
Stands p s =
    (s ≡ p)
    ⊎ ((t : Text) × (s ≡ p ++ (slash ∷ t)))
    ⊎ ((u : Text) × (s ≡ u ++ (slash ∷ p)))
    ⊎ ((u : Text) × (t : Text) × (s ≡ u ++ (slash ∷ (p ++ (slash ∷ t)))))

-- One more element in front.
Stands-cons : (p e s : Text) → Stands p s → Stands p (e ++ (slash ∷ s))
Stands-cons p e s (inl h) = inr (inr (inl (e, rw h)))
Stands-cons p e s (inr (inl (t, h))) = inr (inr (inr (e, t, rw h)))
Stands-cons p e s (inr (inr (inl (u, h)))) =
    inr (inr (inl (e ++ (slash ∷ u), rw h (sym (append_assoc e (slash ∷ u) (slash ∷ p))))))
Stands-cons p e s (inr (inr (inr (u, t, h)))) = inr (
    inr (
      inr (
        e ++ (slash ∷ u),
        t,
        rw h (sym (append_assoc e (slash ∷ u) (slash ∷ (p ++ (slash ∷ t))))),
      )))

In-Stands : (p : Text) (es : List Text) → In p es → Stands p (join_elements es)
unfolding join_elements
In-Stands p [] h = elim h [ ]
In-Stands p (e ∷ []) (inl h) = inl h
In-Stands p (e ∷ []) (inr h) = absurd h
In-Stands p (e ∷ f ∷ es) (inl h) = inr (inl (join_elements (f ∷ es), rw h))
In-Stands p (e ∷ f ∷ es) (inr h) = Stands-cons p e (join_elements (f ∷ es)) (In-Stands p (f ∷ es) h)

pub elements-Stands : (p s : Text) → In p (elements s) → Stands p s
elements-Stands p s h = rw (join-elements s) at (In-Stands p (elements s) h)
