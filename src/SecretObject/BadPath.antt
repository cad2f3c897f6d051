-- ===== src/SecretObject/BadPath.antt =====
-- What the pattern of bad paths matches, and what it lets through.
use mathlib.Core.Bool.{false≢true}
use secrets_store_csi_driver.Prelude.{
  ℕ, Text, codes, slash, ◌≡◌, ◌≢◌, refl, ap, sym, ◌∙◌, ◌⊎◌, inl, inr, [], ◌∷◌, ◌++◌, true, false,
  ◌↔◌, In,
}
use secrets_store_csi_driver.Regex.{Regex, epsilon, seq, full_match, literal, anything, is_dot}
use secrets_store_csi_driver.Regex.Language.{Lang, full_match_iff, literal-Lang, Lang-anything}
use secrets_store_csi_driver.FilePath.{elements, dot_dot}
use secrets_store_csi_driver.FilePath.Elements.{Stands, elements-Stands}
use secrets_store_csi_driver.SecretObject.Validation.{two_dots, bad_path_re}

-- Two characters that the pattern's dots stand for.
abbrev pub AreDots : ℕ → ℕ → Type 0
AreDots a b = (is_dot a ≡ true) × (is_dot b ≡ true)

-- A directory of two characters, in the middle, in front or at the end.
abbrev pub HasPair : Text → Type 0
HasPair s =
    ((u : Text) × (a : ℕ) × (b : ℕ) × (t : Text) × AreDots a b
      × (s ≡ u ++ (slash ∷ a ∷ b ∷ slash ∷ t)))
    ⊎ ((a : ℕ) × (b : ℕ) × (t : Text) × AreDots a b × (s ≡ a ∷ b ∷ slash ∷ t))
    ⊎ ((u : Text) × (a : ℕ) × (b : ℕ) × AreDots a b × (s ≡ u ++ (slash ∷ a ∷ b ∷ [])))

two_dots-Lang :
    (r : Regex) (s : Text)
    → Lang (two_dots r) s
      ↔ ((a : ℕ) × (b : ℕ) × (t : Text) × AreDots a b × (s ≡ a ∷ b ∷ t) × Lang r t)
unfolding two_dots
two_dots-Lang r s = (
  λ (u, v, (a, ha, e), (w, t, (b, hb, f), ht, g), h). (a, b, t, (ha, hb), cc, ht),
  λ (a, b, t, (ha, hb), e, ht).
      (a ∷ [], b ∷ t, (a, ha, refl), (b ∷ [], t, (b, hb, refl), ht, refl), e),
)

-- A slash in front.
slash-Lang :
    (r : Regex) (s : Text)
    → Lang (literal (codes "/") r) s ↔ ((t : Text) × (s ≡ slash ∷ t) × Lang r t)
slash-Lang r s = literal-Lang (codes "/") r s

-- `../` in front.
front-Lang :
    (s : Text)
    → Lang (two_dots (literal (codes "/") anything)) s
      ↔ ((a : ℕ) × (b : ℕ) × (t : Text) × AreDots a b × (s ≡ a ∷ b ∷ slash ∷ t))
front-Lang s = (
  λ h.
      let (a, b, t, d, e, ht) = (two_dots-Lang (literal (codes "/") anything) s).0 h in
      let (v, f, _) = (slash-Lang anything t).0 ht in
      (a, b, v, d, e ∙ ap (λ (w : Text). a ∷ b ∷ w) f),
  λ (a, b, t, d, e).
      (two_dots-Lang (literal (codes "/") anything) s).1
        (a, b, slash ∷ t, d, e, (slash-Lang anything (slash ∷ t)).1 (t, refl, Lang-anything t)),
)

-- A part of the pattern behind a slash, anywhere.
behind-Lang :
    (r : Regex) (s : Text)
    → Lang (seq anything (literal (codes "/") r)) s
      ↔ ((u : Text) × (t : Text) × (s ≡ u ++ (slash ∷ t)) × Lang r t)
behind-Lang r s = (
  λ (u, v, _, hv, e).
      let (t, f, ht) = (slash-Lang r v).0 hv in (u, t, e ∙ ap (λ (w : Text). u ++ w) f, ht),
  λ (u, t, e, ht). (u, slash ∷ t, Lang-anything u, (slash-Lang r (slash ∷ t)).1 (t, refl, ht), e),
)

Lang-HasPair : (s : Text) → Lang bad_path_re s → HasPair s
unfolding bad_path_re
Lang-HasPair s (inl h) =
    let (u, t, e, ht) = (behind-Lang (two_dots (literal (codes "/") anything)) s).0 h in
    let (a, b, v, d, f) = (front-Lang t).0 ht in
    inl (u, a, b, v, d, e ∙ ap (λ (w : Text). u ++ (slash ∷ w)) f)
Lang-HasPair s (inr (inl h)) = inr (inl ((front-Lang s).0 h))
Lang-HasPair s (inr (inr h)) =
    let (u, t, e, ht) = (behind-Lang (two_dots epsilon) s).0 h in
    let (a, b, v, d, f, g) = (two_dots-Lang epsilon t).0 ht in
    inr (
      inr
        (u, a, b, d, e ∙ ap (λ (w : Text). u ++ (slash ∷ w)) (f ∙ ap (λ (w : Text). a ∷ b ∷ w) g)))

HasPair-Lang : (s : Text) → HasPair s → Lang bad_path_re s
unfolding bad_path_re
HasPair-Lang s (inl (u, a, b, t, d, e)) = inl (
    (behind-Lang (two_dots (literal (codes "/") anything)) s).1
      (u, a ∷ b ∷ slash ∷ t, e, (front-Lang (a ∷ b ∷ slash ∷ t)).1 (a, b, t, d, refl)))
HasPair-Lang s (inr (inl h)) = inr (inl ((front-Lang s).1 h))
HasPair-Lang s (inr (inr (u, a, b, d, e))) = inr (
    inr (
      (behind-Lang (two_dots epsilon) s).1
        (u, a ∷ b ∷ [], e, (two_dots-Lang epsilon (a ∷ b ∷ [])).1 (a, b, [], d, refl, refl))))

-- `badPathRE` finds exactly the paths with a directory, or a last element behind a slash, of two
-- characters that are no newlines.
pub bad_path_re_iff : (s : Text) → (full_match bad_path_re s ≡ true) ↔ HasPair s
bad_path_re_iff s =
    let decides = full_match_iff bad_path_re s in
    (λ h. Lang-HasPair s (decides.0 h), λ h. decides.1 (HasPair-Lang s h))

-- A path that the pattern lets through has no element `..`, unless it is `..` itself.
pub dot_dot-refused :
    (s : Text) → full_match bad_path_re s ≡ false → s ≢ dot_dot → ¬ (In dot_dot (elements s))
dot_dot-refused s no_match n h = stands (elements-Stands dot_dot s h)
  where
    no_pair : ¬ HasPair s
    no_pair p = false≢true (sym no_match ∙ (bad_path_re_iff s).1 p)

    dots : AreDots b'.' b'.'
    dots = unfold is_dot in (refl, refl)

    stands : ¬ Stands dot_dot s
    stands (inl e) = n e
    stands (inr (inl (t, e))) = no_pair (inr (inl (b'.', b'.', t, dots, e)))
    stands (inr (inr (inl (u, e)))) = no_pair (inr (inr (u, b'.', b'.', dots, e)))
    stands (inr (inr (inr (u, t, e)))) = no_pair (inl (u, b'.', b'.', t, dots, e))
