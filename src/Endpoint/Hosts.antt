-- ===== src/Endpoint/Hosts.antt =====
-- Which endpoints `validateKmsEndpoint` accepts.
use mathlib.Core.Bool.{false≢true}
use secrets_store_csi_driver.Prelude.{
  Text, codes, [], ◌++◌, ◌≡◌, ◌≢◌, refl, ap, sym, ◌∙◌, ◌⊎◌, inl, inr, true, ◌↔◌, append-nil, All,
  Bool-cases, trim_space,
}
use secrets_store_csi_driver.Regex.{
  Regex, full_match, is_label_char, literal, epsilon, seq, alt, optional,
}
use secrets_store_csi_driver.Regex.Language.{Lang, full_match_iff, literal-Lang, plus-Lang}
use secrets_store_csi_driver.Outcome.{ok, err, endpoint_refused}
use secrets_store_csi_driver.Endpoint.{kms_endpoint_re, label_re, validate_kms_endpoint}

-- A DNS label of the pattern: not empty, lower-case letters, digits and dashes.
abbrev pub IsLabel : Text → Type 0
IsLabel l = (l ≢ []) × All (λ c. is_label_char c ≡ true) l

-- The three documented forms of a KMS host.
abbrev pub IsKmsHost : Text → Type 0
IsKmsHost host =
    (label : Text) × IsLabel label
    × ((host ≡ codes "kms." ++ (label ++ codes ".aliyuncs.com"))
        ⊎ (host ≡ codes "kms-vpc." ++ (label ++ codes ".aliyuncs.com"))
        ⊎ (host ≡ label ++ codes ".cryptoservice.kms.aliyuncs.com"))

-- A literal at the end of a pattern.
ending : (p s : Text) → Lang (literal p epsilon) s → s ≡ p
ending p s h =
    let (t, e, f) = (literal-Lang p epsilon s).0 h in e ∙ ap (λ u. p ++ u) f ∙ append-nil p

ends : (p s : Text) → s ≡ p → Lang (literal p epsilon) s
ends p s e = (literal-Lang p epsilon s).1 ([], e ∙ sym (append-nil p), refl)

-- A label and a literal end.
Lang-IsLabel :
    (a s : Text)
    → Lang (seq label_re (literal a epsilon)) s ↔ ((l : Text) × IsLabel l × (s ≡ l ++ a))
unfolding label_re
Lang-IsLabel a s = (
  λ (u, v, hu, hv, e). (u, (plus-Lang is_label_char u).0 hu, rw (e, ending a v hv)),
  λ (l, hl, e). (l, a, (plus-Lang is_label_char l).1 hl, ends a a refl, e),
)

-- The pattern with its literals as variables.
module _ (k v d a c : Text) where
  Forms : Text → Type 0
  Forms s =
      (l : Text) × IsLabel l
      × ((s ≡ k ++ (d ++ (l ++ a))) ⊎ (s ≡ k ++ (v ++ (d ++ (l ++ a)))) ⊎ (s ≡ l ++ c))

  gateway : Regex
  gateway = literal d (seq label_re (literal a epsilon))

  Lang-gateway : (s : Text) → Lang gateway s ↔ ((l : Text) × IsLabel l × (s ≡ d ++ (l ++ a)))
  unfolding gateway
  Lang-gateway s = (
    λ h.
        let (t, e, ht) = (literal-Lang d (seq label_re (literal a epsilon)) s).0 h in
        let (l, hl, f) = (Lang-IsLabel a t).0 ht in (l, hl, e ∙ ap (λ u. d ++ u) f),
    λ (l, hl, e).
        (literal-Lang d (seq label_re (literal a epsilon)) s).1
          (l ++ a, e, (Lang-IsLabel a (l ++ a)).1 (l, hl, refl)),
  )

  Lang-Forms :
      (s : Text)
      → Lang
          (alt
            (literal k (seq (optional (literal v epsilon)) gateway))
            (seq label_re (literal c epsilon)))
          s
      → Forms s
  unfolding Forms
  Lang-Forms s (inl h) =
      let (t, e, (u, w, hu, hw, f)) =
        (literal-Lang k (seq (optional (literal v epsilon)) gateway) s).0 h in
      let (l, hl, g) = (Lang-gateway w).0 hw in (l, hl, prefixed l u hu (rw (e, f, g)))
    where
      prefixed :
          (l u : Text)
          → Lang (optional (literal v epsilon)) u
          → s ≡ k ++ (u ++ (d ++ (l ++ a)))
          → (s ≡ k ++ (d ++ (l ++ a))) ⊎ (s ≡ k ++ (v ++ (d ++ (l ++ a)))) ⊎ (s ≡ l ++ c)
      prefixed l u (inl x) q = inr (inl (rw (← ending v u x) q))
      prefixed l u (inr x) q = inl (rw x at q)
  Lang-Forms s (inr h) = let (l, hl, e) = (Lang-IsLabel c s).0 h in (l, hl, inr (inr e))

  Forms-Lang :
      (s : Text)
      → Forms s
      → Lang
          (alt
            (literal k (seq (optional (literal v epsilon)) gateway))
            (seq label_re (literal c epsilon)))
          s
  unfolding Forms
  Forms-Lang s (l, hl, inl e) =
      let w = d ++ (l ++ a) in
      inl (
        (literal-Lang k (seq (optional (literal v epsilon)) gateway) s).1
          (w, e, ([], w, inr refl, (Lang-gateway w).1 (l, hl, refl), refl)))
  Forms-Lang s (l, hl, inr (inl e)) =
      let w = d ++ (l ++ a) in
      inl (
        (literal-Lang k (seq (optional (literal v epsilon)) gateway) s).1
          (v ++ w, e, (v, w, inl (ends v v refl), (Lang-gateway w).1 (l, hl, refl), refl)))
  Forms-Lang s (l, hl, inr (inr e)) = inr ((Lang-IsLabel c s).1 (l, hl, e))

-- `kmsEndpointRe` matches exactly the three documented forms.
pub kms_endpoint_re_iff : (host : Text) → (full_match kms_endpoint_re host ≡ true) ↔ IsKmsHost host
unfolding kms_endpoint_re Forms gateway
kms_endpoint_re_iff host =
    let forth =
      Lang-Forms (codes "kms") (codes "-vpc") (codes ".") (codes ".aliyuncs.com")
        (codes ".cryptoservice.kms.aliyuncs.com") host in
    let back =
      Forms-Lang (codes "kms") (codes "-vpc") (codes ".") (codes ".aliyuncs.com")
        (codes ".cryptoservice.kms.aliyuncs.com") host in
    let decides = full_match_iff kms_endpoint_re host in
    (λ h. forth (decides.0 h), λ h. decides.1 (back h))

-- An endpoint is accepted exactly when it is, without the white space around it, one of the three
-- documented hosts; every other one is refused by name.
pub validate_kms_endpoint_cases :
    (endpoint : Text)
    → ((validate_kms_endpoint endpoint ≡ ok tt) × IsKmsHost (trim_space endpoint))
      ⊎ ((validate_kms_endpoint endpoint ≡ err (endpoint_refused endpoint))
          × ¬ IsKmsHost (trim_space endpoint))
validate_kms_endpoint_cases endpoint =
    let host = trim_space endpoint in
    elim (Bool-cases (full_match kms_endpoint_re host)) [
      | inl m ↦ inl (unfold validate_kms_endpoint in rw m, (kms_endpoint_re_iff host).0 m)
      | inr m ↦ inr (
        unfold validate_kms_endpoint in rw m,
        λ h. false≢true (sym m ∙ (kms_endpoint_re_iff host).1 h),
      )
    ]
