-- ===== src/Arn/Parse.antt =====
-- `ParseARN` against the printed form, both ways, and exactly when it fails.
use native.Mathlib.Decide.{dec_lt}
use secrets_store_csi_driver.Prelude.{
  suc, ◌≤◌, ◌<◌, Text, codes, colon, ◌≡◌, refl, ap, ◌∙◌, sym, List, [], ◌∷◌, ◌++◌, Lacks,
  occurrences, has_prefix, has_prefix-split, arith, length, true, false, ◌⊎◌, inl, inr, Bool-cases,
}
use secrets_store_csi_driver.Outcome.{
  ok, err, invalid_prefix, invalid_sections, ok-injective, err-ne-ok,
}
use secrets_store_csi_driver.Arn.{Arn, arn_prefix, parse_arn, of_sections, split_n, string}
use secrets_store_csi_driver.Arn.Split.{
  Cut, join, split_n-Cut, join-split_n, split_n-append, length-split_n,
}

-- The fields that a colon ends have none.
pub record IsCanonical (a : Arn) : Type 0 where
  pub partition : a.partition ≡ codes "acs"
  pub service : Lacks colon a.service
  pub region : Lacks colon a.region
  pub account_id : Lacks colon a.account_id

-- Behind the prefix, what is cut into four parts.
parse_arn-prefix :
    (t : Text) → parse_arn (arn_prefix ++ t) ≡ of_sections (codes "acs" ∷ split_n t 3)
unfolding parse_arn of_sections has_prefix split_n
parse_arn-prefix t = refl

of_sections-IsCanonical :
    (ps : List Text) (a : Arn)
    → Cut ps
    → of_sections (codes "acs" ∷ ps) ≡ ok a
    → IsCanonical a × (string a ≡ codes "acs:" ++ join ps)
unfolding of_sections string
of_sections-IsCanonical [] a c h = cc
of_sections-IsCanonical (p ∷ []) a c h = cc
of_sections-IsCanonical (p ∷ q ∷ []) a c h = cc
of_sections-IsCanonical (p ∷ q ∷ r ∷ []) a c h = cc
of_sections-IsCanonical (p ∷ q ∷ r ∷ x ∷ []) a (cp, (cq, (cr, _))) h =
    rw (← ok-injective _ a h)
      (record { partition = refl; service = cp; region = cq; account_id = cr }, refl)
of_sections-IsCanonical (p ∷ q ∷ r ∷ x ∷ y ∷ ps) a c h = cc

refused : (s : Text) → has_prefix s arn_prefix ≡ false → parse_arn s ≡ err invalid_prefix
unfolding parse_arn
refused s h = rw h

occurrences-prefix : (t : Text) → occurrences colon (arn_prefix ++ t) ≡ suc (occurrences colon t)
unfolding occurrences
occurrences-prefix t = omega arith

-- `of_sections` wants exactly five.
few_sections :
    (p : Text) (ps : List Text) → length ps < 4 → of_sections (p ∷ ps) ≡ err invalid_sections
unfolding of_sections
few_sections p [] h = refl
few_sections p (q ∷ []) h = refl
few_sections p (q ∷ r ∷ []) h = refl
few_sections p (q ∷ r ∷ x ∷ []) h = refl
few_sections p (q ∷ r ∷ x ∷ y ∷ ps) h = absurd (omega arith)

four_sections :
    (p : Text) (ps : List Text) → length ps ≡ 4 → (a : Arn) × (of_sections (p ∷ ps) ≡ ok a)
unfolding of_sections
four_sections p [] h = absurd (omega arith)
four_sections p (q ∷ []) h = absurd (omega arith)
four_sections p (q ∷ r ∷ []) h = absurd (omega arith)
four_sections p (q ∷ r ∷ x ∷ []) h = absurd (omega arith)
four_sections p (q ∷ r ∷ x ∷ y ∷ []) h = (_, refl)
four_sections p (q ∷ r ∷ x ∷ y ∷ z ∷ ps) h = absurd (omega arith)

parse_arn-fields :
    (service region account_id resource : Text)
    → Lacks colon service
    → Lacks colon region
    → Lacks colon account_id
    → parse_arn (
        arn_prefix
        ++ (service ++ (colon ∷ (region ++ (colon ∷ (account_id ++ (colon ∷ resource)))))))
      ≡ ok (record {
        partition = codes "acs";
        service = service;
        region = region;
        account_id = account_id;
        resource = resource;
      })
parse_arn-fields service region account_id resource cs cr ca =
    rw
      (
        parse_arn-prefix,
        split_n-append service _ 2 cs,
        split_n-append region _ 1 cr,
        split_n-append account_id _ 0 ca,
      )
      (unfold of_sections split_n in refl)

-- An ARN that is parsed prints as the text that it was parsed from, its partition is acs, and no
-- field but the resource holds a colon.
pub string-parse_arn : (s : Text) (a : Arn) → parse_arn s ≡ ok a → IsCanonical a × (string a ≡ s)
string-parse_arn s a h = elim (Bool-cases (has_prefix s arn_prefix)) [
  | inl p ↦
      let (t, e) = has_prefix-split s arn_prefix p in
      let cut = sym (parse_arn-prefix t) ∙ ap parse_arn (sym e) ∙ h in
      let (canonical, printed) = of_sections-IsCanonical (split_n t 3) a (split_n-Cut t 3) cut in
      (canonical, cc (printed, join-split_n t 3, e))
  | inr p ↦ absurd (err-ne-ok _ a (sym (refused s p) ∙ h))
]

-- Every ARN with partition acs whose service, region and account hold no colon is parsed to itself
-- from its printed form, whatever its resource is.
pub parse_arn-string : (a : Arn) → IsCanonical a → parse_arn (string a) ≡ ok a
parse_arn-string a c = rw named (
    unfold string in
    parse_arn-fields a.service a.region a.account_id a.resource c.service c.region c.account_id)
  where
    named : a ≡ record a { partition = codes "acs" }
    named = λ i. record a { partition = c.partition i }

-- A text without the prefix acs: is refused as such.  A text with the prefix and fewer than four
-- colons is refused for its sections, and any other text is parsed.
pub parse_arn_cases :
    (s : Text)
    → ((has_prefix s arn_prefix ≡ false) × (parse_arn s ≡ err invalid_prefix))
      ⊎ ((has_prefix s arn_prefix ≡ true)
          × (occurrences colon s < 4)
          × (parse_arn s ≡ err invalid_sections))
      ⊎ ((has_prefix s arn_prefix ≡ true)
          × (4 ≤ occurrences colon s)
          × ((a : Arn) × (parse_arn s ≡ ok a)))
parse_arn_cases s = elim (Bool-cases (has_prefix s arn_prefix)) [
  | inr p ↦ inl (p, refused s p)
  | inl p ↦
      let (t, e) = has_prefix-split s arn_prefix p in
      let parts = length-split_n t 3 in
      let parsed = ap parse_arn e ∙ parse_arn-prefix t in
      let colons = ap (occurrences colon) e ∙ occurrences-prefix t in
      elim (dec_lt (occurrences colon t) 3) [
        | yes few ↦
            inr (
              inl (p, omega arith, parsed ∙ few_sections (codes "acs") (split_n t 3) (omega arith)))
        | no many ↦
            let (a, done) = four_sections (codes "acs") (split_n t 3) (omega arith) in
            inr (inr (p, omega arith, (a, parsed ∙ done)))
      ]
]
