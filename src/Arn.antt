-- ===== src/Arn.antt =====
-- utils/arn.go: `ParseARN` and `ARN.string`.
pub mod Split
pub mod Parse
use secrets_store_csi_driver.Prelude.{
  ℕ, zero, suc, Text, codes, colon, ◌≡◌, refl, List, [], ◌∷◌, ◌++◌, ◌==◌, if◌then◌else◌, has_prefix,
  is_empty, not,
}
use secrets_store_csi_driver.Outcome.{
  Outcome, ok, err, Error, invalid_prefix, invalid_sections, refuse_if, ◌>>=◌, ◌>>◌,
}

-- `arnPrefix`
abbrev pub arn_prefix : Text
arn_prefix = codes "acs:"

-- `ARN`
pub record Arn : Type 0 where
  pub partition : Text
  pub service : Text
  pub region : Text
  pub account_id : Text
  pub resource : Text

-- The text before the first colon, put in front of the first part that follows.
abbrev pub push : ℕ → List Text → List Text
push c [] = []
push c (part ∷ parts) = (c ∷ part) ∷ parts

-- `strings.SplitN(s, arnDelimiter, n + 1)`: at most `n` cuts, the last part is the rest.
unfoldable pub split_n : Text → ℕ → List Text
split_n s zero = s ∷ []
split_n [] (suc n) = [] ∷ []
split_n (c ∷ s) (suc n) =
    let next = split_n s n in
    let same = split_n s (suc n) in if c == colon then [] ∷ next else push c same

-- The five sections, if there are as many (`arnSections`).
unfoldable pub of_sections : List Text → Outcome Arn
of_sections (p ∷ s ∷ r ∷ a ∷ x ∷ []) =
    ok (record { partition = p; service = s; region = r; account_id = a; resource = x })
of_sections _ = err invalid_sections

-- `ParseARN`
unfoldable pub parse_arn : Text → Outcome Arn
parse_arn arn = do
  refuse_if (not (has_prefix arn arn_prefix)) invalid_prefix
  of_sections (split_n arn 4)

-- `ARN.string`
unfoldable pub string : Arn → Text
string arn =
    if is_empty arn.partition
    then []
    else arn.partition
      ++ (colon ∷ arn.service
          ++ (colon ∷ arn.region ++ (colon ∷ arn.account_id ++ (colon ∷ arn.resource))))
