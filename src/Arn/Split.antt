-- ===== src/Arn/Split.antt =====
-- `strings.SplitN` at colons: the parts spell the text, and a text that is put together is cut.
use Prim.Native.Nat.{min}
use native.Mathlib.Decide.{ℕ_discrete}
use secrets_store_csi_driver.Prelude.{
  ℕ, zero, suc, Text, colon, ◌≡◌, ◌≢◌, ◌∙◌, refl, ap, List, [], ◌∷◌, ◌++◌, Lacks, occurrences,
  arith, length,
}
use secrets_store_csi_driver.Arn.{split_n, push}

split_n-colon : (s : Text) (n : ℕ) → split_n (colon ∷ s) (suc n) ≡ [] ∷ split_n s n
unfolding split_n
split_n-colon s n = ground arith

split_n_other :
    (c : ℕ) (s : Text) (n : ℕ) → c ≢ colon → split_n (c ∷ s) (suc n) ≡ push c (split_n s (suc n))
unfolding split_n
split_n_other c s n h = ground arith

-- The parts with a colon between two of them.
abbrev pub join : List Text → Text
join [] = []
join (p ∷ []) = p
join (p ∷ q ∷ ps) = p ++ (colon ∷ join (q ∷ ps))

-- All parts but the last have no colon.
abbrev pub Cut : List Text → Type 0
Cut [] = ⊥
Cut (p ∷ []) = Unit
Cut (p ∷ q ∷ ps) = Lacks colon p × Cut (q ∷ ps)

join-push : (c : ℕ) (ps : List Text) → Cut ps → join (push c ps) ≡ c ∷ join ps
join-push c [] h = elim h [ ]
join-push c (p ∷ []) h = refl
join-push c (p ∷ q ∷ ps) h = refl

Cut-push : (c : ℕ) (ps : List Text) → c ≢ colon → Cut ps → Cut (push c ps)
Cut-push c [] n h = h
Cut-push c (p ∷ []) n h = tt
Cut-push c (p ∷ q ∷ ps) n (l, h) = ((n, l), h)

Cut-cons : (ps : List Text) → Cut ps → Cut ([] ∷ ps)
Cut-cons [] h = elim h [ ]
Cut-cons (p ∷ ps) h = (tt, h)

join-cons : (ps : List Text) → Cut ps → join ([] ∷ ps) ≡ colon ∷ join ps
join-cons [] h = elim h [ ]
join-cons (p ∷ ps) h = refl

pub split_n-Cut : (s : Text) (n : ℕ) → Cut (split_n s n)
split_n-Cut s zero = unfold split_n in tt
split_n-Cut [] (suc n) = unfold split_n in tt
split_n-Cut (c ∷ s) (suc n) = elim (ℕ_discrete c colon) [
  | yes e ↦ rw (e, split_n-colon s n) (Cut-cons (split_n s n) (split_n-Cut s n))
  | no h ↦ rw (split_n_other c s n h) (Cut-push c (split_n s (suc n)) h (split_n-Cut s (suc n)))
]

pub join-split_n : (s : Text) (n : ℕ) → join (split_n s n) ≡ s
join-split_n s zero = unfold split_n in refl
join-split_n [] (suc n) = unfold split_n in refl
join-split_n (c ∷ s) (suc n) = elim (ℕ_discrete c colon) [
  | yes e ↦ rw (e, split_n-colon s n, join-cons (split_n s n) (split_n-Cut s n), join-split_n s n)
  | no h ↦ rw (
    split_n_other c s n h,
    join-push c (split_n s (suc n)) (split_n-Cut s (suc n)),
    join-split_n s (suc n),
  )
]

-- A part with no colon is cut off at the colon behind it.
pub split_n-append :
    (p rest : Text) (n : ℕ)
    → Lacks colon p
    → split_n (p ++ (colon ∷ rest)) (suc n) ≡ p ∷ split_n rest n
split_n-append [] rest n h = split_n-colon rest n
split_n-append (c ∷ p) rest n (d, h) =
    split_n_other c (p ++ (colon ∷ rest)) n d ∙ ap (push c) (split_n-append p rest n h)

length-push : (c : ℕ) (ps : List Text) → length (push c ps) ≡ length ps
length-push c [] = refl
length-push c (p ∷ ps) = refl

occurrences_self : (c : ℕ) (s : Text) → occurrences c (c ∷ s) ≡ suc (occurrences c s)
unfolding occurrences
occurrences_self c s = ground arith

occurrences_other : (c d : ℕ) (s : Text) → d ≢ c → occurrences c (d ∷ s) ≡ occurrences c s
unfolding occurrences
occurrences_other c d s h = ground arith

-- There is a part for each colon up to the limit, and one more.
pub length-split_n : (s : Text) (n : ℕ) → length (split_n s n) ≡ suc (min n (occurrences colon s))
length-split_n s zero = unfold split_n in omega arith
length-split_n [] (suc n) = unfold split_n occurrences in omega arith
length-split_n (c ∷ s) (suc n) = elim (ℕ_discrete c colon) [
  | yes e ↦ rw (e, split_n-colon s n, occurrences_self colon s) (omega (arith, length-split_n s n))
  | no h ↦
      rw (split_n_other c s n h, length-push, occurrences_other colon c s h)
        (length-split_n s (suc n))
]
