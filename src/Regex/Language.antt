-- ===== src/Regex/Language.antt =====
-- The texts of a pattern, and that `full_match` decides them.
use secrets_store_csi_driver.Prelude.{
  ℕ, zero, suc, Text, [], ◌∷◌, ◌++◌, ◌≡◌, refl, ap, sym, ◌∙◌, ◌⊎◌, inl, inr, Bool, true, false, ◌↔◌,
  arith, length, All, ◌≢◌, Bool-cases, if◌then◌else◌,
}
use secrets_store_csi_driver.Regex.{
  Regex, never, epsilon, chr, seq, alt, star, nullable, derive, full_match, literal, anything, plus,
}

-- `n` texts of `P` behind one another.
abbrev pub Power : (Text → Type 0) → ℕ → Text → Type 0
Power P zero s = s ≡ []
Power P (suc n) s = (u : Text) × (v : Text) × P u × Power P n v × (s ≡ u ++ v)

-- The language of a pattern, as formal languages define it.
abbrev pub Lang : Regex → Text → Type 0
Lang never s = ⊥
Lang epsilon s = s ≡ []
Lang (chr p) s = (c : ℕ) × (p c ≡ true) × (s ≡ c ∷ [])
Lang (seq r q) s = (u : Text) × (v : Text) × Lang r u × Lang q v × (s ≡ u ++ v)
Lang (alt r q) s = Lang r s ⊎ Lang q s
Lang (star r) s = (n : ℕ) × Power (Lang r) n s

nil-ne-cons : (c : ℕ) (s : Text) → ¬ (◌≡◌ {A = Text} [] (c ∷ s))
nil-ne-cons c s e = cc

nullable-Lang : (r : Regex) → nullable r ≡ true → Lang r []
unfolding nullable
nullable-Lang never h = cc
nullable-Lang epsilon h = refl
nullable-Lang (chr p) h = cc
nullable-Lang (seq r q) h =
    ([], [], nullable-Lang r (ground arith), nullable-Lang q (ground arith), refl)
nullable-Lang (alt r q) h = elim (Bool-cases (nullable r)) [
  | inl e ↦ inl (nullable-Lang r e)
  | inr e ↦ inr (nullable-Lang q (ground arith))
]
nullable-Lang (star r) h = (0, refl)

Lang-nullable : (r : Regex) (s : Text) → s ≡ [] → Lang r s → nullable r ≡ true
unfolding nullable
Lang-nullable never s e h = absurd h
Lang-nullable epsilon s e h = refl
Lang-nullable (chr p) s e (c, _, f) = cc
Lang-nullable (seq r q) s e ([], v, hr, hq, f) =
    let a = Lang-nullable r [] refl hr in let b = Lang-nullable q v (sym f ∙ e) hq in ground arith
Lang-nullable (seq r q) s e (c ∷ u, v, hr, hq, f) = cc
Lang-nullable (alt r q) s e (inl h) = let a = Lang-nullable r s e h in ground arith
Lang-nullable (alt r q) s e (inr h) = let a = Lang-nullable q s e h in ground arith
Lang-nullable (star r) s e h = refl

-- The branch of `derive (seq r q) c` in which `r` matches nothing.
if_nullable-Lang :
    (b : Bool) (r : Regex) (s : Text) → Lang (if b then r else never) s → (b ≡ true) × Lang r s
if_nullable-Lang true r s h = (refl, h)
if_nullable-Lang false r s h = absurd h

derive_sound : (r : Regex) (c : ℕ) (s : Text) → Lang (derive r c) s → Lang r (c ∷ s)
unfolding derive
derive_sound never c s h = h
derive_sound epsilon c s h = absurd h
derive_sound (chr p) c s h = elim (Bool-cases (p c)) [
  | inl e ↦ (c, e, ap (λ (t : Text). c ∷ t) (rw e at h))
  | inr e ↦ absurd (rw e at h)
]
derive_sound (seq r q) c s (inl (u, v, hu, hv, e)) =
    (c ∷ u, v, derive_sound r c u hu, hv, ap (λ (t : Text). c ∷ t) e)
derive_sound (seq r q) c s (inr h) =
    let (n, hq) = if_nullable-Lang (nullable r) (derive q c) s h in
    ([], c ∷ s, nullable-Lang r n, derive_sound q c s hq, refl)
derive_sound (alt r q) c s (inl h) = inl (derive_sound r c s h)
derive_sound (alt r q) c s (inr h) = inr (derive_sound q c s h)
derive_sound (star r) c s (u, v, hu, (n, hv), e) =
    (suc n, (c ∷ u, v, derive_sound r c u hu, hv, ap (λ (t : Text). c ∷ t) e))

-- The first text of a power that is not empty begins with the first character.
star_complete :
    (P D : Text → Type 0) (c : ℕ)
    → ((u t : Text) → t ≡ c ∷ u → P t → D u)
    → (n : ℕ) (s t : Text) → t ≡ c ∷ s
    → Power P n t
    → (u : Text) × (v : Text) × D u × ((m : ℕ) × Power P m v) × (s ≡ u ++ v)
star_complete P D c ih zero s t e h = absurd (nil-ne-cons c s (sym h ∙ e))
star_complete P D c ih (suc n) s t e ([], v, hu, hv, f) =
    star_complete P D c ih n s v (sym f ∙ e) hv
star_complete P D c ih (suc n) s t e (d ∷ u, v, hu, hv, f) =
    (u, v, ih u (d ∷ u) (cc) hu, (n, hv), cc)

derive_complete : (r : Regex) (c : ℕ) (s t : Text) → t ≡ c ∷ s → Lang r t → Lang (derive r c) s
unfolding derive
derive_complete never c s t e h = h
derive_complete epsilon c s t e h = nil-ne-cons c s (sym h ∙ e)
derive_complete (chr p) c s t e (d, q, f) = let same : d ≡ c = cc in rw (ap p (sym same) ∙ q) (cc)
derive_complete (seq r q) c s t e ([], v, hu, hv, f) =
    inr (rw (Lang-nullable r [] refl hu) (derive_complete q c s v (sym f ∙ e) hv))
derive_complete (seq r q) c s t e (d ∷ u, v, hu, hv, f) =
    inl (u, v, derive_complete r c u (d ∷ u) (cc) hu, hv, cc)
derive_complete (alt r q) c s t e (inl h) = inl (derive_complete r c s t e h)
derive_complete (alt r q) c s t e (inr h) = inr (derive_complete q c s t e h)
derive_complete (star r) c s t e (n, h) =
    star_complete (Lang r) (Lang (derive r c)) c (derive_complete r c) n s t e h

-- A text is matched exactly when it is in the language of the pattern.
pub full_match_iff : (r : Regex) (s : Text) → (full_match r s ≡ true) ↔ Lang r s
unfolding full_match
full_match_iff r [] = (nullable-Lang r, Lang-nullable r [] refl)
full_match_iff r (c ∷ s) = (
  λ h. derive_sound r c s ((full_match_iff (derive r c) s).0 h),
  λ h. (full_match_iff (derive r c) s).1 (derive_complete r c s (c ∷ s) refl h),
)

Lang-literal : (p : Text) (r : Regex) (s : Text) → Lang r s → Lang (literal p r) (p ++ s)
Lang-literal [] r s h = h
Lang-literal (c ∷ p) r s h = (c ∷ [], p ++ s, (c, ground arith, refl), Lang-literal p r s h, refl)

-- A text of `literal p r` is `p` and a text of `r`.
pub literal-Lang :
    (p : Text) (r : Regex) (s : Text)
    → Lang (literal p r) s ↔ ((t : Text) × (s ≡ p ++ t) × Lang r t)
literal-Lang p r s = (forth p s, λ (t, e, h). rw e (Lang-literal p r t h))
  where
    forth : (q u : Text) → Lang (literal q r) u → (t : Text) × (u ≡ q ++ t) × Lang r t
    forth [] u h = (u, refl, h)
    forth (c ∷ q) u (x, v, (d, same, f), hv, e) =
        let (t, g, ht) = forth q v hv in (t, ground arith, ht)

-- Every text is one of `anything`.
pub Lang-anything : (s : Text) → Lang anything s
Lang-anything s = (length s, every s)
  where
    every : (t : Text) → Power (Lang (chr (λ _. true))) (length t) t
    every [] = refl
    every (c ∷ t) = (c ∷ [], t, (c, refl, refl), every t, refl)

-- One or more characters of a class.
pub plus-Lang :
    (p : ℕ → Bool) (s : Text) → Lang (plus (chr p)) s ↔ ((s ≢ []) × All (λ c. p c ≡ true) s)
plus-Lang p s = (
  λ (u, v, (c, h, e), (n, r), f). rw (f, e) (λ q. nil-ne-cons c v (sym q), (h, inside n v r)),
  back s,
)
  where
    inside : (n : ℕ) (t : Text) → Power (Lang (chr p)) n t → All (λ c. p c ≡ true) t
    inside zero t e = rw e tt
    inside (suc n) t (u, v, (c, h, e), r, f) = rw (f, e) (h, inside n v r)

    power : (t : Text) → All (λ c. p c ≡ true) t → Power (Lang (chr p)) (length t) t
    power [] h = refl
    power (c ∷ t) (h, r) = (c ∷ [], t, (c, h, refl), power t r, refl)

    back : (t : Text) → (t ≢ []) × All (λ c. p c ≡ true) t → Lang (plus (chr p)) t
    back [] (n, h) = absurd (n refl)
    back (c ∷ t) (n, (h, r)) = (c ∷ [], t, (c, h, refl), (length t, power t r), refl)
