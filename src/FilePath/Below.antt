-- ===== src/FilePath/Below.antt =====
-- A path that is joined to a directory stays below it, unless one of its elements goes back.
use mathlib.Core.Bool.{false≢true}
use native.Mathlib.Decide.{ℕ_discrete}
use mathlib.Core.List.{foldl, foldl-append, reverse, reverse-append, reverse-reverse}
use secrets_store_csi_driver.Prelude.{
  ℕ, Text, slash, ◌≡◌, ◌≢◌, refl, ap, sym, ◌∙◌, inl, inr, List, [], ◌∷◌, ◌++◌, Bool, if◌then◌else◌,
  eq_text_iff, append_assoc, In, arith, Bool-cases, All, true, ◌↔◌, subst,
}
use secrets_store_csi_driver.FilePath.{
  push, elements, dot_dot, is_rooted, is_here, step, clean_elements,
}
use secrets_store_csi_driver.FilePath.Elements.{elements-ne-nil, elements-slash, elements_other}

-- The elements that `Clean` keeps where none goes back.
abbrev pub kept : List Text → List Text
kept [] = []
kept (e ∷ es) = let rest = kept es in if is_here e then rest else e ∷ rest

-- The elements that are kept are elements.
pub kept-In : (x : Text) (es : List Text) → In x (kept es) → In x es
kept-In x [] h = h
kept-In x (e ∷ es) h = elim (Bool-cases (is_here e)) [
  | inl b ↦ inr (kept-In x es (rw b at h))
  | inr b ↦ elim (subst (λ q. In x (if q then kept es else e ∷ kept es)) b h) [
    | inl i ↦ inl i
    | inr i ↦ inr (kept-In x es i)
  ]
]

-- Nothing is kept exactly if every element is empty or `.`.
pub kept-nil_iff : (es : List Text) → (kept es ≡ []) ↔ All (λ e. is_here e ≡ true) es
kept-nil_iff [] = (λ h. tt, λ h. refl)
kept-nil_iff (e ∷ es) = elim (Bool-cases (is_here e)) [
  | inl b ↦ (λ h. (b, (kept-nil_iff es).0 (rw b at h)), λ a. rw b ((kept-nil_iff es).1 a.1))
  | inr b ↦ (λ h. cc, λ a. absurd (false≢true (sym b ∙ a.0)))
]

push-append : (c : ℕ) (es fs : List Text) → es ≢ [] → push c es ++ fs ≡ push c (es ++ fs)
push-append c [] fs h = absurd (h refl)
push-append c (e ∷ es) fs h = refl

pub elements-append : (d f : Text) → elements (d ++ (slash ∷ f)) ≡ elements d ++ elements f
elements-append [] f = elements-slash f ∙ unfold elements in refl
elements-append (c ∷ d) f = elim (ℕ_discrete c slash) [
  | yes e ↦ rw (e, elements-slash (d ++ (slash ∷ f)), elements-append d f, elements-slash d)
  | no n ↦ rw (
    elements_other c (d ++ (slash ∷ f)) n,
    elements-append d f,
    elements_other c d n,
    push-append c (elements d) (elements f) (elements-ne-nil d),
  )
]

step_kept :
    (rooted : Bool) (out : List Text) (e : Text)
    → e ≢ dot_dot
    → step rooted out e ≡ (if is_here e then out else e ∷ out)
unfolding step
step_kept rooted out e h = ground (arith, eq_text_iff e dot_dot)

foldl-kept :
    (rooted : Bool) (out es : List Text)
    → ¬ (In dot_dot es)
    → foldl (step rooted) out es ≡ reverse (kept es) ++ out
foldl-kept rooted out [] h = refl
foldl-kept rooted out (e ∷ es) h = elim (Bool-cases (is_here e)) [
  | inl b ↦
      rw (step_kept rooted out e (λ q. h (inl q)), b) (foldl-kept rooted out es (λ q. h (inr q)))
  | inr b ↦
      rw (step_kept rooted out e (λ q. h (inl q)), b)
        (foldl-kept rooted (e ∷ out) es (λ q. h (inr q))
          ∙ sym (
              ap (λ l. l ++ out) (reverse-append (e ∷ []) (kept es))
              ∙ append_assoc (reverse (kept es)) (e ∷ []) out))
]

pub is_rooted-append : (d f : Text) → d ≢ [] → is_rooted (d ++ f) ≡ is_rooted d
unfolding is_rooted
is_rooted-append [] f h = absurd (h refl)
is_rooted-append (c ∷ d) f h = refl

-- Joined to a directory, a path with no `..` adds its own elements behind those of the directory.
pub clean_elements-below :
    (dir file : Text)
    → dir ≢ []
    → ¬ (In dot_dot (elements file))
    → clean_elements (dir ++ (slash ∷ file)) ≡ clean_elements dir ++ kept (elements file)
clean_elements-below dir file n h =
    let rooted = is_rooted dir in
    let out = foldl (step rooted) [] (elements dir) in
    let forth : clean_elements (dir ++ (slash ∷ file))
        ≡ reverse (reverse (kept (elements file)) ++ out) =
      unfold clean_elements in
      rw (
        is_rooted-append dir (slash ∷ file) n,
        elements-append dir file,
        foldl-append,
        foldl-kept rooted out (elements file) h,
      ) in
    forth
    ∙ reverse-append (reverse (kept (elements file))) out
    ∙ ap (λ l. reverse out ++ l) (reverse-reverse (kept (elements file)))
    ∙ unfold clean_elements in refl
