-- ===== src/Prelude/Strings.antt =====
-- Go's strings, as lists of code points, and what the source uses of package strings.
use Prim.Native.Nat.{ℕ, suc, ◌+◌, ◌/◌, ◌%◌}
use Prim.Native.Char.{code}
use Prim.Native.String.{String}
use mathlib.Core.Path.{◌≡◌, refl}
use mathlib.Core.Logic.{◌≢◌, ◌↔◌}
use mathlib.Core.Bool.{Bool, true, false, ◌&&◌, ◌||◌, false≢true}
use mathlib.Core.List.{List, [], ◌∷◌, ◌++◌, map, reverse}
use native.Mathlib.Omega.{arith}
use secrets_store_csi_driver.Prelude.Tests.{ltb, leb, ◌==◌, if◌then◌else◌}

-- A valid UTF-8 text by its code points.
abbrev pub Text : Type 0
Text = List ℕ

-- The code points of a literal.
abbrev pub codes : String → Text
codes String.[] = []
codes (String.◌∷◌ c s) = code c ∷ codes s

abbrev pub colon : ℕ
colon = b':'

abbrev pub slash : ℕ
slash = b'/'

abbrev pub length {ℓ} : {A : Type ℓ} → List A → ℕ
length [] = 0
length (x ∷ xs) = suc (length xs)

-- The number of bytes of a code point in UTF-8.
unfoldable pub utf8_width : ℕ → ℕ
utf8_width c = if ltb c 0x80 then 1 else if ltb c 0x800 then 2 else if ltb c 0x10000 then 3 else 4

-- `len(s)` counts bytes.
unfoldable pub utf8_length : Text → ℕ
unfolding utf8_width
utf8_length [] = 0
utf8_length (c ∷ s) = utf8_width c + utf8_length s

-- The bytes of a code point in UTF-8.
unfoldable pub utf8_bytes : ℕ → List ℕ
utf8_bytes c =
    if ltb c 0x80
    then c ∷ []
    else if ltb c 0x800
    then (0xc0 + c / 64) ∷ (0x80 + c % 64) ∷ []
    else if ltb c 0x10000
    then (0xe0 + c / 4096) ∷ (0x80 + c / 64 % 64) ∷ (0x80 + c % 64) ∷ []
    else (0xf0 + c / 262144) ∷ (0x80 + c / 4096 % 64) ∷ (0x80 + c / 64 % 64) ∷ (0x80 + c % 64) ∷ []

-- `[]byte(s)`.
unfoldable pub utf8 : Text → List ℕ
unfolding utf8_bytes
utf8 [] = []
utf8 (c ∷ s) = utf8_bytes c ++ utf8 s

-- `len(s) == 0` and `s == ""`.
abbrev pub is_empty {ℓ} : {A : Type ℓ} → List A → Bool
is_empty [] = true
is_empty (c ∷ s) = false

pub is_empty_iff {ℓ} : {A : Type ℓ} (s : List A) → (is_empty s ≡ true) ↔ (s ≡ [])
is_empty_iff [] = (λ _. refl, λ _. refl)
is_empty_iff (c ∷ s) = (λ h. cc, λ h. cc)

pub ne_nil→is_empty {ℓ} : {A : Type ℓ} (s : List A) → s ≢ [] → is_empty s ≡ false
ne_nil→is_empty [] h = absurd (h refl)
ne_nil→is_empty (c ∷ s) h = refl

pub is_empty→ne_nil {ℓ} : {A : Type ℓ} (s : List A) → is_empty s ≡ false → s ≢ []
is_empty→ne_nil [] h e = cc
is_empty→ne_nil (c ∷ s) h e = cc

-- `s == t`.
unfoldable pub eq_text : Text → Text → Bool
eq_text [] [] = true
eq_text [] (d ∷ t) = false
eq_text (c ∷ s) [] = false
eq_text (c ∷ s) (d ∷ t) = (c == d) && eq_text s t

pub eq_text_refl : (s : Text) → eq_text s s ≡ true
unfolding eq_text
eq_text_refl [] = refl
eq_text_refl (c ∷ s) = rw (eq_text_refl s) (ground arith)

eq_text-eq : (s t : Text) → eq_text s t ≡ true → s ≡ t
unfolding eq_text
eq_text-eq [] [] h = refl
eq_text-eq [] (d ∷ t) h = cc
eq_text-eq (c ∷ s) [] h = cc
eq_text-eq (c ∷ s) (d ∷ t) h = ground (arith, eq_text-eq s t)

pub eq_text_iff : (s t : Text) → (eq_text s t ≡ true) ↔ (s ≡ t)
eq_text_iff s t = (eq_text-eq s t, λ e. rw e (eq_text_refl t))

-- `strings.HasPrefix(s, p)`.
unfoldable pub has_prefix : Text → Text → Bool
has_prefix s [] = true
has_prefix [] (d ∷ p) = false
has_prefix (c ∷ s) (d ∷ p) = (c == d) && has_prefix s p

-- `strings.Contains(s, p)`.
unfoldable pub contains : Text → Text → Bool
unfolding has_prefix
contains [] p = has_prefix [] p
contains (c ∷ s) p = has_prefix (c ∷ s) p || contains s p

-- `strings.ToLower(s)`; the table of `unicode.ToLower` beyond ASCII is a parameter.
unfoldable pub to_lower : (ℕ → ℕ) → Text → Text
to_lower unicode s =
    map (λ c. if ltb c 0x80 then (if leb b'A' c && leb c b'Z' then c + 32 else c) else unicode c) s

-- `strings.TrimLeft(s, cutset)` for a cutset of one character.
unfoldable pub trim_left : Text → ℕ → Text
trim_left [] x = []
trim_left (c ∷ s) x = let rest = trim_left s x in if c == x then rest else c ∷ s

-- `strings.ReplaceAll(s, old, new)` for `old` of one character.
unfoldable pub replace_all : Text → ℕ → Text → Text
replace_all [] x new = []
replace_all (c ∷ s) x new = (if c == x then new else c ∷ []) ++ replace_all s x new

-- `unicode.IsSpace`: the characters with the property White_Space.
unfoldable pub is_space : ℕ → Bool
is_space c =
    (leb 0x9 c && leb c 0xd)
    || (c == 0x20)
    || (c == 0x85)
    || (c == 0xa0)
    || (c == 0x1680)
    || (leb 0x2000 c && leb c 0x200a)
    || (c == 0x2028)
    || (c == 0x2029)
    || (c == 0x202f)
    || (c == 0x205f)
    || (c == 0x3000)

drop_spaces : Text → Text
unfolding is_space
drop_spaces [] = []
drop_spaces (c ∷ s) = let rest = drop_spaces s in if is_space c then rest else c ∷ s

-- `strings.TrimSpace(s)`.
unfoldable pub trim_space : Text → Text
unfolding drop_spaces
trim_space s = reverse (drop_spaces (reverse (drop_spaces s)))

-- `c` does not occur in the text.
abbrev pub Lacks : ℕ → Text → Type 0
Lacks c [] = Unit
Lacks c (d ∷ s) = (d ≢ c) × Lacks c s

-- How often `c` occurs in the text.
unfoldable pub occurrences : ℕ → Text → ℕ
occurrences c [] = 0
occurrences c (d ∷ s) = (if d == c then 1 else 0) + occurrences c s

pub has_prefix-split : (s p : Text) → has_prefix s p ≡ true → (t : Text) × (s ≡ p ++ t)
unfolding has_prefix
has_prefix-split s [] h = (s, refl)
has_prefix-split [] (d ∷ p) h = absurd (false≢true h)
has_prefix-split (c ∷ s) (d ∷ p) h =
    let (t, e) = has_prefix-split s p (ground arith) in (t, ground arith)

pub has_prefix-append : (p t : Text) → has_prefix (p ++ t) p ≡ true
unfolding has_prefix
has_prefix-append [] [] = refl
has_prefix-append [] (c ∷ t) = refl
has_prefix-append (d ∷ p) t = ground (arith, has_prefix-append p t)
