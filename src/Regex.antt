-- ===== src/Regex.antt =====
-- The part of Go's package regexp that the source uses: `MatchString`, by derivatives.
-- A pattern is compiled by hand into a `Regex`; a text is a list of code points.
pub mod Language
use secrets_store_csi_driver.Prelude.{
  ℕ, Text, [], ◌∷◌, List, Bool, true, false, not, ◌&&◌, ◌||◌, leb, ◌==◌, if◌then◌else◌,
}

pub data Regex : Type 0 where
  -- no text
  never : Regex
  -- the empty text
  epsilon : Regex
  -- one character of a class
  chr : (ℕ → Bool) → Regex
  seq alt : Regex → Regex → Regex
  star : Regex → Regex

unfoldable pub nullable : Regex → Bool
nullable never = false
nullable epsilon = true
nullable (chr p) = false
nullable (seq r q) = nullable r && nullable q
nullable (alt r q) = nullable r || nullable q
nullable (star r) = true

-- What is left to match behind the character `c`.
unfoldable pub derive : Regex → ℕ → Regex
unfolding nullable
derive never c = never
derive epsilon c = never
derive (chr p) c = if p c then epsilon else never
derive (seq r q) c = alt (seq (derive r c) q) (if nullable r then derive q c else never)
derive (alt r q) c = alt (derive r c) (derive q c)
derive (star r) c = seq (derive r c) (star r)

-- Whether the whole text matches.
unfoldable pub full_match : Regex → Text → Bool
unfolding nullable derive
full_match r [] = nullable r
full_match r (c ∷ s) = full_match (derive r c) s

-- `[a-z0-9-]`
unfoldable pub is_label_char : ℕ → Bool
is_label_char c = (leb b'a' c && leb c b'z') || (leb b'0' c && leb c b'9') || (c == b'-')

-- `.`: any character but a newline.
unfoldable pub is_dot : ℕ → Bool
is_dot c = not (c == 10)

abbrev pub plus : Regex → Regex
plus r = seq r (star r)

abbrev pub optional : Regex → Regex
optional r = alt r epsilon

-- A text, character by character, in front of a pattern.
abbrev pub literal : Text → Regex → Regex
literal [] r = r
literal (c ∷ s) r = seq (chr (λ d. c == d)) (literal s r)

-- An unanchored end of a pattern: anything may stand there.
abbrev pub anything : Regex
anything = star (chr (λ _. true))
