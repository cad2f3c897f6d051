-- ===== src/Auth/Decimal.antt =====
-- `strconv.Atoi`, as the parsing of the session expiration in auth/auth.go uses it.
use secrets_store_csi_driver.Prelude.{
  ℕ, zero, suc, ◌+◌, ◌-◌, ◌*◌, ◌^◌, Text, [], ◌∷◌, Option, none, some, ◌&&◌, leb, ltb, ◌==◌,
  if◌then◌else◌,
}
use secrets_store_csi_driver.Auth.Config.{ℤ, pos, negsuc}

-- The value of a run of digits behind a value read so far.
unfoldable pub digits : ℕ → Text → Option ℕ
digits n [] = some n
digits n (c ∷ s) = if leb b'0' c && leb c b'9' then digits (10 * n + (c - b'0')) s else none

-- At least one digit.
unfoldable pub unsigned : Text → Option ℕ
unfolding digits
unsigned [] = none
unsigned (c ∷ s) = digits 0 (c ∷ s)

-- The range of an int64.
unfoldable pub positive : Option ℕ → Option ℤ
positive none = none
positive (some n) = if ltb n (2 ^ 63) then some (pos n) else none

unfoldable pub negative : Option ℕ → Option ℤ
negative none = none
negative (some zero) = some (pos 0)
negative (some (suc n)) = if ltb n (2 ^ 63) then some (negsuc n) else none

-- `strconv.Atoi`: an optional sign and digits, within the range of an int64.
unfoldable pub atoi : Text → Option ℤ
unfolding positive negative unsigned
atoi [] = none
atoi (c ∷ s) =
    if c == b'-'
    then negative (unsigned s)
    else if c == b'+'
    then positive (unsigned s)
    else positive (unsigned (c ∷ s))
