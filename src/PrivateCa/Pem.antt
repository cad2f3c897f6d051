-- ===== src/PrivateCa/Pem.antt =====
-- What a certificate's text has to be: a PEM block around the base64 of a DER sequence (RFC 7468,
-- RFC 4648, X.690), which names the authority of a region.
use secrets_store_csi_driver.Prelude.{
  ℕ, ◌+◌, ◌-◌, ◌*◌, ◌/◌, ◌%◌, Text, codes, List, [], ◌∷◌, ◌++◌, Option, none, some, Bool, true,
  false, ◌&&◌, ◌==◌, leb, if◌then◌else◌, length, eq_text, is_empty, contains, String,
}

-- The six bits of a character; `=` and others have none.
unfoldable pub sextet : ℕ → Option ℕ
sextet c =
    if leb b'A' c && leb c b'Z'
    then some (c - b'A')
    else if leb b'a' c && leb c b'z'
    then some (c - b'a' + 26)
    else if leb b'0' c && leb c b'9'
    then some (c - b'0' + 52)
    else if c == b'+'
    then some 62
    else if c == b'/'
    then some 63
    else none

-- The bytes of four characters; `=` stands only at the end.
unfoldable pub group : (last : Bool) (w x y z : Option ℕ) (y_pad z_pad : Bool) → Option (List ℕ)
group last (some w) (some x) (some y) (some z) y_pad z_pad =
    some ((4 * w + x / 16) ∷ (x % 16 * 16 + y / 4) ∷ (y % 4 * 64 + z) ∷ [])
group true (some w) (some x) (some y) none false true =
    some ((4 * w + x / 16) ∷ (x % 16 * 16 + y / 4) ∷ [])
group true (some w) (some x) none none true true = some ((4 * w + x / 16) ∷ [])
group last w x y z y_pad z_pad = none

abbrev pub join_bytes : Option (List ℕ) → Option (List ℕ) → Option (List ℕ)
join_bytes (some xs) (some ys) = some (xs ++ ys)
join_bytes _ _ = none

-- The bytes of a base64 text.
unfoldable pub base64_bytes : Text → Option (List ℕ)
unfolding sextet group
base64_bytes [] = some []
base64_bytes (w ∷ x ∷ y ∷ z ∷ s) =
    let rest = base64_bytes s in
    join_bytes
      (group (is_empty s) (sextet w) (sextet x) (sextet y) (sextet z) (y == b'=') (z == b'=')) rest
base64_bytes _ = none

-- The lines between the two marks of a block.
unfoldable pub inside_block : List String → Option Text
inside_block [] = none
inside_block (l ∷ ls) =
    let rest = inside_block ls in
    if eq_text (codes l) (codes "-----END CERTIFICATE-----")
    then (if is_empty ls then some [] else none)
    else elim rest [ none ↦ none | some t ↦ some (codes l ++ t) ]

-- The text of a block, whose marks are its first and its last line.
unfoldable pub block_body : List String → Option Text
block_body [] = none
block_body (l ∷ ls) =
    if eq_text (codes l) (codes "-----BEGIN CERTIFICATE-----") then inside_block ls else none

-- A DER sequence with a length in two bytes, which is the length of what follows.
unfoldable pub is_sequence : List ℕ → Bool
is_sequence (tag ∷ form ∷ high ∷ low ∷ bytes) =
    tag == 0x30 && form == 0x82 && length bytes == 256 * high + low
is_sequence _ = false

-- The common name of a region's authority.
abbrev pub authority : Text → Text
authority region = codes "Private KMS " ++ region ++ codes " Second CA"

abbrev pub names_authority : Text → Option (List ℕ) → Bool
names_authority region none = false
names_authority region (some der) = is_sequence der && contains der (authority region)

abbrev pub body_bytes : Option Text → Option (List ℕ)
body_bytes none = none
body_bytes (some t) = base64_bytes t

-- The lines are a certificate of the authority of the region.
unfoldable pub is_certificate_of : Text → List String → Bool
is_certificate_of region ls = names_authority region (body_bytes (block_body ls))
