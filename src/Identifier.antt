-- ===== src/Identifier.antt =====
-- backend/internal/identifier/uuid.go, on the code points of an identifier. A text of 36 bytes whose
-- characters all pass is ASCII, so that its positions are its indices in bytes.
use cycle.Base.{
  ℕ, ◌+◌, Bool, true, ◌&&◌, ◌||◌, none, some, [], ◌∷◌, Text, String, get_elem?, leb, ◌==◌,
}
use cycle.GoStrings.{codes, byte_length}

abbrev is_uuid_variant : ℕ → Bool
is_uuid_variant c = c == b'8' || c == b'9' || c == b'a' || c == b'b'

abbrev is_lower_hex : ℕ → Bool
is_lower_hex c = (leb b'0' c && leb c b'9') || (leb b'a' c && leb c b'f')

-- `value[i]`, 0 out of range: the length is tested first.
abbrev at : Text → ℕ → ℕ
at s i = elim (get_elem? s i) [ none ↦ 0 | some c ↦ c ]

-- The loop, from the index of the first character.
all_hex : ℕ → Text → Bool
all_hex i [] = true
all_hex i (c ∷ s) = (i == 8 || i == 13 || i == 18 || i == 23 || is_lower_hex c) && all_hex (i + 1) s

unfoldable pub is_canonical_uuid_v7 : String → Bool
unfolding byte_length all_hex
is_canonical_uuid_v7 id =
    let value = codes id in
    byte_length value == 36
    && at value 8 == b'-'
    && at value 13 == b'-'
    && at value 18 == b'-'
    && at value 23 == b'-'
    && at value 14 == b'7'
    && is_uuid_variant (at value 19)
    && all_hex 0 value
