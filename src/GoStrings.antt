-- ===== src/GoStrings.antt =====
-- What the backend uses of Go's `strings`, `unicode` and `unicode/utf8`, on texts that are valid
-- UTF-8 and so are lists of code points.
pub mod Normalize
pub mod Order
use cycle.Base.{
  ℕ, ◌+◌, Bool, true, false, not, ◌&&◌, ◌||◌, [], ◌∷◌, Text, String, ltb, leb, ◌==◌, if◌then◌else◌,
}
use Prim.Native.Char.{code}

-- The code points of a literal.
abbrev pub codes : String → Text
codes String.[] = []
codes (String.◌∷◌ c s) = code c ∷ codes s

abbrev pub cr : ℕ
cr = 13

abbrev pub lf : ℕ
lf = 10

abbrev pub tab : ℕ
tab = 9

abbrev head_is : ℕ → Text → Bool
head_is c [] = false
head_is c (d ∷ s) = d == c

abbrev drop_head : Text → Text
drop_head [] = []
drop_head (d ∷ s) = s

-- `strings.ReplaceAll(value, "\r\n", "\n")`: a carriage return before a line feed is dropped, and
-- the line feed that follows is kept.
unfoldable pub replace_crlf : Text → Text
replace_crlf [] = []
replace_crlf (c ∷ s) =
    let rest = replace_crlf s in if c == cr && head_is lf s then rest else c ∷ rest

-- `strings.ReplaceAll(value, "\r", "\n")`.
unfoldable pub replace_cr : Text → Text
replace_cr [] = []
replace_cr (c ∷ s) = (if c == cr then lf else c) ∷ replace_cr s

-- `unicode.IsSpace`.
unfoldable pub is_space : ℕ → Bool
is_space c =
    (leb 9 c && leb c 13)
    || c == 0x20
    || c == 0x85
    || c == 0xa0
    || c == 0x1680
    || (leb 0x2000 c && leb c 0x200a)
    || c == 0x2028
    || c == 0x2029
    || c == 0x202f
    || c == 0x205f
    || c == 0x3000

-- `unicode.IsControl`: the category Cc.
unfoldable pub is_control : ℕ → Bool
is_control c = ltb c 0x20 || (leb 0x7f c && leb c 0x9f)

unfoldable pub trim_left : Text → Text
unfolding is_space
trim_left [] = []
trim_left (c ∷ s) = let rest = trim_left s in if is_space c then rest else c ∷ s

abbrev pub is_empty : Text → Bool
is_empty [] = true
is_empty (c ∷ s) = false

unfoldable pub trim_right : Text → Text
unfolding is_space
trim_right [] = []
trim_right (c ∷ s) = let rest = trim_right s in if is_space c && is_empty rest then [] else c ∷ rest

-- `strings.TrimSpace`.
unfoldable pub trim_space : Text → Text
unfolding trim_left trim_right
trim_space s = trim_right (trim_left s)

-- Every code point is white space.
unfoldable pub all_space : Text → Bool
all_space [] = true
all_space (c ∷ s) = is_space c && all_space s

-- The code points that a frame or a goal text may not hold: the control characters of ASCII but
-- the line feed and the tab.
unfoldable pub has_forbidden : Text → Bool
has_forbidden [] = false
has_forbidden (c ∷ s) =
    (c == 0 || (ltb c 0x20 && not (c == lf) && not (c == tab)) || c == 0x7f) || has_forbidden s

-- `value = strings.ReplaceAll(strings.ReplaceAll(value, "\r\n", "\n"), "\r", "\n")`.
unfoldable pub normalize_line_endings : Text → Text
unfolding replace_cr replace_crlf
normalize_line_endings s = replace_cr (replace_crlf s)

-- The bytes of a code point in UTF-8.
abbrev pub utf8_width : ℕ → ℕ
utf8_width c = if ltb c 0x80 then 1 else if ltb c 0x800 then 2 else if ltb c 0x10000 then 3 else 4

-- The bytes of a text in UTF-8, which `len` counts.
unfoldable pub byte_length : Text → ℕ
byte_length [] = 0
byte_length (c ∷ s) = utf8_width c + byte_length s
