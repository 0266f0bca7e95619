-- ===== src/GoStrings/Normalize.antt =====
-- Laws of the text functions: what line-ending normalisation leaves, and when a text is blank.
use cycle.Base.{◌≤◌, ◌≡◌, refl, Bool, true, not, ◌&&◌, [], ◌∷◌, Text, length, arith, ◌==◌, ap, ◌∙◌}
use cycle.GoStrings.{
  cr, replace_crlf, replace_cr, normalize_line_endings, trim_left, trim_right, trim_space,
  all_space, is_empty,
}

-- No carriage return.
unfoldable pub lacks_cr : Text → Bool
lacks_cr [] = true
lacks_cr (c ∷ s) = not (c == cr) && lacks_cr s

lacks_cr-replace_cr : (s : Text) → lacks_cr (replace_cr s) ≡ true
unfolding replace_cr lacks_cr
lacks_cr-replace_cr [] = refl
lacks_cr-replace_cr (c ∷ s) = ground (arith, lacks_cr-replace_cr s)

pub lacks_cr-normalize : (s : Text) → lacks_cr (normalize_line_endings s) ≡ true
unfolding normalize_line_endings
lacks_cr-normalize s = lacks_cr-replace_cr (replace_crlf s)

replace_cr_id : (s : Text) → lacks_cr s ≡ true → replace_cr s ≡ s
unfolding replace_cr lacks_cr
replace_cr_id [] h = refl
replace_cr_id (c ∷ s) h = ground (arith, replace_cr_id s)

replace_crlf_id : (s : Text) → lacks_cr s ≡ true → replace_crlf s ≡ s
unfolding replace_crlf lacks_cr
replace_crlf_id [] h = refl
replace_crlf_id (c ∷ s) h = ground (arith, replace_crlf_id s)

-- A text with no carriage return is left alone.
pub normalize_id : (s : Text) → lacks_cr s ≡ true → normalize_line_endings s ≡ s
unfolding normalize_line_endings
normalize_id s h = ap replace_cr (replace_crlf_id s h) ∙ replace_cr_id s h

pub normalize_idem :
    (s : Text) → normalize_line_endings (normalize_line_endings s) ≡ normalize_line_endings s
normalize_idem s = normalize_id (normalize_line_endings s) (lacks_cr-normalize s)

length-replace_cr : (s : Text) → length (replace_cr s) ≡ length s
unfolding replace_cr
length-replace_cr [] = refl
length-replace_cr (c ∷ s) = omega (arith, length-replace_cr s)

length-replace_crlf : (s : Text) → length (replace_crlf s) ≤ length s
unfolding replace_crlf
length-replace_crlf [] = omega arith
length-replace_crlf (c ∷ s) = ground (arith, length-replace_crlf s)

-- Normalising never makes a text longer.
pub length-normalize : (s : Text) → length (normalize_line_endings s) ≤ length s
unfolding normalize_line_endings
length-normalize s = omega (arith, length-replace_cr (replace_crlf s), length-replace_crlf s)

all_space-trim_left : (s : Text) → all_space (trim_left s) ≡ all_space s
unfolding trim_left all_space
all_space-trim_left [] = refl
all_space-trim_left (c ∷ s) = ground (arith, all_space-trim_left s)

is_empty-trim_right : (s : Text) → is_empty (trim_right s) ≡ all_space s
unfolding trim_right all_space
is_empty-trim_right [] = refl
is_empty-trim_right (c ∷ s) = ground (arith, is_empty-trim_right s)

-- A text trims to nothing exactly when it is all white space.
pub is_empty-trim_space : (s : Text) → is_empty (trim_space s) ≡ all_space s
unfolding trim_space
is_empty-trim_space s = is_empty-trim_right (trim_left s) ∙ all_space-trim_left s
