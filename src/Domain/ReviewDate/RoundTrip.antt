-- ===== src/Domain/ReviewDate/RoundTrip.antt =====
-- A review date is the printed form of a day of the calendar.
use cycle.Base.{
  ℕ, ◌+◌, ◌*◌, ◌/◌, ◌≤◌, ◌≡◌, refl, true, Option, none, some, [], ◌∷◌, Text, text_eq_iff,
  text_eq_refl, arith, sym, ◌∙◌,
}
use cycle.GoStrings.{byte_length, utf8_width}
use cycle.Domain.ReviewDate.{
  Date, is_date, format, parse, parse_date, in_range, check, has_shape, digit, print_digit,
  is_digit,
}

-- The dates that the program accepts: the years 1 to 9999.
abbrev pub IsReviewDate : Date → Type 0
IsReviewDate d = (1 ≤ d.year) × (d.year ≤ 9999) × (is_date d ≡ true)

parse_date-format : (d : Date) → IsReviewDate d → parse_date (format d) ≡ some d
unfolding parse_date format
parse_date-format d h =
    let y : digit (print_digit (d.year / 1000)) * 1000
          + digit (print_digit (d.year / 100)) * 100
          + digit (print_digit (d.year / 10)) * 10
          + digit (print_digit d.year)
        ≡ d.year =
      omega arith in
    let m : digit (print_digit (d.month / 10)) * 10 + digit (print_digit d.month) ≡ d.month =
      ground arith in
    let n : digit (print_digit (d.day / 10)) * 10 + digit (print_digit d.day) ≡ d.day =
      ground arith in
    rw (y, m, n, h.2)

utf8_width-print_digit : (n : ℕ) → utf8_width (print_digit n) ≡ 1
utf8_width-print_digit n = ground arith

byte_length-format : (d : Date) → byte_length (format d) ≡ 10
unfolding format byte_length
byte_length-format d = simp utf8_width-print_digit

is_digit-print_digit : (n : ℕ) → is_digit (print_digit n) ≡ true
is_digit-print_digit n = ground arith

has_shape-format : (d : Date) → has_shape 0 (format d) ≡ true
unfolding format has_shape
has_shape-format d = simp is_digit-print_digit

-- Parsing the printed form of a day of the years 1 to 9999 gives that text back.
pub parse-format : (d : Date) → IsReviewDate d → parse (format d) ≡ some (format d)
unfolding parse
parse-format d h =
    rw (byte_length-format d, has_shape-format d, parse_date-format d h)
      (rw (text_eq_refl (format d)) (ground arith))

check-eq-some :
    (s t : Text) (o : Option Date)
    → check s o ≡ some t
    → (d : Date) × (o ≡ some d) × (s ≡ t) × (format d ≡ t) × (1 ≤ d.year) × (d.year ≤ 9999)
unfolding check
check-eq-some s t none h = cc
check-eq-some s t (some d) h = (
  d,
  refl,
  ground (arith, text_eq_iff (format d) s),
  ground (arith, text_eq_iff (format d) s),
  ground (arith, text_eq_iff (format d) s),
  ground (arith, text_eq_iff (format d) s),
)

in_range-eq-some : (c d : Date) → in_range c ≡ some d → is_date d ≡ true
unfolding in_range
in_range-eq-some c d h = ground arith

parse_date-is_date : (s : Text) (d : Date) → parse_date s ≡ some d → is_date d ≡ true
unfolding parse_date
parse_date-is_date (y1 ∷ y2 ∷ y3 ∷ y4 ∷ s1 ∷ m1 ∷ m2 ∷ s2 ∷ d1 ∷ d2 ∷ []) d h =
    in_range-eq-some
      (record {
        year = digit y1 * 1000 + digit y2 * 100 + digit y3 * 10 + digit y4;
        month = digit m1 * 10 + digit m2;
        day = digit d1 * 10 + digit d2;
      })
      d h
parse_date-is_date _ d h = cc

-- A text that is accepted is kept as it is, and is the printed form of one day of the years 1 to
-- 9999.
pub parse-eq-some :
    (s t : Text) → parse s ≡ some t → (s ≡ t) × ((d : Date) × IsReviewDate d × (format d ≡ s))
unfolding parse
parse-eq-some s t h =
    let (d, p, e, f, lo, hi) = check-eq-some s t (parse_date s) (ground arith) in
    (e, (d, (lo, hi, parse_date-is_date s d p), f ∙ sym e))
