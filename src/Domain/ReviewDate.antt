-- ===== src/Domain/ReviewDate.antt =====
-- `ParseReviewDate` of backend/internal/domain/cycle/cycle.go, with what it uses of Go's `time`
-- at the layout "2006-01-02". `none` is `ErrInvalidReviewDate`, its only error.
pub mod RoundTrip
use cycle.Base.{
  ℕ, suc, ◌+◌, ◌*◌, ◌-◌, ◌/◌, ◌%◌, Bool, true, false, not, ◌&&◌, ◌||◌, Option, none, some, [], ◌∷◌,
  Text, text_eq, ltb, leb, ◌==◌, if◌then◌else◌,
}
use cycle.GoStrings.{byte_length}

pub record Date : Type 0 where
  pub year : ℕ
  pub month : ℕ
  pub day : ℕ

abbrev pub is_leap : ℕ → Bool
is_leap y = (y % 4 == 0) && (not (y % 100 == 0) || (y % 400 == 0))

abbrev pub days_in : ℕ → ℕ → ℕ
days_in y m =
    if m == 2
    then (if is_leap y then 29 else 28)
    else if m == 4 || m == 6 || m == 9 || m == 11
    then 30
    else 31

-- A day of the calendar.
unfoldable pub is_date : Date → Bool
is_date d = leb 1 d.month && leb d.month 12 && leb 1 d.day && leb d.day (days_in d.year d.month)

abbrev digit : ℕ → ℕ
digit c = c - b'0'

abbrev print_digit : ℕ → ℕ
print_digit n = b'0' + n % 10

-- `time.Parse` refuses a month or a day that is out of range.
in_range : Date → Option Date
in_range d = if is_date d then some d else none

-- `time.Parse`, of a text that has the shape of the layout.
parse_date : Text → Option Date
unfolding in_range is_date
parse_date (y1 ∷ y2 ∷ y3 ∷ y4 ∷ s1 ∷ m1 ∷ m2 ∷ s2 ∷ d1 ∷ d2 ∷ []) = in_range (record {
  year = digit y1 * 1000 + digit y2 * 100 + digit y3 * 10 + digit y4;
  month = digit m1 * 10 + digit m2;
  day = digit d1 * 10 + digit d2;
})
parse_date _ = none

-- `Format`, of a year of four digits.
unfoldable pub format : Date → Text
format d =
    print_digit (d.year / 1000)
    ∷ print_digit (d.year / 100)
    ∷ print_digit (d.year / 10)
    ∷ print_digit d.year
    ∷ b'-'
    ∷ print_digit (d.month / 10)
    ∷ print_digit d.month
    ∷ b'-'
    ∷ print_digit (d.day / 10)
    ∷ print_digit d.day
    ∷ []

abbrev is_digit : ℕ → Bool
is_digit c = not (ltb c b'0') && not (ltb b'9' c)

-- The loop over the characters; all before the one looked at are ASCII, so that its position is
-- its index in bytes.
has_shape : ℕ → Text → Bool
has_shape i [] = true
has_shape i (c ∷ s) = (if i == 4 || i == 7 then c == b'-' else is_digit c) && has_shape (i + 1) s

check : Text → Option Date → Option Text
unfolding format
check value none = none
check value (some d) =
    if ltb d.year 1 || ltb 9999 d.year || not (text_eq (format d) value) then none else some value

unfoldable pub parse : Text → Option Text
unfolding byte_length has_shape parse_date check
parse value =
    if not (byte_length value == 10)
    then none
    else if not (has_shape 0 value)
    then none
    else check value (parse_date value)
