-- ===== src/Tests/CycleTests.antt =====
-- The cycle's transitions at concrete inputs.
use cycle.Base.{
  inc64, pos, ◌≡◌, refl, true, false, some, none, ok, err, ◌∷◌, ◌++◌, Text, arith, text_eq,
}
use cycle.GoStrings.{codes, lf, cr, has_forbidden, normalize_line_endings}
use cycle.Domain.ReviewDate
use cycle.Domain.ReviewDate.{Date}
use cycle.Domain.ReviewDate.RoundTrip.{parse-format, parse-eq-some, IsReviewDate}
use cycle.Domain.Cycle
use cycle.Domain.Cycle.{
  PdcaCycle, Frame, Status, CancellationReason, SaveFrameResult, frame_content,
}
use cycle.Domain.CycleLaws.Texts.{IsFrameText, normalize-IsFrameText}
use cycle.Domain.CycleLaws.Saving.{Saved, save_frame-Saved, save_frame_again, save_frame_conflict}
use cycle.Domain.CycleLaws.Invariant.{
  Reach, here, next, save, abandon, IsWellFormed, new-IsWellFormed, Reach-IsWellFormed,
  Reach-terminal,
}

abbrev leap_day : Date
leap_day = record { year = 2024; month = 2; day = 29 }

parse-format_example :
    ReviewDate.parse (ReviewDate.format leap_day) ≡ some (ReviewDate.format leap_day)
unfolding ReviewDate.is_date
parse-format_example = parse-format leap_day (omega arith, omega arith, refl)

parse_leap_day : ReviewDate.parse (codes "2024-02-29") ≡ some (codes "2024-02-29")
unfolding ReviewDate.parse ReviewDate.format ReviewDate.is_date text_eq
parse_leap_day = refl

parse_no_leap_day : ReviewDate.parse (codes "2023-02-29") ≡ none
unfolding ReviewDate.parse ReviewDate.format ReviewDate.is_date text_eq
parse_no_leap_day = refl

parse_year_zero : ReviewDate.parse (codes "0000-01-01") ≡ none
unfolding ReviewDate.parse ReviewDate.format ReviewDate.is_date text_eq
parse_year_zero = refl

parse-eq-some_example :
    (codes "2024-02-29" ≡ codes "2024-02-29")
    × ((d : Date) × IsReviewDate d × (ReviewDate.format d ≡ codes "2024-02-29"))
parse-eq-some_example = parse-eq-some (codes "2024-02-29") (codes "2024-02-29") parse_leap_day

abbrev fresh : PdcaCycle
fresh = Cycle.new "c" "u" "g" "v" (pos 1) "op" "hash" 1000

abbrev line : Text
line = codes "write" ++ (cr ∷ lf ∷ codes "daily")

abbrev kept_line : Text
kept_line = codes "write" ++ (lf ∷ codes "daily")

abbrev planned : SaveFrameResult
planned = record {
  saved = record fresh {
    plan = kept_line;
    revisions = record {
      content = pos 1;
      plan = pos 1;
      do_ = pos 0;
      check = pos 0;
      action = pos 0;
    };
    updated_at = 2000;
  };
  frame = Frame.plan;
  content = kept_line;
  no_op = false;
  saved_at = 2000;
}

save_planned : Cycle.save_frame fresh Frame.plan line (pos 0) false 2000 ≡ ok planned
unfolding Cycle.new Cycle.save_frame Cycle.normalize_and_validate_text normalize_line_endings
    has_forbidden text_eq inc64
save_planned = refl

normalize-IsFrameText_example : IsFrameText kept_line
unfolding Cycle.normalize_and_validate_text normalize_line_endings has_forbidden
normalize-IsFrameText_example = normalize-IsFrameText line kept_line refl

save_frame-Saved_example : Saved fresh Frame.plan (pos 0) 2000 planned
save_frame-Saved_example =
    save_frame-Saved fresh Frame.plan line (pos 0) false 2000 save_planned refl

save_frame_again_example :
    Cycle.save_frame planned.saved Frame.plan line (pos 7) false 3000
    ≡ ok (record planned { no_op = true })
save_frame_again_example =
    save_frame_again fresh Frame.plan line (pos 0) false 2000 save_planned (pos 7) 3000

abbrev other_text : Text
other_text = codes "read"

other_text_valid : Cycle.normalize_and_validate_text other_text ≡ ok other_text
unfolding Cycle.normalize_and_validate_text normalize_line_endings has_forbidden
other_text_valid = refl

save_frame_conflict_example :
    Cycle.save_frame planned.saved Frame.plan other_text (pos 0) true 3000
    ≡ err Cycle.revision_conflict
save_frame_conflict_example =
    save_frame_conflict fresh Frame.plan line (pos 0) false 2000 save_planned other_text other_text
      true 3000 (λ e. cc) refl other_text_valid (λ e. cc)

abbrev dropped : PdcaCycle
dropped = record planned.saved {
  status = Status.canceled;
  canceled_at = some 5000;
  cancellation_reason = some CancellationReason.replanned;
  updated_at = 5000;
}

cancel_planned : Cycle.cancel planned.saved CancellationReason.replanned 5000 ≡ ok dropped
unfolding Cycle.cancel Cycle.new
cancel_planned = refl

abbrev history : Reach fresh dropped
history =
    next (next here (save Frame.plan line (pos 0) false 2000 planned save_planned refl))
      (abandon CancellationReason.replanned 5000 cancel_planned)

Reach-IsWellFormed_example : IsWellFormed dropped
Reach-IsWellFormed_example =
    Reach-IsWellFormed history (new-IsWellFormed "c" "u" "g" "v" (pos 1) "op" "hash" 1000)

Reach-terminal_example : dropped ≡ dropped
Reach-terminal_example = Reach-terminal refl here
