-- ===== src/Domain/Cycle/Schedule.antt =====
-- `ParseFrame`, `ParseReviewDate` and `ChangeReviewSchedule` of
-- backend/internal/domain/cycle/cycle.go.
use cycle.Base.{
  ℤ, Bool, true, false, not, ◌||◌, Option, none, some, List, [], ◌∷◌, Text, text_eq, int_eq,
  is_negative, inc64, if◌then◌else◌, Result, ok, err, ◌>>=◌, ◌>>◌, fail_if,
}
use cycle.Domain.ReviewDate
use cycle.Domain.Cycle.Types.{
  CycleError, invalid_frame, invalid_review_date, cycle_not_active, revision_conflict, Frame,
  frame_eq, is_active, all_frames, PdcaCycle, ChangeReviewScheduleResult,
}

-- The loop over the candidates.
find_frame : Frame → List Frame → Result CycleError Frame
find_frame frame [] = err invalid_frame
find_frame frame (candidate ∷ rest) =
    let later = find_frame frame rest in if frame_eq frame candidate then ok frame else later

-- `ParseFrame` of a string that `frame_of` has read.
unfoldable pub parse_frame : Frame → Result CycleError Frame
unfolding find_frame
parse_frame frame = find_frame frame all_frames

unfoldable pub parse_review_date : Text → Result CycleError Text
parse_review_date value = elim (ReviewDate.parse value) [
  | none ↦ err invalid_review_date
  | some date ↦ ok date
]

abbrev pub optional_text_eq : Option Text → Option Text → Bool
optional_text_eq none none = true
optional_text_eq (some s) (some t) = text_eq s t
optional_text_eq _ _ = false

abbrev pub review_schedule_targets_equal : Option Text → Option Text → Bool
review_schedule_targets_equal = optional_text_eq

-- A date that is there is parsed.
parse_optional_date : Option Text → Result CycleError (Option Text)
parse_optional_date none = ok none
parse_optional_date (some date) = do parsed ← parse_review_date date; ok (some parsed)

unfoldable pub change_review_schedule :
    PdcaCycle → Option Text → ℤ → Result CycleError ChangeReviewScheduleResult
unfolding parse_optional_date
change_review_schedule current target expected_revision = do
  fail_if (not (is_active current.status)) cycle_not_active
  fail_if (is_negative current.review_schedule_revision || is_negative expected_revision)
      revision_conflict
  parse_optional_date current.review_date
  target ← parse_optional_date target
  if review_schedule_targets_equal current.review_date target
      then ok (record { changed = current; no_op = true })
      else do
        fail_if (not (int_eq current.review_schedule_revision expected_revision)) revision_conflict
        ok (record {
          changed = record current {
            review_date = target;
            review_schedule_revision = inc64 current.review_schedule_revision;
          };
          no_op = false;
        })
