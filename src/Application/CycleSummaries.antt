-- ===== src/Application/CycleSummaries.antt =====
-- The checks of the rows of a cycle list in
-- backend/internal/application/workspace/cycle_use_cases.go.
use cycle.Base.{
  ℕ, Bool, false, not, ◌&&◌, ◌||◌, Option, none, some, List, [], ◌∷◌, length, text_lt, int_eq,
  int_lt, ltb, leb, ◌==◌, if◌then◌else◌, Result, ok, err, ◌>>◌, fail_if,
}
use cycle.GoStrings.{codes}
use cycle.Identifier.{is_canonical_uuid_v7}
use cycle.Domain.Cycle
use cycle.Domain.Cycle.{
  Time, CancellationReason, is_set, is_valid_cancellation_reason, parse_review_date,
  max_frame_code_points,
}
use cycle.Application.Errors.{AppError, cycle_invariant}
use cycle.Application.Views.{CycleSummary, CycleFramePreview, CycleLearningPreview}
use cycle.Application.GoalChecks.{not_positive}
use cycle.Application.CycleChecks.{
  is_zero_time, validate_cycle_summary_status_times, validate_cycle_goal_version,
}

abbrev pub cycle_summary_preview_max_code_points : ℕ
cycle_summary_preview_max_code_points = 120

valid_cycle_frame_preview : CycleFramePreview → Bool
valid_cycle_frame_preview preview =
    leb (length preview.text) cycle_summary_preview_max_code_points
    && (not preview.truncated || length preview.text == cycle_summary_preview_max_code_points)

check_learning_preview : Option CycleLearningPreview → Result AppError (Unit {0})
unfolding valid_cycle_frame_preview
check_learning_preview none =
    err (cycle_invariant "terminal Cycle summary is missing its learning preview")
check_learning_preview (some preview) =
    fail_if
      (not (valid_cycle_frame_preview preview.check)
        || not (valid_cycle_frame_preview preview.action))
      (cycle_invariant "terminal Cycle summary learning preview is invalid")

unfoldable pub validate_cycle_summary_previews : CycleSummary → Result AppError (Unit {0})
unfolding check_learning_preview
validate_cycle_summary_previews row = do
  fail_if (ltb cycle_summary_preview_max_code_points (length row.plan_preview))
      (cycle_invariant "Cycle Plan preview exceeds the bounded summary limit")
  let checked = check_learning_preview row.learning_preview
  if Cycle.is_active row.status
      then fail_if (is_set row.learning_preview)
          (cycle_invariant "active Cycle summary exposes a learning preview")
      else checked

-- The later sequence number first, then the greater identifier.
unfoldable pub cycle_summary_follows : CycleSummary → CycleSummary → Bool
cycle_summary_follows previous current =
    if not (int_eq current.sequence_number previous.sequence_number)
    then int_lt current.sequence_number previous.sequence_number
    else text_lt (codes current.id) (codes previous.id)

-- `index > 0 && !cycleSummaryFollows(rows[index-1], row)`.
unfoldable pub out_of_order : Option CycleSummary → CycleSummary → Bool
unfolding cycle_summary_follows
out_of_order none row = false
out_of_order (some previous) row = not (cycle_summary_follows previous row)

unfoldable pub validate_summaries_after :
    Option CycleSummary → List CycleSummary → Result AppError (Unit {0})
unfolding out_of_order
validate_summaries_after previous [] = ok tt
validate_summaries_after previous (row ∷ rest) = do
  fail_if
      (not (is_canonical_uuid_v7 row.id)
        || not_positive row.sequence_number
        || is_zero_time row.started_at)
      (cycle_invariant "Cycle query row metadata is incomplete")
  validate_cycle_summary_status_times row.status row.completed_at row.canceled_at
      row.cancellation_reason
  validate_cycle_summary_previews row
  validate_cycle_goal_version row.goal_version
  fail_if (out_of_order previous row) (cycle_invariant "Cycle query rows are not in stable order")
  validate_summaries_after (some row) rest

unfoldable pub validate_cycle_summaries : List CycleSummary → Result AppError (Unit {0})
unfolding validate_summaries_after
validate_cycle_summaries rows = validate_summaries_after none rows
