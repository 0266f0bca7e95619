-- ===== src/Application/CycleCommands/Edits.antt =====
-- `SaveFrame` and `ChangeReviewSchedule` of
-- backend/internal/application/workspace/cycle_use_cases.go.
use cycle.Base.{ℤ, Bool, false, not, ◌||◌, String, str_eq, if◌then◌else◌, map_err}
use cycle.Domain.Cycle
use cycle.Domain.Cycle.{PdcaCycle, Frame, Time, frame_eq, frame_revision}
use cycle.Domain.Goal.{is_active_cycle}
use cycle.Application.Errors.{cycle_invariant, goal_state_conflict, of_cycle}
use cycle.Application.Views.{CycleView, SaveFrameInput, SaveFrameResult, ChangeReviewScheduleInput}
use cycle.Application.CycleChecks.{validate_cycle_view}
use cycle.Application.CycleTx.{CycleTx, require_cycle_rows}
use cycle.Application.Tx.{Tx, pure, lift, ◌>>=◌, ◌>>◌, fail_when, within, require_rows}

-- The locked cycle is not the one that the command names.
abbrev pub is_other_cycle : PdcaCycle → String → String → String → Bool
is_other_cycle current user_id goal_id cycle_id =
    not (str_eq current.user_id user_id)
    || not (str_eq current.goal_id goal_id)
    || not (str_eq current.id cycle_id)

module _ {S : Type 0} (tx : CycleTx S) where
  -- Only the action frame is written by the AI.
  unfoldable pub running_for : Frame → String → String → String → Tx S Bool
  running_for frame user_id goal_id cycle_id =
      if frame_eq frame Frame.action
      then tx.has_running_cycle_generation user_id goal_id cycle_id
      else pure false

  unfoldable pub store_frame : Cycle.SaveFrameResult → ℤ → Tx S (Unit {0})
  unfolding require_rows
  store_frame saved expected = if saved.no_op then pure tt else do
    rows ← tx.save_cycle_frame_cas saved.saved saved.frame expected
    require_cycle_rows "save Cycle frame" rows 1

  unfoldable pub save_frame_in : SaveFrameInput → Time → Tx S SaveFrameResult
  unfolding running_for store_frame
  save_frame_in input now = do
    locked_goal ← tx.lock_goal input.user_id input.goal_id
    current ← tx.lock_cycle input.user_id input.goal_id input.cycle_id
    fail_when (is_other_cycle current input.user_id input.goal_id input.cycle_id)
        (cycle_invariant "locked Cycle target does not match the command")
    fail_when (not (is_active_cycle locked_goal.status)) goal_state_conflict
    ai_running ← running_for input.frame input.user_id input.goal_id input.cycle_id
    saved ← lift (
        map_err of_cycle (
          Cycle.save_frame current input.frame input.content input.expected_frame_revision
            ai_running now))
    store_frame saved input.expected_frame_revision
    pure (record {
      cycle_id = saved.saved.id;
      frame = saved.frame;
      content = saved.content;
      frame_revision = frame_revision saved.saved saved.frame;
      content_revision = saved.saved.revisions.content;
      saved_at = saved.saved_at;
    })

  unfoldable pub save_frame : SaveFrameInput → Time → Tx S SaveFrameResult
  unfolding save_frame_in within
  save_frame input now = within tx.pool (save_frame_in input now)

  unfoldable pub store_schedule : Cycle.ChangeReviewScheduleResult → ℤ → Tx S (Unit {0})
  unfolding require_rows
  store_schedule changed expected = if changed.no_op then pure tt else do
    rows ← tx.save_cycle_review_schedule_cas changed.changed expected
    require_cycle_rows "change Cycle review schedule" rows 1

  unfoldable pub change_review_schedule_in : ChangeReviewScheduleInput → Tx S CycleView
  unfolding store_schedule
  change_review_schedule_in input = do
    locked_goal ← tx.lock_goal input.user_id input.goal_id
    current ← tx.lock_cycle input.user_id input.goal_id input.cycle_id
    fail_when (is_other_cycle current input.user_id input.goal_id input.cycle_id)
        (cycle_invariant "locked Cycle target does not match the review schedule command")
    fail_when (not (is_active_cycle locked_goal.status)) goal_state_conflict
    changed ← lift (
        map_err of_cycle (
          Cycle.change_review_schedule current input.review_date
            input.expected_review_schedule_revision))
    store_schedule changed input.expected_review_schedule_revision
    view ← tx.load_cycle_view input.user_id input.goal_id input.cycle_id
    lift (validate_cycle_view view input.goal_id input.cycle_id)
    pure view

  unfoldable pub change_review_schedule : ChangeReviewScheduleInput → Tx S CycleView
  unfolding change_review_schedule_in within
  change_review_schedule input = within tx.pool (change_review_schedule_in input)
