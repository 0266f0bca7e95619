-- ===== src/Tests/ScheduleTests.antt =====
-- `ChangeReviewSchedule` run on a small database.
use cycle.Base.{◌≡◌, refl, true, some, Result, is_ok, inc64, add64, text_eq}
use cycle.GoStrings.{codes, byte_length}
use cycle.Identifier.{is_canonical_uuid_v7}
use cycle.Domain.Cycle
use cycle.Domain.ReviewDate
use cycle.Application.Errors.{AppError}
use cycle.Application.Views.{ChangeReviewScheduleInput, CycleView}
use cycle.Application.Tx.{within, begun, finish, committed, require_rows}
use cycle.Application.CycleChecks.{
  validate_cycle_view, validate_cycle_status_times, validate_cycle_goal_version,
  validate_previous_completed_cycle_action, status_times_error,
}
use cycle.Application.CycleCommands
use cycle.Application.CycleLaws.Schedule.{ScheduleChanged, change_review_schedule-ScheduleChanged}
use cycle.Tests.Store.{Db, store}
use cycle.Tests.CommandTests.{db, schedule_input, result_of, ran_ok}

abbrev dated : ChangeReviewScheduleInput
dated = record schedule_input { review_date = some (codes "2030-01-02") }

abbrev dated_run : Result AppError CycleView × Db
dated_run = CycleCommands.change_review_schedule store dated db

dated_run-is_ok : is_ok dated_run.0 ≡ true
unfolding CycleCommands.change_review_schedule CycleCommands.change_review_schedule_in
    CycleCommands.store_schedule Cycle.change_review_schedule Cycle.parse_review_date
    ReviewDate.format ReviewDate.is_date ReviewDate.parse byte_length Cycle.new inc64
    validate_cycle_view validate_cycle_status_times validate_cycle_goal_version status_times_error
    validate_previous_completed_cycle_action is_canonical_uuid_v7 committed finish begun
    require_rows within text_eq add64
dated_run-is_ok = refl

change_review_schedule-ScheduleChanged_example :
    ScheduleChanged store dated db (result_of dated_run.0 dated_run-is_ok) dated_run.1
change_review_schedule-ScheduleChanged_example =
    change_review_schedule-ScheduleChanged store dated db (ran_ok dated_run dated_run-is_ok)
