-- ===== src/Application/GoalChecks.antt =====
-- The checks of goal views in backend/internal/application/workspace/goal_use_cases.go and
-- review_transition_use_cases.go.
use cycle.Base.{
  ℤ, pos, Bool, true, false, not, ◌&&◌, Option, none, some, Text, text_eq, str_eq, int_eq, int_le,
  is_negative, ◌==◌, Result, err, fail_if, is_ok,
}
use cycle.Domain.Cycle.{parse_review_date, optional_text_eq}
use cycle.Domain.Goal
use cycle.Application.Errors.{AppError, goal_invariant}
use cycle.Application.Views.{
  GoalVersionView, GoalView, CurrentWorkView, ReviewScheduleView, WorkKind,
}

abbrev pub is_zero : ℤ → Bool
is_zero n = int_eq n (pos 0)

-- `n <= 0`.
abbrev pub not_positive : ℤ → Bool
not_positive n = int_le n (pos 0)

abbrev pub is_active_work : WorkKind → Bool
is_active_work WorkKind.active_cycle = true
is_active_work _ = false

abbrev pub is_review_work : WorkKind → Bool
is_review_work WorkKind.goal_review = true
is_review_work _ = false

valid_date : ℤ → Option Text → Bool
valid_date revision none = true
valid_date revision (some date) = not (is_zero revision) && is_ok (parse_review_date date)

valid_review_schedule_view : Option ReviewScheduleView → Bool
unfolding valid_date
valid_review_schedule_view none = false
valid_review_schedule_view (some view) =
    not (is_negative view.review_schedule_revision)
    && valid_date view.review_schedule_revision view.review_date

abbrev pub is_none {ℓ} : {A : Type ℓ} → Option A → Bool
is_none none = true
is_none (some a) = false

valid_active_work : Option CurrentWorkView → Bool
unfolding valid_review_schedule_view
valid_active_work none = false
valid_active_work (some work) =
    is_active_work work.kind
    && not (str_eq work.cycle_id "")
    && not (not_positive work.cycle_sequence_number)
    && str_eq work.review_draft_id ""
    && str_eq work.trigger_cycle_id ""
    && is_zero work.trigger_cycle_sequence_number
    && valid_review_schedule_view work.review_schedule

valid_review_work : Option CurrentWorkView → Bool
valid_review_work none = false
valid_review_work (some work) =
    is_review_work work.kind
    && not (str_eq work.review_draft_id "")
    && not (str_eq work.trigger_cycle_id "")
    && not (not_positive work.trigger_cycle_sequence_number)
    && str_eq work.cycle_id ""
    && is_zero work.cycle_sequence_number
    && is_none work.review_schedule

-- The `switch` on the status.
current_work_error : Goal.Status → Option CurrentWorkView → Result AppError (Unit {0})
unfolding valid_active_work valid_review_work
current_work_error Goal.Status.active_cycle work =
    fail_if (not (valid_active_work work)) (goal_invariant "active Goal current work is invalid")
current_work_error Goal.Status.goal_review work =
    fail_if (not (valid_review_work work)) (goal_invariant "review Goal current work is invalid")
current_work_error Goal.Status.achieved work =
    fail_if (not (is_none work)) (goal_invariant "terminal Goal has current work")
current_work_error Goal.Status.ended work =
    fail_if (not (is_none work)) (goal_invariant "terminal Goal has current work")
current_work_error Goal.Status.unknown work = err (goal_invariant "Goal status is invalid")

unfoldable pub validate_goal_current_work : GoalView → Result AppError (Unit {0})
unfolding current_work_error
validate_goal_current_work view = current_work_error view.status view.current_work

unfoldable pub goal_version_views_equal : GoalVersionView → GoalVersionView → Bool
goal_version_views_equal first second =
    str_eq first.id second.id
    && int_eq first.version_number second.version_number
    && text_eq first.body second.body
    && optional_text_eq first.success_signal second.success_signal
    && first.created_at == second.created_at
