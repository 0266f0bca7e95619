-- ===== src/Application/CycleChecks.antt =====
-- The checks of cycle views in backend/internal/application/workspace/cycle_use_cases.go.
use cycle.Base.{
  pos, Bool, true, false, not, ◌||◌, Option, none, some, Text, String, length, str_eq, int_eq,
  int_lt, is_negative, dec32, add64, ltb, ◌==◌, if◌then◌else◌, Result, err, ◌>>◌, fail_if, is_ok,
}
use cycle.Identifier.{is_canonical_uuid_v7}
use cycle.Domain.Cycle
use cycle.Domain.Cycle.{
  Time, CancellationReason, is_set, is_valid_cancellation_reason, parse_review_date,
  max_frame_code_points,
}
use cycle.Application.Errors.{AppError, cycle_invariant}
use cycle.Application.Views.{
  GoalVersionView, CycleView, CyclePredecessorView, PreviousCompletedCycleActionView,
}
use cycle.Application.GoalChecks.{is_none, not_positive}

-- `time.Time.IsZero`.
abbrev pub is_zero_time : Time → Bool
is_zero_time t = t == 0

-- `reason == nil || !IsValidCancellationReason(*reason)`.
abbrev bad_reason : Option CancellationReason → Bool
bad_reason none = true
bad_reason (some reason) = not (is_valid_cancellation_reason reason)

-- The same `switch` twice in the source, with the noun of its messages.
unfoldable pub status_times_error :
    String
    → String
    → String
    → Cycle.Status
    → Option Time
    → Option Time
    → Option CancellationReason
    → Result AppError (Unit {0})
status_times_error on_active on_completed on_canceled Cycle.Status.active completed_at canceled_at
      reason =
    fail_if (is_set completed_at || is_set canceled_at || is_set reason) (cycle_invariant on_active)
status_times_error on_active on_completed on_canceled Cycle.Status.completed completed_at
      canceled_at reason =
    fail_if (is_none completed_at || is_set canceled_at || is_set reason)
      (cycle_invariant on_completed)
status_times_error on_active on_completed on_canceled Cycle.Status.canceled completed_at canceled_at
      reason =
    fail_if (is_set completed_at || is_none canceled_at || bad_reason reason)
      (cycle_invariant on_canceled)
status_times_error on_active on_completed on_canceled Cycle.Status.unknown completed_at canceled_at
      reason =
    err (cycle_invariant "Cycle status is invalid")

unfoldable pub validate_cycle_summary_status_times :
    Cycle.Status
    → Option Time
    → Option Time
    → Option CancellationReason
    → Result AppError (Unit {0})
unfolding status_times_error
validate_cycle_summary_status_times =
    status_times_error "active Cycle summary has terminal metadata"
      "completed Cycle summary terminal metadata is invalid"
      "canceled Cycle summary terminal metadata is invalid"

unfoldable pub validate_cycle_status_times :
    Cycle.Status
    → Option Time
    → Option Time
    → Option CancellationReason
    → Result AppError (Unit {0})
unfolding status_times_error
validate_cycle_status_times =
    status_times_error "active Cycle has terminal metadata"
      "completed Cycle terminal metadata is invalid" "canceled Cycle terminal metadata is invalid"

unfoldable pub validate_cycle_goal_version : GoalVersionView → Result AppError (Unit {0})
validate_cycle_goal_version version =
    fail_if
      (not (is_canonical_uuid_v7 version.id)
        || not_positive version.version_number
        || is_zero_time version.created_at)
      (cycle_invariant "Cycle Goal Version is incomplete")

-- The reference to the previous action that a completed predecessor asks for.
bad_previous : CyclePredecessorView → Option PreviousCompletedCycleActionView → Bool
bad_previous predecessor none = true
bad_previous predecessor (some previous) =
    not (str_eq previous.cycle_id predecessor.cycle_id)
    || not (int_eq previous.cycle_sequence_number predecessor.cycle_sequence_number)
    || not (int_eq previous.goal_version_number predecessor.goal_version_number)
    || Cycle.is_blank previous.action
    || ltb max_frame_code_points (length previous.action)

abbrev pub is_replanned : Option CancellationReason → Bool
is_replanned (some CancellationReason.replanned) = true
is_replanned _ = false

-- The `switch` on the predecessor's status.
predecessor_error : CycleView → CyclePredecessorView → Cycle.Status → Result AppError (Unit {0})
unfolding bad_previous
predecessor_error view predecessor Cycle.Status.completed =
    fail_if
      (is_set predecessor.cancellation_reason
        || bad_previous predecessor view.previous_completed_cycle_action)
      (cycle_invariant "active Cycle previous completed Action is inconsistent")
predecessor_error view predecessor Cycle.Status.canceled =
    fail_if
      (not (is_replanned predecessor.cancellation_reason)
        || not (int_eq predecessor.goal_version_number view.goal_version.version_number)
        || is_set view.previous_completed_cycle_action)
      (cycle_invariant "active Cycle replanned predecessor is inconsistent")
predecessor_error view predecessor _ =
    err (cycle_invariant "active Cycle predecessor status is invalid")

check_predecessor : CycleView → Option CyclePredecessorView → Result AppError (Unit {0})
unfolding predecessor_error
check_predecessor view none = err (cycle_invariant "active Cycle predecessor is inconsistent")
check_predecessor view (some predecessor) = do
  fail_if
      (not (is_canonical_uuid_v7 predecessor.cycle_id)
        || str_eq predecessor.cycle_id view.id
        || not (int_eq predecessor.cycle_sequence_number (dec32 view.sequence_number))
        || not_positive predecessor.goal_version_number
        || int_lt view.goal_version.version_number predecessor.goal_version_number
        || int_lt predecessor.goal_version_number (dec32 view.goal_version.version_number))
      (cycle_invariant "active Cycle predecessor is inconsistent")
  predecessor_error view predecessor predecessor.status

unfoldable pub validate_previous_completed_cycle_action : CycleView → Result AppError (Unit {0})
unfolding check_predecessor
validate_previous_completed_cycle_action view =
    let checked = check_predecessor view view.predecessor in
    if not (Cycle.is_active view.status) || int_eq view.sequence_number (pos 1)
    then fail_if (is_set view.previous_completed_cycle_action || is_set view.predecessor)
        (cycle_invariant "Cycle must not expose a previous completed Action")
    else checked

-- A review date that is there must parse.
bad_date : Option Text → Bool
bad_date none = false
bad_date (some date) = not (is_ok (parse_review_date date))

unfoldable pub validate_cycle_view : CycleView → String → String → Result AppError (Unit {0})
unfolding bad_date
validate_cycle_view view goal_id cycle_id = do
  fail_if
      (not (str_eq view.id cycle_id)
        || not (str_eq view.goal_id goal_id)
        || not_positive view.sequence_number
        || is_zero_time view.started_at
        || is_negative view.content_revision
        || is_negative view.review_schedule_revision
        || is_negative view.frame_revisions.plan
        || is_negative view.frame_revisions.do_
        || is_negative view.frame_revisions.check
        || is_negative view.frame_revisions.action)
      (cycle_invariant "Cycle view metadata is inconsistent")
  fail_if (bad_date view.review_date) (cycle_invariant "Cycle review date is invalid")
  let r = view.frame_revisions
  fail_if (not (int_eq view.content_revision (add64 (add64 (add64 r.plan r.do_) r.check) r.action)))
      (cycle_invariant "Cycle content revision does not match frame revisions")
  validate_cycle_status_times view.status view.completed_at view.canceled_at
      view.cancellation_reason
  validate_cycle_goal_version view.goal_version
  validate_previous_completed_cycle_action view
