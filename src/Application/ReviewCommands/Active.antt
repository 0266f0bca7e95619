-- ===== src/Application/ReviewCommands/Active.antt =====
-- `terminateActiveCycle` of backend/internal/application/workspace/review_transition_use_cases.go.
use cycle.Base.{ℤ, pos, false, not, Option, none, some, String, int_eq, map_err}
use cycle.Domain.Cycle
use cycle.Domain.Cycle.{PdcaCycle, Time}
use cycle.Domain.Goal
use cycle.Domain.Goal.{Goal}
use cycle.Application.Errors.{
  AppError, cycle_not_found, not_found, review_invariant, goal_state_conflict, ai_in_progress,
  of_cycle, of_goal,
}
use cycle.Application.CycleCommands.{is_other_cycle}
use cycle.Application.Tx.{
  Tx, pure, lift, ◌>>=◌, ◌>>◌, fail_when, require_rows, or_error, truncate_microsecond,
}
use cycle.Application.ReviewTx.{ReviewTx, TerminateInput, TerminateResult, require_review_rows}
use cycle.Application.ReviewChecks.{
  materialization_error, cancellation_reason_of, validate_fresh_termination_result,
}

-- A cycle that is not there is a conflict: the goal's state is not the expected one.
abbrev pub cycle_error : AppError → AppError
cycle_error not_found = goal_state_conflict
cycle_error cycle_not_found = goal_state_conflict
cycle_error e = e

-- `*input.ExpectedCycleContentRevision`: the input has passed `validate_termination_input`.
abbrev pub expected_revision_of : Option ℤ → ℤ
expected_revision_of none = pos 0
expected_revision_of (some revision) = revision

module _ {S : Type 0} (tx : ReviewTx S) where
  -- What is read back after the writes.
  unfoldable pub read_active : TerminateInput → PdcaCycle → Goal → Tx S TerminateResult
  unfolding materialization_error
  read_active input canceled terminated = do
    goal ←
        or_error (tx.load_goal_view input.user_id input.goal_id)
          (materialization_error "terminal Goal disappeared after its parent lock")
    canceled_view ←
        or_error (tx.load_cycle_view input.user_id input.goal_id input.active_cycle_id)
          (materialization_error "canceled Cycle disappeared after its parent lock")
    let result : TerminateResult = record {
      goal = goal;
      canceled_cycle = some canceled_view;
      replayed = false;
    }
    lift (validate_fresh_termination_result result input terminated (some canceled) none)
    pure result

  -- The writes and what is read back.
  unfoldable pub write_active_termination : TerminateInput → PdcaCycle → Goal → Tx S TerminateResult
  unfolding require_rows read_active
  write_active_termination input canceled terminated = do
    rows ← tx.cancel_cycle_cas canceled (expected_revision_of input.expected_cycle_content_revision)
    require_review_rows "cancel active Cycle" rows 1
    rows ← tx.terminate_goal_cas terminated input.expected_goal_revision
    require_review_rows "terminate active Goal" rows 1
    read_active input canceled terminated

  -- What the domain makes of the locked goal and cycle, and the writes.
  unfoldable pub terminate_current :
      TerminateInput → String → Time → Goal → PdcaCycle → Tx S TerminateResult
  unfolding write_active_termination
  terminate_current input request_hash now locked_goal current = do
    canceled ← lift (
        map_err of_cycle
          (Cycle.cancel current (cancellation_reason_of input.outcome) (truncate_microsecond now)))
    terminated ← lift (
        map_err of_goal (
          Goal.terminate locked_goal input.outcome input.operation_id request_hash
            (truncate_microsecond now)))
    write_active_termination input canceled terminated

  unfoldable pub terminate_active_cycle :
      TerminateInput → String → Time → Goal → Tx S TerminateResult
  unfolding terminate_current
  terminate_active_cycle input request_hash now locked_goal = do
    current ← or_error (tx.lock_cycle input.user_id input.goal_id input.active_cycle_id) cycle_error
    fail_when (is_other_cycle current input.user_id input.goal_id input.active_cycle_id)
        (review_invariant "locked active Cycle does not match termination")
    fail_when (not (Cycle.is_active current.status)) goal_state_conflict
    fail_when (not (int_eq locked_goal.revision input.expected_goal_revision)) goal_state_conflict
    fail_when
        (not (
          int_eq current.revisions.content
            (expected_revision_of input.expected_cycle_content_revision)))
        (of_cycle Cycle.revision_conflict)
    running ← tx.has_running_goal_generation input.user_id input.goal_id
    fail_when running ai_in_progress
    terminate_current input request_hash now locked_goal current
