-- ===== src/Application/ReviewCommands/Reviewed.antt =====
-- `terminateGoalReview` of backend/internal/application/workspace/review_transition_use_cases.go.
use cycle.Base.{
  false, not, ◌||◌, ◌&&◌, none, some, List, length, String, int_eq, if◌then◌else◌, map_err,
}
use cycle.Domain.Cycle.{Time}
use cycle.Domain.Goal
use cycle.Domain.Goal.{Goal, Version, Draft, GoalError}
use cycle.Application.Errors.{
  AppError, review_invariant, goal_state_conflict, ai_in_progress, discard_confirmation, of_goal,
  is_not_found, is_goal_version_conflict,
}
use cycle.Application.Tx.{
  Tx, pure, lift, ◌>>=◌, ◌>>◌, fail_when, require_rows, or_error, truncate_microsecond,
}
use cycle.Application.ReviewTx.{
  ReviewTx, TerminateInput, TerminateResult, DraftUsageState, require_review_rows,
}
use cycle.Application.ReviewChecks.{
  validate_locked_review_draft, validate_review_current_version, validate_review_generations,
  validate_review_usages, partition_review_usages, materialization_error,
  validate_fresh_termination_result,
}
use cycle.Application.ReviewCommands.Shared.{missing_draft_error}

-- The error that the loading of the current version is reported by.
abbrev pub reviewed_version_error : AppError → AppError
reviewed_version_error e =
    if is_not_found e || is_goal_version_conflict e
    then review_invariant "current Goal Version is missing during Review termination"
    else e

module _ {S : Type 0} (tx : ReviewTx S) where
  -- What is read back after the writes.
  unfoldable pub read_reviewed : TerminateInput → Version → Goal → Tx S TerminateResult
  unfolding materialization_error
  read_reviewed input current_version terminated = do
    goal ←
        or_error (tx.load_goal_view input.user_id input.goal_id)
          (materialization_error "terminal Goal disappeared after its parent lock")
    let result : TerminateResult = record { goal = goal; canceled_cycle = none; replayed = false }
    lift (validate_fresh_termination_result result input terminated none (some current_version))
    pure result

  -- The writes and what is read back.
  unfoldable pub write_reviewed_termination :
      TerminateInput
      → Draft
      → List String
      → Version
      → Time
      → List String × List String
      → Goal
      → Tx S TerminateResult
  unfolding require_rows read_reviewed
  write_reviewed_termination input draft generation_ids current_version now usage_ids terminated =
      do
        rows ← tx.redact_draft_usages_cas input.user_id usage_ids.0
        require_review_rows "redact retained Review usage" rows (length usage_ids.0)
        rows ← tx.delete_expired_finalized_draft_usages_cas input.user_id usage_ids.1 now
        require_review_rows "delete expired Review usage" rows (length usage_ids.1)
        rows ← tx.delete_draft_generations_cas input.user_id draft.id generation_ids
        require_review_rows "delete Review generations" rows (length generation_ids)
        rows ← tx.delete_review_draft_cas input.user_id draft.id draft.revision
        require_review_rows "delete terminal Review Draft" rows 1
        rows ← tx.terminate_goal_cas terminated input.expected_goal_revision
        require_review_rows "terminate reviewed Goal" rows 1
        read_reviewed input current_version terminated

  -- What the domain makes of the locked goal, which usages are kept, and the writes.
  unfoldable pub terminate_reviewed :
      TerminateInput
      → String
      → Time
      → Goal
      → Draft
      → List String
      → List DraftUsageState
      → Version
      → Tx S TerminateResult
  unfolding write_reviewed_termination
  terminate_reviewed input request_hash now locked_goal draft generation_ids usages
        current_version =
      do
        usage_ids ← lift (partition_review_usages generation_ids usages (truncate_microsecond now))
        terminated ← lift (
            map_err of_goal (
              Goal.terminate locked_goal input.outcome input.operation_id request_hash
                (truncate_microsecond now)))
        write_reviewed_termination input draft generation_ids current_version
            (truncate_microsecond now) usage_ids terminated

  -- The draft is locked: its generations, usages and version, and whether it may be discarded.
  unfoldable pub terminate_draft :
      TerminateInput → String → Time → Goal → Draft → Tx S TerminateResult
  unfolding terminate_reviewed
  terminate_draft input request_hash now locked_goal draft = do
    generations ← tx.lock_draft_generations input.user_id draft.id
    checked ← lift (validate_review_generations generations)
    fail_when checked.1 ai_in_progress
    usages ← tx.lock_draft_usages input.user_id checked.0
    lift (validate_review_usages checked.0 usages)
    current_version ←
        or_error
          (tx.load_current_goal_version input.user_id input.goal_id
            locked_goal.current_version_number)
          reviewed_version_error
    lift (
        map_err (λ _. review_invariant "Review Draft base does not match current Goal Version")
          (validate_review_current_version current_version locked_goal input.user_id input.goal_id
            draft))
    changed ← lift (
        map_err (λ _. review_invariant "Review aggregate is inconsistent during termination")
          (Goal.review_draft_differs_from_version locked_goal current_version draft))
    fail_when (changed && not input.confirm_discard_review_draft) discard_confirmation
    terminate_reviewed input request_hash now locked_goal draft checked.0 usages current_version

  unfoldable pub terminate_goal_review :
      TerminateInput → String → Time → Goal → Tx S TerminateResult
  unfolding terminate_draft
  terminate_goal_review input request_hash now locked_goal = do
    draft ←
        or_error (tx.lock_review_draft input.user_id input.goal_id)
          (missing_draft_error "Review Draft is missing during termination")
    lift (validate_locked_review_draft draft input.user_id input.goal_id)
    fail_when (not (int_eq locked_goal.revision input.expected_goal_revision)) goal_state_conflict
    terminate_draft input request_hash now locked_goal draft
