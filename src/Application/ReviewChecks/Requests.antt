-- ===== src/Application/ReviewChecks/Requests.antt =====
-- The checks of the input of `Terminate` and of the receipts, in
-- backend/internal/application/workspace/review_transition_use_cases.go.
use cycle.Base.{
  not, ◌||◌, Option, none, some, String, str_eq, if◌then◌else◌, Result, ok, err, ◌>>◌, fail_if,
}
use cycle.Domain.Cycle.{is_set}
use cycle.Domain.Goal
use cycle.Domain.Goal.{is_terminal}
use cycle.Application.Errors.{
  AppError, invalid_goal_outcome, invalid_termination_request, idempotency_key_reused,
  review_invariant, is_missing,
}
use cycle.Application.GoalChecks.{is_none}
use cycle.Application.ReviewTx.{
  ContinueReviewReceipt, GoalTerminationReceipt, ContinueReviewInput, TerminateInput,
}

-- The `switch` on the expected state.
expected_state_error : TerminateInput → Goal.Status → Result AppError (Unit {0})
expected_state_error input Goal.Status.active_cycle =
    fail_if
      (str_eq input.active_cycle_id ""
        || is_none input.expected_cycle_content_revision
        || input.confirm_discard_review_draft)
      invalid_termination_request
expected_state_error input Goal.Status.goal_review =
    fail_if (not (str_eq input.active_cycle_id "") || is_set input.expected_cycle_content_revision)
      invalid_termination_request
expected_state_error input _ = err invalid_termination_request

unfoldable pub validate_termination_input : TerminateInput → Result AppError (Unit {0})
unfolding expected_state_error
validate_termination_input input = do
  fail_if (not (is_terminal input.outcome)) invalid_goal_outcome
  expected_state_error input input.expected_state

unfoldable pub validate_continue_review_receipt :
    Option ContinueReviewReceipt → ContinueReviewInput → String → Result AppError (Unit {0})
validate_continue_review_receipt none input request_hash = ok tt
validate_continue_review_receipt (some receipt) input request_hash =
    fail_if
      (not (str_eq receipt.goal_id input.goal_id)
        || not (str_eq receipt.request_hash request_hash)
        || str_eq receipt.cycle_id "")
      idempotency_key_reused

unfoldable pub validate_goal_termination_receipt :
    Option GoalTerminationReceipt → TerminateInput → String → Result AppError (Unit {0})
validate_goal_termination_receipt none input request_hash = ok tt
validate_goal_termination_receipt (some receipt) input request_hash =
    fail_if
      (not (str_eq receipt.goal_id input.goal_id) || not (str_eq receipt.request_hash request_hash))
      idempotency_key_reused

-- `reviewTransitionMaterializationError`, with its whole message.
unfoldable pub materialization_error : String → AppError → AppError
materialization_error detail e = if is_missing e then review_invariant detail else e
