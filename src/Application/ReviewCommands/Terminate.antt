-- ===== src/Application/ReviewCommands/Terminate.antt =====
-- `Terminate` of backend/internal/application/workspace/review_transition_use_cases.go.
use cycle.Base.{ℤ, Bool, true, false, not, Option, none, some, String, Result, ok, err}
use cycle.Domain.Cycle.{Time}
use cycle.Domain.Goal
use cycle.Domain.Goal.{Goal, is_terminal, is_active_cycle}
use cycle.Application.Errors.{
  AppError, review_invariant, goal_state_conflict, goal_already_terminal,
}
use cycle.Application.Views.{CycleView}
use cycle.Application.Tx.{Tx, pure, raise, lift, ◌>>=◌, ◌>>◌, fail_when, within, or_error}
use cycle.Application.ReviewTx.{ReviewTx, TerminateInput, TerminateResult, GoalTerminationReceipt}
use cycle.Application.ReviewChecks.{
  validate_termination_input, validate_goal_termination_receipt, validate_termination_result,
  materialization_error, same_goal_status,
}
use cycle.Application.ReviewCommands.Shared.{is_other_goal}
use cycle.Application.ReviewCommands.Active.{terminate_active_cycle}
use cycle.Application.ReviewCommands.Reviewed.{terminate_goal_review}

-- What `terminateRequestHash` hashes.
pub record HashedTermination : Type 0 where
  pub goal_id : String
  pub outcome : Goal.Status
  pub expected_state : Goal.Status
  pub goal_revision : ℤ
  pub active_cycle_id : String
  pub cycle_revision : Option ℤ
  pub confirm_discard_review_draft : Bool

unfoldable pub terminate_request : TerminateInput → HashedTermination
terminate_request input = record {
  goal_id = input.goal_id;
  outcome = input.outcome;
  expected_state = input.expected_state;
  goal_revision = input.expected_goal_revision;
  active_cycle_id = input.active_cycle_id;
  cycle_revision = input.expected_cycle_content_revision;
  confirm_discard_review_draft = input.confirm_discard_review_draft;
}

module _ {S : Type 0} (tx : ReviewTx S) where
  -- A replay of the termination of an active goal reports the cycle that it canceled.
  unfoldable pub replayed_cycle :
      Bool → TerminateInput → GoalTerminationReceipt → Tx S (Option CycleView)
  unfolding materialization_error
  replayed_cycle true input receipt = do
    canceled ← or_error (tx.load_cycle_view input.user_id receipt.goal_id input.active_cycle_id) (
        materialization_error "termination replay canceled Cycle disappeared after its parent lock")
    pure (some canceled)
  replayed_cycle false input receipt = pure none

  unfoldable pub build_goal_termination_replay :
      TerminateInput → GoalTerminationReceipt → Tx S TerminateResult
  unfolding materialization_error replayed_cycle
  build_goal_termination_replay input receipt = do
    goal ←
        or_error (tx.load_goal_view input.user_id receipt.goal_id)
          (materialization_error "termination replay Goal disappeared after its parent lock")
    canceled_cycle ← replayed_cycle (is_active_cycle input.expected_state) input receipt
    let result : TerminateResult = record {
      goal = goal;
      canceled_cycle = canceled_cycle;
      replayed = true;
    }
    lift (validate_termination_result result input true)
    pure result

  -- The `switch` on the locked goal's status, which is the expected one.
  unfoldable pub terminate_state :
      Goal.Status → TerminateInput → String → Time → Goal → Tx S TerminateResult
  unfolding terminate_active_cycle terminate_goal_review
  terminate_state Goal.Status.active_cycle input request_hash now locked_goal =
      terminate_active_cycle tx input request_hash now locked_goal
  terminate_state Goal.Status.goal_review input request_hash now locked_goal =
      terminate_goal_review tx input request_hash now locked_goal
  terminate_state Goal.Status.achieved input request_hash now locked_goal =
      raise goal_state_conflict
  terminate_state Goal.Status.ended input request_hash now locked_goal = raise goal_state_conflict
  terminate_state Goal.Status.unknown input request_hash now locked_goal = raise goal_state_conflict

  -- A receipt replays; without one the goal is terminated.
  unfoldable pub terminate_dispatch :
      Option GoalTerminationReceipt → TerminateInput → String → Time → Goal → Tx S TerminateResult
  unfolding build_goal_termination_replay terminate_state
  terminate_dispatch (some receipt) input request_hash now locked_goal =
      build_goal_termination_replay input receipt
  terminate_dispatch none input request_hash now locked_goal = do
    fail_when (is_terminal locked_goal.status) goal_already_terminal
    fail_when (not (same_goal_status locked_goal.status input.expected_state)) goal_state_conflict
    terminate_state locked_goal.status input request_hash now locked_goal

  unfoldable pub terminate_in :
      (HashedTermination → String) → TerminateInput → Time → Tx S TerminateResult
  unfolding terminate_dispatch terminate_request
  terminate_in hash input now = do
    let request_hash = hash (terminate_request input)
    tx.lock_user input.user_id
    receipt ← tx.find_goal_termination_receipt input.user_id input.operation_id
    lift (validate_goal_termination_receipt receipt input request_hash)
    locked_goal ← tx.lock_goal input.user_id input.goal_id
    fail_when (is_other_goal locked_goal input.user_id input.goal_id)
        (review_invariant "locked Goal target does not match termination")
    terminate_dispatch receipt input request_hash now locked_goal

  -- The input is checked before the transaction begins.
  unfoldable pub terminate_valid :
      Result AppError (Unit {0}) → Tx S TerminateResult → Tx S TerminateResult
  unfolding within
  terminate_valid (err e) operation = raise e
  terminate_valid (ok u) operation = within tx.pool operation

  unfoldable pub terminate :
      (HashedTermination → String) → TerminateInput → Time → Tx S TerminateResult
  unfolding terminate_valid terminate_in validate_termination_input
  terminate hash input now =
      terminate_valid (validate_termination_input input) (terminate_in hash input now)
