-- ===== src/Application/CycleResults.antt =====
-- The checks of the results of Complete Cycle and Replan Cycle, and of their receipts, in
-- backend/internal/application/workspace/cycle_use_cases.go.
use cycle.Base.{
  ℤ, Bool, true, false, not, ◌&&◌, ◌||◌, Option, none, some, String, text_eq, str_eq, int_eq, inc64,
  inc32, if◌then◌else◌, Result, ok, ◌>>◌, fail_if, is_ok,
}
use cycle.GoStrings.{is_empty}
use cycle.Domain.Cycle
use cycle.Domain.Cycle.{CancellationReason, is_set, optional_text_eq}
use cycle.Domain.Goal.{ReplanResult, is_active_cycle, is_goal_review, is_review, differs_from}
use cycle.Application.Errors.{AppError, cycle_invariant, idempotency_key_reused, is_missing}
use cycle.Application.Views.{
  CycleView, DraftView, FrameRevisions, CompleteCycleInput, CompleteCycleResult, ReplanCycleInput,
  ReplanCycleResult,
}
use cycle.Application.GoalChecks.{
  is_zero, is_none, is_active_work, is_review_work, validate_goal_current_work,
  goal_version_views_equal,
}
use cycle.Application.CycleChecks.{validate_cycle_view, is_replanned}
use cycle.Application.CycleTx.{CompleteCycleReceipt, ReplanCycleReceipt}

-- `err != nil` of a check.
abbrev pub fails : Result AppError (Unit {0}) → Bool
fails r = not (is_ok r)

abbrev pub is_completed : Cycle.Status → Bool
is_completed Cycle.Status.completed = true
is_completed _ = false

abbrev pub is_canceled : Cycle.Status → Bool
is_canceled Cycle.Status.canceled = true
is_canceled _ = false

-- A test of what a pointer holds; `nil` fails it.
abbrev pub holds {ℓ} : {A : Type ℓ} → Option A → (A → Bool) → Bool
holds none p = false
holds (some a) p = p a

unfoldable pub validate_complete_cycle_receipt :
    Option CompleteCycleReceipt → CompleteCycleInput → String → Result AppError (Unit {0})
validate_complete_cycle_receipt none input request_hash = ok tt
validate_complete_cycle_receipt (some receipt) input request_hash =
    fail_if
      (not (str_eq receipt.goal_id input.goal_id)
        || not (str_eq receipt.cycle_id input.cycle_id)
        || not (str_eq receipt.request_hash request_hash))
      idempotency_key_reused

unfoldable pub validate_replan_cycle_receipt :
    Option ReplanCycleReceipt → ReplanCycleInput → String → Result AppError (Unit {0})
validate_replan_cycle_receipt none input request_hash = ok tt
validate_replan_cycle_receipt (some receipt) input request_hash =
    fail_if
      (not (str_eq receipt.goal_id input.goal_id)
        || not (str_eq receipt.request_hash request_hash)
        || not (str_eq receipt.replanned_cycle_id input.cycle_id)
        || str_eq receipt.cycle_id ""
        || not (is_replanned receipt.replanned_cancellation_reason))
      idempotency_key_reused

-- `completeCycleMaterializationError` and `replanCycleMaterializationError`.
unfoldable pub materialization_error : String → AppError → AppError
materialization_error resource e = if is_missing e then cycle_invariant resource else e

no_frame_revisions : FrameRevisions → Bool
no_frame_revisions r = is_zero r.plan && is_zero r.do_ && is_zero r.check && is_zero r.action

unfoldable pub validate_replan_cycle_pair :
    CycleView → CycleView → String → String → Result AppError (Unit {0})
validate_replan_cycle_pair canceled next goal_id canceled_cycle_id =
    fail_if
      (fails (validate_cycle_view canceled goal_id canceled_cycle_id)
        || fails (validate_cycle_view next goal_id next.id)
        || not (is_canceled canceled.status)
        || not (is_replanned canceled.cancellation_reason)
        || is_none canceled.canceled_at
        || not (int_eq next.sequence_number (inc32 canceled.sequence_number))
        || not (goal_version_views_equal next.goal_version canceled.goal_version))
      (cycle_invariant "Replan Cycle pair is inconsistent")

unfoldable pub validate_fresh_replan_cycle_result :
    ReplanCycleResult → ReplanResult → ReplanCycleInput → Result AppError (Unit {0})
unfolding no_frame_revisions
validate_fresh_replan_cycle_result result replanned input = do
  validate_replan_cycle_pair result.canceled_cycle result.next input.goal_id input.cycle_id
  fail_if
      (not (str_eq result.next.id replanned.next.id)
        || not (Cycle.is_active result.next.status)
        || not (is_zero result.next.content_revision)
        || not (no_frame_revisions result.next.frame_revisions)
        || not (is_empty result.next.plan)
        || not (is_empty result.next.do_)
        || not (is_empty result.next.check)
        || not (is_empty result.next.action)
        || is_set result.next.review_date
        || not (is_zero result.next.review_schedule_revision)
        || is_set result.next.previous_completed_cycle_action
        || not (
            int_eq result.canceled_cycle.review_schedule_revision
              replanned.canceled.review_schedule_revision)
        || not (optional_text_eq result.canceled_cycle.review_date replanned.canceled.review_date)
        || not (str_eq result.goal.id input.goal_id)
        || not (is_active_cycle result.goal.status)
        || not (int_eq result.goal.revision (inc64 input.expected_goal_revision))
        || not (goal_version_views_equal result.goal.current_version result.next.goal_version)
        || not (int_eq result.goal.next_cycle_sequence_number (inc32 result.next.sequence_number))
        || fails (validate_goal_current_work result.goal)
        || not (
            holds result.goal.current_work (λ work.
              is_active_work work.kind
              && str_eq work.cycle_id result.next.id
              && int_eq work.cycle_sequence_number result.next.sequence_number)))
      (cycle_invariant "fresh Replan Cycle response is inconsistent")

unfoldable pub validate_replan_cycle_replay :
    ReplanCycleResult → ReplanCycleReceipt → Result AppError (Unit {0})
validate_replan_cycle_replay result receipt = do
  fail_if
      (not result.replayed
        || not (str_eq result.goal.id receipt.goal_id)
        || not (str_eq result.next.id receipt.cycle_id)
        || fails (validate_goal_current_work result.goal))
      (cycle_invariant "Replan Cycle replay Goal is inconsistent")
  fail_if
      (Cycle.is_active result.next.status
        && (not (is_active_cycle result.goal.status)
            || not (
                holds result.goal.current_work (λ work.
                  str_eq work.cycle_id result.next.id
                  && int_eq work.cycle_sequence_number result.next.sequence_number))))
      (cycle_invariant "active Replan Cycle replay is not the current Goal work")
  validate_replan_cycle_pair result.canceled_cycle result.next receipt.goal_id
      receipt.replanned_cycle_id

-- What the draft of a completed cycle refers to.
draft_refers : DraftView → String → CycleView → String → Bool
draft_refers draft goal_id completed cycle_id =
    is_review draft.draft_type
    && not (differs_from draft.goal_id goal_id)
    && not (differs_from draft.review_cycle_id cycle_id)
    && not (differs_from draft.base_goal_version_id completed.goal_version.id)
    && optional_text_eq draft.success_signal completed.goal_version.success_signal

unfoldable pub validate_completed_cycle_result :
    CompleteCycleResult → DraftView → String → String → String → ℤ → Result AppError (Unit {0})
unfolding draft_refers
validate_completed_cycle_result result draft goal_id cycle_id draft_id expected_goal_revision = do
  fail_if
      (fails (validate_cycle_view result.completed_cycle goal_id cycle_id)
        || not (is_completed result.completed_cycle.status)
        || is_none result.completed_cycle.completed_at)
      (cycle_invariant "completed Cycle response is inconsistent")
  fail_if
      (not (str_eq result.goal.id goal_id)
        || not (int_eq result.goal.revision (inc64 expected_goal_revision))
        || not (
            goal_version_views_equal result.goal.current_version
              result.completed_cycle.goal_version)
        || fails (validate_goal_current_work result.goal)
        || not (is_goal_review result.goal.status)
        || not (
            holds result.goal.current_work (λ work.
              is_review_work work.kind
              && str_eq work.review_draft_id draft_id
              && str_eq work.trigger_cycle_id cycle_id
              && int_eq work.trigger_cycle_sequence_number result.completed_cycle.sequence_number)))
      (cycle_invariant "reviewing Goal response is inconsistent")
  fail_if
      (not (str_eq draft.id draft_id)
        || not (draft_refers draft goal_id result.completed_cycle cycle_id)
        || not (text_eq draft.body result.completed_cycle.goal_version.body)
        || not (is_zero draft.revision))
      (cycle_invariant "Cycle Review Draft response is inconsistent")

replay_resources_bad : CompleteCycleResult → CompleteCycleReceipt → Bool
replay_resources_bad result receipt =
    not (str_eq result.goal.id receipt.goal_id)
    || fails (validate_goal_current_work result.goal)
    || fails (validate_cycle_view result.completed_cycle receipt.goal_id receipt.cycle_id)
    || not (is_completed result.completed_cycle.status)

-- `validateCompleteCycleReplay`: `some draft` for `hasDraft`.
unfoldable pub validate_complete_cycle_replay :
    CompleteCycleResult → CompleteCycleReceipt → Option DraftView → Result AppError (Unit {0})
unfolding draft_refers replay_resources_bad
validate_complete_cycle_replay result receipt (some draft) = do
  fail_if (replay_resources_bad result receipt)
      (cycle_invariant "Complete Cycle replay resources are inconsistent")
  fail_if
      (is_set result.replay
        || not (draft_refers draft receipt.goal_id result.completed_cycle receipt.cycle_id)
        || not (is_goal_review result.goal.status)
        || not (
            holds result.goal.current_work (λ work.
              str_eq work.review_draft_id draft.id
              && str_eq work.trigger_cycle_id receipt.cycle_id)))
      (cycle_invariant "Complete Cycle replay Draft is inconsistent")
validate_complete_cycle_replay result receipt none = do
  fail_if (replay_resources_bad result receipt)
      (cycle_invariant "Complete Cycle replay resources are inconsistent")
  fail_if
      (is_goal_review result.goal.status
        && holds result.goal.current_work (λ work. str_eq work.trigger_cycle_id receipt.cycle_id))
      (cycle_invariant "current Cycle Review Draft is missing")
  fail_if
      (result.replayed
        || not (
            holds result.replay (λ replay.
              str_eq replay.goal_id receipt.goal_id && str_eq replay.cycle_id receipt.cycle_id)))
      (cycle_invariant "Complete Cycle replay response is inconsistent")
