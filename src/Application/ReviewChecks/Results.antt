-- ===== src/Application/ReviewChecks/Results.antt =====
-- The checks of what `ContinueReview` and `Terminate` read back, in
-- backend/internal/application/workspace/review_transition_use_cases.go.
use cycle.Base.{
  ℤ, Bool, true, false, not, ◌&&◌, ◌||◌, ◌==◌, Option, none, some, String, text_eq, str_eq, int_eq,
  inc64, if◌then◌else◌, Result, ok, ◌>>◌, fail_if,
}
use cycle.GoStrings.{is_empty}
use cycle.Domain.Cycle
use cycle.Domain.Cycle.{PdcaCycle, CancellationReason, Time, is_set, optional_text_eq}
use cycle.Domain.Goal
use cycle.Domain.Goal.{Goal, Version, ContinueResult, is_active_cycle, is_goal_review}
use cycle.Application.Errors.{AppError, review_invariant}
use cycle.Application.Views.{CycleView, GoalVersionView, FrameRevisions, GoalView}
use cycle.Application.GoalChecks.{
  is_zero, is_none, is_active_work, validate_goal_current_work, goal_version_views_equal,
}
use cycle.Application.CycleChecks.{validate_cycle_view}
use cycle.Application.CycleResults.{fails, holds, is_canceled}
use cycle.Application.ReviewTx.{ContinueReviewResult, TerminateInput, TerminateResult}

-- `==` on statuses; in this file one of them is always one of the constants.
abbrev pub same_goal_status : Goal.Status → Goal.Status → Bool
same_goal_status Goal.Status.active_cycle Goal.Status.active_cycle = true
same_goal_status Goal.Status.goal_review Goal.Status.goal_review = true
same_goal_status Goal.Status.achieved Goal.Status.achieved = true
same_goal_status Goal.Status.ended Goal.Status.ended = true
same_goal_status _ _ = false

abbrev same_cycle_status : Cycle.Status → Cycle.Status → Bool
same_cycle_status Cycle.Status.active Cycle.Status.active = true
same_cycle_status Cycle.Status.completed Cycle.Status.completed = true
same_cycle_status Cycle.Status.canceled Cycle.Status.canceled = true
same_cycle_status _ _ = false

abbrev same_reason : CancellationReason → CancellationReason → Bool
same_reason CancellationReason.goal_achieved CancellationReason.goal_achieved = true
same_reason CancellationReason.goal_ended CancellationReason.goal_ended = true
same_reason CancellationReason.replanned CancellationReason.replanned = true
same_reason _ _ = false

-- Two pointers that both hold, and what they hold passes a test.
abbrev both {ℓ} : {A B : Type ℓ} → Option A → Option B → (A → B → Bool) → Bool
both (some a) (some b) p = p a b
both _ _ p = false

unfoldable pub goal_version_view_matches_domain : GoalVersionView → Version → Bool
goal_version_view_matches_domain view version =
    str_eq view.id version.id
    && int_eq view.version_number version.version_number
    && text_eq view.body version.body
    && optional_text_eq view.success_signal version.success_signal
    && view.created_at == version.created_at

-- `GoalAchieved` for the outcome achieved, `GoalEnded` for every other.
unfoldable pub cancellation_reason_of : Goal.Status → CancellationReason
cancellation_reason_of Goal.Status.achieved = CancellationReason.goal_achieved
cancellation_reason_of _ = CancellationReason.goal_ended

no_frame_revisions : FrameRevisions → Bool
no_frame_revisions r = is_zero r.plan && is_zero r.do_ && is_zero r.check && is_zero r.action

-- What the continued cycle's view must say, in the order of the code.
continued_cycle_bad : ContinueReviewResult → ContinueResult → String → Bool
unfolding goal_version_view_matches_domain no_frame_revisions
continued_cycle_bad result continued review_cycle_id =
    let view = result.next in
    result.replayed
    || not (
        if result.version_created then continued.version_created else not continued.version_created)
    || fails (validate_cycle_view view continued.goal.id continued.next.id)
    || not (Cycle.is_active view.status)
    || not (
        holds view.previous_completed_cycle_action
          (λ previous. str_eq previous.cycle_id review_cycle_id))
    || not (str_eq view.goal_version.id continued.next.goal_version_id)
    || not (goal_version_view_matches_domain view.goal_version continued.version)
    || not (int_eq view.sequence_number continued.next.sequence_number)
    || not (view.started_at == continued.next.started_at)
    || not (is_empty view.plan)
    || not (is_empty view.do_)
    || not (is_empty view.check)
    || not (is_empty view.action)
    || not (is_zero view.content_revision)
    || not (no_frame_revisions view.frame_revisions)

continued_goal_bad : GoalView → ContinueResult → ℤ → Bool
unfolding goal_version_view_matches_domain
continued_goal_bad view continued expected_goal_revision =
    not (str_eq view.id continued.goal.id)
    || not (is_active_cycle view.status)
    || not (int_eq view.revision (inc64 expected_goal_revision))
    || not (goal_version_view_matches_domain view.current_version continued.version)
    || not (int_eq view.next_cycle_sequence_number continued.goal.next_cycle_sequence_number)
    || not (
        holds view.current_work (λ work.
          is_active_work work.kind
          && str_eq work.cycle_id continued.next.id
          && int_eq work.cycle_sequence_number continued.next.sequence_number))
    || fails (validate_goal_current_work view)

unfoldable pub validate_fresh_continue_review_result :
    ContinueReviewResult → ContinueResult → ℤ → String → Result AppError (Unit {0})
unfolding continued_cycle_bad continued_goal_bad
validate_fresh_continue_review_result result continued expected_goal_revision review_cycle_id = do
  fail_if (continued_cycle_bad result continued review_cycle_id)
      (review_invariant "continued Cycle response is inconsistent")
  fail_if (continued_goal_bad result.goal continued expected_goal_revision)
      (review_invariant "continued Goal response is inconsistent")

unfoldable pub canceled_cycle_view_matches_domain : CycleView → PdcaCycle → Bool
canceled_cycle_view_matches_domain view canceled =
    both view.canceled_at canceled.canceled_at (λ at at'. at == at')
    && both view.cancellation_reason canceled.cancellation_reason same_reason
    && str_eq view.id canceled.id
    && str_eq view.goal_id canceled.goal_id
    && int_eq view.sequence_number canceled.sequence_number
    && same_cycle_status view.status canceled.status
    && str_eq view.goal_version.id canceled.goal_version_id
    && view.started_at == canceled.started_at
    && is_none view.completed_at
    && is_none canceled.completed_at
    && text_eq view.plan canceled.plan
    && text_eq view.do_ canceled.do_
    && text_eq view.check canceled.check
    && text_eq view.action canceled.action
    && int_eq view.content_revision canceled.revisions.content
    && int_eq view.frame_revisions.plan canceled.revisions.plan
    && int_eq view.frame_revisions.do_ canceled.revisions.do_
    && int_eq view.frame_revisions.check canceled.revisions.check
    && int_eq view.frame_revisions.action canceled.revisions.action

-- The canceled cycle that a termination of an active goal reports.
canceled_view_bad : TerminateInput → GoalView → CycleView → Bool
canceled_view_bad input goal canceled =
    fails (validate_cycle_view canceled input.goal_id input.active_cycle_id)
    || not (is_canceled canceled.status)
    || is_none canceled.cancellation_reason
    || not (both canceled.canceled_at goal.terminal_at (λ at at'. at == at'))

check_canceled_view : TerminateInput → GoalView → Option CycleView → Result AppError (Unit {0})
unfolding canceled_view_bad cancellation_reason_of
check_canceled_view input goal none =
    fail_if true (review_invariant "termination canceled Cycle response is inconsistent")
check_canceled_view input goal (some canceled) = do
  fail_if (canceled_view_bad input goal canceled)
      (review_invariant "termination canceled Cycle response is inconsistent")
  fail_if
      (not
        (holds canceled.cancellation_reason (same_reason (cancellation_reason_of input.outcome))))
      (review_invariant "termination cancellation reason is inconsistent")

-- The boolean is `input.ExpectedState == goal.StatusGoalReview`.
check_canceled_cycle : TerminateInput → TerminateResult → Bool → Result AppError (Unit {0})
unfolding check_canceled_view
check_canceled_cycle input result true =
    fail_if (is_set result.canceled_cycle)
      (review_invariant "Review termination returned a canceled Cycle")
check_canceled_cycle input result false =
    check_canceled_view input result.goal result.canceled_cycle

unfoldable pub validate_termination_result :
    TerminateResult → TerminateInput → Bool → Result AppError (Unit {0})
unfolding check_canceled_cycle
validate_termination_result result input replayed = do
  fail_if
      (not (if replayed then result.replayed else not result.replayed)
        || not (str_eq result.goal.id input.goal_id)
        || not (same_goal_status result.goal.status input.outcome)
        || not (int_eq result.goal.revision (inc64 input.expected_goal_revision))
        || is_none result.goal.terminal_at
        || is_set result.goal.current_work
        || fails (validate_goal_current_work result.goal))
      (review_invariant "terminal Goal response is inconsistent")
  check_canceled_cycle input result (is_goal_review input.expected_state)

-- `currentVersion != nil && …`.
check_version : GoalVersionView → Option Version → Result AppError (Unit {0})
unfolding goal_version_view_matches_domain
check_version view none = ok tt
check_version view (some version) =
    fail_if (not (goal_version_view_matches_domain view version))
      (review_invariant "Review termination changed the current Goal Version")

-- `canceled != nil && …`.
check_canceled : TerminateResult → Option PdcaCycle → Result AppError (Unit {0})
unfolding canceled_cycle_view_matches_domain
check_canceled result none = ok tt
check_canceled result (some canceled) = do
  fail_if
      (not (holds result.canceled_cycle (λ view. canceled_cycle_view_matches_domain view canceled)))
      (review_invariant "fresh canceled Cycle response is inconsistent")
  fail_if
      (not (
        holds result.canceled_cycle
          (λ view. goal_version_views_equal result.goal.current_version view.goal_version)))
      (review_invariant "active termination Goal Version is inconsistent")

unfoldable pub validate_fresh_termination_result :
    TerminateResult
    → TerminateInput
    → Goal
    → Option PdcaCycle
    → Option Version
    → Result AppError (Unit {0})
unfolding validate_termination_result check_version check_canceled
validate_fresh_termination_result result input terminated canceled current_version = do
  validate_termination_result result input false
  fail_if
      (not (both result.goal.terminal_at terminated.terminal_at (λ at at'. at == at'))
        || not (int_eq result.goal.next_cycle_sequence_number terminated.next_cycle_sequence_number)
        || not
            (int_eq result.goal.current_version.version_number terminated.current_version_number))
      (review_invariant "fresh terminal Goal response is inconsistent")
  check_version result.goal.current_version current_version
  check_canceled result canceled
