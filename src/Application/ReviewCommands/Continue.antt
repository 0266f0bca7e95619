-- ===== src/Application/ReviewCommands/Continue.antt =====
-- `ContinueReview` of backend/internal/application/workspace/review_transition_use_cases.go.
use cycle.Base.{
  ℤ, ℕ, Bool, true, false, not, ◌||◌, ◌==◌, Option, none, some, List, length, String, str_eq,
  int_eq, if◌then◌else◌, map_err,
}
use cycle.Domain.Cycle.{Time}
use cycle.Domain.Goal
use cycle.Domain.Goal.{Goal, Version, Draft, GoalError, ContinueResult, is_goal_review}
use cycle.Application.Errors.{
  AppError, review_invariant, goal_review_not_active, goal_revision_conflict,
  review_revision_conflict, goal_version_conflict, ai_in_progress, of_goal,
}
use cycle.Application.GoalChecks.{validate_goal_current_work}
use cycle.Application.CycleChecks.{validate_cycle_view}
use cycle.Application.CycleResults.{fails}
use cycle.Application.CycleCommands.{version_error}
use cycle.Application.Tx.{
  Tx, pure, raise, lift, ◌>>=◌, ◌>>◌, fail_when, within, require_rows, or_error,
  truncate_microsecond,
}
use cycle.Application.ReviewTx.{
  ReviewTx, ContinueReviewInput, ContinueReviewResult, ContinueReviewReceipt, DraftUsageState,
  require_review_rows,
}
use cycle.Application.ReviewChecks.{
  validate_continue_review_receipt, validate_locked_review_draft, validate_review_current_version,
  validate_review_generations, validate_review_usages, review_usage_ids, materialization_error,
  validate_fresh_continue_review_result,
}
use cycle.Application.ReviewCommands.Shared.{is_other_goal, missing_draft_error, Ids, new_ids}

-- What `continueReviewRequestHash` hashes.
pub record HashedContinue : Type 0 where
  pub goal_id : String
  pub goal_revision : ℤ
  pub draft_revision : ℤ

unfoldable pub continue_review_request : ContinueReviewInput → HashedContinue
continue_review_request input = record {
  goal_id = input.goal_id;
  goal_revision = input.expected_goal_revision;
  draft_revision = input.expected_draft_revision;
}

-- `errors.Is(transitionErr, goal.ErrStateConflict)`.
abbrev pub changed_error : GoalError → AppError
changed_error Goal.state_conflict = goal_version_conflict
changed_error e = of_goal e

-- `*draft.ReviewCycleID`: the draft has passed `validate_locked_review_draft`.
abbrev pub review_cycle_of : Option String → String
review_cycle_of none = ""
review_cycle_of (some id) = id

module _ {S : Type 0} (tx : ReviewTx S) where
  unfoldable pub build_continue_review_replay :
      ContinueReviewInput → ContinueReviewReceipt → Tx S ContinueReviewResult
  unfolding materialization_error
  build_continue_review_replay input receipt = do
    goal ←
        or_error (tx.load_goal_view input.user_id receipt.goal_id)
          (materialization_error "Continue Review replay Goal disappeared after its parent lock")
    next ←
        or_error (tx.load_cycle_view input.user_id receipt.goal_id receipt.cycle_id)
          (materialization_error "Continue Review replay Cycle disappeared after its parent lock")
    fail_when
        (not (str_eq goal.id receipt.goal_id)
          || fails (validate_goal_current_work goal)
          || fails (validate_cycle_view next receipt.goal_id receipt.cycle_id))
        (review_invariant "Continue Review replay resources are inconsistent")
    pure (record {
      goal = goal;
      version_created = receipt.version_created;
      next = next;
      replayed = true;
    })

  unfoldable pub classify_continue_receipt :
      Option ContinueReviewReceipt → Tx S ContinueReviewResult
  classify_continue_receipt none =
      raise (review_invariant "continued Cycle claim affected no row without a competing receipt")
  classify_continue_receipt (some receipt) =
      raise
        (review_invariant "matching Continue Review receipt appeared while its Goal lock was held")

  unfoldable pub classify_lost_continue_review_claim :
      ContinueReviewInput → String → Tx S ContinueReviewResult
  unfolding classify_continue_receipt
  classify_lost_continue_review_claim input request_hash = do
    receipt ← tx.find_continue_review_receipt input.user_id input.operation_id
    lift (validate_continue_review_receipt receipt input request_hash)
    classify_continue_receipt receipt

  -- What is read back after the writes.
  unfoldable pub read_continued :
      ContinueReviewInput → Draft → ContinueResult → String → Tx S ContinueReviewResult
  unfolding materialization_error
  read_continued input draft continued cycle_id = do
    goal ←
        or_error (tx.load_goal_view input.user_id input.goal_id)
          (materialization_error "continued Goal disappeared after its parent lock")
    next ←
        or_error (tx.load_cycle_view input.user_id input.goal_id cycle_id)
          (materialization_error "continued Cycle disappeared after its parent lock")
    let result : ContinueReviewResult = record {
      goal = goal;
      version_created = continued.version_created;
      next = next;
      replayed = false;
    }
    lift (
        validate_fresh_continue_review_result result continued input.expected_goal_revision
          (review_cycle_of draft.review_cycle_id))
    pure result

  -- What follows the claim, when it affected `rows` rows.
  unfoldable pub after_claim :
      ContinueReviewInput
      → String
      → Draft
      → List String
      → List String
      → ContinueResult
      → String
      → ℕ
      → Tx S ContinueReviewResult
  unfolding require_rows classify_lost_continue_review_claim read_continued
  after_claim input request_hash draft generation_ids usage_ids continued cycle_id rows =
      if rows == 0 then classify_lost_continue_review_claim input request_hash else do
        require_review_rows "claim continued Cycle operation" rows 1
        rows ← tx.continue_goal_cas continued.goal input.expected_goal_revision
        require_review_rows "continue reviewed Goal" rows 1
        rows ←
            tx.attach_draft_generations input.user_id draft.id generation_ids input.goal_id
              continued.version.id
        require_review_rows "attach Review generations" rows (length generation_ids)
        rows ← tx.attach_usage_to_goal input.user_id usage_ids input.goal_id
        require_review_rows "attach Review usage" rows (length usage_ids)
        rows ← tx.delete_review_draft_cas input.user_id draft.id input.expected_draft_revision
        require_review_rows "delete continued Review Draft" rows 1
        read_continued input draft continued cycle_id

  -- `if continued.VersionCreated { … }`.
  unfoldable pub insert_version : Bool → Version → Tx S (Unit {0})
  unfolding require_rows
  insert_version true version = do
    rows ← tx.insert_goal_version version
    require_review_rows "insert continued Goal Version" rows 1
  insert_version false version = pure tt

  unfoldable pub write_continued :
      ContinueReviewInput
      → String
      → Draft
      → List String
      → List String
      → ContinueResult
      → String
      → Tx S ContinueReviewResult
  unfolding insert_version after_claim
  write_continued input request_hash draft generation_ids usage_ids continued cycle_id = do
    insert_version continued.version_created continued.version
    rows ← tx.try_insert_review_cycle_claim continued.next
    after_claim input request_hash draft generation_ids usage_ids continued cycle_id rows

  -- What the domain makes of the locked goal and its draft, and the writes.
  unfoldable pub continue_current :
      ContinueReviewInput
      → String
      → Ids
      → Time
      → Goal
      → Draft
      → List String
      → List DraftUsageState
      → Version
      → Bool
      → Tx S ContinueReviewResult
  unfolding new_ids review_usage_ids write_continued
  continue_current input request_hash ids now locked_goal draft generation_ids usages
        current_version changed =
      do
        new ← lift (new_ids changed current_version.id ids)
        continued ← lift (
            map_err of_goal (
              Goal.continue_review locked_goal current_version draft new.0 new.1 input.operation_id
                request_hash (truncate_microsecond now)))
        write_continued input request_hash draft generation_ids (review_usage_ids usages) continued
            new.1

  -- The draft is locked, at the expected revision: its generations, usages and version.
  unfoldable pub continue_draft :
      ContinueReviewInput → String → Ids → Time → Goal → Draft → Tx S ContinueReviewResult
  unfolding continue_current
  continue_draft input request_hash ids now locked_goal draft = do
    generations ← tx.lock_draft_generations input.user_id draft.id
    checked ← lift (validate_review_generations generations)
    fail_when checked.1 ai_in_progress
    usages ← tx.lock_draft_usages input.user_id checked.0
    lift (validate_review_usages checked.0 usages)
    current_version ←
        or_error
          (tx.load_current_goal_version input.user_id input.goal_id
            locked_goal.current_version_number)
          version_error
    lift (
        map_err (λ _. goal_version_conflict)
          (validate_review_current_version current_version locked_goal input.user_id input.goal_id
            draft))
    content ←
        lift (map_err changed_error (Goal.review_content_changed locked_goal current_version draft))
    continue_current input request_hash ids now locked_goal draft checked.0 usages current_version
        content.2

  -- The command behind its receipt: `locked_goal` is locked.
  unfoldable pub perform_continue :
      ContinueReviewInput → String → Ids → Time → Goal → Tx S ContinueReviewResult
  unfolding continue_draft
  perform_continue input request_hash ids now locked_goal = do
    fail_when (not (is_goal_review locked_goal.status)) goal_review_not_active
    draft ←
        or_error (tx.lock_review_draft input.user_id input.goal_id)
          (missing_draft_error "Review Draft is missing while Goal is in review")
    lift (validate_locked_review_draft draft input.user_id input.goal_id)
    fail_when (not (int_eq locked_goal.revision input.expected_goal_revision))
        goal_revision_conflict
    fail_when (not (int_eq draft.revision input.expected_draft_revision)) review_revision_conflict
    continue_draft input request_hash ids now locked_goal draft

  -- The receipt as it is found under the goal's lock.
  unfoldable pub continue_found :
      Option ContinueReviewReceipt
      → ContinueReviewInput
      → String
      → Ids
      → Time
      → Goal
      → Tx S ContinueReviewResult
  unfolding build_continue_review_replay perform_continue
  continue_found (some receipt) input request_hash ids now locked_goal =
      build_continue_review_replay input receipt
  continue_found none input request_hash ids now locked_goal =
      perform_continue input request_hash ids now locked_goal

  -- The receipt as it was found before the goal's lock; without one it is looked for again.
  unfoldable pub continue_dispatch :
      Option ContinueReviewReceipt
      → ContinueReviewInput
      → String
      → Ids
      → Time
      → Goal
      → Tx S ContinueReviewResult
  unfolding build_continue_review_replay continue_found
  continue_dispatch (some receipt) input request_hash ids now locked_goal =
      build_continue_review_replay input receipt
  continue_dispatch none input request_hash ids now locked_goal = do
    receipt ← tx.find_continue_review_receipt input.user_id input.operation_id
    lift (validate_continue_review_receipt receipt input request_hash)
    continue_found receipt input request_hash ids now locked_goal

  unfoldable pub continue_in :
      (HashedContinue → String) → ContinueReviewInput → Ids → Time → Tx S ContinueReviewResult
  unfolding continue_dispatch continue_review_request
  continue_in hash input ids now = do
    let request_hash = hash (continue_review_request input)
    receipt ← tx.find_continue_review_receipt input.user_id input.operation_id
    lift (validate_continue_review_receipt receipt input request_hash)
    locked_goal ← tx.lock_goal input.user_id input.goal_id
    fail_when (is_other_goal locked_goal input.user_id input.goal_id)
        (review_invariant "locked Goal target does not match Continue Review")
    continue_dispatch receipt input request_hash ids now locked_goal

  unfoldable pub continue_review :
      (HashedContinue → String) → ContinueReviewInput → Ids → Time → Tx S ContinueReviewResult
  unfolding continue_in within
  continue_review hash input ids now = within tx.pool (continue_in hash input ids now)
