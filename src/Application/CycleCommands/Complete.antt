-- ===== src/Application/CycleCommands/Complete.antt =====
-- `CompleteCycle` of backend/internal/application/workspace/cycle_use_cases.go.
use cycle.Base.{
  ℤ, Bool, true, false, not, ◌||◌, Option, none, some, String, str_eq, int_eq, if◌then◌else◌,
  Result, map_err,
}
use cycle.Identifier.{is_canonical_uuid_v7}
use cycle.Domain.Cycle
use cycle.Domain.Cycle.{PdcaCycle, CycleError, Time, missing_required_frames}
use cycle.Domain.Goal
use cycle.Domain.Goal.{Goal, Version, Draft, is_active_cycle}
use cycle.Application.Errors.{
  AppError, cycle_invariant, goal_state_conflict, goal_revision_conflict, goal_version_conflict,
  of_cycle, of_goal, cycle_completion_incomplete, is_not_found, is_goal_version_conflict,
}
use cycle.Application.Views.{
  CycleView, GoalView, DraftView, CompleteCycleInput, CompleteCycleResult, Operation,
}
use cycle.Application.CycleTx.{CycleTx, CompleteCycleReceipt, require_cycle_rows}
use cycle.Application.CycleResults.{
  validate_complete_cycle_receipt, validate_complete_cycle_replay, validate_completed_cycle_result,
  materialization_error,
}
use cycle.Application.CycleCommands.Edits.{is_other_cycle}
use cycle.Application.Tx.{
  Tx, pure, raise, lift, ◌>>=◌, ◌>>◌, fail_when, within, require_rows, or_error,
}

-- What `completeCycleRequestHash` hashes.
pub record HashedCompletion : Type 0 where
  pub goal_id : String
  pub cycle_id : String
  pub goal_revision : ℤ
  pub content_revision : ℤ

unfoldable pub complete_cycle_request : CompleteCycleInput → HashedCompletion
complete_cycle_request input = record {
  goal_id = input.goal_id;
  cycle_id = input.cycle_id;
  goal_revision = input.expected_goal_revision;
  content_revision = input.expected_content_revision;
}

-- The error that the loading of a current version is reported by.
abbrev pub version_error : AppError → AppError
version_error e = if is_not_found e || is_goal_version_conflict e then goal_version_conflict else e

-- The loaded version is not the one that the locked goal and cycle work under.
abbrev pub stale_version : Version → Goal → PdcaCycle → String → String → Bool
stale_version version locked_goal current user_id goal_id =
    not (str_eq version.user_id user_id)
    || not (str_eq version.goal_id goal_id)
    || not (int_eq version.version_number locked_goal.current_version_number)
    || not (str_eq version.id current.goal_version_id)

-- `ErrCycleIncomplete` is reported with the frames that are missing.
abbrev pub completion_error : PdcaCycle → CycleError → AppError
completion_error current Cycle.cycle_incomplete =
    cycle_completion_incomplete (missing_required_frames current)
completion_error current e = of_cycle e

module _ {S : Type 0} (tx : CycleTx S) where
  unfoldable pub load_current_version : Goal → String → String → Tx S Version
  load_current_version locked_goal user_id goal_id =
      or_error (tx.load_current_goal_version user_id goal_id locked_goal.current_version_number)
        version_error

  replay_without_draft : GoalView → CycleView → CompleteCycleReceipt → CompleteCycleResult
  replay_without_draft goal completed receipt = record {
    completed_cycle = completed;
    goal = goal;
    review_draft = none;
    replayed = false;
    replay = some (record {
      replayed = true;
      operation = Operation.complete_cycle;
      goal_id = receipt.goal_id;
      cycle_id = receipt.cycle_id;
      current_goal_state = goal.status;
      current_workspace = goal.current_work;
    });
  }

  replay_result :
      GoalView → CycleView → CompleteCycleReceipt → Option DraftView → CompleteCycleResult
  unfolding replay_without_draft
  replay_result goal completed receipt none = replay_without_draft goal completed receipt
  replay_result goal completed receipt (some draft) = record {
    completed_cycle = completed;
    goal = goal;
    review_draft = some draft;
    replayed = true;
    replay = none;
  }

  unfoldable pub build_complete_cycle_replay :
      CompleteCycleInput → CompleteCycleReceipt → Tx S CompleteCycleResult
  unfolding replay_result materialization_error
  build_complete_cycle_replay input receipt = do
    goal ←
        or_error (tx.load_goal_view input.user_id receipt.goal_id)
          (materialization_error "Complete Cycle Goal disappeared after its parent lock")
    completed ←
        or_error (tx.load_cycle_view input.user_id receipt.goal_id receipt.cycle_id)
          (materialization_error "Complete Cycle Cycle disappeared after its parent lock")
    draft ←
        or_error (tx.find_review_draft_by_cycle input.user_id receipt.goal_id receipt.cycle_id)
          (materialization_error "Complete Cycle Review Draft disappeared after its parent lock")
    let result = replay_result goal completed receipt draft
    lift (validate_complete_cycle_replay result receipt draft)
    pure result

  -- `draft == nil || draft.ID != reviewDraftID`.
  unfoldable pub new_draft_of : Option DraftView → String → Tx S DraftView
  new_draft_of none id = raise (cycle_invariant "new Cycle Review Draft is missing")
  new_draft_of (some draft) id =
      if str_eq draft.id id
      then pure draft
      else raise (cycle_invariant "new Cycle Review Draft is missing")

  -- What is read back after the writes.
  unfoldable pub read_completed : CompleteCycleInput → Draft → Tx S CompleteCycleResult
  unfolding new_draft_of materialization_error
  read_completed input review_draft = do
    completed_view ←
        or_error (tx.load_cycle_view input.user_id input.goal_id input.cycle_id)
          (materialization_error "Complete Cycle Cycle disappeared after its parent lock")
    goal ←
        or_error (tx.load_goal_view input.user_id input.goal_id)
          (materialization_error "Complete Cycle Goal disappeared after its parent lock")
    found ←
        or_error (tx.find_review_draft_by_cycle input.user_id input.goal_id input.cycle_id)
          (materialization_error "Complete Cycle Review Draft disappeared after its parent lock")
    draft ← new_draft_of found review_draft.id
    let result : CompleteCycleResult = record {
      completed_cycle = completed_view;
      goal = goal;
      review_draft = some draft;
      replayed = false;
      replay = none;
    }
    lift (
        validate_completed_cycle_result result draft input.goal_id input.cycle_id review_draft.id
          input.expected_goal_revision)
    pure result

  -- The writes and what is read back.
  unfoldable pub write_completion :
      CompleteCycleInput → PdcaCycle → Goal → Draft → Tx S CompleteCycleResult
  unfolding require_rows read_completed
  write_completion input completed reviewing_goal review_draft = do
    rows ← tx.complete_cycle_cas completed input.expected_content_revision
    require_cycle_rows "complete Cycle" rows 1
    rows ← tx.insert_review_draft review_draft
    require_cycle_rows "insert Cycle Review Draft" rows 1
    rows ← tx.enter_goal_review_cas reviewing_goal input.expected_goal_revision
    require_cycle_rows "enter Goal review" rows 1
    read_completed input review_draft

  -- What the domain makes of the locked goal and cycle, and the writes.
  unfoldable pub complete_current :
      CompleteCycleInput
      → String
      → Result AppError String
      → Time
      → Goal
      → PdcaCycle
      → Version
      → Bool
      → Tx S CompleteCycleResult
  unfolding write_completion
  complete_current input request_hash new_id now locked_goal current current_version ai_running = do
    completed ← lift (
        map_err (completion_error current) (
          Cycle.complete current input.operation_id request_hash input.expected_content_revision
            ai_running now))
    review_draft_id ← lift new_id
    fail_when (not (is_canonical_uuid_v7 review_draft_id))
        (cycle_invariant "ID generator returned a non-canonical UUIDv7")
    reviewing_goal ← lift (map_err of_goal (Goal.enter_review locked_goal now))
    review_draft ← lift (
        map_err of_goal
          (Goal.new_review_draft review_draft_id reviewing_goal current_version completed now))
    write_completion input completed reviewing_goal review_draft

  -- The command behind its receipt: `locked_goal` is locked.
  unfoldable pub perform_completion :
      CompleteCycleInput → String → Result AppError String → Time → Goal → Tx S CompleteCycleResult
  unfolding complete_current load_current_version
  perform_completion input request_hash new_id now locked_goal = do
    current ← tx.lock_cycle input.user_id input.goal_id input.cycle_id
    fail_when (is_other_cycle current input.user_id input.goal_id input.cycle_id)
        (cycle_invariant "locked Cycle target does not match the command")
    fail_when (not (is_active_cycle locked_goal.status)) goal_state_conflict
    fail_when (not (int_eq locked_goal.revision input.expected_goal_revision))
        goal_revision_conflict
    current_version ← load_current_version locked_goal input.user_id input.goal_id
    fail_when (stale_version current_version locked_goal current input.user_id input.goal_id)
        goal_version_conflict
    ai_running ← tx.has_running_cycle_generation input.user_id input.goal_id input.cycle_id
    complete_current input request_hash new_id now locked_goal current current_version ai_running

  -- A receipt replays; without one the command is performed.
  unfoldable pub complete_dispatch :
      Option CompleteCycleReceipt
      → CompleteCycleInput
      → String
      → Result AppError String
      → Time
      → Goal
      → Tx S CompleteCycleResult
  unfolding build_complete_cycle_replay perform_completion
  complete_dispatch (some receipt) input request_hash new_id now locked_goal =
      build_complete_cycle_replay input receipt
  complete_dispatch none input request_hash new_id now locked_goal =
      perform_completion input request_hash new_id now locked_goal

  unfoldable pub complete_in :
      (HashedCompletion → String)
      → CompleteCycleInput
      → Result AppError String
      → Time
      → Tx S CompleteCycleResult
  unfolding complete_dispatch complete_cycle_request
  complete_in hash input new_id now = do
    let request_hash = hash (complete_cycle_request input)
    tx.find_complete_cycle_receipt input.user_id input.operation_id
    tx.lock_user input.user_id
    receipt ← tx.find_complete_cycle_receipt input.user_id input.operation_id
    lift (validate_complete_cycle_receipt receipt input request_hash)
    locked_goal ← tx.lock_goal input.user_id input.goal_id
    fail_when
        (not (str_eq locked_goal.user_id input.user_id)
          || not (str_eq locked_goal.id input.goal_id))
        (cycle_invariant "locked Goal target does not match the command")
    complete_dispatch receipt input request_hash new_id now locked_goal

  unfoldable pub complete_cycle :
      (HashedCompletion → String)
      → CompleteCycleInput
      → Result AppError String
      → Time
      → Tx S CompleteCycleResult
  unfolding complete_in within
  complete_cycle hash input new_id now = within tx.pool (complete_in hash input new_id now)
