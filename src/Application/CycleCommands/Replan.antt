-- ===== src/Application/CycleCommands/Replan.antt =====
-- `ReplanCycle` of backend/internal/application/workspace/cycle_use_cases.go.
use cycle.Base.{
  ℤ, pos, ℕ, Bool, true, false, not, ◌||◌, ◌==◌, Option, none, some, String, str_eq, int_eq, int_le,
  dec32, if◌then◌else◌, Result, map_err,
}
use cycle.Identifier.{is_canonical_uuid_v7}
use cycle.Domain.Cycle
use cycle.Domain.Cycle.{PdcaCycle, Time}
use cycle.Domain.Goal
use cycle.Domain.Goal.{Goal, Version, GoalError, ReplanResult, is_active_cycle}
use cycle.Application.Errors.{
  AppError, cycle_invariant, goal_state_conflict, goal_revision_conflict, goal_version_conflict,
  of_cycle, of_goal, ai_in_progress, replan_confirmation,
}
use cycle.Application.Views.{ReplanCycleInput, ReplanCycleResult}
use cycle.Application.CycleTx.{CycleTx, ReplanCycleReceipt, require_cycle_rows}
use cycle.Application.CycleResults.{
  validate_replan_cycle_receipt, validate_replan_cycle_replay, validate_fresh_replan_cycle_result,
  materialization_error,
}
use cycle.Application.CycleCommands.Edits.{is_other_cycle}
use cycle.Application.CycleCommands.Complete.{load_current_version, stale_version}
use cycle.Application.Tx.{
  Tx, pure, raise, lift, ◌>>=◌, ◌>>◌, fail_when, within, or_error, require_rows,
  truncate_microsecond,
}

-- What `replanCycleRequestHash` hashes.
pub record HashedReplan : Type 0 where
  pub goal_id : String
  pub cycle_id : String
  pub goal_revision : ℤ
  pub content_revision : ℤ
  pub review_schedule_revision : ℤ
  pub confirmed : Bool

unfoldable pub replan_cycle_request : ReplanCycleInput → HashedReplan
replan_cycle_request input = record {
  goal_id = input.goal_id;
  cycle_id = input.cycle_id;
  goal_revision = input.expected_goal_revision;
  content_revision = input.expected_content_revision;
  review_schedule_revision = input.expected_review_schedule_revision;
  confirmed = input.confirmed;
}

-- A rejection by the domain breaks an invariant: the use case has checked the aggregate.
abbrev pub replan_error : GoalError → AppError
replan_error Goal.state_conflict =
    cycle_invariant "validated Replan aggregate was rejected by Domain"
replan_error (Goal.of_cycle e) = of_cycle e
replan_error e = of_goal e

-- `lockedGoal.NextCycleSequenceNumber <= 1 || current.SequenceNumber != …-1`.
abbrev pub out_of_sequence : Goal → PdcaCycle → Bool
out_of_sequence locked_goal current =
    int_le locked_goal.next_cycle_sequence_number (pos 1)
    || not (int_eq current.sequence_number (dec32 locked_goal.next_cycle_sequence_number))

-- The cycle is not at the revisions that the command was sent for.
abbrev pub changed_since : PdcaCycle → ReplanCycleInput → Bool
changed_since current input =
    not (int_eq current.revisions.content input.expected_content_revision)
    || not (int_eq current.review_schedule_revision input.expected_review_schedule_revision)

module _ {S : Type 0} (tx : CycleTx S) where
  unfoldable pub build_replan_cycle_replay :
      ReplanCycleInput → ReplanCycleReceipt → Tx S ReplanCycleResult
  unfolding materialization_error
  build_replan_cycle_replay input receipt = do
    canceled ←
        or_error (tx.load_cycle_view input.user_id receipt.goal_id receipt.replanned_cycle_id) (
          materialization_error
            "Replan Cycle replay canceled Cycle disappeared after its parent lock")
    goal ←
        or_error (tx.load_goal_view input.user_id receipt.goal_id)
          (materialization_error "Replan Cycle replay Goal disappeared after its parent lock")
    next ← or_error (tx.load_cycle_view input.user_id receipt.goal_id receipt.cycle_id) (
        materialization_error
          "Replan Cycle replay successor Cycle disappeared after its parent lock")
    let result : ReplanCycleResult = record {
      canceled_cycle = canceled;
      goal = goal;
      next = next;
      replayed = true;
    }
    lift (validate_replan_cycle_replay result receipt)
    pure result

  unfoldable pub classify_receipt : Option ReplanCycleReceipt → Tx S ReplanCycleResult
  classify_receipt none =
      raise (cycle_invariant "Replan Cycle claim affected no row without a competing receipt")
  classify_receipt (some receipt) =
      raise (cycle_invariant "matching Replan Cycle receipt appeared while its User lock was held")

  unfoldable pub classify_lost_replan_cycle_claim :
      ReplanCycleInput → String → Tx S ReplanCycleResult
  unfolding classify_receipt
  classify_lost_replan_cycle_claim input request_hash = do
    receipt ← tx.find_replan_cycle_receipt input.user_id input.operation_id
    lift (validate_replan_cycle_receipt receipt input request_hash)
    classify_receipt receipt

  -- What is read back after the writes.
  unfoldable pub read_replanned : ReplanCycleInput → ReplanResult → Tx S ReplanCycleResult
  unfolding materialization_error
  read_replanned input replanned = do
    canceled ←
        or_error (tx.load_cycle_view input.user_id input.goal_id input.cycle_id)
          (materialization_error "Replan Cycle canceled Cycle disappeared after its parent lock")
    goal ←
        or_error (tx.load_goal_view input.user_id input.goal_id)
          (materialization_error "Replan Cycle Goal disappeared after its parent lock")
    next ←
        or_error (tx.load_cycle_view input.user_id input.goal_id replanned.next.id)
          (materialization_error "Replan Cycle successor Cycle disappeared after its parent lock")
    let result : ReplanCycleResult = record {
      canceled_cycle = canceled;
      goal = goal;
      next = next;
      replayed = false;
    }
    lift (validate_fresh_replan_cycle_result result replanned input)
    pure result

  -- What follows the claim, when it affected `rows` rows.
  unfoldable pub after_claim : ReplanCycleInput → String → ReplanResult → ℕ → Tx S ReplanCycleResult
  unfolding require_rows classify_lost_replan_cycle_claim read_replanned
  after_claim input request_hash replanned rows =
      if rows == 0 then classify_lost_replan_cycle_claim input request_hash else do
        require_cycle_rows "insert replanned successor Cycle" rows 1
        rows ← tx.replan_goal_cas replanned.goal input.expected_goal_revision
        require_cycle_rows "advance replanned Goal" rows 1
        read_replanned input replanned

  -- What the domain makes of the locked goal and cycle, and the writes.
  unfoldable pub replan_current :
      ReplanCycleInput
      → String
      → Result AppError String
      → Time
      → Goal
      → PdcaCycle
      → Version
      → Tx S ReplanCycleResult
  unfolding require_rows after_claim
  replan_current input request_hash new_id now locked_goal current current_version = do
    new_cycle_id ← lift new_id
    fail_when (not (is_canonical_uuid_v7 new_cycle_id))
        (cycle_invariant "ID generator returned a non-canonical Replan Cycle UUIDv7")
    replanned ← lift (
        map_err replan_error (
          Goal.replan locked_goal current_version current new_cycle_id input.operation_id
            request_hash (truncate_microsecond now)))
    rows ← tx.cancel_cycle_cas replanned.canceled input.expected_content_revision
    require_cycle_rows "cancel replanned Cycle" rows 1
    rows ← tx.try_insert_cycle_claim replanned.next
    after_claim input request_hash replanned rows

  -- The command behind its receipt: `locked_goal` is locked.
  unfoldable pub perform_replan :
      ReplanCycleInput → String → Result AppError String → Time → Goal → Tx S ReplanCycleResult
  unfolding replan_current load_current_version
  perform_replan input request_hash new_id now locked_goal = do
    current ← tx.lock_cycle input.user_id input.goal_id input.cycle_id
    fail_when (is_other_cycle current input.user_id input.goal_id input.cycle_id)
        (cycle_invariant "locked Cycle target does not match Replan Cycle")
    fail_when (not (is_active_cycle locked_goal.status)) goal_state_conflict
    fail_when (not (int_eq locked_goal.revision input.expected_goal_revision))
        goal_revision_conflict
    fail_when (not (Cycle.is_active current.status)) (of_cycle Cycle.cycle_not_active)
    fail_when (out_of_sequence locked_goal current)
        (cycle_invariant "active Cycle sequence does not match its Goal during Replan")
    fail_when (changed_since current input) (of_cycle Cycle.revision_conflict)
    current_version ← load_current_version tx locked_goal input.user_id input.goal_id
    fail_when (stale_version current_version locked_goal current input.user_id input.goal_id)
        goal_version_conflict
    ai_running ← tx.has_running_cycle_generation input.user_id input.goal_id input.cycle_id
    fail_when ai_running ai_in_progress
    replan_current input request_hash new_id now locked_goal current current_version

  -- A receipt replays; without one the command is performed.
  unfoldable pub replan_dispatch :
      Option ReplanCycleReceipt
      → ReplanCycleInput
      → String
      → Result AppError String
      → Time
      → Goal
      → Tx S ReplanCycleResult
  unfolding build_replan_cycle_replay perform_replan
  replan_dispatch (some receipt) input request_hash new_id now locked_goal =
      build_replan_cycle_replay input receipt
  replan_dispatch none input request_hash new_id now locked_goal =
      perform_replan input request_hash new_id now locked_goal

  unfoldable pub replan_in :
      (HashedReplan → String)
      → ReplanCycleInput
      → Result AppError String
      → Time
      → Tx S ReplanCycleResult
  unfolding replan_dispatch replan_cycle_request
  replan_in hash input new_id now = do
    let request_hash = hash (replan_cycle_request input)
    tx.lock_user input.user_id
    receipt ← tx.find_replan_cycle_receipt input.user_id input.operation_id
    lift (validate_replan_cycle_receipt receipt input request_hash)
    locked_goal ← tx.lock_goal input.user_id input.goal_id
    fail_when
        (not (str_eq locked_goal.user_id input.user_id)
          || not (str_eq locked_goal.id input.goal_id))
        (cycle_invariant "locked Goal target does not match Replan Cycle")
    replan_dispatch receipt input request_hash new_id now locked_goal

  unfoldable pub replan_cycle :
      (HashedReplan → String)
      → ReplanCycleInput
      → Result AppError String
      → Time
      → Tx S ReplanCycleResult
  unfolding replan_in within
  replan_cycle hash input new_id now =
      if not input.confirmed
      then raise replan_confirmation
      else within tx.pool (replan_in hash input new_id now)
