-- ===== src/Domain/Goal/Transitions.antt =====
-- `StartInitial`, `Replan` and `Terminate` of backend/internal/domain/goal/goal.go.
use cycle.Base.{
  pos, Bool, false, not, ◌&&◌, ◌||◌, none, some, String, str_eq, int_eq, inc64, inc32, dec32,
  Result, ok, ◌>>=◌, ◌>>◌, fail_if, map_err,
}
use cycle.Domain.Cycle
use cycle.Domain.Cycle.{Time, PdcaCycle, CancellationReason}
use cycle.Domain.Goal.Types.{
  GoalError, state_conflict, already_terminal, of_cycle, Goal, Version, Draft, Status,
  InitialAggregate, ReplanResult, is_active_cycle, is_goal_review, is_terminal, is_creation,
}
use cycle.Domain.Goal.Texts.{normalize_text, normalize_success_signal}

unfoldable pub start_initial :
    Draft → String → String → String → String → String → Time → Result GoalError InitialAggregate
start_initial draft goal_id version_id cycle_id operation_id request_hash now = do
  fail_if (not (is_creation draft.type)) state_conflict
  body ← normalize_text draft.body false
  success_signal ← normalize_success_signal draft.success_signal
  ok (record {
    goal = record {
      id = goal_id;
      user_id = draft.user_id;
      status = Status.active_cycle;
      current_version_number = pos 1;
      next_cycle_sequence_number = pos 2;
      revision = pos 0;
      terminal_at = none;
      terminal_operation_id = none;
      terminal_request_hash = none;
      created_at = now;
      updated_at = now;
    };
    version = record {
      id = version_id;
      user_id = draft.user_id;
      goal_id = goal_id;
      version_number = pos 1;
      body = body;
      success_signal = success_signal;
      created_by_operation_id = operation_id;
      created_at = now;
    };
    first =
        Cycle.new cycle_id draft.user_id goal_id version_id (pos 1) operation_id request_hash now;
  })

-- The references that `Replan` checks.
unfoldable pub replan_refused : Goal → Version → PdcaCycle → Bool
replan_refused current version active =
    not (is_active_cycle current.status)
    || not (str_eq current.user_id version.user_id)
    || not (str_eq current.id version.goal_id)
    || not (int_eq current.current_version_number version.version_number)
    || not (Cycle.is_active active.status)
    || not (str_eq active.user_id current.user_id)
    || not (str_eq active.goal_id current.id)
    || not (str_eq active.goal_version_id version.id)
    || not (int_eq active.sequence_number (dec32 current.next_cycle_sequence_number))

unfoldable pub replan :
    Goal → Version → PdcaCycle → String → String → String → Time → Result GoalError ReplanResult
replan current current_version active_cycle new_cycle_id operation_id request_hash now = do
  fail_if (replan_refused current current_version active_cycle) state_conflict
  canceled ← map_err of_cycle (Cycle.cancel active_cycle CancellationReason.replanned now)
  ok (record {
    goal = record current {
      next_cycle_sequence_number = inc32 current.next_cycle_sequence_number;
      revision = inc64 current.revision;
      updated_at = now;
    };
    canceled = canceled;
    next =
        Cycle.new new_cycle_id current.user_id current.id current_version.id
          current.next_cycle_sequence_number operation_id request_hash now;
  })

unfoldable pub terminate : Goal → Status → String → String → Time → Result GoalError Goal
terminate current outcome operation_id request_hash now = do
  fail_if (is_terminal current.status) already_terminal
  fail_if (not (is_active_cycle current.status) && not (is_goal_review current.status))
      state_conflict
  fail_if (not (is_terminal outcome)) state_conflict
  ok (record current {
    status = outcome;
    revision = inc64 current.revision;
    terminal_at = some now;
    terminal_operation_id = some operation_id;
    terminal_request_hash = some request_hash;
    updated_at = now;
  })
