-- ===== src/Application/Errors.antt =====
-- The errors of backend/internal/application/workspace/types.go. An error of the domain is wrapped
-- in a constructor of its package. An invariant error keeps its message. `external` is an error of
-- the database, the clock, the generator of identifiers or the context.
use cycle.Base.{Bool, true, false, List, String}
use cycle.Domain.Cycle.{CycleError, Frame}
use cycle.Domain.Goal.{GoalError}

pub data AppError : Type 0 where
  not_found goal_draft_not_found goal_not_found cycle_not_found : AppError
  draft_already_exists : String → AppError
  draft_type_mismatch draft_revision_conflict review_revision_conflict : AppError
  goal_revision_conflict goal_version_conflict goal_active_limit : AppError
  progressing_goal_limit_invariant goal_review_not_active goal_review_invariant : AppError
  goal_state_conflict goal_already_terminal invalid_goal_outcome : AppError
  invalid_termination_request replan_confirmation delete_confirmation delete_conflict : AppError
  discard_confirmation : AppError
  ai_in_progress : AppError
  ai_operation_in_progress : String → AppError
  ai_input_incomplete goal_refine_input_empty action_generate_input_incomplete : AppError
  action_refine_input_incomplete ai_replacement_required ai_context_stale : AppError
  ai_suggestion_not_found ai_result_already_adopted ai_user_limit ai_rate_limit ai_budget : AppError
  ai_provider_rejected ai_provider_unavailable ai_provider_timeout ai_invalid_response : AppError
  ai_context_isolation ai_input_budget idempotency_key_reused invalid_cursor : AppError
  cycle_invariant goal_invariant review_invariant : String → AppError
  cycle_completion_incomplete : List Frame → AppError
  of_cycle : CycleError → AppError
  of_goal : GoalError → AppError
  external : String → AppError

-- `errors.Is(err, ErrNotFound)`.
abbrev pub is_not_found : AppError → Bool
is_not_found not_found = true
is_not_found _ = false

abbrev pub is_goal_version_conflict : AppError → Bool
is_goal_version_conflict goal_version_conflict = true
is_goal_version_conflict _ = false

-- `ErrNotFound`, `ErrGoalNotFound` or `ErrCycleNotFound`.
abbrev pub is_missing : AppError → Bool
is_missing not_found = true
is_missing goal_not_found = true
is_missing cycle_not_found = true
is_missing _ = false
