-- ===== src/Application/GoalDeletion.antt =====
-- `DeleteGoalWithResult` and `DeleteGoal` of
-- backend/internal/application/workspace/goal_use_cases.go, over any implementation of the
-- transaction interface; `hash` stands for `hashRequest`.
mod Checks
mod Command
pub use Checks.{generation_ids_of, usage_ids_of}
unfoldable pub use Checks.{
  has_repeat, require_goal_id_order, require_complete, require_goal_generation_order, has_slash,
  valid_positive_goal_decimal, is_later, require_months_after,
  require_goal_monthly_reservation_order, require_distinct, is_redacted, split_usages,
  partition_goal_delete_usages,
}
pub use Command.{DeleteGoalInput, HashedDeletion, receipt_of, goal_delete_receipt_ttl}
unfoldable pub use Command.{
  delete_request, release_months, terminalize_generations, redact_usages, delete_usages, delete_row,
  delete_with_usages, delete_with_generations, delete_fresh, delete_dispatch, delete_in,
  delete_goal_with_result, delete_goal,
}
