-- ===== src/Application/ReviewChecks.antt =====
-- The checks of backend/internal/application/workspace/review_transition_use_cases.go.
mod Requests
mod Drafts
mod Results
unfoldable pub use Requests.{
  validate_termination_input, validate_continue_review_receipt, validate_goal_termination_receipt,
  materialization_error,
}
unfoldable pub use Drafts.{
  validate_locked_review_draft, validate_review_current_version, validate_review_generations,
  validate_generations_after, ascends_from, validate_review_usages, validate_usages_after, is_known,
  review_usage_ids, is_live, partition_usages, partition_review_usages, is_sorted,
}
pub use Results.{same_goal_status}
unfoldable pub use Results.{
  validate_fresh_continue_review_result, validate_fresh_termination_result,
  validate_termination_result, canceled_cycle_view_matches_domain, goal_version_view_matches_domain,
  cancellation_reason_of,
}
