-- ===== src/Domain/Goal.antt =====
-- backend/internal/domain/goal/goal.go: goals, their versions and drafts, and their transitions.
mod Types
mod Texts
mod Review
mod Transitions
pub use Types.{
  GoalError, text_required, text_too_long, success_signal_too_long, forbidden_character,
  state_conflict, already_terminal, discard_required, of_cycle, Status, DraftType,
  max_goal_code_points, max_success_signal_code_points, Goal, Version, Draft, InitialAggregate,
  ContinueResult, ReplanResult, is_active_cycle, is_goal_review, is_terminal, is_creation,
  is_review,
}
unfoldable pub use Texts.{normalize_text, normalize_success_signal, new_draft, save_draft}
unfoldable pub use Review.{
  enter_review, new_review_draft, differs_from, is_unset, validate_review_references,
  review_content_changed, review_draft_differs_from_version, continue_review,
}
unfoldable pub use Transitions.{start_initial, replan_refused, replan, terminate}
