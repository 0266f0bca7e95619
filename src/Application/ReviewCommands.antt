-- ===== src/Application/ReviewCommands.antt =====
-- The commands of `ReviewTransitionUseCases` in
-- backend/internal/application/workspace/review_transition_use_cases.go, over any implementation of
-- the transaction interface. The clock's time and the identifiers that the generator makes are
-- arguments; `hash` stands for `hashRequest`, the SHA-256 of the request's JSON.
mod Shared
mod Continue
mod Active
mod Reviewed
mod Terminate
pub use Shared.{is_other_goal, missing_draft_error, Ids}
unfoldable pub use Shared.{new_ids}
pub use Continue.{HashedContinue, changed_error, review_cycle_of}
unfoldable pub use Continue.{
  continue_review_request, build_continue_review_replay, classify_continue_receipt,
  classify_lost_continue_review_claim, read_continued, after_claim, insert_version, write_continued,
  continue_current, continue_draft, perform_continue, continue_found, continue_dispatch,
  continue_in, continue_review,
}
pub use Active.{expected_revision_of, cycle_error}
unfoldable pub use Active.{
  terminate_active_cycle, terminate_current, write_active_termination, read_active,
}
pub use Reviewed.{reviewed_version_error}
unfoldable pub use Reviewed.{
  terminate_goal_review, terminate_draft, terminate_reviewed, write_reviewed_termination,
  read_reviewed,
}
pub use Terminate.{HashedTermination}
unfoldable pub use Terminate.{
  terminate_request, build_goal_termination_replay, terminate_state, terminate_dispatch,
  terminate_in, terminate_valid, terminate, replayed_cycle,
}
