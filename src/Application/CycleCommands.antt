-- ===== src/Application/CycleCommands.antt =====
-- The commands of `CycleUseCases` in backend/internal/application/workspace/cycle_use_cases.go, over
-- any implementation of the transaction interface. The clock's time and the new identifier are
-- arguments of a command; `hash` stands for `hashRequest`, the SHA-256 of the request's JSON.
mod Edits
mod Complete
mod Replan
pub use Edits.{is_other_cycle}
unfoldable pub use Edits.{
  change_review_schedule_in, save_frame_in, running_for, store_frame, store_schedule, save_frame,
  change_review_schedule,
}
pub use Complete.{version_error, HashedCompletion, completion_error}
unfoldable pub use Complete.{
  complete_current, write_completion, read_completed, new_draft_of, complete_dispatch,
  complete_cycle, build_complete_cycle_replay, perform_completion, complete_cycle_request,
  load_current_version, stale_version, complete_in,
}
pub use Replan.{HashedReplan, changed_since, replan_error, out_of_sequence}
unfoldable pub use Replan.{
  replan_current, read_replanned, after_claim, classify_receipt, replan_dispatch, replan_cycle,
  build_replan_cycle_replay, perform_replan, replan_cycle_request, classify_lost_replan_cycle_claim,
  replan_in,
}
