-- ===== src/Domain/Cycle.antt =====
-- backend/internal/domain/cycle/cycle.go: the PDCA cycle and its transitions.
mod Types
mod Schedule
mod Transitions
pub use Types.{
  Time, max_frame_code_points, CycleError, invalid_frame, invalid_review_date, frame_text_too_long,
  forbidden_character, cycle_not_active, revision_conflict, cycle_incomplete, ai_operation_running,
  Status, CancellationReason, Frame, frame_of, frame_eq, is_active, all_frames, PdcaCycle,
  SaveFrameResult, ChangeReviewScheduleResult, Revisions, is_set,
}
unfoldable pub use Types.{new}
unfoldable pub use Schedule.{
  parse_frame, parse_review_date, optional_text_eq, review_schedule_targets_equal,
  change_review_schedule,
}
unfoldable pub use Transitions.{
  normalize_and_validate_text, is_blank, frame_revision, frame_content, is_action, save_frame,
  apply_ai_action, missing_required_frames, complete, is_valid_cancellation_reason, cancel,
}
