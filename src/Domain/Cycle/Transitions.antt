-- ===== src/Domain/Cycle/Transitions.antt =====
-- The text rules and the transitions of backend/internal/domain/cycle/cycle.go.
use cycle.Base.{
  ℤ, negsuc, Bool, true, false, not, ◌&&◌, some, List, [], ◌∷◌, Text, String, text_eq, length,
  int_eq, inc64, ltb, ◌==◌, if◌then◌else◌, Result, ok, err, ◌>>=◌, ◌>>◌, fail_if,
}
use cycle.GoStrings.{normalize_line_endings, has_forbidden, trim_space, is_empty}
use cycle.Domain.Cycle.Types.{
  Time, max_frame_code_points, CycleError, invalid_frame, frame_text_too_long, forbidden_character,
  cycle_not_active, revision_conflict, cycle_incomplete, ai_operation_running, Status,
  CancellationReason, Frame, is_active, all_frames, PdcaCycle, SaveFrameResult, Revisions, is_set,
}
use cycle.Domain.Cycle.Schedule.{parse_frame}

unfoldable pub normalize_and_validate_text : Text → Result CycleError Text
normalize_and_validate_text value = do
  let value = normalize_line_endings value
  fail_if (has_forbidden value) forbidden_character
  fail_if (ltb max_frame_code_points (length value)) frame_text_too_long
  ok value

unfoldable pub is_blank : Text → Bool
is_blank value = is_empty (trim_space value)

abbrev pub frame_revision : PdcaCycle → Frame → ℤ
frame_revision current Frame.plan = current.revisions.plan
frame_revision current Frame.do_ = current.revisions.do_
frame_revision current Frame.check = current.revisions.check
frame_revision current Frame.action = current.revisions.action
frame_revision current Frame.unknown = negsuc 0

abbrev pub frame_content : PdcaCycle → Frame → Text
frame_content current Frame.plan = current.plan
frame_content current Frame.do_ = current.do_
frame_content current Frame.check = current.check
frame_content current Frame.action = current.action
frame_content current Frame.unknown = []

abbrev pub is_action : Frame → Bool
is_action Frame.action = true
is_action _ = false

-- The `switch` of `SaveFrame`, after `current.Revisions.Content++`.
write_frame : PdcaCycle → Revisions → Frame → Text → Result CycleError PdcaCycle
write_frame current r Frame.plan content =
    ok (record current { plan = content; revisions = record r { plan = inc64 r.plan } })
write_frame current r Frame.do_ content =
    ok (record current { do_ = content; revisions = record r { do_ = inc64 r.do_ } })
write_frame current r Frame.check content =
    ok (record current { check = content; revisions = record r { check = inc64 r.check } })
write_frame current r Frame.action content = ok (record current {
  action = content;
  revisions = record r { action = inc64 r.action };
  action_modified_after_ai = is_set current.action_last_ai_revision;
})
write_frame current r Frame.unknown content = err invalid_frame

unfoldable pub save_frame :
    PdcaCycle → Frame → Text → ℤ → Bool → Time → Result CycleError SaveFrameResult
unfolding write_frame parse_frame
save_frame current frame content expected_revision ai_running now = do
  fail_if (not (is_active current.status)) cycle_not_active
  fail_if (ai_running && is_action frame) ai_operation_running
  parse_frame frame
  content ← normalize_and_validate_text content
  if text_eq (frame_content current frame) content
      then ok (record {
        saved = current;
        frame = frame;
        content = content;
        no_op = true;
        saved_at = current.updated_at;
      })
      else do
        fail_if (not (int_eq (frame_revision current frame) expected_revision)) revision_conflict
        let r = current.revisions
        written ← write_frame current (record r { content = inc64 r.content }) frame content
        ok (record {
          saved = record written { updated_at = now };
          frame = frame;
          content = content;
          no_op = false;
          saved_at = now;
        })

unfoldable pub apply_ai_action : PdcaCycle → Text → Time → Result CycleError PdcaCycle
apply_ai_action current content now = do
  fail_if (not (is_active current.status)) cycle_not_active
  content ← normalize_and_validate_text content
  fail_if (is_blank content) cycle_incomplete
  let r = current.revisions
  let applied_revision = inc64 r.content
  ok (record current {
    action = content;
    revisions = record r { content = applied_revision; action = inc64 r.action };
    action_last_ai_revision = some applied_revision;
    action_modified_after_ai = false;
    updated_at = now;
  })

-- The loop of `MissingRequiredFrames` over the frames left.
missing_of : PdcaCycle → List Frame → List Frame
missing_of current [] = []
missing_of current (frame ∷ rest) =
    let later = missing_of current rest in
    if is_blank (frame_content current frame) then frame ∷ later else later

unfoldable pub missing_required_frames : PdcaCycle → List Frame
unfolding missing_of
missing_required_frames current = missing_of current all_frames

unfoldable pub complete :
    PdcaCycle → String → String → ℤ → Bool → Time → Result CycleError PdcaCycle
complete current operation_id request_hash expected_content_revision ai_running now = do
  fail_if (not (is_active current.status)) cycle_not_active
  fail_if (not (int_eq current.revisions.content expected_content_revision)) revision_conflict
  fail_if ai_running ai_operation_running
  fail_if (not (length (missing_required_frames current) == 0)) cycle_incomplete
  ok (record current {
    status = Status.completed;
    completed_at = some now;
    completion_operation_id = some operation_id;
    completion_request_hash = some request_hash;
    updated_at = now;
  })

unfoldable pub is_valid_cancellation_reason : CancellationReason → Bool
is_valid_cancellation_reason CancellationReason.unknown = false
is_valid_cancellation_reason _ = true

unfoldable pub cancel : PdcaCycle → CancellationReason → Time → Result CycleError PdcaCycle
unfolding is_valid_cancellation_reason
cancel current reason now = do
  fail_if (not (is_active current.status)) cycle_not_active
  fail_if (not (is_valid_cancellation_reason reason)) cycle_not_active
  ok (record current {
    status = Status.canceled;
    canceled_at = some now;
    cancellation_reason = some reason;
    updated_at = now;
  })
