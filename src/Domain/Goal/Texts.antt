-- ===== src/Domain/Goal/Texts.antt =====
-- The text rules of backend/internal/domain/goal/goal.go, and the drafts that they guard.
use cycle.Base.{
  ℤ, pos, Bool, true, false, not, ◌&&◌, Option, none, some, Text, String, text_eq, length, int_eq,
  inc64, ltb, if◌then◌else◌, Result, ok, ◌>>=◌, ◌>>◌, fail_if,
}
use cycle.GoStrings.{normalize_line_endings, has_forbidden, trim_space, is_empty}
use cycle.Domain.Cycle.{Time, optional_text_eq}
use cycle.Domain.Goal.Types.{
  GoalError, text_required, text_too_long, success_signal_too_long, forbidden_character,
  state_conflict, Draft, DraftType, max_goal_code_points, max_success_signal_code_points,
}

unfoldable pub normalize_text : Text → Bool → Result GoalError Text
normalize_text value allow_empty = do
  let value = normalize_line_endings value
  fail_if (has_forbidden value) forbidden_character
  fail_if (ltb max_goal_code_points (length value)) text_too_long
  fail_if (not allow_empty && is_empty (trim_space value)) text_required
  ok value

unfoldable pub normalize_success_signal : Option Text → Result GoalError (Option Text)
normalize_success_signal none = ok none
normalize_success_signal (some value) = do
  let normalized = normalize_line_endings value
  fail_if (has_forbidden normalized) forbidden_character
  if is_empty (trim_space normalized) then ok none else do
    fail_if (ltb max_success_signal_code_points (length normalized)) success_signal_too_long
    ok (some normalized)

unfoldable pub new_draft : String → String → Text → Time → Result GoalError Draft
new_draft id user_id body now = do
  body ← normalize_text body true
  ok (record {
    id = id;
    user_id = user_id;
    type = DraftType.creation;
    goal_id = none;
    base_goal_version_id = none;
    review_cycle_id = none;
    body = body;
    success_signal = none;
    revision = pos 0;
    created_at = now;
    updated_at = now;
  })

-- The second part of the result says that nothing changed.
unfoldable pub save_draft : Draft → Text → Option Text → ℤ → Time → Result GoalError (Draft × Bool)
save_draft current body success_signal expected_revision now = do
  body ← normalize_text body true
  success_signal ← normalize_success_signal success_signal
  if text_eq current.body body && optional_text_eq current.success_signal success_signal
      then ok (current, true)
      else do
        fail_if (not (int_eq current.revision expected_revision)) state_conflict
        ok (
          record current {
            body = body;
            success_signal = success_signal;
            revision = inc64 current.revision;
            updated_at = now;
          },
          false,
        )
