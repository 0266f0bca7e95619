-- ===== src/Domain/Goal/Review.antt =====
-- The Goal Review of backend/internal/domain/goal/goal.go.
use cycle.Base.{
  pos, Bool, true, false, not, ◌||◌, Option, none, some, Text, String, text_eq, str_eq, int_eq,
  inc64, inc32, if◌then◌else◌, Result, ok, ◌>>=◌, ◌>>◌, fail_if,
}
use cycle.GoStrings.{normalize_line_endings}
use cycle.Domain.Cycle
use cycle.Domain.Cycle.{Time, PdcaCycle, optional_text_eq}
use cycle.Domain.Goal.Types.{
  GoalError, state_conflict, Goal, Version, Draft, DraftType, Status, ContinueResult,
  is_active_cycle, is_goal_review, is_review,
}
use cycle.Domain.Goal.Texts.{normalize_text, normalize_success_signal}

abbrev is_completed : Cycle.Status → Bool
is_completed Cycle.Status.completed = true
is_completed _ = false

unfoldable pub enter_review : Goal → Time → Result GoalError Goal
enter_review current now = do
  fail_if (not (is_active_cycle current.status)) state_conflict
  ok (record current {
    status = Status.goal_review;
    revision = inc64 current.revision;
    updated_at = now;
  })

unfoldable pub new_review_draft :
    String → Goal → Version → PdcaCycle → Time → Result GoalError Draft
new_review_draft id current version completed_cycle now = do
  fail_if
      (not (is_goal_review current.status)
        || not (str_eq version.goal_id current.id)
        || not (str_eq completed_cycle.goal_id current.id)
        || not (is_completed completed_cycle.status))
      state_conflict
  ok (record {
    id = id;
    user_id = current.user_id;
    type = DraftType.review;
    goal_id = some current.id;
    base_goal_version_id = some version.id;
    review_cycle_id = some completed_cycle.id;
    body = version.body;
    success_signal = version.success_signal;
    revision = pos 0;
    created_at = now;
    updated_at = now;
  })

-- `pointer == nil || *pointer != value`.
abbrev pub differs_from : Option String → String → Bool
differs_from none value = true
differs_from (some s) value = not (str_eq s value)

-- `pointer == nil || *pointer == ""`.
abbrev pub is_unset : Option String → Bool
is_unset none = true
is_unset (some s) = str_eq s ""

unfoldable pub validate_review_references : Goal → Version → Draft → Result GoalError (Unit {0})
validate_review_references current version draft =
    fail_if
      (not (is_goal_review current.status)
        || not (str_eq version.user_id current.user_id)
        || not (str_eq version.goal_id current.id)
        || not (int_eq version.version_number current.current_version_number)
        || not (str_eq draft.user_id current.user_id)
        || not (is_review draft.type)
        || differs_from draft.goal_id current.id
        || differs_from draft.base_goal_version_id version.id
        || is_unset draft.review_cycle_id)
      state_conflict

-- The normalised draft, and whether it differs from the version.
unfoldable pub review_content_changed :
    Goal → Version → Draft → Result GoalError (Text × Option Text × Bool)
review_content_changed current version draft = do
  validate_review_references current version draft
  body ← normalize_text draft.body false
  success_signal ← normalize_success_signal draft.success_signal
  let changed =
      not (text_eq (normalize_line_endings version.body) (normalize_line_endings body))
      || not (optional_text_eq version.success_signal success_signal)
  ok (body, success_signal, changed)

unfoldable pub review_draft_differs_from_version : Goal → Version → Draft → Result GoalError Bool
review_draft_differs_from_version current version draft = do
  validate_review_references current version draft
  draft_success_signal ← normalize_success_signal draft.success_signal
  ok (
      not (text_eq (normalize_line_endings version.body) (normalize_line_endings draft.body))
      || not (optional_text_eq version.success_signal draft_success_signal))

-- The version that the next cycle works under.
selected_version : Goal → Version → String → String → Time → Text × Option Text × Bool → Version
selected_version current version version_id operation_id now (body, success_signal, changed) =
    if changed
    then record {
      id = version_id;
      user_id = current.user_id;
      goal_id = current.id;
      version_number = inc32 current.current_version_number;
      body = body;
      success_signal = success_signal;
      created_by_operation_id = operation_id;
      created_at = now;
    }
    else version

continued : Goal → Version → Bool → String → String → String → Time → ContinueResult
continued current selected changed cycle_id operation_id request_hash now = record {
  goal = record current {
    current_version_number =
        if changed then inc32 current.current_version_number else current.current_version_number;
    next_cycle_sequence_number = inc32 current.next_cycle_sequence_number;
    status = Status.active_cycle;
    revision = inc64 current.revision;
    updated_at = now;
  };
  version = selected;
  version_created = changed;
  next =
      Cycle.new cycle_id current.user_id current.id selected.id current.next_cycle_sequence_number
        operation_id request_hash now;
}

unfoldable pub continue_review :
    Goal
    → Version
    → Draft
    → String
    → String
    → String
    → String
    → Time
    → Result GoalError ContinueResult
unfolding selected_version continued
continue_review current version draft version_id cycle_id operation_id request_hash now = do
  content ← review_content_changed current version draft
  let selected = selected_version current version version_id operation_id now content
  ok (continued current selected content.2 cycle_id operation_id request_hash now)
