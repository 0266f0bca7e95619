-- ===== src/Domain/Cycle/Types.antt =====
-- The data of backend/internal/domain/cycle/cycle.go, and `New`.
-- A `Frame`, a `Status` and a `CancellationReason` are strings there: one constructor for each
-- constant, and `unknown` for every other string. `time.Time` is the number of
-- nanoseconds since the zero time; `UTC()` changes the location that a time is shown in and not
-- the instant.
use cycle.Base.{
  ℤ, pos, ℕ, Bool, true, false, Option, none, some, List, [], ◌∷◌, Text, String, str_eq,
  if◌then◌else◌,
}

abbrev pub Time : Type 0
Time = ℕ

abbrev pub max_frame_code_points : ℕ
max_frame_code_points = 200

pub data CycleError : Type 0 where
  invalid_frame invalid_review_date frame_text_too_long forbidden_character : CycleError
  cycle_not_active revision_conflict cycle_incomplete ai_operation_running : CycleError

pub data Status : Type 0 where
  active completed canceled unknown : Status

pub data CancellationReason : Type 0 where
  goal_achieved goal_ended replanned unknown : CancellationReason

pub data Frame : Type 0 where
  plan do_ check action unknown : Frame

-- `Frame(value)`.
abbrev pub frame_of : String → Frame
frame_of value =
    if str_eq value "plan"
    then Frame.plan
    else if str_eq value "do"
    then Frame.do_
    else if str_eq value "check"
    then Frame.check
    else if str_eq value "action"
    then Frame.action
    else Frame.unknown

abbrev pub frame_eq : Frame → Frame → Bool
frame_eq Frame.plan Frame.plan = true
frame_eq Frame.do_ Frame.do_ = true
frame_eq Frame.check Frame.check = true
frame_eq Frame.action Frame.action = true
frame_eq _ _ = false

abbrev pub is_active : Status → Bool
is_active Status.active = true
is_active _ = false

abbrev pub all_frames : List Frame
all_frames = Frame.plan ∷ Frame.do_ ∷ Frame.check ∷ Frame.action ∷ []

pub record Revisions : Type 0 where
  pub content : ℤ
  pub plan : ℤ
  pub do_ : ℤ
  pub check : ℤ
  pub action : ℤ

pub record PdcaCycle : Type 0 where
  pub id : String
  pub user_id : String
  pub goal_id : String
  pub goal_version_id : String
  pub sequence_number : ℤ
  pub status : Status
  pub started_at : Time
  pub completed_at : Option Time
  pub canceled_at : Option Time
  pub cancellation_reason : Option CancellationReason
  pub plan : Text
  pub do_ : Text
  pub check : Text
  pub action : Text
  pub revisions : Revisions
  pub review_date : Option Text
  pub review_schedule_revision : ℤ
  pub action_last_ai_revision : Option ℤ
  pub action_modified_after_ai : Bool
  pub start_operation_id : String
  pub start_request_hash : String
  pub completion_operation_id : Option String
  pub completion_request_hash : Option String
  pub created_at : Time
  pub updated_at : Time

pub record SaveFrameResult : Type 0 where
  pub saved : PdcaCycle
  pub frame : Frame
  pub content : Text
  pub no_op : Bool
  pub saved_at : Time

pub record ChangeReviewScheduleResult : Type 0 where
  pub changed : PdcaCycle
  pub no_op : Bool

abbrev no_revisions : Revisions
no_revisions = record { content = pos 0; plan = pos 0; do_ = pos 0; check = pos 0; action = pos 0 }

unfoldable pub new : String → String → String → String → ℤ → String → String → Time → PdcaCycle
new id user_id goal_id goal_version_id sequence operation_id request_hash now = record {
  id = id;
  user_id = user_id;
  goal_id = goal_id;
  goal_version_id = goal_version_id;
  sequence_number = sequence;
  status = Status.active;
  started_at = now;
  completed_at = none;
  canceled_at = none;
  cancellation_reason = none;
  plan = [];
  do_ = [];
  check = [];
  action = [];
  revisions = no_revisions;
  review_date = none;
  review_schedule_revision = pos 0;
  action_last_ai_revision = none;
  action_modified_after_ai = false;
  start_operation_id = operation_id;
  start_request_hash = request_hash;
  completion_operation_id = none;
  completion_request_hash = none;
  created_at = now;
  updated_at = now;
}

abbrev pub is_set {ℓ} : {A : Type ℓ} → Option A → Bool
is_set none = false
is_set (some a) = true
