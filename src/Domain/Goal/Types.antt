-- ===== src/Domain/Goal/Types.antt =====
-- The data of backend/internal/domain/goal/goal.go.
-- A `Status` and a `DraftType` are strings there: one constructor for each constant, and `unknown`
-- for every other string.
use cycle.Base.{ℕ, ℤ, Bool, true, false, Option, Text, String}
use cycle.Domain.Cycle.{Time, PdcaCycle, CycleError}

-- `of_cycle` is an error that `cycle.Cancel` returns and `Replan` passes on.
pub data GoalError : Type 0 where
  text_required text_too_long success_signal_too_long forbidden_character : GoalError
  state_conflict already_terminal discard_required : GoalError
  of_cycle : CycleError → GoalError

pub data Status : Type 0 where
  active_cycle goal_review achieved ended unknown : Status

pub data DraftType : Type 0 where
  creation review unknown : DraftType

abbrev pub max_goal_code_points : ℕ
max_goal_code_points = 80

abbrev pub max_success_signal_code_points : ℕ
max_success_signal_code_points = 120

pub record Goal : Type 0 where
  pub id : String
  pub user_id : String
  pub status : Status
  pub current_version_number : ℤ
  pub next_cycle_sequence_number : ℤ
  pub revision : ℤ
  pub terminal_at : Option Time
  pub terminal_operation_id : Option String
  pub terminal_request_hash : Option String
  pub created_at : Time
  pub updated_at : Time

pub record Version : Type 0 where
  pub id : String
  pub user_id : String
  pub goal_id : String
  pub version_number : ℤ
  pub body : Text
  pub success_signal : Option Text
  pub created_by_operation_id : String
  pub created_at : Time

pub record Draft : Type 0 where
  pub id : String
  pub user_id : String
  pub type : DraftType
  pub goal_id : Option String
  pub base_goal_version_id : Option String
  pub review_cycle_id : Option String
  pub body : Text
  pub success_signal : Option Text
  pub revision : ℤ
  pub created_at : Time
  pub updated_at : Time

pub record InitialAggregate : Type 0 where
  pub goal : Goal
  pub version : Version
  pub first : PdcaCycle

pub record ContinueResult : Type 0 where
  pub goal : Goal
  pub version : Version
  pub version_created : Bool
  pub next : PdcaCycle

pub record ReplanResult : Type 0 where
  pub goal : Goal
  pub canceled : PdcaCycle
  pub next : PdcaCycle

abbrev pub is_active_cycle : Status → Bool
is_active_cycle Status.active_cycle = true
is_active_cycle _ = false

abbrev pub is_goal_review : Status → Bool
is_goal_review Status.goal_review = true
is_goal_review _ = false

abbrev pub is_terminal : Status → Bool
is_terminal Status.achieved = true
is_terminal Status.ended = true
is_terminal _ = false

abbrev pub is_creation : DraftType → Bool
is_creation DraftType.creation = true
is_creation _ = false

abbrev pub is_review : DraftType → Bool
is_review DraftType.review = true
is_review _ = false
