-- ===== src/Application/Views.antt =====
-- The views and the inputs of backend/internal/application/workspace/types.go that the cycle use
-- cases exchange.
use cycle.Base.{ℤ, Bool, Option, List, Text, String}
use cycle.Domain.Cycle.{Time, Frame, CancellationReason}
use cycle.Domain.Cycle
use cycle.Domain.Goal.{DraftType}
use cycle.Domain.Goal

pub record GoalVersionView : Type 0 where
  pub id : String
  pub version_number : ℤ
  pub body : Text
  pub success_signal : Option Text
  pub created_at : Time

pub record DraftView : Type 0 where
  pub id : String
  pub draft_type : DraftType
  pub goal_id : Option String
  pub base_goal_version_id : Option String
  pub review_cycle_id : Option String
  pub body : Text
  pub success_signal : Option Text
  pub revision : ℤ
  pub updated_at : Time
  pub replayed : Bool

pub record FrameRevisions : Type 0 where
  pub plan : ℤ
  pub do_ : ℤ
  pub check : ℤ
  pub action : ℤ

pub record CyclePredecessorView : Type 0 where
  pub cycle_id : String
  pub cycle_sequence_number : ℤ
  pub status : Cycle.Status
  pub cancellation_reason : Option CancellationReason
  pub goal_version_number : ℤ

pub record PreviousCompletedCycleActionView : Type 0 where
  pub cycle_id : String
  pub cycle_sequence_number : ℤ
  pub goal_version_number : ℤ
  pub action : Text

pub record CycleView : Type 0 where
  pub id : String
  pub goal_id : String
  pub sequence_number : ℤ
  pub status : Cycle.Status
  pub goal_version : GoalVersionView
  pub previous_completed_cycle_action : Option PreviousCompletedCycleActionView
  pub started_at : Time
  pub completed_at : Option Time
  pub canceled_at : Option Time
  pub cancellation_reason : Option CancellationReason
  pub plan : Text
  pub do_ : Text
  pub check : Text
  pub action : Text
  pub content_revision : ℤ
  pub frame_revisions : FrameRevisions
  pub review_date : Option Text
  pub review_schedule_revision : ℤ
  pub predecessor : Option CyclePredecessorView

pub record ReviewScheduleView : Type 0 where
  pub review_date : Option Text
  pub review_schedule_revision : ℤ

-- `CurrentWorkView.Kind`; `other` is every other string.
pub data WorkKind : Type 0 where
  active_cycle goal_review other : WorkKind

pub record CurrentWorkView : Type 0 where
  pub kind : WorkKind
  pub cycle_id : String
  pub cycle_sequence_number : ℤ
  pub review_schedule : Option ReviewScheduleView
  pub review_draft_id : String
  pub trigger_cycle_id : String
  pub trigger_cycle_sequence_number : ℤ

pub record GoalView : Type 0 where
  pub id : String
  pub status : Goal.Status
  pub revision : ℤ
  pub current_version : GoalVersionView
  pub current_work : Option CurrentWorkView
  pub next_cycle_sequence_number : ℤ
  pub cycle_count : ℤ
  pub created_at : Time
  pub terminal_at : Option Time

pub record CycleFramePreview : Type 0 where
  pub text : Text
  pub truncated : Bool

pub record CycleLearningPreview : Type 0 where
  pub check : CycleFramePreview
  pub action : CycleFramePreview

pub record CycleSummary : Type 0 where
  pub id : String
  pub sequence_number : ℤ
  pub status : Cycle.Status
  pub started_at : Time
  pub completed_at : Option Time
  pub canceled_at : Option Time
  pub cancellation_reason : Option CancellationReason
  pub goal_version : GoalVersionView
  pub plan_preview : Text
  pub learning_preview : Option CycleLearningPreview

pub record CyclePage : Type 0 where
  pub items : List CycleSummary
  pub next_cursor : Option Text

pub record CompleteCycleInput : Type 0 where
  pub user_id : String
  pub goal_id : String
  pub cycle_id : String
  pub operation_id : String
  pub expected_goal_revision : ℤ
  pub expected_content_revision : ℤ

pub data Operation : Type 0 where
  complete_cycle : Operation

pub record CommandReplayResponse : Type 0 where
  pub replayed : Bool
  pub operation : Operation
  pub goal_id : String
  pub cycle_id : String
  pub current_goal_state : Goal.Status
  pub current_workspace : Option CurrentWorkView

-- `none` for the draft is the zero `DraftView` that a replay without a draft leaves.
pub record CompleteCycleResult : Type 0 where
  pub completed_cycle : CycleView
  pub goal : GoalView
  pub review_draft : Option DraftView
  pub replayed : Bool
  pub replay : Option CommandReplayResponse

pub record ReplanCycleInput : Type 0 where
  pub user_id : String
  pub goal_id : String
  pub cycle_id : String
  pub operation_id : String
  pub expected_goal_revision : ℤ
  pub expected_content_revision : ℤ
  pub expected_review_schedule_revision : ℤ
  pub confirmed : Bool

pub record ReplanCycleResult : Type 0 where
  pub canceled_cycle : CycleView
  pub goal : GoalView
  pub next : CycleView
  pub replayed : Bool

pub record SaveFrameInput : Type 0 where
  pub user_id : String
  pub goal_id : String
  pub cycle_id : String
  pub frame : Frame
  pub content : Text
  pub expected_frame_revision : ℤ

pub record SaveFrameResult : Type 0 where
  pub cycle_id : String
  pub frame : Frame
  pub content : Text
  pub frame_revision : ℤ
  pub content_revision : ℤ
  pub saved_at : Time

pub record ChangeReviewScheduleInput : Type 0 where
  pub user_id : String
  pub goal_id : String
  pub cycle_id : String
  pub review_date : Option Text
  pub expected_review_schedule_revision : ℤ
