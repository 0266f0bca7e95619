-- ===== src/Application/ReviewTx.antt =====
-- `ReviewTransitionTx` of backend/internal/application/workspace/review_transition_ports.go, the
-- states of generations and usages in goal_draft_ports.go, and the commands' inputs and results in
-- types.go.
use cycle.Base.{ℤ, ℕ, Bool, Option, List, String}
use cycle.Domain.Cycle.{PdcaCycle, Time}
use cycle.Domain.Goal
use cycle.Domain.Goal.{Goal, Version, Draft}
use cycle.Application.Errors.{review_invariant}
use cycle.Application.Views.{GoalView, CycleView}
use cycle.Application.Tx.{Tx, Pool, require_rows}

pub record DraftGenerationState : Type 0 where
  pub id : String
  pub status : String

pub record DraftUsageState : Type 0 where
  pub operation_id : String
  pub quota_retain_until : Time
  pub provider_usage_finalized_at : Option Time

pub record ContinueReviewReceipt : Type 0 where
  pub goal_id : String
  pub cycle_id : String
  pub request_hash : String
  pub version_created : Bool

pub record GoalTerminationReceipt : Type 0 where
  pub goal_id : String
  pub request_hash : String

pub record ContinueReviewInput : Type 0 where
  pub user_id : String
  pub goal_id : String
  pub operation_id : String
  pub expected_goal_revision : ℤ
  pub expected_draft_revision : ℤ
  pub request_hash : String
  pub version_id : String
  pub cycle_id : String
  pub now : Time

pub record ContinueReviewResult : Type 0 where
  pub goal : GoalView
  pub version_created : Bool
  pub next : CycleView
  pub replayed : Bool

pub record TerminateInput : Type 0 where
  pub user_id : String
  pub goal_id : String
  pub operation_id : String
  pub outcome : Goal.Status
  pub expected_goal_revision : ℤ
  pub expected_state : Goal.Status
  pub active_cycle_id : String
  pub expected_cycle_content_revision : Option ℤ
  pub confirm_discard_review_draft : Bool
  pub request_hash : String
  pub now : Time

pub record TerminateResult : Type 0 where
  pub goal : GoalView
  pub canceled_cycle : Option CycleView
  pub replayed : Bool

-- The interface, with the pool that its transactions begin in.
pub record ReviewTx (S : Type 0) : Type 0 where
  pub find_continue_review_receipt : String → String → Tx S (Option ContinueReviewReceipt)
  pub find_goal_termination_receipt : String → String → Tx S (Option GoalTerminationReceipt)
  pub lock_user : String → Tx S (Unit {0})
  pub lock_goal : String → String → Tx S Goal
  pub lock_cycle : String → String → String → Tx S PdcaCycle
  pub lock_review_draft : String → String → Tx S Draft
  pub load_current_goal_version : String → String → ℤ → Tx S Version
  pub has_running_goal_generation : String → String → Tx S Bool
  pub lock_draft_generations : String → String → Tx S (List DraftGenerationState)
  pub lock_draft_usages : String → List String → Tx S (List DraftUsageState)
  pub insert_goal_version : Version → Tx S ℕ
  pub try_insert_review_cycle_claim : PdcaCycle → Tx S ℕ
  pub continue_goal_cas : Goal → ℤ → Tx S ℕ
  pub attach_draft_generations : String → String → List String → String → String → Tx S ℕ
  pub attach_usage_to_goal : String → List String → String → Tx S ℕ
  pub cancel_cycle_cas : PdcaCycle → ℤ → Tx S ℕ
  pub redact_draft_usages_cas : String → List String → Tx S ℕ
  pub delete_expired_finalized_draft_usages_cas : String → List String → Time → Tx S ℕ
  pub delete_draft_generations_cas : String → String → List String → Tx S ℕ
  pub delete_review_draft_cas : String → String → ℤ → Tx S ℕ
  pub terminate_goal_cas : Goal → ℤ → Tx S ℕ
  pub load_goal_view : String → String → Tx S GoalView
  pub load_cycle_view : String → String → String → Tx S CycleView
  pub pool : Pool S

-- `requireReviewTransitionRows`.
abbrev pub require_review_rows : {S : Type 0} → String → ℕ → ℕ → Tx S (Unit {0})
require_review_rows = require_rows review_invariant
