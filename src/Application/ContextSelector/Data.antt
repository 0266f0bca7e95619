-- ===== src/Application/ContextSelector/Data.antt =====
-- The snapshot and the provider's inputs of backend/internal/application/workspace/types.go and
-- ai_ports.go.
use cycle.Base.{ℤ, ℕ, Bool, Option, List, Text, String, Result}
use cycle.Domain.Cycle
use cycle.Domain.Ai.{OperationType}
use cycle.Application.Errors.{AppError}

pub record ContextCycle : Type 0 where
  pub id : String
  pub goal_id : String
  pub sequence_number : ℤ
  pub status : Cycle.Status
  pub goal_body : Text
  pub plan : Text
  pub do_ : Text
  pub check : Text
  pub action : Text

pub record Snapshot : Type 0 where
  pub generation_id : String
  pub operation : OperationType
  pub target_revision : ℤ
  pub source_goal_revision : ℤ
  pub canonical_provider_input_hash : String
  pub max_output_tokens : ℤ
  pub goal_id : String
  pub goal_body : Text
  pub source_text : Text
  pub current_cycle : Option ContextCycle
  pub past_cycles : List ContextCycle
  pub current_truncated : Bool
  pub replayed_output : Option Text
  pub replayed_context_changed : Bool
  pub replayed_content_revision : ℤ
  pub replayed_action_revision : ℤ

pub record InputCycle : Type 0 where
  pub sequence_number : ℤ
  pub status : Cycle.Status
  pub goal_body : Text
  pub plan : Text
  pub do_ : Text
  pub check : Text
  pub action : Text

-- `RefineGoalAIInput`, `GenerateActionAIInput` and `RefineActionAIInput`.
pub data ProviderInput : Type 0 where
  refine_goal : Text → Text → Text → List InputCycle → ℤ → ProviderInput
  generate_action : Text → Text → Option InputCycle → List InputCycle → ℤ → ProviderInput
  refine_action : Text → Text → Option InputCycle → List InputCycle → ℤ → ProviderInput

-- What `canonicalProviderInputHash` hashes.
pub record CanonicalInput : Type 0 where
  pub prompt_version : String
  pub operation_type : OperationType
  pub model : String
  pub target_revision : ℤ
  pub source_goal_revision : ℤ
  pub selected_context : Text
  pub context_cycle_ids : List String

pub record OperationSettings : Type 0 where
  pub instructions : Text
  pub prompt_version : String

pub record Entitlements : Type 0 where
  pub max_progressing_goals : ℤ
  pub max_ai_operations_per_24_hours : ℤ
  pub max_ai_input_tokens : ℤ
  pub goal_refine_output_tokens : ℤ
  pub action_output_tokens : ℤ

-- `TokenCounter`: it counts the tokens of a text for a model, and cuts a text to a number of tokens
-- with a marker.
pub record TokenCounter : Type 0 where
  pub count : String → Text → Result AppError ℤ
  pub truncate : String → Text → ℤ → Text → Result AppError Text

-- The settings that the selection reads, and the code that it calls: the two `json.Marshal`, the
-- hexadecimal SHA-256, and `int(float64(available) * minimum)` with the minimum in thousandths.
pub record Service : Type 0 where
  pub token_counter : Option TokenCounter
  pub model : String
  pub max_context_cycles : ℤ
  pub max_provider_attempts : ℤ
  pub goal_refine : OperationSettings
  pub action_generate : OperationSettings
  pub action_refine : OperationSettings
  pub marshal_input : ProviderInput → Result AppError Text
  pub marshal_canonical : CanonicalInput → Result AppError Text
  pub digest : Text → String
  pub share : ℤ → ℕ → ℤ
