-- ===== src/Application/ContextSelector/Input.antt =====
-- The provider's input of a snapshot, its number of tokens and its hash, in
-- backend/internal/application/workspace/context_selector.go.
use cycle.Base.{
  ℤ, pos, Bool, true, false, not, Option, none, some, List, [], ◌∷◌, ◌++◌, Text, String, str_eq,
  int_lt, add64, if◌then◌else◌, Result, ok, err, ◌>>=◌, ◌>>◌, fail_if,
}
use cycle.GoStrings.{codes}
use cycle.Domain.Ai.{OperationType}
use cycle.Application.Errors.{AppError, ai_input_budget, ai_context_isolation}
use cycle.Application.ContextSelector.Data.{
  Service, TokenCounter, Snapshot, ContextCycle, InputCycle, ProviderInput, OperationSettings,
  refine_goal, generate_action, refine_action,
}

abbrev provider_input_token_overhead : ℤ
provider_input_token_overhead = pos 32

abbrev invalid_response_retry_instruction : Text
invalid_response_retry_instruction =
    10
    ∷ codes
        "The previous response was invalid. Follow the JSON Schema exactly and stay within the stated character limit."

input_cycle : ContextCycle → Bool → InputCycle
input_cycle item include_goal_body = record {
  sequence_number = item.sequence_number;
  status = item.status;
  goal_body = if include_goal_body then item.goal_body else [];
  plan = item.plan;
  do_ = item.do_;
  check = item.check;
  action = item.action;
}

input_current_cycle : Option ContextCycle → Option InputCycle
unfolding input_cycle
input_current_cycle none = none
input_current_cycle (some item) = some (input_cycle item false)

input_cycles : List ContextCycle → List InputCycle
unfolding input_cycle
input_cycles [] = []
input_cycles (item ∷ items) = input_cycle item true ∷ input_cycles items

context_cycle_ids : List ContextCycle → List String
context_cycle_ids [] = []
context_cycle_ids (item ∷ items) = item.id ∷ context_cycle_ids items

module _ (service : Service) where
  unfoldable pub ai_operation_settings : OperationType → Result AppError OperationSettings
  ai_operation_settings OperationType.goal_refine = ok service.goal_refine
  ai_operation_settings OperationType.action_generate = ok service.action_generate
  ai_operation_settings OperationType.action_refine = ok service.action_refine
  ai_operation_settings OperationType.unknown = err ai_input_budget

  -- `refineGoalAIInput`, `generateActionAIInput` and `refineActionAIInput`.
  provider_input : OperationType → Snapshot → Result AppError ProviderInput
  unfolding input_current_cycle input_cycles
  provider_input OperationType.goal_refine s = ok (
      refine_goal service.goal_refine.instructions s.goal_body s.source_text
        (input_cycles s.past_cycles) s.max_output_tokens)
  provider_input OperationType.action_generate s = ok (
      generate_action service.action_generate.instructions s.goal_body
        (input_current_cycle s.current_cycle) (input_cycles s.past_cycles) s.max_output_tokens)
  provider_input OperationType.action_refine s = ok (
      refine_action service.action_refine.instructions s.goal_body
        (input_current_cycle s.current_cycle) (input_cycles s.past_cycles) s.max_output_tokens)
  provider_input OperationType.unknown s = err ai_input_budget

  unfoldable pub provider_logical_input_json : Snapshot → Result AppError Text
  unfolding provider_input
  provider_logical_input_json snapshot = do
    input ← provider_input snapshot.operation snapshot
    service.marshal_input input

  unfoldable pub count_provider_input : TokenCounter → Snapshot → Result AppError ℤ
  unfolding provider_logical_input_json ai_operation_settings
  count_provider_input counter snapshot = do
    encoded ← provider_logical_input_json snapshot
    settings ← ai_operation_settings snapshot.operation
    let instructions =
        (if int_lt (pos 1) service.max_provider_attempts
          then settings.instructions ++ invalid_response_retry_instruction
          else settings.instructions)
    instruction_tokens ← counter.count service.model instructions
    input_tokens ← counter.count service.model encoded
    ok (add64 (add64 instruction_tokens input_tokens) provider_input_token_overhead)

  unfoldable pub canonical_provider_input_hash : Snapshot → Result AppError String
  unfolding provider_logical_input_json ai_operation_settings context_cycle_ids
  canonical_provider_input_hash snapshot = do
    selected_context ← provider_logical_input_json snapshot
    settings ← ai_operation_settings snapshot.operation
    canonical ← service.marshal_canonical (record {
      prompt_version = settings.prompt_version;
      operation_type = snapshot.operation;
      model = service.model;
      target_revision = snapshot.target_revision;
      source_goal_revision = snapshot.source_goal_revision;
      selected_context = selected_context;
      context_cycle_ids = context_cycle_ids snapshot.past_cycles;
    })
    ok (service.digest canonical)

  unfoldable pub set_canonical_provider_input_hash : Snapshot → Result AppError Snapshot
  unfolding canonical_provider_input_hash
  set_canonical_provider_input_hash snapshot = do
    hash ← canonical_provider_input_hash snapshot
    ok (record snapshot { canonical_provider_input_hash = hash })

  unfoldable pub verify_canonical_provider_input_hash : Snapshot → Result AppError (Unit {0})
  unfolding canonical_provider_input_hash
  verify_canonical_provider_input_hash snapshot = do
    fail_if (str_eq snapshot.canonical_provider_input_hash "") ai_context_isolation
    hash ← canonical_provider_input_hash snapshot
    fail_if (not (str_eq snapshot.canonical_provider_input_hash hash)) ai_context_isolation
