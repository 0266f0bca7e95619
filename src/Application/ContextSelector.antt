-- ===== src/Application/ContextSelector.antt =====
-- backend/internal/application/workspace/context_selector.go: what is sent to the AI provider.
mod Data
mod Input
mod Truncate
mod Select
pub use Data.*
unfoldable pub use Input.{
  count_provider_input, ai_operation_settings, provider_logical_input_json,
  canonical_provider_input_hash, set_canonical_provider_input_hash,
  verify_canonical_provider_input_hash,
}
unfoldable pub use Truncate.{
  truncate_current_input, attempt, apply, greatest, shrink, current_field_specs, clear_fields,
  allocate, used_by, hand_out, context_field, set_context_field, apply_fields,
}
pub use Truncate.{Allocation, Field, FieldSpec, is_empty_specs, truncation_marker}
pub use Select.{is_foreign}
unfoldable pub use Select.{
  assert_same_goal_context, maximum_of, add_candidates, select_base, select_with, select_by,
  hide_action, any_foreign, current_foreign, select_ai_context, select_ai_context_for_user,
  output_tokens,
}
