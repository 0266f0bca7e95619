-- ===== src/Application/ContextSelector/Select.antt =====
-- The selection of the context of backend/internal/application/workspace/context_selector.go: the
-- past cycles that fit the token budget.
use cycle.Base.{
  ℤ, pos, negsuc, ℕ, zero, suc, Bool, false, not, ◌||◌, Option, none, some, List, [], ◌∷◌, ◌++◌,
  take, String, str_eq, int_lt, int_le, if◌then◌else◌, Result, ok, err, ◌>>=◌, ◌>>◌, fail_if,
}
use cycle.Domain.Ai.{OperationType}
use cycle.Application.Errors.{AppError, ai_input_budget, ai_context_isolation}
use cycle.Application.ContextSelector.Data.{
  Service, TokenCounter, Snapshot, ContextCycle, Entitlements,
}
use cycle.Application.ContextSelector.Input.{
  count_provider_input, set_canonical_provider_input_hash,
}
use cycle.Application.ContextSelector.Truncate.{truncate_current_input}

abbrev pub is_foreign : String → ContextCycle → Bool
is_foreign goal_id item = str_eq goal_id "" || not (str_eq item.goal_id goal_id)

unfoldable pub any_foreign : String → List ContextCycle → Bool
any_foreign goal_id [] = false
any_foreign goal_id (item ∷ items) = is_foreign goal_id item || any_foreign goal_id items

unfoldable pub current_foreign : String → Option ContextCycle → Bool
current_foreign goal_id none = false
current_foreign goal_id (some item) = is_foreign goal_id item

unfoldable pub assert_same_goal_context : Snapshot → Result AppError (Unit {0})
unfolding any_foreign current_foreign
assert_same_goal_context snapshot =
    fail_if
      (current_foreign snapshot.goal_id snapshot.current_cycle
        || any_foreign snapshot.goal_id snapshot.past_cycles)
      ai_context_isolation

-- `maximum`, and the candidates cut to it.
unfoldable pub maximum_of : ℤ → ℕ
maximum_of (pos zero) = 10
maximum_of (pos (suc n)) = suc n
maximum_of (negsuc n) = 10

-- What `ActionGenerate` must not see.
unfoldable pub hide_action : OperationType → Option ContextCycle → Option ContextCycle
hide_action OperationType.action_generate (some c) = some (record c { action = [] })
hide_action operation current = current

module _ (service : Service) where
  -- The loop over the candidates left: each is added until one does not fit.
  unfoldable pub add_candidates :
      TokenCounter → ℤ → List ContextCycle → Snapshot → Result AppError Snapshot
  unfolding count_provider_input
  add_candidates counter maximum [] selected = ok selected
  add_candidates counter maximum (candidate ∷ rest) selected = do
    let with_candidate = record selected { past_cycles = selected.past_cycles ++ (candidate ∷ []) }
    count ← count_provider_input service counter with_candidate
    let added = add_candidates counter maximum rest with_candidate
    if int_lt maximum count then ok selected else added

  -- The current input, cut if it does not fit.
  unfoldable pub select_base : TokenCounter → ℤ → Snapshot → Result AppError Snapshot
  unfolding count_provider_input truncate_current_input
  select_base counter maximum selected = do
    base_tokens ← count_provider_input service counter selected
    let truncated = truncate_current_input service counter selected maximum
    if int_lt maximum base_tokens then truncated else ok selected

  unfoldable pub select_with : TokenCounter → Snapshot → ℤ → Result AppError Snapshot
  unfolding assert_same_goal_context hide_action maximum_of select_base add_candidates
  select_with counter snapshot maximum = do
    fail_if (int_le maximum (pos 0) || str_eq service.model "") ai_input_budget
    assert_same_goal_context snapshot
    base ← select_base counter maximum (record snapshot {
      past_cycles = [];
      current_cycle = hide_action snapshot.operation snapshot.current_cycle;
    })
    add_candidates counter maximum
        (take (maximum_of service.max_context_cycles) snapshot.past_cycles) base

  -- Without a token counter nothing is selected.
  unfoldable pub select_by : Option TokenCounter → Snapshot → ℤ → Result AppError Snapshot
  unfolding select_with
  select_by none snapshot maximum = err ai_input_budget
  select_by (some counter) snapshot maximum = select_with counter snapshot maximum

  unfoldable pub select_ai_context : Snapshot → ℤ → Result AppError Snapshot
  unfolding select_by
  select_ai_context snapshot maximum = select_by service.token_counter snapshot maximum

  unfoldable pub output_tokens : OperationType → Entitlements → Result AppError ℤ
  output_tokens OperationType.goal_refine limits = ok limits.goal_refine_output_tokens
  output_tokens OperationType.action_generate limits = ok limits.action_output_tokens
  output_tokens OperationType.action_refine limits = ok limits.action_output_tokens
  output_tokens OperationType.unknown limits = err ai_input_budget

  -- `limits` is what the user's entitlements answer.
  unfoldable pub select_ai_context_for_user :
      Result AppError Entitlements → Snapshot → Result AppError Snapshot
  unfolding output_tokens select_ai_context set_canonical_provider_input_hash
  select_ai_context_for_user limits snapshot = do
    limits ← limits
    tokens ← output_tokens snapshot.operation limits
    fail_if (int_le tokens (pos 0)) ai_input_budget
    selected ←
        select_ai_context (record snapshot { max_output_tokens = tokens })
          limits.max_ai_input_tokens
    set_canonical_provider_input_hash service selected
