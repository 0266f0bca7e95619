-- ===== src/Application/ReviewChecks/Drafts.antt =====
-- The checks of a locked review draft, its generations and their usages in
-- backend/internal/application/workspace/review_transition_use_cases.go.
use cycle.Base.{
  Bool, true, false, not, ◌&&◌, ◌||◌, Option, none, some, List, [], ◌∷◌, map, String, str_eq,
  int_eq, ltb, text_lt, if◌then◌else◌, Result, ok, ◌>>=◌, ◌>>◌, fail_if,
}
use cycle.GoStrings.{codes}
use cycle.Domain.Cycle.{Time}
use cycle.Domain.Goal.{Goal, Version, Draft, is_review, differs_from}
use cycle.Application.Errors.{AppError, review_invariant, goal_version_conflict}
use cycle.Application.GoalChecks.{is_none}
use cycle.Application.CycleChecks.{is_zero_time}
use cycle.Application.ReviewTx.{DraftGenerationState, DraftUsageState}

unfoldable pub validate_locked_review_draft : Draft → String → String → Result AppError (Unit {0})
validate_locked_review_draft draft user_id goal_id =
    fail_if
      (not (str_eq draft.user_id user_id)
        || not (is_review draft.type)
        || differs_from draft.goal_id goal_id
        || is_none draft.base_goal_version_id
        || is_none draft.review_cycle_id)
      (review_invariant "locked Review Draft references are inconsistent")

unfoldable pub validate_review_current_version :
    Version → Goal → String → String → Draft → Result AppError (Unit {0})
validate_review_current_version version current user_id goal_id draft =
    fail_if
      (not (str_eq version.user_id user_id)
        || not (str_eq version.goal_id goal_id)
        || not (int_eq version.version_number current.current_version_number)
        || str_eq version.id ""
        || differs_from draft.base_goal_version_id version.id)
      goal_version_conflict

-- The identifier before, if there is one, is smaller.
unfoldable pub ascends_from : Option String → String → Bool
ascends_from none id = true
ascends_from (some previous) id = text_lt (codes previous) (codes id)

-- The loop, from the identifier of the generation before.
unfoldable pub validate_generations_after :
    Option String → List DraftGenerationState → Result AppError (List String × Bool)
validate_generations_after previous [] = ok ([], false)
validate_generations_after previous (generation ∷ generations) = do
  fail_if (str_eq generation.id "" || not (ascends_from previous generation.id))
      (review_invariant "Review generations are not locked once in UUID order")
  (ids, running) ← validate_generations_after (some generation.id) generations
  ok (generation.id ∷ ids, str_eq generation.status "running" || running)

unfoldable pub validate_review_generations :
    List DraftGenerationState → Result AppError (List String × Bool)
unfolding validate_generations_after
validate_review_generations = validate_generations_after none

-- `known[id]`.
unfoldable pub is_known : List String → String → Bool
is_known [] id = false
is_known (known ∷ ids) id = str_eq known id || is_known ids id

-- The loop, from the operation before.
unfoldable pub validate_usages_after :
    List String → String → List DraftUsageState → Result AppError (Unit {0})
unfolding is_known
validate_usages_after generation_ids previous [] = ok tt
validate_usages_after generation_ids previous (usage ∷ usages) = do
  fail_if
      (str_eq usage.operation_id "" || not (text_lt (codes previous) (codes usage.operation_id)))
      (review_invariant "Review usages are not locked once in UUID order")
  fail_if (not (is_known generation_ids usage.operation_id))
      (review_invariant "Review usage does not belong to a locked generation")
  fail_if (is_zero_time usage.quota_retain_until)
      (review_invariant "Review usage retention deadline is missing")
  validate_usages_after generation_ids usage.operation_id usages

unfoldable pub validate_review_usages :
    List String → List DraftUsageState → Result AppError (Unit {0})
unfolding validate_usages_after
validate_review_usages generation_ids usages = validate_usages_after generation_ids "" usages

unfoldable pub review_usage_ids : List DraftUsageState → List String
review_usage_ids = map (λ (usage : DraftUsageState). usage.operation_id)

-- `slices.IsSorted`: no element is smaller than the one before it.
unfoldable pub is_sorted : List String → Bool
is_sorted [] = true
is_sorted (a ∷ []) = true
is_sorted (a ∷ b ∷ ids) = not (text_lt (codes b) (codes a)) && is_sorted (b ∷ ids)

-- The usage still counts: its quota is retained, or its provider usage is not final.
unfoldable pub is_live : Time → DraftUsageState → Bool
is_live now usage = ltb now usage.quota_retain_until || is_none usage.provider_usage_finalized_at

-- The loop: the identifiers retained and expired.
unfoldable pub partition_usages : Time → List DraftUsageState → List String × List String
unfolding is_live
partition_usages now [] = ([], [])
partition_usages now (usage ∷ usages) =
    let (retained, expired) = partition_usages now usages in
    if is_live now usage
    then (usage.operation_id ∷ retained, expired)
    else (retained, usage.operation_id ∷ expired)

unfoldable pub partition_review_usages :
    List String → List DraftUsageState → Time → Result AppError (List String × List String)
unfolding is_sorted validate_review_usages partition_usages
partition_review_usages generation_ids usages now = do
  fail_if (not (is_sorted generation_ids))
      (review_invariant "Review generation retention input is not ordered")
  validate_review_usages generation_ids usages
  ok (partition_usages now usages)
