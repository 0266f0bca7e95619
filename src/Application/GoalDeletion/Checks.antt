-- ===== src/Application/GoalDeletion/Checks.antt =====
-- The checks of the rows that a deletion locks, and the partition of their usages, in
-- backend/internal/application/workspace/goal_use_cases.go. What `big.Rat` reads in a decimal, its
-- sign, is an argument.
use cycle.Base.{
  ℤ, Bool, true, false, not, ◌&&◌, ◌||◌, ◌==◌, Option, none, some, List, [], ◌∷◌, map, Text, String,
  str_eq, ltb, if◌then◌else◌, Result, ok, ◌>>◌, fail_if,
}
use cycle.GoStrings.{codes}
use cycle.Domain.Cycle.{Time}
use cycle.Application.Errors.{AppError, goal_invariant}
use cycle.Application.GoalChecks.{is_none, not_positive}
use cycle.Application.CycleChecks.{is_zero_time}
use cycle.Application.CycleResults.{holds}
use cycle.Application.ReviewChecks.{is_known, is_sorted}
use cycle.Application.GoalTx.{GoalDeleteGeneration, GoalDeleteUsage, MonthlyReservation}

-- An element equals the one before it.
unfoldable pub has_repeat : List String → Bool
has_repeat [] = false
has_repeat (a ∷ []) = false
has_repeat (a ∷ b ∷ ids) = str_eq b a || has_repeat (b ∷ ids)

-- The two messages that begin with `kind`.
unfoldable pub require_goal_id_order : String → String → List String → Result AppError (Unit {0})
unfolding is_sorted has_repeat
require_goal_id_order unordered duplicate ids = do
  fail_if (not (is_sorted ids)) (goal_invariant unordered)
  fail_if (has_repeat ids) (goal_invariant duplicate)

abbrev pub generation_ids_of : List GoalDeleteGeneration → List String
generation_ids_of = map (λ (generation : GoalDeleteGeneration). generation.id)

-- The loop of `requireGoalGenerationOrder`.
unfoldable pub require_complete : List GoalDeleteGeneration → Result AppError (Unit {0})
require_complete [] = ok tt
require_complete (generation ∷ generations) = do
  fail_if (str_eq generation.id "" || str_eq generation.reserved_cost_usd "")
      (goal_invariant "running Goal generation state is incomplete")
  require_complete generations

unfoldable pub require_goal_generation_order :
    List GoalDeleteGeneration → Result AppError (Unit {0})
unfolding require_complete require_goal_id_order
require_goal_generation_order items = do
  require_complete items
  require_goal_id_order "AI Generation rows are not locked in UUID order"
      "AI Generation lock returned a duplicate row" (generation_ids_of items)

unfoldable pub has_slash : Text → Bool
has_slash [] = false
has_slash (c ∷ s) = c == 47 || has_slash s

unfoldable pub valid_positive_goal_decimal : (String → Option ℤ) → String → Bool
unfolding has_slash
valid_positive_goal_decimal sign_of value =
    not (has_slash (codes value)) && holds (sign_of value) (λ sign. not (not_positive sign))

-- `item.MonthUtc.After(…)` the month before, if there is one.
unfoldable pub is_later : Option Time → Time → Bool
is_later none month = true
is_later (some previous) month = ltb previous month

-- The loop, from the month before.
unfoldable pub require_months_after :
    (String → Option ℤ) → Option Time → List MonthlyReservation → Result AppError (Unit {0})
unfolding valid_positive_goal_decimal is_later
require_months_after sign_of previous [] = ok tt
require_months_after sign_of previous (item ∷ items) = do
  fail_if (is_zero_time item.month_utc || not (valid_positive_goal_decimal sign_of item.amount_usd))
      (goal_invariant "Goal budget reservation state is incomplete")
  fail_if (not (is_later previous item.month_utc))
      (goal_invariant "Goal budget months are not locked in ascending order")
  require_months_after sign_of (some item.month_utc) items

unfoldable pub require_goal_monthly_reservation_order :
    (String → Option ℤ) → List MonthlyReservation → Result AppError (Unit {0})
unfolding require_months_after
require_goal_monthly_reservation_order sign_of items = require_months_after sign_of none items

-- The first loop of `partitionGoalDeleteUsages`, with the operations seen.
unfoldable pub require_distinct : List String → List GoalDeleteUsage → Result AppError (Unit {0})
unfolding is_known
require_distinct seen [] = ok tt
require_distinct seen (usage ∷ usages) = do
  fail_if (str_eq usage.operation_id "" || is_zero_time usage.quota_retain_until)
      (goal_invariant "Goal usage identity or retention deadline is missing")
  fail_if (is_known seen usage.operation_id)
      (goal_invariant "Goal usage lock returned a duplicate operation")
  require_distinct (usage.operation_id ∷ seen) usages

-- The usage still counts: its quota is retained, or its provider usage is not final.
unfoldable pub is_redacted : Time → GoalDeleteUsage → Bool
is_redacted now usage =
    ltb now usage.quota_retain_until || is_none usage.provider_usage_finalized_at

-- The second loop: the identifiers to redact and to delete.
unfoldable pub split_usages : Time → List GoalDeleteUsage → List String × List String
unfolding is_redacted
split_usages now [] = ([], [])
split_usages now (usage ∷ usages) =
    let (redact, deleted) = split_usages now usages in
    if is_redacted now usage
    then (usage.operation_id ∷ redact, deleted)
    else (redact, usage.operation_id ∷ deleted)

abbrev pub usage_ids_of : List GoalDeleteUsage → List String
usage_ids_of = map (λ (usage : GoalDeleteUsage). usage.operation_id)

unfoldable pub partition_goal_delete_usages :
    List GoalDeleteUsage → Time → Result AppError (List String × List String)
unfolding require_distinct is_sorted split_usages
partition_goal_delete_usages usages now = do
  require_distinct [] usages
  fail_if (not (is_sorted (usage_ids_of usages)))
      (goal_invariant "Goal usages are not locked in UUID order")
  ok (split_usages now usages)
