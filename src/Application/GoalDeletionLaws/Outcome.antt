-- ===== src/Application/GoalDeletionLaws/Outcome.antt =====
-- What a deletion of a goal has done to the database.
use cycle.Base.{◌≡◌, ◌⊎◌, ◌<◌, ◌≤◌, true, false, Option, none, some, String, List, ok}
use cycle.Domain.Cycle.{Time}
use cycle.Application.GoalTx.{
  GoalTx, GoalDeleteReceipt, GoalDeleteTarget, GoalDeleteGeneration, GoalDeleteUsage,
  MonthlyReservation, GoalDeleteResult,
}
use cycle.Application.GoalDeletion.{
  DeleteGoalInput, HashedDeletion, delete_request, generation_ids_of,
}
use cycle.Application.GoalDeletionLaws.Order.{IsAscending, MonthsAscend}
use cycle.Application.GoalDeletionLaws.Usages.{IsSplit}
use cycle.Application.GoalDeletionLaws.Written.{
  Released, Terminalized, Redacted, Dropped, RowDeleted,
}

-- The usages are split in two, redacted and deleted; then the goal is deleted.
pub record UsagesDeleted {S : Type 0} (tx : GoalTx S) (input : DeleteGoalInput) (hash : String)
    (now : Time) (s : S) (s' : S) : Type 0 where
  pub usages : List GoalDeleteUsage
  pub parts : List String × List String
  pub after_usages : S
  pub after_redaction : S
  pub after_deletion : S
  pub usages_locked : tx.lock_goal_usages input.user_id input.goal_id s ≡ (ok usages, after_usages)
  pub split : IsSplit usages now parts
  pub redacted : Redacted tx input parts.0 after_usages after_redaction
  pub dropped : Dropped tx input now parts.1 after_redaction after_deletion
  pub row : RowDeleted tx input hash now after_deletion s'

-- The generations that run are locked once each, in order; their reservations are released month by
-- month, and they end, before the usages are locked.
pub record GenerationsEnded {S : Type 0} (tx : GoalTx S) (input : DeleteGoalInput) (hash : String)
    (now : Time) (s : S) (s' : S) : Type 0 where
  pub generations : List GoalDeleteGeneration
  pub monthly : List MonthlyReservation
  pub after_lock : S
  pub after_sum : S
  pub after_release : S
  pub after_end : S
  pub generations_locked :
      tx.lock_running_goal_generations input.user_id input.goal_id s ≡ (ok generations, after_lock)
  pub ascending : IsAscending (generation_ids_of generations)
  pub summed :
      tx.sum_locked_goal_reservations_by_month input.user_id input.goal_id
        (generation_ids_of generations)
        after_lock
      ≡ (ok monthly, after_sum)
  pub months_ascend : MonthsAscend monthly
  pub released : Released tx now monthly after_sum after_release
  pub terminalized : Terminalized tx input now generations after_release after_end
  pub finished : UsagesDeleted tx input hash now after_end s'

-- The goal is at the expected revision; it is locked first, then its drafts and its cycles, each
-- once and in order.
pub record GoalDeleted {S : Type 0} (tx : GoalTx S) (input : DeleteGoalInput) (hash : String)
    (now : Time) (s : S) (r : GoalDeleteResult) (s' : S) : Type 0 where
  pub target : GoalDeleteTarget
  pub draft_ids : List String
  pub cycle_ids : List String
  pub after_goal : S
  pub after_drafts : S
  pub after_cycles : S
  pub goal_locked : tx.lock_goal_for_delete input.user_id input.goal_id s ≡ (ok target, after_goal)
  pub revision : target.revision ≡ input.expected_revision
  pub drafts_locked :
      tx.lock_goal_draft_ids input.user_id input.goal_id after_goal ≡ (ok draft_ids, after_drafts)
  pub drafts_ascend : IsAscending draft_ids
  pub cycles_locked :
      tx.lock_goal_cycle_ids input.user_id input.goal_id after_drafts ≡ (ok cycle_ids, after_cycles)
  pub cycles_ascend : IsAscending cycle_ids
  pub ended : GenerationsEnded tx input hash now after_cycles s'
  pub reported : r ≡ record { source_state = some target.status; replayed = false }

-- The receipt is that of this request.
abbrev pub IsOwnReceipt : DeleteGoalInput → String → GoalDeleteReceipt → Type 0
IsOwnReceipt input hash receipt = (receipt.goal_id ≡ input.goal_id) × (receipt.request_hash ≡ hash)

-- A receipt must be the request's; until it expires nothing is written, afterwards and without one
-- the goal is deleted.
unfoldable pub DeletionOutcome :
    {S : Type 0}
    → GoalTx S
    → DeleteGoalInput
    → String
    → Time
    → Option GoalDeleteReceipt
    → S
    → GoalDeleteResult
    → S
    → Type 0
DeletionOutcome tx input hash now none s r s' = GoalDeleted tx input hash now s r s'
DeletionOutcome tx input hash now (some receipt) s r s' =
    IsOwnReceipt input hash receipt
    × (((now < receipt.expires_at) × (r.replayed ≡ true) × (s ≡ s'))
        ⊎ ((receipt.expires_at ≤ now) × GoalDeleted tx input hash now s r s'))

-- The command was confirmed and committed; the user is locked before the receipt is looked up.
pub record RanDeletion {S : Type 0} (tx : GoalTx S) (hash : HashedDeletion → String)
    (input : DeleteGoalInput) (now : Time) (s : S) (r : GoalDeleteResult) (s' : S) : Type 0 where
  pub receipt : Option GoalDeleteReceipt
  pub after_user : S
  pub after_receipt : S
  pub confirmed : input.confirmed ≡ true
  pub user_locked : tx.lock_user input.user_id s ≡ (ok tt, after_user)
  pub receipt_found :
      tx.find_goal_delete_receipt input.user_id input.idempotency_key after_user
      ≡ (ok receipt, after_receipt)
  pub outcome :
      DeletionOutcome tx input (hash (delete_request input)) now receipt after_receipt r s'
  pub committed : tx.pool.commit_error s' ≡ none
