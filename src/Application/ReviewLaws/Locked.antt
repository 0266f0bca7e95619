-- ===== src/Application/ReviewLaws/Locked.antt =====
-- What both commands lock and load beside the review draft.
use cycle.Base.{◌≡◌, false, List, String, ok}
use cycle.Domain.Goal.{Goal, Draft, Version}
use cycle.Application.ReviewTx.{ReviewTx, DraftGenerationState, DraftUsageState}
use cycle.Application.ReviewChecks.{
  validate_review_generations, validate_review_usages, validate_review_current_version,
}

-- From `s` to `start`: the draft's generations, none of which runs, their usages, and the version
-- that the goal works under and the draft is based on.
pub record ReviewLocked {S : Type 0} (tx : ReviewTx S) (user_id goal_id : String) (locked : Goal)
    (draft : Draft) (s start : S) : Type 0 where
  pub generations : List DraftGenerationState
  pub generation_ids : List String
  pub usages : List DraftUsageState
  pub version : Version
  pub after_generations : S
  pub after_usages : S
  pub generations_locked :
      tx.lock_draft_generations user_id draft.id s ≡ (ok generations, after_generations)
  pub none_runs : validate_review_generations generations ≡ ok (generation_ids, false)
  pub usages_locked :
      tx.lock_draft_usages user_id generation_ids after_generations ≡ (ok usages, after_usages)
  pub usages_valid : validate_review_usages generation_ids usages ≡ ok tt
  pub loaded :
      tx.load_current_goal_version user_id goal_id locked.current_version_number after_usages
      ≡ (ok version, start)
  pub version_current : validate_review_current_version version locked user_id goal_id draft ≡ ok tt
