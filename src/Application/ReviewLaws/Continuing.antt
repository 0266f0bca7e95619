-- ===== src/Application/ReviewLaws/Continuing.antt =====
-- What a `ContinueReview` that reports success has worked on behind its receipt.
use cycle.Base.{
  ◌≡◌, Bool, true, List, String, ok, arith, not, int_eq, int_eq_iff, ◌∙◌, Option, Text,
}
use cycle.Domain.Cycle.{Time}
use cycle.Domain.Goal
use cycle.Domain.Goal.{Goal, Version, Draft, ContinueResult, is_goal_review}
use cycle.Application.Errors.{
  goal_review_not_active, goal_revision_conflict, review_revision_conflict, ai_in_progress,
  goal_version_conflict, of_goal,
}
use cycle.Application.CycleCommands.{version_error}
use cycle.Application.Tx.{or_error, truncate_microsecond}
use cycle.Application.ReviewTx.{
  ReviewTx, ContinueReviewInput, ContinueReviewResult, DraftUsageState,
}
use cycle.Application.ReviewChecks.{
  validate_locked_review_draft, validate_review_current_version, validate_review_generations,
  validate_review_usages, review_usage_ids,
}
use cycle.Application.ReviewCommands.{
  Ids, new_ids, continue_current, continue_draft, perform_continue, missing_draft_error,
  changed_error,
}
use cycle.Application.TxLaws.{run-bind, run-guard, run-rule, run-result, run-or_error}
use cycle.Application.ReviewLaws.Locked.{ReviewLocked}
use cycle.Application.ReviewLaws.ContinueWrites.{ContinueWritten, run-write_continued}

-- What the domain makes of the locked goal, its version and its draft, written from `s` on.
pub record ContinueRuled {S : Type 0} (tx : ReviewTx S) (input : ContinueReviewInput)
    (hash : String) (ids : Ids) (now : Time) (locked : Goal) (draft : Draft)
    (generation_ids : List String) (usages : List DraftUsageState) (version : Version)
    (changed : Bool) (s : S) (r : ContinueReviewResult) (s' : S) : Type 0 where
  pub version_id : String
  pub cycle_id : String
  pub continued : ContinueResult
  pub made : new_ids changed version.id ids ≡ ok (version_id, cycle_id)
  pub by_rule :
      Goal.continue_review locked version draft version_id cycle_id input.operation_id hash
        (truncate_microsecond now)
      ≡ ok continued
  pub written :
      ContinueWritten tx input draft generation_ids
        (review_usage_ids usages)
        continued
        cycle_id
        s
        r
        s'

-- What the draft's rows are, and what is made of them.
pub record DraftContinued {S : Type 0} (tx : ReviewTx S) (input : ContinueReviewInput)
    (hash : String) (ids : Ids) (now : Time) (locked : Goal) (draft : Draft) (s : S)
    (r : ContinueReviewResult) (s' : S) : Type 0 where
  pub start : S
  pub rows : ReviewLocked tx input.user_id input.goal_id locked draft s start
  pub content : Text × Option Text × Bool
  pub compared : Goal.review_content_changed locked rows.version draft ≡ ok content
  pub ruled :
      ContinueRuled tx input hash ids now locked draft rows.generation_ids rows.usages rows.version
        content.2 start r s'

-- The review draft of a goal in review is locked, both at the expected revision.
pub record Continued {S : Type 0} (tx : ReviewTx S) (input : ContinueReviewInput) (hash : String)
    (ids : Ids) (now : Time) (locked : Goal) (s : S) (r : ContinueReviewResult) (s' : S)
    : Type 0 where
  pub draft : Draft
  pub after_draft : S
  pub in_review : is_goal_review locked.status ≡ true
  pub goal_revision : locked.revision ≡ input.expected_goal_revision
  pub draft_locked : tx.lock_review_draft input.user_id input.goal_id s ≡ (ok draft, after_draft)
  pub draft_own : validate_locked_review_draft draft input.user_id input.goal_id ≡ ok tt
  pub draft_revision : draft.revision ≡ input.expected_draft_revision
  pub continued : DraftContinued tx input hash ids now locked draft after_draft r s'

module _ {S : Type 0} (tx : ReviewTx S) (input : ContinueReviewInput) (hash : String) (ids : Ids)
    (now : Time) (locked : Goal) where
  run-continue_current :
      (draft : Draft) (generation_ids : List String) (usages : List DraftUsageState)
      (version : Version) (changed : Bool) (s : S) {r : ContinueReviewResult} {s' : S}
      → continue_current tx input hash ids now locked draft generation_ids usages version changed s
        ≡ (ok r, s')
      → ContinueRuled tx input hash ids now locked draft generation_ids usages version changed s r
          s'
  unfolding continue_current
  run-continue_current draft generation_ids usages version changed s h =
      let (new, made, h) = run-result (new_ids changed version.id ids) _ s h in
      let (continued, rule, h) =
        run-rule of_goal
          (Goal.continue_review locked version draft new.0 new.1 input.operation_id hash
            (truncate_microsecond now))
          _ s h in
      record {
        version_id = new.0;
        cycle_id = new.1;
        continued = continued;
        made = made;
        by_rule = rule;
        written =
            run-write_continued tx input hash draft generation_ids (review_usage_ids usages)
              continued new.1 s h;
      }

  run-continue_draft :
      (draft : Draft) (s : S) {r : ContinueReviewResult} {s' : S}
      → continue_draft tx input hash ids now locked draft s ≡ (ok r, s')
      → DraftContinued tx input hash ids now locked draft s r s'
  unfolding continue_draft
  run-continue_draft draft s h =
      let (generations, s2, p2, h) =
        run-bind (tx.lock_draft_generations input.user_id draft.id) _ s h in
      let (checked, valid, h) = run-result (validate_review_generations generations) _ s2 h in
      let (idle, h) = run-guard checked.1 ai_in_progress _ s2 h in
      let (usages, s3, p3, h) = run-bind (tx.lock_draft_usages input.user_id checked.0) _ s2 h in
      let (u2, usages_valid, h) = run-result (validate_review_usages checked.0 usages) _ s3 h in
      let (version, s4, p4, h) =
        run-bind
          (or_error
            (tx.load_current_goal_version input.user_id input.goal_id locked.current_version_number)
            version_error)
          _ s3 h in
      let (u3, current, h) =
        run-rule (λ _. goal_version_conflict)
          (validate_review_current_version version locked input.user_id input.goal_id draft) _ s4
          h in
      let (content, compared, h) =
        run-rule changed_error (Goal.review_content_changed locked version draft) _ s4 h in
      record {
        start = s4;
        rows = record {
          generations = generations;
          generation_ids = checked.0;
          usages = usages;
          version = version;
          after_generations = s2;
          after_usages = s3;
          generations_locked = p2;
          none_runs = valid ∙ (λ i. ok (checked.0, idle i));
          usages_locked = p3;
          usages_valid = usages_valid;
          loaded =
              run-or_error
                (tx.load_current_goal_version input.user_id input.goal_id
                  locked.current_version_number)
                _ s3 p4;
          version_current = current;
        };
        content = content;
        compared = compared;
        ruled = run-continue_current draft checked.0 usages version content.2 s4 h;
      }

  pub run-perform_continue :
      (s : S) {r : ContinueReviewResult} {s' : S}
      → perform_continue tx input hash ids now locked s ≡ (ok r, s')
      → Continued tx input hash ids now locked s r s'
  unfolding perform_continue
  run-perform_continue s h =
      let (reviewing, h) =
        run-guard (not (is_goal_review locked.status)) goal_review_not_active _ s h in
      let (draft, s1, p1, h) =
        run-bind
          (or_error (tx.lock_review_draft input.user_id input.goal_id)
            (missing_draft_error "Review Draft is missing while Goal is in review"))
          _ s h in
      let (u, own, h) =
        run-result (validate_locked_review_draft draft input.user_id input.goal_id) _ s1 h in
      let (rev, h) =
        run-guard (not (int_eq locked.revision input.expected_goal_revision)) goal_revision_conflict
          _ s1 h in
      let (draft_rev, h) =
        run-guard (not (int_eq draft.revision input.expected_draft_revision))
          review_revision_conflict _ s1 h in
      record {
        draft = draft;
        after_draft = s1;
        in_review = ground arith;
        goal_revision = ground (arith, int_eq_iff locked.revision input.expected_goal_revision);
        draft_locked = run-or_error (tx.lock_review_draft input.user_id input.goal_id) _ s p1;
        draft_own = own;
        draft_revision = ground (arith, int_eq_iff draft.revision input.expected_draft_revision);
        continued = run-continue_draft draft s1 h;
      }
