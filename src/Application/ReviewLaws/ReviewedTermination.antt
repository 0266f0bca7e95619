-- ===== src/Application/ReviewLaws/ReviewedTermination.antt =====
-- What the termination of a goal in review has done to the database.
use cycle.Base.{
  ◌≡◌, ap, sym, Bool, false, none, some, List, length, String, ok, arith, ◌∙◌, not, ◌&&◌, int_eq,
  int_eq_iff,
}
use cycle.Domain.Cycle.{Time}
use cycle.Domain.Goal
use cycle.Domain.Goal.{Goal, Draft, Version}
use cycle.Application.Errors.{
  review_invariant, goal_state_conflict, ai_in_progress, discard_confirmation, of_goal,
}
use cycle.Application.Tx.{or_error, truncate_microsecond}
use cycle.Application.ReviewTx.{ReviewTx, TerminateInput, TerminateResult, DraftUsageState}
use cycle.Application.ReviewChecks.{
  materialization_error, validate_fresh_termination_result, validate_locked_review_draft,
  validate_review_generations, validate_review_usages, validate_review_current_version,
  partition_review_usages,
}
use cycle.Application.ReviewCommands.{
  missing_draft_error, reviewed_version_error, terminate_goal_review, terminate_draft,
  terminate_reviewed, write_reviewed_termination, read_reviewed,
}
use cycle.Application.TxLaws.{
  run-bind, run-guard, run-rule, run-result, run-or_error, run-pure, run-write,
}
use cycle.Application.ReviewLaws.Locked.{ReviewLocked}

-- The writes in their order, each of exactly the rows that it is about, and the goal read back.
pub record ReviewedWritten {S : Type 0} (tx : ReviewTx S) (input : TerminateInput) (draft : Draft)
    (generation_ids : List String) (now : Time) (usage_ids : List String × List String)
    (terminated : Goal) (s : S) (r : TerminateResult) (s' : S) : Type 0 where
  pub after_retained : S
  pub after_expired : S
  pub after_generations : S
  pub after_draft : S
  pub after_goal : S
  pub retained_redacted :
      tx.redact_draft_usages_cas input.user_id usage_ids.0 s
      ≡ (ok (length usage_ids.0), after_retained)
  pub expired_deleted :
      tx.delete_expired_finalized_draft_usages_cas input.user_id usage_ids.1 now after_retained
      ≡ (ok (length usage_ids.1), after_expired)
  pub generations_deleted :
      tx.delete_draft_generations_cas input.user_id draft.id generation_ids after_expired
      ≡ (ok (length generation_ids), after_generations)
  pub draft_deleted :
      tx.delete_review_draft_cas input.user_id draft.id draft.revision after_generations
      ≡ (ok 1, after_draft)
  pub goal_written :
      tx.terminate_goal_cas terminated input.expected_goal_revision after_draft ≡ (ok 1, after_goal)
  pub goal_read : tx.load_goal_view input.user_id input.goal_id after_goal ≡ (ok r.goal, s')
  pub reported : (r.canceled_cycle ≡ none) × (r.replayed ≡ false)

-- What is decided on the locked draft: a draft that differs from its version is discarded only if
-- that was confirmed, and each of its usages is retained or has expired.
pub record ReviewedRuled {S : Type 0} (tx : ReviewTx S) (input : TerminateInput) (hash : String)
    (now : Time) (locked : Goal) (draft : Draft) (generation_ids : List String)
    (usages : List DraftUsageState) (version : Version) (s : S) (r : TerminateResult) (s' : S)
    : Type 0 where
  pub changed : Bool
  pub usage_ids : List String × List String
  pub terminated : Goal
  pub compared : Goal.review_draft_differs_from_version locked version draft ≡ ok changed
  pub confirmed : (changed && not input.confirm_discard_review_draft) ≡ false
  pub partitioned :
      partition_review_usages generation_ids usages (truncate_microsecond now) ≡ ok usage_ids
  pub by_rule :
      Goal.terminate locked input.outcome input.operation_id hash (truncate_microsecond now)
      ≡ ok terminated
  pub written :
      ReviewedWritten tx input draft generation_ids
        (truncate_microsecond now)
        usage_ids
        terminated
        s
        r
        s'

-- What the draft's rows are, and what is decided on them.
pub record DraftTerminated {S : Type 0} (tx : ReviewTx S) (input : TerminateInput) (hash : String)
    (now : Time) (locked : Goal) (draft : Draft) (s : S) (r : TerminateResult) (s' : S)
    : Type 0 where
  pub start : S
  pub rows : ReviewLocked tx input.user_id input.goal_id locked draft s start
  pub ruled :
      ReviewedRuled tx input hash now locked draft rows.generation_ids rows.usages rows.version
        start r s'

-- The review draft is locked, with the goal at the expected revision.
pub record ReviewedTerminated {S : Type 0} (tx : ReviewTx S) (input : TerminateInput)
    (hash : String) (now : Time) (locked : Goal) (s : S) (r : TerminateResult) (s' : S)
    : Type 0 where
  pub draft : Draft
  pub after_draft : S
  pub goal_revision : locked.revision ≡ input.expected_goal_revision
  pub draft_locked : tx.lock_review_draft input.user_id input.goal_id s ≡ (ok draft, after_draft)
  pub draft_own : validate_locked_review_draft draft input.user_id input.goal_id ≡ ok tt
  pub terminated : DraftTerminated tx input hash now locked draft after_draft r s'

module _ {S : Type 0} (tx : ReviewTx S) (input : TerminateInput) where
  run-read_reviewed :
      (version : Version) (terminated : Goal) (s : S) {r : TerminateResult} {s' : S}
      → read_reviewed tx input version terminated s ≡ (ok r, s')
      → (tx.load_goal_view input.user_id input.goal_id s ≡ (ok r.goal, s'))
        × (r.canceled_cycle ≡ none)
        × (r.replayed ≡ false)
  unfolding read_reviewed
  run-read_reviewed version terminated s h =
      let (goal, t, p, h) =
        run-bind
          (or_error (tx.load_goal_view input.user_id input.goal_id)
            (materialization_error "terminal Goal disappeared after its parent lock"))
          _ s h in
      let result : TerminateResult = record {
        goal = goal;
        canceled_cycle = none;
        replayed = false;
      } in
      let (v, valid, h) =
        run-result (validate_fresh_termination_result result input terminated none (some version)) _
          t h in
      let (e, same) = run-pure result t h in
      (
        run-or_error (tx.load_goal_view input.user_id input.goal_id) _ s p
            ∙ (λ i. (ok (e i).goal, same i)),
        sym (ap (λ (x : TerminateResult). x.canceled_cycle) e),
        sym (ap (λ (x : TerminateResult). x.replayed) e),
      )

  run-write_reviewed :
      (draft : Draft) (generation_ids : List String) (version : Version) (now : Time)
      (usage_ids : List String × List String) (terminated : Goal) (s : S) {r : TerminateResult}
      {s' : S}
      → write_reviewed_termination tx input draft generation_ids version now usage_ids terminated s
        ≡ (ok r, s')
      → ReviewedWritten tx input draft generation_ids now usage_ids terminated s r s'
  unfolding write_reviewed_termination
  run-write_reviewed draft generation_ids version now usage_ids terminated s h =
      let (s1, p1, h) =
        run-write review_invariant "redact retained Review usage"
          (tx.redact_draft_usages_cas input.user_id usage_ids.0) (length usage_ids.0) _ s h in
      let (s2, p2, h) =
        run-write review_invariant "delete expired Review usage"
          (tx.delete_expired_finalized_draft_usages_cas input.user_id usage_ids.1 now)
          (length usage_ids.1) _ s1 h in
      let (s3, p3, h) =
        run-write review_invariant "delete Review generations"
          (tx.delete_draft_generations_cas input.user_id draft.id generation_ids)
          (length generation_ids) _ s2 h in
      let (s4, p4, h) =
        run-write review_invariant "delete terminal Review Draft"
          (tx.delete_review_draft_cas input.user_id draft.id draft.revision) 1 _ s3 h in
      let (s5, p5, h) =
        run-write review_invariant "terminate reviewed Goal"
          (tx.terminate_goal_cas terminated input.expected_goal_revision) 1 _ s4 h in
      let (p6, reported, fresh) = run-read_reviewed version terminated s5 h in
      record {
        after_retained = s1;
        after_expired = s2;
        after_generations = s3;
        after_draft = s4;
        after_goal = s5;
        retained_redacted = p1;
        expired_deleted = p2;
        generations_deleted = p3;
        draft_deleted = p4;
        goal_written = p5;
        goal_read = p6;
        reported = (reported, fresh);
      }

module _ {S : Type 0} (tx : ReviewTx S) (input : TerminateInput) (hash : String) (now : Time)
    (locked : Goal) where
  run-terminate_reviewed :
      (changed : Bool) (draft : Draft) (generation_ids : List String)
      (usages : List DraftUsageState) (version : Version) (s : S) {r : TerminateResult} {s' : S}
      → Goal.review_draft_differs_from_version locked version draft ≡ ok changed
      → (changed && not input.confirm_discard_review_draft) ≡ false
      → terminate_reviewed tx input hash now locked draft generation_ids usages version s
        ≡ (ok r, s')
      → ReviewedRuled tx input hash now locked draft generation_ids usages version s r s'
  unfolding terminate_reviewed
  run-terminate_reviewed changed draft generation_ids usages version s compared confirmed h =
      let (usage_ids, partitioned, h) =
        run-result (partition_review_usages generation_ids usages (truncate_microsecond now)) _ s
          h in
      let (terminated, rule, h) =
        run-rule of_goal
          (Goal.terminate locked input.outcome input.operation_id hash (truncate_microsecond now)) _
          s h in
      record {
        changed = changed;
        usage_ids = usage_ids;
        terminated = terminated;
        compared = compared;
        confirmed = confirmed;
        partitioned = partitioned;
        by_rule = rule;
        written =
            run-write_reviewed tx input draft generation_ids version (truncate_microsecond now)
              usage_ids terminated s h;
      }

  run-terminate_draft :
      (draft : Draft) (s : S) {r : TerminateResult} {s' : S}
      → terminate_draft tx input hash now locked draft s ≡ (ok r, s')
      → DraftTerminated tx input hash now locked draft s r s'
  unfolding terminate_draft
  run-terminate_draft draft s h =
      let (generations, s2, p2, h) =
        run-bind (tx.lock_draft_generations input.user_id draft.id) _ s h in
      let (checked, valid, h) = run-result (validate_review_generations generations) _ s2 h in
      let (idle, h) = run-guard checked.1 ai_in_progress _ s2 h in
      let (usages, s3, p3, h) = run-bind (tx.lock_draft_usages input.user_id checked.0) _ s2 h in
      let (u2, usages_valid, h) = run-result (validate_review_usages checked.0 usages) _ s3 h in
      let (version, s4, p4, h) =
        run-bind
          (or_error
            (tx.load_current_goal_version input.user_id input.goal_id locked.current_version_number)
            reviewed_version_error)
          _ s3 h in
      let (u3, current, h) =
        run-rule (λ _. review_invariant "Review Draft base does not match current Goal Version")
          (validate_review_current_version version locked input.user_id input.goal_id draft) _ s4
          h in
      let (changed, compared, h) =
        run-rule (λ _. review_invariant "Review aggregate is inconsistent during termination")
          (Goal.review_draft_differs_from_version locked version draft) _ s4 h in
      let (confirmed, h) =
        run-guard (changed && not input.confirm_discard_review_draft) discard_confirmation _ s4 h in
      record {
        start = s4;
        rows = record {
          generations = generations;
          generation_ids = checked.0;
          usages = usages;
          version = version;
          after_generations = s2;
          after_usages = s3;
          generations_locked = p2;
          none_runs = valid ∙ (λ i. ok (checked.0, idle i));
          usages_locked = p3;
          usages_valid = usages_valid;
          loaded =
              run-or_error
                (tx.load_current_goal_version input.user_id input.goal_id
                  locked.current_version_number)
                _ s3 p4;
          version_current = current;
        };
        ruled =
            run-terminate_reviewed changed draft checked.0 usages version s4 compared confirmed h;
      }

  pub run-terminate_goal_review :
      (s : S) {r : TerminateResult} {s' : S}
      → terminate_goal_review tx input hash now locked s ≡ (ok r, s')
      → ReviewedTerminated tx input hash now locked s r s'
  unfolding terminate_goal_review
  run-terminate_goal_review s h =
      let (draft, s1, p1, h) =
        run-bind
          (or_error (tx.lock_review_draft input.user_id input.goal_id)
            (missing_draft_error "Review Draft is missing during termination"))
          _ s h in
      let (u, own, h) =
        run-result (validate_locked_review_draft draft input.user_id input.goal_id) _ s1 h in
      let (rev, h) =
        run-guard (not (int_eq locked.revision input.expected_goal_revision)) goal_state_conflict _
          s1 h in
      record {
        draft = draft;
        after_draft = s1;
        goal_revision = ground (arith, int_eq_iff locked.revision input.expected_goal_revision);
        draft_locked = run-or_error (tx.lock_review_draft input.user_id input.goal_id) _ s p1;
        draft_own = own;
        terminated = run-terminate_draft draft s1 h;
      }
