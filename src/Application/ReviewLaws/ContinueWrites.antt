-- ===== src/Application/ReviewLaws/ContinueWrites.antt =====
-- The writes of a `ContinueReview` that reports success.
use cycle.Base.{
  ◌≡◌, inl, inr, ap, sym, ℕ, Bool, true, false, none, some, Option, List, length, String, ok, ◌∙◌,
  ◌==◌, Result,
}
use cycle.Domain.Goal.{ContinueResult, Draft, Version}
use cycle.Application.Errors.{AppError, review_invariant}
use cycle.Application.ReviewTx.{
  ReviewTx, ContinueReviewInput, ContinueReviewResult, ContinueReviewReceipt,
}
use cycle.Application.Tx.{or_error}
use cycle.Application.ReviewChecks.{
  validate_continue_review_receipt, validate_fresh_continue_review_result, materialization_error,
}
use cycle.Application.ReviewCommands.{
  read_continued, after_claim, insert_version, write_continued, classify_lost_continue_review_claim,
  classify_continue_receipt, review_cycle_of,
}
use cycle.Application.TxLaws.{
  run-bind, run-then, run-write, run-rows, run-result, run-if, run-require_rows, run-or_error,
  run-pure, absurd_of,
}

-- A new version is inserted as one row; a version that is kept is not written.
unfoldable pub VersionWritten : {S : Type 0} → ReviewTx S → Bool → Version → S → S → Type 0
VersionWritten tx true version s t = tx.insert_goal_version version s ≡ (ok 1, t)
VersionWritten tx false version s t = s ≡ t

-- The writes in their order, each of exactly the rows that it is about.
pub record ContinueWritten {S : Type 0} (tx : ReviewTx S) (input : ContinueReviewInput)
    (draft : Draft) (generation_ids usage_ids : List String) (continued : ContinueResult)
    (id : String) (s : S) (r : ContinueReviewResult) (s' : S) : Type 0 where
  pub after_version : S
  pub after_cycle : S
  pub after_goal : S
  pub after_generations : S
  pub after_usages : S
  pub after_draft : S
  pub after_view : S
  pub version_written :
      VersionWritten tx continued.version_created continued.version s after_version
  pub cycle_written :
      tx.try_insert_review_cycle_claim continued.next after_version ≡ (ok 1, after_cycle)
  pub goal_written :
      tx.continue_goal_cas continued.goal input.expected_goal_revision after_cycle
      ≡ (ok 1, after_goal)
  pub generations_attached :
      tx.attach_draft_generations input.user_id draft.id generation_ids input.goal_id
        continued.version.id after_goal
      ≡ (ok (length generation_ids), after_generations)
  pub usages_attached :
      tx.attach_usage_to_goal input.user_id usage_ids input.goal_id after_generations
      ≡ (ok (length usage_ids), after_usages)
  pub draft_deleted :
      tx.delete_review_draft_cas input.user_id draft.id input.expected_draft_revision after_usages
      ≡ (ok 1, after_draft)
  pub goal_read :
      tx.load_goal_view input.user_id input.goal_id after_draft ≡ (ok r.goal, after_view)
  pub cycle_read : tx.load_cycle_view input.user_id input.goal_id id after_view ≡ (ok r.next, s')
  pub reported : (r.version_created ≡ continued.version_created) × (r.replayed ≡ false)

module _ {S : Type 0} (tx : ReviewTx S) where
  classify-not_ok :
      (receipt : Option ContinueReviewReceipt) (s : S) {r : ContinueReviewResult} {s' : S}
      {X : Type 0}
      → classify_continue_receipt tx receipt s ≡ (ok r, s')
      → X
  unfolding classify_continue_receipt
  classify-not_ok none s h =
      absurd_of (ap (λ (x : Result AppError ContinueReviewResult × S). x.0) h)
  classify-not_ok (some receipt) s h =
      absurd_of (ap (λ (x : Result AppError ContinueReviewResult × S). x.0) h)

  lost-not_ok :
      (input : ContinueReviewInput) (hash : String) (s : S) {r : ContinueReviewResult} {s' : S}
      {X : Type 0}
      → classify_lost_continue_review_claim tx input hash s ≡ (ok r, s')
      → X
  unfolding classify_lost_continue_review_claim
  lost-not_ok input hash s h =
      let (receipt, s1, p, h) =
        run-bind (tx.find_continue_review_receipt input.user_id input.operation_id) _ s h in
      let (u, valid, h) = run-result (validate_continue_review_receipt receipt input hash) _ s1 h in
      classify-not_ok receipt s1 h

  run-insert_version :
      (created : Bool) (version : Version) (s : S) {u : Unit {0}} {s' : S}
      → insert_version tx created version s ≡ (ok u, s')
      → VersionWritten tx created version s s'
  unfolding insert_version VersionWritten
  run-insert_version true version s h =
      let (rows, t, p, h) = run-bind (tx.insert_goal_version version) _ s h in
      let (one, same) =
        run-require_rows review_invariant "insert continued Goal Version" rows 1 t h in
      cc
  run-insert_version false version s h = ap (λ (x : Result AppError (Unit {0}) × S). x.1) h

  run-read_continued :
      (input : ContinueReviewInput) (draft : Draft) (continued : ContinueResult) (id : String)
      (s : S) {r : ContinueReviewResult} {s' : S}
      → read_continued tx input draft continued id s ≡ (ok r, s')
      → (t : S) × (tx.load_goal_view input.user_id input.goal_id s ≡ (ok r.goal, t))
        × (tx.load_cycle_view input.user_id input.goal_id id t ≡ (ok r.next, s'))
        × (r.version_created ≡ continued.version_created)
        × (r.replayed ≡ false)
  unfolding read_continued
  run-read_continued input draft continued id s h =
      let (goal, t, p, h) =
        run-bind
          (or_error (tx.load_goal_view input.user_id input.goal_id)
            (materialization_error "continued Goal disappeared after its parent lock"))
          _ s h in
      let (next, u, q, h) =
        run-bind
          (or_error (tx.load_cycle_view input.user_id input.goal_id id)
            (materialization_error "continued Cycle disappeared after its parent lock"))
          _ t h in
      let result : ContinueReviewResult = record {
        goal = goal;
        version_created = continued.version_created;
        next = next;
        replayed = false;
      } in
      let (v, valid, h) =
        run-result
          (validate_fresh_continue_review_result result continued input.expected_goal_revision
            (review_cycle_of draft.review_cycle_id))
          _ u h in
      let (e, same) = run-pure result u h in
      (
        t,
        run-or_error (tx.load_goal_view input.user_id input.goal_id) _ s p
            ∙ ap (λ (x : ContinueReviewResult). (ok x.goal, t)) e,
        run-or_error (tx.load_cycle_view input.user_id input.goal_id id) _ t q
            ∙ (λ i. (ok (e i).next, same i)),
        sym (ap (λ (x : ContinueReviewResult). x.version_created) e),
        sym (ap (λ (x : ContinueReviewResult). x.replayed) e),
      )

  pub run-write_continued :
      (input : ContinueReviewInput) (hash : String) (draft : Draft)
      (generation_ids usage_ids : List String) (continued : ContinueResult) (id : String) (s : S)
      {r : ContinueReviewResult} {s' : S}
      → write_continued tx input hash draft generation_ids usage_ids continued id s ≡ (ok r, s')
      → ContinueWritten tx input draft generation_ids usage_ids continued id s r s'
  unfolding write_continued after_claim
  run-write_continued input hash draft generation_ids usage_ids continued id s h =
      let (u, s1, p1, h) =
        run-then (insert_version tx continued.version_created continued.version) _ s h in
      let (rows, s2, p2, h) = run-bind (tx.try_insert_review_cycle_claim continued.next) _ s1 h in
      elim (run-if (rows == 0) _ _ s2 h) [
        | inl (lost, h) ↦ lost-not_ok input hash s2 h
        | inr (won, h) ↦
            let (one, h) =
              run-rows review_invariant "claim continued Cycle operation" rows 1 _ s2 h in
            let (s3, p3, h) =
              run-write review_invariant "continue reviewed Goal"
                (tx.continue_goal_cas continued.goal input.expected_goal_revision) 1 _ s2 h in
            let (s4, p4, h) =
              run-write review_invariant "attach Review generations"
                (tx.attach_draft_generations input.user_id draft.id generation_ids input.goal_id
                  continued.version.id)
                (length generation_ids) _ s3 h in
            let (s5, p5, h) =
              run-write review_invariant "attach Review usage"
                (tx.attach_usage_to_goal input.user_id usage_ids input.goal_id) (length usage_ids) _
                s4 h in
            let (s6, p6, h) =
              run-write review_invariant "delete continued Review Draft"
                (tx.delete_review_draft_cas input.user_id draft.id input.expected_draft_revision) 1
                _ s5 h in
            let (s7, p7, p8, created, fresh) = run-read_continued input draft continued id s6 h in
            record {
              after_version = s1;
              after_cycle = s2;
              after_goal = s3;
              after_generations = s4;
              after_usages = s5;
              after_draft = s6;
              version_written = run-insert_version continued.version_created continued.version s p1;
              cycle_written = p2 ∙ ap (λ (n : ℕ). (ok n, s2)) one;
              goal_written = p3;
              generations_attached = p4;
              usages_attached = p5;
              draft_deleted = p6;
              after_view = s7;
              goal_read = p7;
              cycle_read = p8;
              reported = (created, fresh);
            }
      ]
