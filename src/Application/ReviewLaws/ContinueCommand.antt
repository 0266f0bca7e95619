-- ===== src/Application/ReviewLaws/ContinueCommand.antt =====
-- `ContinueReview` as a whole: its receipt decides whether it is performed or replayed.
use cycle.Base.{◌≡◌, refl, ◌⊎◌, inl, inr, Option, none, some, String, ok, arith, eq_iff}
use cycle.Domain.Cycle.{Time}
use cycle.Domain.Goal.{Goal}
use cycle.Application.Errors.{review_invariant}
use cycle.Application.ReviewTx.{
  ReviewTx, ContinueReviewInput, ContinueReviewResult, ContinueReviewReceipt,
}
use cycle.Application.ReviewChecks.{validate_continue_review_receipt}
use cycle.Application.ReviewCommands.{
  HashedContinue, Ids, continue_review, continue_in, continue_review_request, continue_dispatch,
  continue_found, build_continue_review_replay, is_other_goal,
}
use cycle.Application.TxLaws.{run-bind, run-result, run-within, run-guard}
use cycle.Application.ReviewLaws.Continuing.{Continued, run-perform_continue}

-- A receipt that a lookup answered: before the goal's lock, in which case `first` is its answer, or
-- under it, from `after`, when there was none before. It is that of this request, and the result is
-- what it names, read back.
pub record ContinueReplayed {S : Type 0} (tx : ReviewTx S) (input : ContinueReviewInput)
    (hash : String) (first : Option ContinueReviewReceipt) (after : S) (r : ContinueReviewResult)
    (s' : S) : Type 0 where
  pub receipt : ContinueReviewReceipt
  pub start : S
  pub answered :
      ((first ≡ some receipt) × (after ≡ start))
      ⊎ ((first ≡ none)
          × (tx.find_continue_review_receipt input.user_id input.operation_id after
              ≡ (ok (some receipt), start)))
  pub same_goal : receipt.goal_id ≡ input.goal_id
  pub same_request : receipt.request_hash ≡ hash
  pub read_back : build_continue_review_replay tx input receipt start ≡ (ok r, s')

-- No receipt was there before the goal's lock nor under it, and the command is performed.
pub record ContinuePerformed {S : Type 0} (tx : ReviewTx S) (input : ContinueReviewInput)
    (hash : String) (first : Option ContinueReviewReceipt) (ids : Ids) (now : Time) (locked : Goal)
    (after : S) (r : ContinueReviewResult) (s' : S) : Type 0 where
  pub start : S
  pub none_before : first ≡ none
  pub no_receipt :
      tx.find_continue_review_receipt input.user_id input.operation_id after ≡ (ok none, start)
  pub performed : Continued tx input hash ids now locked start r s'

-- The command as a whole, its goal locked.
pub record RanContinue {S : Type 0} (tx : ReviewTx S) (hash : HashedContinue → String)
    (input : ContinueReviewInput) (ids : Ids) (now : Time) (s : S) (r : ContinueReviewResult)
    (s' : S) : Type 0 where
  pub locked : Goal
  pub found : S
  pub after_goal : S
  pub first : Option ContinueReviewReceipt
  pub looked :
      tx.find_continue_review_receipt input.user_id input.operation_id s ≡ (ok first, found)
  pub goal_locked : tx.lock_goal input.user_id input.goal_id found ≡ (ok locked, after_goal)
  pub own : (locked.user_id ≡ input.user_id) × (locked.id ≡ input.goal_id)
  pub outcome :
      ContinueReplayed tx input (hash (continue_review_request input)) first after_goal r s'
      ⊎ ContinuePerformed tx input
          (hash (continue_review_request input))
          first
          ids
          now
          locked
          after_goal
          r
          s'
  pub committed : tx.pool.commit_error s' ≡ none

module _ {S : Type 0} (tx : ReviewTx S) where
  receipt_replayed :
      (q : ContinueReviewReceipt) (input : ContinueReviewInput) (h : String)
      (first : Option ContinueReviewReceipt) (after s : S) {r : ContinueReviewResult} {s' : S}
      → ((first ≡ some q) × (after ≡ s))
        ⊎ ((first ≡ none)
            × (tx.find_continue_review_receipt input.user_id input.operation_id after
                ≡ (ok (some q), s)))
      → validate_continue_review_receipt (some q) input h ≡ ok tt
      → build_continue_review_replay tx input q s ≡ (ok r, s')
      → ContinueReplayed tx input h first after r s'
  unfolding validate_continue_review_receipt
  receipt_replayed q input h first after s answered v p = record {
    receipt = q;
    start = s;
    answered = answered;
    same_goal = ground (arith, eq_iff q.goal_id input.goal_id, eq_iff q.request_hash h);
    same_request = ground (arith, eq_iff q.goal_id input.goal_id, eq_iff q.request_hash h);
    read_back = p;
  }

  found_with :
      (receipt : Option ContinueReviewReceipt) (input : ContinueReviewInput) (h : String)
      (ids : Ids) (now : Time) (locked : Goal) (before start : S) {r : ContinueReviewResult}
      {s' : S}
      → tx.find_continue_review_receipt input.user_id input.operation_id before
        ≡ (ok receipt, start)
      → validate_continue_review_receipt receipt input h ≡ ok tt
      → continue_found tx receipt input h ids now locked start ≡ (ok r, s')
      → ContinueReplayed tx input h none before r s'
        ⊎ ContinuePerformed tx input h none ids now locked before r s'
  unfolding continue_found
  found_with (some q) input h ids now locked before start f v p =
      inl (receipt_replayed q input h none before start (inr (refl, f)) v p)
  found_with none input h ids now locked before start f v p = inr (record {
    start = start;
    none_before = refl;
    no_receipt = f;
    performed = run-perform_continue tx input h ids now locked start p;
  })

  dispatched :
      (receipt : Option ContinueReviewReceipt) (input : ContinueReviewInput) (h : String)
      (ids : Ids) (now : Time) (locked : Goal) (s : S) {r : ContinueReviewResult} {s' : S}
      → validate_continue_review_receipt receipt input h ≡ ok tt
      → continue_dispatch tx receipt input h ids now locked s ≡ (ok r, s')
      → ContinueReplayed tx input h receipt s r s'
        ⊎ ContinuePerformed tx input h receipt ids now locked s r s'
  unfolding continue_dispatch
  dispatched (some q) input h ids now locked s v p =
      inl (receipt_replayed q input h (some q) s s (inl (refl, refl)) v p)
  dispatched none input h ids now locked s v p =
      let (receipt, s1, f, p) =
        run-bind (tx.find_continue_review_receipt input.user_id input.operation_id) _ s p in
      let (u, valid, p) = run-result (validate_continue_review_receipt receipt input h) _ s1 p in
      found_with receipt input h ids now locked s s1 f valid p

  -- A `ContinueReview` that reports success has locked the named goal, and its lookup before that
  -- lock, or else under it, has answered the receipt of this very request, which was replayed, or
  -- neither has found one and it was performed: on the
  -- goal and its review draft at the expected revisions, with no generation running, by the domain's
  -- rule, each write of exactly the rows that it is about; its commit succeeded.
  pub continue_review-RanContinue :
      (hash : HashedContinue → String) (input : ContinueReviewInput) (ids : Ids) (now : Time)
      (s : S) {r : ContinueReviewResult} {s' : S}
      → continue_review tx hash input ids now s ≡ (ok r, s')
      → RanContinue tx hash input ids now s r s'
  unfolding continue_review continue_in
  continue_review-RanContinue hash input ids now s h =
      let (h, c) = run-within tx.pool (continue_in tx hash input ids now) s h in
      let request_hash : String = hash (continue_review_request input) in
      let (receipt, s1, p1, h) =
        run-bind (tx.find_continue_review_receipt input.user_id input.operation_id) _ s h in
      let (u, valid, h) =
        run-result (validate_continue_review_receipt receipt input request_hash) _ s1 h in
      let (locked, s2, p2, h) = run-bind (tx.lock_goal input.user_id input.goal_id) _ s1 h in
      let (own, h) =
        run-guard (is_other_goal locked input.user_id input.goal_id)
          (review_invariant "locked Goal target does not match Continue Review") _ s2 h in
      record {
        locked = locked;
        found = s1;
        first = receipt;
        looked = p1;
        after_goal = s2;
        goal_locked = p2;
        own = ground (arith, eq_iff locked.user_id input.user_id, eq_iff locked.id input.goal_id);
        outcome = dispatched receipt input request_hash ids now locked s2 valid h;
        committed = c;
      }
