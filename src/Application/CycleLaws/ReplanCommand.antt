-- ===== src/Application/CycleLaws/ReplanCommand.antt =====
-- `ReplanCycle` as a whole: its receipt decides whether it is performed or replayed.
use cycle.Base.{
  ◌≡◌, refl, ap, Bool, true, false, Option, none, some, String, Result, ok, arith, not, ◌||◌,
  str_eq, eq_iff, if◌then◌else◌,
}
use cycle.Domain.Cycle.{Time}
use cycle.Domain.Goal.{Goal}
use cycle.Application.Errors.{AppError, cycle_invariant, replan_confirmation}
use cycle.Application.Views.{ReplanCycleInput, ReplanCycleResult}
use cycle.Application.CycleTx.{CycleTx, ReplanCycleReceipt}
use cycle.Application.CycleResults.{validate_replan_cycle_receipt}
use cycle.Application.CycleCommands.{
  HashedReplan, replan_cycle, replan_in, replan_cycle_request, build_replan_cycle_replay,
  replan_dispatch,
}
use cycle.Application.TxLaws.{run-bind, run-then, run-result, run-within, run-guard, absurd_of}
use cycle.Application.CycleLaws.Replanning.{Replanned, run-perform_replan}
use cycle.Application.Tx.{Tx, within, raise}

-- The receipt is that of this request and of a replan, and the result is read back.
unfoldable pub ReplaysReplan :
    {S : Type 0}
    → CycleTx S
    → ReplanCycleInput
    → String
    → ReplanCycleReceipt
    → S
    → ReplanCycleResult
    → S
    → Type 0
ReplaysReplan tx input hash receipt s r s' =
    (receipt.goal_id ≡ input.goal_id)
    × (receipt.replanned_cycle_id ≡ input.cycle_id)
    × (receipt.request_hash ≡ hash)
    × (build_replan_cycle_replay tx input receipt s ≡ (ok r, s'))

-- Without a receipt the command was performed, with one it was replayed.
unfoldable pub ReplanOutcome :
    {S : Type 0}
    → CycleTx S
    → String
    → ReplanCycleInput
    → Time
    → Option ReplanCycleReceipt
    → Goal
    → S
    → ReplanCycleResult
    → S
    → Type 0
ReplanOutcome tx hash input now none locked s r s' = Replanned tx input hash now locked s r s'
ReplanOutcome tx hash input now (some receipt) locked s r s' =
    ReplaysReplan tx input hash receipt s r s'

-- The command read its receipt under the user's lock and before it locked the goal.
pub record RanReplan {S : Type 0} (tx : CycleTx S) (hash : HashedReplan → String)
    (input : ReplanCycleInput) (now : Time) (s : S) (r : ReplanCycleResult) (s' : S) : Type 0 where
  pub receipt : Option ReplanCycleReceipt
  pub locked : Goal
  pub before : S
  pub found : S
  pub start : S
  pub confirmed : input.confirmed ≡ true
  pub user_locked : tx.lock_user input.user_id s ≡ (ok tt, before)
  pub receipt_found :
      tx.find_replan_cycle_receipt input.user_id input.operation_id before ≡ (ok receipt, found)
  pub goal_locked : tx.lock_goal input.user_id input.goal_id found ≡ (ok locked, start)
  pub own : (locked.user_id ≡ input.user_id) × (locked.id ≡ input.goal_id)
  pub outcome :
      ReplanOutcome tx (hash (replan_cycle_request input)) input now receipt locked start r s'
  pub committed : tx.pool.commit_error s' ≡ none

receipt-matches :
    (q : ReplanCycleReceipt) (input : ReplanCycleInput) (h : String)
    → validate_replan_cycle_receipt (some q) input h ≡ ok tt
    → (q.goal_id ≡ input.goal_id) × (q.replanned_cycle_id ≡ input.cycle_id) × (q.request_hash ≡ h)
unfolding validate_replan_cycle_receipt
receipt-matches q input h p = ground (
  arith,
  eq_iff q.goal_id input.goal_id,
  eq_iff q.replanned_cycle_id input.cycle_id,
  eq_iff q.request_hash h,
)

module _ {S : Type 0} (tx : CycleTx S) (hash : HashedReplan → String) where
  ran_with :
      (receipt : Option ReplanCycleReceipt) (input : ReplanCycleInput)
      (new_id : Result AppError String) (now : Time) (locked : Goal) (s : S) {r : ReplanCycleResult}
      {s' : S}
      → validate_replan_cycle_receipt receipt input (hash (replan_cycle_request input)) ≡ ok tt
      → replan_dispatch tx receipt input (hash (replan_cycle_request input)) new_id now locked s
        ≡ (ok r, s')
      → ReplanOutcome tx (hash (replan_cycle_request input)) input now receipt locked s r s'
  unfolding replan_dispatch ReplaysReplan ReplanOutcome
  ran_with none input new_id now locked s v h =
      run-perform_replan tx input (hash (replan_cycle_request input)) new_id now locked s h
  ran_with (some q) input new_id now locked s v h =
      let (a, b, c) = receipt-matches q input (hash (replan_cycle_request input)) v in (a, b, c, h)

  run-confirmed :
      (b : Bool) (m : Tx S ReplanCycleResult) (s : S) {r : ReplanCycleResult} {s' : S}
      → (if not b then raise replan_confirmation else m) s ≡ (ok r, s')
      → (b ≡ true) × (m s ≡ (ok r, s'))
  run-confirmed true m s h = (refl, h)
  run-confirmed false m s h = absurd_of (ap (λ (x : Result AppError ReplanCycleResult × S). x.0) h)

  -- A `ReplanCycle` that reports success was confirmed; it has found no receipt under the user's
  -- lock and was performed, or has found the receipt of this very request and replayed it; its
  -- commit succeeded.
  pub replan_cycle-RanReplan :
      (input : ReplanCycleInput) (new_id : Result AppError String) (now : Time) (s : S)
      {r : ReplanCycleResult} {s' : S}
      → replan_cycle tx hash input new_id now s ≡ (ok r, s')
      → RanReplan tx hash input now s r s'
  unfolding replan_cycle replan_in
  replan_cycle-RanReplan input new_id now s h =
      let (confirmed, h) =
        run-confirmed input.confirmed (within tx.pool (replan_in tx hash input new_id now)) s h in
      let (h, c) = run-within tx.pool (replan_in tx hash input new_id now) s h in
      let (u2, s2, p2, h) = run-then (tx.lock_user input.user_id) _ s h in
      let (receipt, s3, p3, h) =
        run-bind (tx.find_replan_cycle_receipt input.user_id input.operation_id) _ s2 h in
      let (u4, valid, h) =
        run-result (validate_replan_cycle_receipt receipt input (hash (replan_cycle_request input)))
          _ s3 h in
      let (locked, s4, p4, h) = run-bind (tx.lock_goal input.user_id input.goal_id) _ s3 h in
      let (own, h) =
        run-guard
          (not (str_eq locked.user_id input.user_id) || not (str_eq locked.id input.goal_id))
          (cycle_invariant "locked Goal target does not match Replan Cycle") _ s4 h in
      let outcome = ran_with receipt input new_id now locked s4 valid h in
      record {
        receipt = receipt;
        locked = locked;
        before = s2;
        found = s3;
        start = s4;
        confirmed = confirmed;
        user_locked = p2;
        receipt_found = p3;
        goal_locked = p4;
        own = ground (arith, eq_iff locked.user_id input.user_id, eq_iff locked.id input.goal_id);
        outcome = outcome;
        committed = c;
      }
