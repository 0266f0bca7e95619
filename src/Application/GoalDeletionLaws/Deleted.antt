-- ===== src/Application/GoalDeletionLaws/Deleted.antt =====
-- `DeleteGoalWithResult` as a whole: a receipt replays, or the goal is deleted with all that is its.
use cycle.Base.{
  ℤ, ◌≡◌, sym, ap, inl, inr, false, not, ◌||◌, Option, none, some, String, Result, ok, arith,
  eq_iff, int_eq, int_eq_iff, str_eq, ltb,
}
use cycle.Domain.Cycle.{Time}
use cycle.Application.Errors.{
  AppError, delete_conflict, idempotency_key_reused, delete_confirmation,
}
use cycle.Application.Tx.{raise, within, committed}
use cycle.Application.GoalTx.{GoalTx, GoalDeleteReceipt, GoalDeleteResult}
use cycle.Application.GoalDeletion.{
  DeleteGoalInput, HashedDeletion, delete_request, generation_ids_of, partition_goal_delete_usages,
  require_goal_id_order, require_goal_generation_order, require_goal_monthly_reservation_order,
  release_months, terminalize_generations, redact_usages, delete_usages, delete_with_usages,
  delete_with_generations, delete_fresh, delete_dispatch, delete_in, delete_goal_with_result,
}
use cycle.Application.TxLaws.{
  run-bind, run-then, run-guard, run-result, run-within, run-if, run-pure, absurd_of,
}
use cycle.Application.GoalDeletionLaws.Order.{
  require_goal_id_order-IsAscending, require_goal_generation_order-IsAscending,
  require_goal_monthly_reservation_order-MonthsAscend,
}
use cycle.Application.GoalDeletionLaws.Usages.{partition_goal_delete_usages-IsSplit}
use cycle.Application.GoalDeletionLaws.Written.{
  run-release_months, run-terminalize_generations, run-redact_usages, run-delete_usages,
  run-delete_row,
}
use cycle.Application.GoalDeletionLaws.Outcome.{
  UsagesDeleted, GenerationsEnded, GoalDeleted, DeletionOutcome, RanDeletion,
}

module _ {S : Type 0} (tx : GoalTx S) (input : DeleteGoalInput) (hash : String) (now : Time) where
  run-delete_with_usages :
      (result : GoalDeleteResult) (s : S) {r : GoalDeleteResult} {s' : S}
      → delete_with_usages tx input hash now result s ≡ (ok r, s')
      → UsagesDeleted tx input hash now s s' × (result ≡ r)
  unfolding delete_with_usages
  run-delete_with_usages result s h =
      let (usages, t, locked, h) =
        run-bind (tx.lock_goal_usages input.user_id input.goal_id) _ s h in
      let (parts, split, h) = run-result (partition_goal_delete_usages usages now) _ t h in
      let (a, u, redacted, h) = run-then (redact_usages tx input parts.0) _ t h in
      let (b, v, dropped, h) = run-then (delete_usages tx input now parts.1) _ u h in
      let (row, same) = run-delete_row tx input hash now result v h in
      (
        record {
          usages = usages;
          parts = parts;
          after_usages = t;
          after_redaction = u;
          after_deletion = v;
          usages_locked = locked;
          split = partition_goal_delete_usages-IsSplit usages now split;
          redacted = run-redact_usages tx input parts.0 t redacted;
          dropped = run-delete_usages tx input now parts.1 u dropped;
          row = row;
        },
        same,
      )

  module _ (sign_of : String → Option ℤ) where
    run-delete_with_generations :
        (result : GoalDeleteResult) (s : S) {r : GoalDeleteResult} {s' : S}
        → delete_with_generations tx sign_of input hash now result s ≡ (ok r, s')
        → GenerationsEnded tx input hash now s s' × (result ≡ r)
    unfolding delete_with_generations
    run-delete_with_generations result s h =
        let (generations, t, locked, h) =
          run-bind (tx.lock_running_goal_generations input.user_id input.goal_id) _ s h in
        let (a, ordered, h) = run-result (require_goal_generation_order generations) _ t h in
        let (monthly, u, summed, h) =
          run-bind
            (tx.sum_locked_goal_reservations_by_month input.user_id input.goal_id
              (generation_ids_of generations))
            _ t h in
        let (b, months, h) =
          run-result (require_goal_monthly_reservation_order sign_of monthly) _ u h in
        let (c, v, released, h) = run-then (release_months tx now monthly) _ u h in
        let (d, w, ended, h) = run-then (terminalize_generations tx input now generations) _ v h in
        let (finished, same) = run-delete_with_usages result w h in
        (
          record {
            generations = generations;
            monthly = monthly;
            after_lock = t;
            after_sum = u;
            after_release = v;
            after_end = w;
            generations_locked = locked;
            ascending = require_goal_generation_order-IsAscending generations ordered;
            summed = summed;
            months_ascend =
                require_goal_monthly_reservation_order-MonthsAscend sign_of monthly months;
            released = run-release_months tx now monthly u released;
            terminalized = run-terminalize_generations tx input now generations v ended;
            finished = finished;
          },
          same,
        )

    run-delete_fresh :
        (s : S) {r : GoalDeleteResult} {s' : S}
        → delete_fresh tx sign_of input hash now s ≡ (ok r, s')
        → GoalDeleted tx input hash now s r s'
    unfolding delete_fresh
    run-delete_fresh s h =
        let (target, t, locked, h) =
          run-bind (tx.lock_goal_for_delete input.user_id input.goal_id) _ s h in
        let (revision, h) =
          run-guard (not (int_eq target.revision input.expected_revision)) delete_conflict _ t h in
        let (drafts, u, drafts_locked, h) =
          run-bind (tx.lock_goal_draft_ids input.user_id input.goal_id) _ t h in
        let (a, drafts_ordered, h) =
          run-result
            (require_goal_id_order "Goal Draft rows are not locked in UUID order"
              "Goal Draft lock returned a duplicate row" drafts)
            _ u h in
        let (cycles, v, cycles_locked, h) =
          run-bind (tx.lock_goal_cycle_ids input.user_id input.goal_id) _ u h in
        let (b, cycles_ordered, h) =
          run-result
            (require_goal_id_order "Cycle rows are not locked in UUID order"
              "Cycle lock returned a duplicate row" cycles)
            _ v h in
        let result : GoalDeleteResult = record {
          source_state = some target.status;
          replayed = false;
        } in
        let (ended, same) = run-delete_with_generations result v h in
        record {
          target = target;
          draft_ids = drafts;
          cycle_ids = cycles;
          after_goal = t;
          after_drafts = u;
          after_cycles = v;
          goal_locked = locked;
          revision = ground (arith, revision, int_eq_iff target.revision input.expected_revision);
          drafts_locked = drafts_locked;
          drafts_ascend = require_goal_id_order-IsAscending _ _ drafts drafts_ordered;
          cycles_locked = cycles_locked;
          cycles_ascend = require_goal_id_order-IsAscending _ _ cycles cycles_ordered;
          ended = ended;
          reported = sym same;
        }

    run-delete_dispatch :
        (receipt : Option GoalDeleteReceipt) (s : S) {r : GoalDeleteResult} {s' : S}
        → delete_dispatch tx sign_of receipt input hash now s ≡ (ok r, s')
        → DeletionOutcome tx input hash now receipt s r s'
    unfolding delete_dispatch DeletionOutcome
    run-delete_dispatch none s h = run-delete_fresh s h
    run-delete_dispatch (some receipt) s h =
        let (own, h) =
          run-guard
            (not (str_eq receipt.goal_id input.goal_id) || not (str_eq receipt.request_hash hash))
            idempotency_key_reused _ s h in
        (
          (
            ground (arith, own, eq_iff receipt.goal_id input.goal_id),
            ground (arith, own, eq_iff receipt.request_hash hash),
          ),
          elim (run-if (ltb now receipt.expires_at) _ (delete_fresh tx sign_of input hash now) s
              h) [
                | inl (live, h) ↦
                    let (e, same) = run-pure _ s h in
                    inl (
                      ground (arith, live),
                      sym (ap (λ (x : GoalDeleteResult). x.replayed) e),
                      same,
                    )
                | inr (past, h) ↦ inr (ground (arith, past), run-delete_fresh s h)
              ],
        )

module _ {S : Type 0} (tx : GoalTx S) (sign_of : String → Option ℤ)
    (hash : HashedDeletion → String) where
  -- A deletion that succeeded was confirmed and committed, with the user locked first. A receipt
  -- that it found is this request's: until it expires the deletion is a replay and writes nothing.
  -- Without one, or after it expired, the goal is at the expected revision; the goal, its drafts, its
  -- cycles and its running generations are locked in this order, each row once and in the order of
  -- the identifiers; the reservations are released month by month, the generations end, the usages
  -- are redacted or deleted by their retention, then the goal is deleted and a receipt for 24 hours
  -- is kept; each of these writes affects exactly the rows that it should.
  pub delete_goal_with_result-RanDeletion :
      (input : DeleteGoalInput) (now : Time) (s : S) {r : GoalDeleteResult} {s' : S}
      → delete_goal_with_result tx sign_of hash input now s ≡ (ok r, s')
      → RanDeletion tx hash input now s r s'
  unfolding delete_goal_with_result delete_in
  delete_goal_with_result-RanDeletion input now s h =
      let key = hash (delete_request input) in
      elim (run-if (not input.confirmed) (raise delete_confirmation)
        (within tx.pool (delete_in tx sign_of input key now)) s h) [
          | inl (refused, h) ↦ absurd_of (ap (λ (x : Result AppError GoalDeleteResult × S). x.0) h)
          | inr (confirmed, h) ↦
              let (h, committed) = run-within tx.pool (delete_in tx sign_of input key now) s h in
              let (a, t, locked, h) = run-then (tx.lock_user input.user_id) _ s h in
              let (receipt, u, found, h) =
                run-bind (tx.find_goal_delete_receipt input.user_id input.idempotency_key) _ t h in
              record {
                receipt = receipt;
                after_user = t;
                after_receipt = u;
                confirmed = ground (arith, confirmed);
                user_locked = locked;
                receipt_found = found;
                outcome = run-delete_dispatch tx input key now sign_of receipt u h;
                committed = committed;
              }
        ]
